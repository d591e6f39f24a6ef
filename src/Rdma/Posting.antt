-- ===== src/Rdma/Posting.antt =====
-- rdma_util.cpp, the posts and polls of RDMAContext, and its way to a queue pair that is ready to send.
use di_store.Base.{
  ℕ, ◌+◌, ◌-◌, ◌%◌, ◌^◌, ◌<◌, ◌≡◌, Bool, true, false, Option, none, some, List, [], ◌∷◌, ◌++◌,
  Bytes, arith, ◌==◌, if◌then◌else◌, length, take, drop,
}
use di_store.Rdma.{Status, ok, post_failed, read_error, write_error, Certificate}

pub data Opcode : Type 0 where
  wr_send wr_rdma_read wr_rdma_write : Opcode

-- `ibv_sge` and `ibv_send_wr`; the remote address and key are left zero for a send.
pub record WorkRequest : Type 0 where
  pub sg_addr : ℕ
  pub sg_length : ℕ
  pub opcode : Opcode
  pub remote_addr : ℕ
  pub rkey : ℕ

-- `RDMAContext`, as far as a post reads and writes it
pub record Endpoint : Type 0 where
  pub buf : ℕ
  pub content : Bytes
  pub remote : Certificate

-- The buffer once `msg` has been copied to an offset.
abbrev pub fill : ℕ → Option Bytes → Bytes → Bytes
fill offset none content = content
fill offset (some msg) content = take offset content ++ (msg ++ drop (offset + length msg) content)

-- What a post gives to libibverbs, and what it returns of the number that comes back.
pub record Posted : Type 0 where
  pub endpoint : Endpoint
  pub request : WorkRequest
  pub status : Status
  pub error : ℕ

abbrev pub is_send : Opcode → Bool
is_send wr_send = true
is_send _ = false

-- `post_send_helper` with an offset into the remote memory
unfoldable pub post_send_helper : ℕ → Option Bytes → ℕ → Opcode → ℕ → ℕ → Endpoint → Posted
post_send_helper ret msg msg_len opcode local_offset remote_offset e = record {
  endpoint = record e { content = fill local_offset msg e.content };
  request = record {
    sg_addr = (e.buf + local_offset) % 2 ^ 64;
    sg_length = msg_len % 2 ^ 32;
    opcode = opcode;
    remote_addr = if is_send opcode then 0 else (e.remote.addr + remote_offset) % 2 ^ 64;
    rkey = if is_send opcode then 0 else e.remote.rkey;
  };
  status = if ret == 0 then ok else post_failed;
  error = ret;
}

-- `post_send_helper` with a pointer into the remote memory
unfoldable pub post_send_helper_at : ℕ → ℕ → Option Bytes → ℕ → Opcode → ℕ → Endpoint → Posted
unfolding post_send_helper
post_send_helper_at ret ptr msg msg_len opcode local_offset e =
    let remote_offset = (ptr + 2 ^ 64 - e.remote.addr) % 2 ^ 64 in
    post_send_helper ret msg msg_len opcode local_offset remote_offset e

unfoldable pub post_read_at : ℕ → ℕ → ℕ → ℕ → Endpoint → Posted
unfolding post_send_helper_at
post_read_at ret ptr msg_len local_offset e =
    post_send_helper_at ret ptr none msg_len wr_rdma_read local_offset e

unfoldable pub post_write_at : ℕ → ℕ → Option Bytes → ℕ → ℕ → Endpoint → Posted
unfolding post_send_helper_at
post_write_at ret ptr msg msg_len local_offset e =
    post_send_helper_at ret ptr msg msg_len wr_rdma_write local_offset e

-- `post_batch_write` and `post_batch_read`
abbrev pub post_batch_write : ℕ → Status × ℕ
post_batch_write ret = if ret == 0 then (ok, 0) else (write_error, ret)

abbrev pub post_batch_read : ℕ → Status × ℕ
post_batch_read ret = if ret == 0 then (ok, 0) else (read_error, ret)

-- What `ibv_poll_cq` returns: zero, a number of completions, or less than zero.
pub data Poll : Type 0 where
  empty failed : Poll
  found : ℕ → Poll

-- `poll_one_completion`, over what the polls return: whether the completion is returned, and the last
-- result; nothing while all were empty
unfoldable pub poll_one_completion : List Poll → Option (Bool × Poll)
poll_one_completion [] = none
poll_one_completion (empty ∷ polls) = poll_one_completion polls
poll_one_completion (found n ∷ polls) = some (false, found n)
poll_one_completion (failed ∷ polls) = some (true, failed)

-- A read or a write at a pointer goes to that pointer, wherever the remote memory is registered.
pub post_at-remote_addr :
    (ret ptr msg_len local_offset : ℕ) (msg : Option Bytes) (e : Endpoint)
    → ptr < 2 ^ 64
    → e.remote.addr < 2 ^ 64
    → ((post_read_at ret ptr msg_len local_offset e).request.remote_addr ≡ ptr)
      × ((post_write_at ret ptr msg msg_len local_offset e).request.remote_addr ≡ ptr)
unfolding post_read_at post_write_at
post_at-remote_addr ret ptr msg_len local_offset msg e p a = (omega arith, omega arith)
