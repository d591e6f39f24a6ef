-- ===== src/Compute.antt =====
-- src/components/node/compute_node: the compute node's data path.
--
-- `Remote` is the memory of the memory node, one LinkedNode to an allocation. A one-sided read or
-- write of `sizeof(LinkedNode<16, N>)` bytes moves the header and the first N pairs; what follows the
-- bytes written stays as it was. A pointer is a 64-bit number. What the allocator and the RDMA
-- completion queue return is part of `Outside`, an argument.
pub mod Requests
pub mod Serve
pub mod Served
pub mod Told
pub mod WriteBack
pub mod Put
pub mod Memory
pub mod Morph
pub mod SplitPut
pub mod Read
pub mod Local
pub mod LocalGet
pub mod Lock
pub mod Exclusive
pub mod Get
pub mod Stale
pub mod ReadBack
pub mod Room
pub mod Gather
pub mod PutGet
pub mod PutLoss
pub mod MorphGet
pub mod Gate
use di_store.Base.{ℕ, ◌+◌, ◌%◌, ◌^◌, Bool, List, ◌++◌, Bytes, ◌==◌, if◌then◌else◌, take, drop}
use di_store.DataLayer.{LinkedNode, LinkedNodeType, type10, type12, type14, type16, type_head}

-- `SkipListNode`, as far as the data path reads and writes it
pub record SkipListNode : Type 0 where
  pub anchor : Bytes
  pub data_node : ℕ
  pub type : LinkedNodeType

abbrev pub Remote : Type 0
Remote = ℕ → LinkedNode

-- `RemotePointer::is_nullptr`
abbrev pub is_nullptr : ℕ → Bool
is_nullptr p = p % 2 ^ 48 == 0

-- The number of pairs that `sizeof_node(type)` bytes hold.
abbrev pub capacity : LinkedNodeType → ℕ
capacity type_head = 1
capacity type10 = 10
capacity type12 = 12
capacity type14 = 14
capacity type16 = 16
capacity _ = 0

-- The buffer `new` after a write of its first `cap` pairs over the node `old`.
abbrev pub overwrite : ℕ → LinkedNode → LinkedNode → LinkedNode
overwrite cap old new = record new { pairs = take cap new.pairs ++ drop cap old.pairs }

unfoldable pub write_node : Remote → ℕ → ℕ → LinkedNode → Remote
write_node m addr cap node p = if p == addr then overwrite cap (m addr) node else m p

-- What the allocator and the network answer during one operation.
pub record Outside : Type 0 where
  pub left : ℕ
  pub right : ℕ
  -- no work completion with an error was polled
  pub completed : Bool
  -- what the memory holds if one was
  pub broken : Remote
