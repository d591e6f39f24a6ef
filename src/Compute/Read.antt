-- ===== src/Compute/Read.antt =====
-- compute_node.cpp, `get` with remote puts enabled, and `update` for the thread that wins the node.
--
-- `get` starts again from the label `retry` while the checksum of what it fetched does not fit, so it
-- is recursion on fuel. What it meets in its i-th pass, with other threads at work, is `passes i`.
use di_store.Base.{
  ℕ, zero, suc, Bool, false, Option, none, some, List, [], ◌∷◌, ◌++◌, Bytes, ◌==◌, if◌then◌else◌,
}
use di_store.DataLayer.{Kv, LinkedNode, crc_validate, find, update}
use di_store.Compute.{SkipListNode, Remote, capacity, Outside}
use di_store.Compute.Requests.{Request, Reply, drain_pending}
use di_store.Compute.WriteBack.{write_back_current}

-- One pass: the requests left in the thread's queue, the node that `fuzzy_search` returns, and the
-- memory that is read.
pub record Pass : Type 0 where
  pub pending : List Request
  pub node : SkipListNode
  pub memory : Remote

-- `fetch_as<LinkedNode16 *>(node->data_node, sizeof(LinkedNode16))`
abbrev pub fetched : Pass → LinkedNode
fetched pass = pass.memory pass.node.data_node

-- The replies given, and what `get` returned if it did.
pub record Got : Type 0 where
  pub replies : List Reply
  pub result : Option (Option Bytes)

-- The two node buffers in the registered memory of a thread: `fetch_as` fills the first, and
-- `write_back_current` writes from the second.
pub record Updated : Type 0 where
  pub first : LinkedNode
  pub second : LinkedNode
  pub memory : Remote
  pub replies : List Reply
  pub ret : Bool

module _ (city : Bytes → ℕ) where
  -- The loop of `update` over the queue.
  unfoldable pub update_others : LinkedNode → List Request → List Reply → LinkedNode × List Reply
  update_others buffer [] done = (buffer, done)
  update_others buffer (req ∷ rs) done =
      let (buffer', s) = update city req.tag req.content buffer in
      update_others buffer' rs (done ++ record { request = req; succeed = s; retry = false } ∷ [])

module _ (city : Bytes → ℕ) (checksum : List Kv → ℕ) where
  unfoldable pub get_loop : Bytes → (ℕ → Pass) → ℕ → ℕ → List Reply → Got
  get_loop key passes zero i replies = record { replies = replies; result = none }
  get_loop key passes (suc fuel) i replies =
      let pass = passes i in
      let buffer = fetched pass in
      let drained = replies ++ drain_pending pass.pending in
      let again = get_loop key passes fuel (suc i) drained in
      if crc_validate checksum buffer pass.node.type == buffer.crc
      then record { replies = drained; result = some (find city buffer key) }
      else again

  unfoldable pub get : Bytes → (ℕ → Pass) → ℕ → Got
  get key passes fuel = get_loop key passes fuel 0 []

  -- `update` from `if (win)` on, with what the second buffer holds from earlier operations.
  unfoldable pub update_won :
      Outside → Bytes → Bytes → SkipListNode → LinkedNode → List Request → Remote → Updated
  update_won out key value node second requests m =
      let (own, ret) = update city key value (m node.data_node) in
      let (buffer, replies) = update_others city own requests [] in
      let first : LinkedNode = record buffer { crc = crc_validate checksum buffer buffer.type } in
      let (m', written) = write_back_current out node.data_node (capacity first.type) second m in
      record { first = first; second = second; memory = m'; replies = replies; ret = ret }
