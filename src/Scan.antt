-- ===== src/Scan.antt =====
-- compute_node.cpp, `ComputeNode::scan`, and `fetch_two_async` and `poll_fetch_two_async` of compute_node.hpp.
--
-- All nodes are on one memory node, every read succeeds, and a read moves as many pairs as its size holds.
-- Of the values found only their number is returned. Of `l[2]` and `r[2]` only the pair at `flip` is read,
-- and each poll fills it anew. Fuel is one unit for each pass of the loop, and for each node passed by
-- `fuzzy_search`.
pub mod Short
use di_store.Base.{
  ℕ, zero, suc, ◌+◌, ◌-◌, ◌%◌, ◌^◌, Bool, true, false, Option, none, some, List, [], ◌∷◌, Bytes,
  str_le, ltb, if◌then◌else◌,
}
use di_store.DataLayer.{LinkedNode, scan}
use di_store.Compute.{SkipListNode, Remote, capacity, overwrite}
use di_store.Search.{
  Run, returned, undefined_behaviour, unfinished, ◌>>=◌, Nodes, SkipList, anchor_of, forward, deref,
  fuzzy_search,
}

-- The two node buffers in the registered memory of a thread.
pub record Registered : Type 0 where
  pub first : LinkedNode
  pub second : LinkedNode

-- `fetch_two`, which `fetch_two_into_buffer` copies from
unfoldable pub fetch_two : Remote → SkipListNode → SkipListNode → Registered → Registered
fetch_two m left right b = record {
  first = overwrite (capacity left.type) b.first (m left.data_node);
  second = overwrite (capacity right.type) b.second (m right.data_node);
}

-- `fetch_two_async`: both reads have the scatter element of the left one.
unfoldable pub fetch_two_async : Remote → SkipListNode → SkipListNode → Registered → Registered
fetch_two_async m left right b =
    let once = overwrite (capacity left.type) b.first (m left.data_node) in
    record b { first = overwrite (capacity left.type) once (m right.data_node) }

-- `node->scan(key, count - total, ret)`, the difference a `size_t`
unfoldable pub found : Bytes → ℕ → ℕ → LinkedNode → ℕ
found key count total node = (scan key ((count + 2 ^ 64 - total) % 2 ^ 64) [] node).0

-- `total` after `r[flip]` and `l[flip]` are scanned
unfoldable pub found_two : Bytes → ℕ → ℕ → LinkedNode → LinkedNode → ℕ
found_two key count total r l =
    let once = total + found key count total r in once + found key count once l

-- What `poll_fetch_two_async` does at the end of the list: it dereferences the null pointer it is given if
-- nothing was posted before, and otherwise polls for a completion that has been taken already, for ever.
unfoldable pub poll_again : Bool → Run ℕ
poll_again posted = if posted then unfinished else undefined_behaviour

module _ (m : Remote) (h : Nodes) (key : Bytes) (count : ℕ) where
  -- `do ... while (total < count)`; `posted` says that `rdma` is set
  unfoldable pub scan_rounds : ℕ → Bool → ℕ → LinkedNode → LinkedNode → Registered → ℕ → Run ℕ
  scan_rounds zero posted second l r b total = unfinished
  scan_rounds (suc fuel) posted second l r b total = do
    next ← forward h second 0
    elim next [
      | none ↦ poll_again posted
      | some first ↦ do
        after ← forward h first 0
        elim after [
          | none ↦ returned (found_two key count total r l)
          | some second' ↦
              let b' = fetch_two_async m (h first).node (h second').node b in
              let rest =
                scan_rounds fuel true second' b'.second b'.first b'
                  (found_two key count total r l) in
              if ltb (found_two key count total r l) count
              then rest
              else returned (found_two key count total r l)
        ]
    ]

-- From `first` on, which is not null.
unfoldable pub scan_from : Remote → Nodes → Bytes → ℕ → ℕ → Registered → ℕ → Run ℕ
scan_from m h key count fuel b first = do
  next ← forward h first 0
  let alone = found key count 0 (overwrite 16 b.first (m (h first).node.data_node))
  elim next [
    | none ↦ returned alone
    | some second ↦
        let b' = fetch_two m (h first).node (h second).node b in
        let rest = scan_rounds m h key count fuel false second b'.first b'.second b' 0 in
        if str_le key (anchor_of h second) then rest else returned alone
  ]

-- `ComputeNode::scan`
unfoldable pub scan_nodes : Remote → SkipList → Bytes → ℕ → ℕ → Registered → Run ℕ
scan_nodes m s key count fuel b = do
  first ← fuzzy_search fuel key s
  elim first [ none ↦ returned 0 | some p ↦ scan_from m s.nodes key count fuel b p ]
