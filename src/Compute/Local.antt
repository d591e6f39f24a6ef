-- ===== src/Compute/Local.antt =====
-- compute_node.cpp, `quick_put_pick_node`, `quick_put` and the local branches of `get` and `update`: until
-- the first put that does not fit, two nodes of ten are kept in the compute node's own memory.
use di_store.Base.{
  ℕ, Bool, true, false, not, ◌&&◌, Option, List, [], ◌∷◌, ◌++◌, Bytes, str_lt, str_le,
  if◌then◌else◌, take, drop,
}
use di_store.DataLayer.{Kv, LinkedNode, type10, type12, crc_validate, find, store, update}
use di_store.Compute.{SkipListNode, Remote, write_node}

-- `local_nodes` and `local_anchors`
pub record Local : Type 0 where
  pub node_0 : LinkedNode
  pub node_1 : LinkedNode
  pub anchor_0 : Bytes
  pub anchor_1 : Bytes

abbrev pub is_empty : Bytes → Bool
is_empty [] = true
is_empty (b ∷ bs) = false

-- `quick_put_pick_node`: the state after it, and whether the second node is picked.
unfoldable pub quick_put_pick_node : Bytes → Local → Local × Bool
quick_put_pick_node key s =
    let swapped : Local = record {
      node_0 = s.node_1;
      node_1 = s.node_0;
      anchor_0 = key;
      anchor_1 = s.anchor_0;
    } in
    if is_empty s.anchor_0
    then (record s { anchor_0 = key }, false)
    else (if str_lt key s.anchor_0
        then (if is_empty s.anchor_1
            then (swapped, false)
            else (record s { anchor_0 = key }, false))
        else (if is_empty s.anchor_1
            then (record s { anchor_1 = key }, true)
            else (s, str_lt s.anchor_1 key)))

-- The choice that `get` makes, and the one that `update` makes: true for the second node.
unfoldable pub get_picks : Bytes → Local → Bool
get_picks key s = not (is_empty s.anchor_1) && str_le s.anchor_1 key

unfoldable pub update_picks : Bytes → Local → Bool
update_picks key s = str_lt s.anchor_1 key

module _ (city : Bytes → ℕ) where
  unfoldable pub local_get : Bytes → Local → Option Bytes
  local_get key s = if get_picks key s then find city s.node_1 key else find city s.node_0 key

  unfoldable pub local_update : Bytes → Bytes → Local → Local × Bool
  local_update key value s =
      let (n0, r0) = update city key value s.node_0 in
      let (n1, r1) = update city key value s.node_1 in
      if update_picks key s then (record s { node_1 = n1 }, r1) else (record s { node_0 = n0 }, r0)

-- What the allocator and the network answer to a flush, and what `static LinkedNode12 remote` holds.
pub record FlushOutside : Type 0 where
  pub smaller : ℕ
  pub larger : ℕ
  pub larger_written : Bool
  pub smaller_written : Bool
  pub broken : Remote
  pub scratch : LinkedNode

pub record QuickPut : Type 0 where
  pub nodes : Local
  pub memory : Remote
  -- what `slist.insert` is called with, in order
  pub inserted : List SkipListNode
  pub remote_put : Bool
  pub ret : Bool

module _ (city : Bytes → ℕ) (checksum : List Kv → ℕ) (out : FlushOutside) where
  -- `remote` before it is written: the target's records and the new one, in a node of twelve.
  unfoldable pub remote_of : Bytes → Bytes → Bool → LinkedNode → LinkedNode
  remote_of key value second target =
      let copied : LinkedNode = record (out.scratch) {
        llink = if second then out.smaller else 0;
        rlink = if second then 0 else out.smaller;
        fingerprints = target.fingerprints;
        pairs = take 10 target.pairs ++ drop 10 out.scratch.pairs;
        next = target.next;
      } in
      let stored = (store city 12 key value copied).0 in
      record stored { crc = crc_validate checksum stored stored.type }

  -- `no_move` once its links are set, and with its checksum too
  unfoldable pub linked_of : Bool → LinkedNode → LinkedNode
  linked_of second node = record node {
    llink = if second then 0 else out.larger;
    rlink = if second then out.larger else 0;
  }

  unfoldable pub no_move_of : Bool → LinkedNode → LinkedNode
  no_move_of second node =
      let linked = linked_of second node in
      record linked { crc = crc_validate checksum linked linked.type }

  -- `quick_put` while `remote_put` is false
  unfoldable pub quick_put : Bytes → Bytes → Local → Remote → QuickPut
  quick_put key value s m =
      let (p, second) = quick_put_pick_node key s in
      let target = if second then p.node_1 else p.node_0 in
      let (stored, ok) = store city 10 key value target in
      let remote = remote_of key value second target in
      let other = if second then p.node_0 else p.node_1 in
      let linked = linked_of second other in
      let no_move = no_move_of second other in
      let m' = write_node m out.larger 12 remote in
      let m'' = write_node m' out.smaller 10 no_move in
      let large : SkipListNode = record {
        anchor = if second then p.anchor_1 else p.anchor_0;
        data_node = out.larger;
        type = type12;
      } in
      let small : SkipListNode = record {
        anchor = if second then p.anchor_0 else p.anchor_1;
        data_node = out.smaller;
        type = type10;
      } in
      let kept = if second then record p { node_0 = no_move } else record p { node_1 = no_move } in
      let begun = if second then record p { node_0 = linked } else record p { node_1 = linked } in
      let entered = if second then small ∷ large ∷ [] else large ∷ small ∷ [] in
      let here = if second then record p { node_1 = stored } else record p { node_0 = stored } in
      if ok
      then record { nodes = here; memory = m; inserted = []; remote_put = false; ret = true }
      else (if out.larger_written
          then (if out.smaller_written
              then record {
                nodes = kept;
                memory = m'';
                inserted = entered;
                remote_put = true;
                ret = true;
              }
              else record {
                nodes = kept;
                memory = out.broken;
                inserted = [];
                remote_put = false;
                ret = false;
              })
          else record {
            nodes = begun;
            memory = out.broken;
            inserted = [];
            remote_put = false;
            ret = false;
          })
