-- ===== src/Compute/WriteBack.antt =====
-- compute_node.hpp, `morph_node`, `write_back_morphed`, `write_back_splitted`, and
-- src/components/memory/compute_node/compute_node.hpp, `write_back_current`.
use di_store.Base.{ℕ, zero, suc, ◌+◌, Bool, true, false, List, [], ◌∷◌, ◌==◌, leb, if◌then◌else◌}
use di_store.DataLayer.{LinkedNode, LinkedNodeType, type10, type12, type14, type16, not_set}
use di_store.Compute.{SkipListNode, Remote, capacity, write_node, Outside}

-- The loop of `morph_node`: the fingerprints that are not zero, among the n left.
unfoldable pub count_fingerprints : ℕ → List ℕ → ℕ
count_fingerprints zero fs = 0
count_fingerprints (suc n) [] = 0
count_fingerprints (suc n) (f ∷ fs) = (if f == 0 then 0 else 1) + count_fingerprints n fs

unfoldable pub morph_type : ℕ → LinkedNodeType
morph_type ct =
    if leb ct 10
    then type10
    else (if leb ct 12
        then type12
        else (if leb ct 14 then type14 else (if leb ct 16 then type16 else not_set)))

unfoldable pub morph_node : LinkedNode → LinkedNodeType
morph_node buf = morph_type (count_fingerprints 16 buf.fingerprints)

-- The predecessor, the skip list node and the memory after a write-back, and the pointer returned.
pub record Written : Type 0 where
  pub pred : LinkedNode
  pub left : LinkedNode
  pub right : LinkedNode
  pub node : SkipListNode
  pub memory : Remote
  pub pointer : ℕ

-- `write_back_current`: the buffer of the node, at its place; false if a completion failed.
unfoldable pub write_back_current : Outside → ℕ → ℕ → LinkedNode → Remote → Remote × Bool
write_back_current out addr cap real m =
    if out.completed then (write_node m addr cap real, true) else (out.broken, false)

-- `write_back_morphed`: the predecessor in place, the morphed node at a new place.
unfoldable pub write_back_morphed :
    Outside → ℕ → SkipListNode → LinkedNode → LinkedNode → Remote → Written
write_back_morphed out backward node pred morphed m =
    let r = out.left in
    let pred' : LinkedNode = record pred { rlink = r } in
    let m' =
      write_node (write_node m backward (capacity pred'.type) pred') r (capacity morphed.type)
        morphed in
    if out.completed
    then record {
      pred = pred';
      left = morphed;
      right = morphed;
      node = record node { data_node = r };
      memory = m';
      pointer = r;
    }
    else record {
      pred = pred';
      left = morphed;
      right = morphed;
      node = node;
      memory = out.broken;
      pointer = 0;
    }

-- `write_back_splitted<LNodeType, RNodeType>`, with the capacities of the two node types
unfoldable pub write_back_splitted :
    Outside → ℕ → ℕ → ℕ → SkipListNode → LinkedNode → LinkedNode → LinkedNode → Remote → Written
write_back_splitted out lcap rcap backward node pred left right m =
    let l = out.left in
    let r = out.right in
    let pred' : LinkedNode = record pred { rlink = l } in
    let right' : LinkedNode = record right { rlink = left.rlink } in
    let left' : LinkedNode = record left { rlink = r } in
    let m' =
      write_node (write_node (write_node m backward (capacity pred'.type) pred') l lcap left') r
        rcap right' in
    if out.completed
    then record {
      pred = pred';
      left = left';
      right = right';
      node = record node { data_node = l };
      memory = m';
      pointer = r;
    }
    else record {
      pred = pred';
      left = left';
      right = right';
      node = node;
      memory = out.broken;
      pointer = 0;
    }
