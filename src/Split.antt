-- ===== src/Split.antt =====
-- src/components/node/compute_node/compute_node.hpp, `construct_reorder_map`, and compute_node.cpp,
-- `out_of_place_split_node` and `inplace_split_node`: a full node is split at a key.
--
-- The bool array `picked` and the int array `reorder_map` are lists. `keys` are the keys of the
-- source's slots in use, so `total_records` is its length.
pub mod Select
pub mod Rounds
pub mod Partition
pub mod Records
use di_store.DataLayer.{Kv, LinkedNode}
use di_store.Base.{
  map, take, replicate, ℕ, zero, suc, ◌+◌, Bool, true, false, List, [], ◌∷◌, Bytes, str_lt,
  if◌then◌else◌, length, get_or, set,
}

-- The first inner loop: the first index from j on that is not picked, or `target` if there is none.
unfoldable pub first_unpicked : ℕ → ℕ → List Bool → List Bytes → ℕ
first_unpicked target j [] ks = target
first_unpicked target j (b ∷ bs) [] = target
first_unpicked target j (true ∷ bs) (k ∷ ks) = first_unpicked target (suc j) bs ks
first_unpicked target j (false ∷ bs) (k ∷ ks) = j

-- The second inner loop. `best` is the key at `target`, which `memcmp` reads.
unfoldable pub min_scan : ℕ → Bytes → ℕ → List Bool → List Bytes → ℕ
min_scan target best j [] ks = target
min_scan target best j (b ∷ bs) [] = target
min_scan target best j (true ∷ bs) (k ∷ ks) = min_scan target best (suc j) bs ks
min_scan target best j (false ∷ bs) (k ∷ ks) =
    if str_lt k best then min_scan j k (suc j) bs ks else min_scan target best (suc j) bs ks

-- One round of the outer loop: the index that it picks.
unfoldable pub select_min : List Bytes → ℕ → List Bool → ℕ
select_min keys target picked =
    let first = first_unpicked target 0 picked keys in
    min_scan first (get_or keys first []) 0 picked keys

pub record Picks : Type 0 where
  pub target : ℕ
  pub picked : List Bool
  pub reorder_map : List ℕ

-- `for (int i = 0; i < left_cap + 1; i++)`, with the rounds left and the round's index
unfoldable pub pick_rounds : List Bytes → ℕ → ℕ → Picks → Picks
pick_rounds keys zero i s = s
pick_rounds keys (suc n) i s =
    let t = select_min keys s.target s.picked in
    pick_rounds keys n (suc i)
      (record { target = t; picked = set s.picked t true; reorder_map = set s.reorder_map i t })

unfoldable pub construct_reorder_map : List Bytes → ℕ → List Bool → List ℕ → Picks
construct_reorder_map keys left_cap picked reorder_map =
    pick_rounds keys (left_cap + 1) 0
      (record { target = 0; picked = picked; reorder_map = reorder_map })

abbrev pub key_of : Kv → Bytes
key_of p = p.key

-- `left->fingerprints[left->next] = …; memcpy(&left->pairs[left->next], …); ++left->next;`
unfoldable pub push_record : ℕ → Kv → LinkedNode → LinkedNode
push_record f p node = record node {
  next = node.next + 1;
  fingerprints = set node.fingerprints node.next f;
  pairs = set node.pairs node.next p;
}

-- `for (size_t i = 0; i < tmp_node.next; i++)`: a picked record goes left, any other right.
unfoldable pub share_out :
    ℕ → List ℕ → List Kv → List Bool → LinkedNode → LinkedNode → LinkedNode × LinkedNode
share_out zero fs ps bs left right = (left, right)
share_out (suc n) (f ∷ fs) (p ∷ ps) (true ∷ bs) left right =
    share_out n fs ps bs (push_record f p left) right
share_out (suc n) (f ∷ fs) (p ∷ ps) (false ∷ bs) left right =
    share_out n fs ps bs left (push_record f p right)
share_out (suc n) _ _ _ left right = (left, right)

abbrev pub no_picks : List Bool
no_picks = replicate 32 false

abbrev pub no_map : List ℕ
no_map = replicate 32 0

-- The keys that the rounds compare: those of the slots in use.
abbrev pub keys_of : LinkedNode → List Bytes
keys_of node = map key_of (take node.next node.pairs)

-- `out_of_place_split_node` from `int reorder_map[32]` on: `tmp_node` holds all records, `left` is the
-- source buffer and `right` the buffer behind it.
unfoldable pub split_records :
    LinkedNode → ℕ → LinkedNode → LinkedNode → LinkedNode × LinkedNode × Bytes
split_records tmp_node left_cap left right =
    let keys = keys_of tmp_node in
    let picks = construct_reorder_map keys left_cap no_picks no_map in
    let anchor = get_or picks.reorder_map left_cap 0 in
    let picked = set picks.picked anchor false in
    let (l, r) =
      share_out tmp_node.next tmp_node.fingerprints tmp_node.pairs picked (record left { next = 0 })
        (record right { next = 0 }) in
    (l, r, get_or keys anchor [])
