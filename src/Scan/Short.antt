-- ===== src/Scan/Short.antt =====
-- `scan` near the end of the list.
use di_store.Base.{
  ℕ, suc, ◌≤◌, ◌≡◌, refl, ap, ◌∙◌, subst, true, false, none, some, List, [], ◌∷◌, ◌++◌, Bytes,
  str_lt, str_lt_asymm, arith, length, All, All-imp,
}
use di_store.Compute.{Remote, overwrite}
use di_store.Search.{Run, returned, undefined_behaviour, Nodes, SkipList, anchor_of, fuzzy_search}
use di_store.Search.Level.{last_of, Chain, forward-slot}
use di_store.Search.Descend.{IsSkipList, at_level-bottom}
use di_store.Search.Order.{Chain-append}
use di_store.Search.Floor.{floor, floor-above, fuzzy_search-floor}
use di_store.Scan.{
  Registered, fetch_two, found, found_two, poll_again, scan_rounds, scan_from, scan_nodes,
}

-- The nodes `ns` have anchors that are at most the key, or above it.
abbrev pub AtMost : Nodes → Bytes → List ℕ → Type 0
AtMost h key ns = All (λ n. str_lt key (anchor_of h n) ≡ false) ns

abbrev pub IsAbove : Nodes → Bytes → List ℕ → Type 0
IsAbove h key ns = All (λ n. str_lt key (anchor_of h n) ≡ true) ns

floor-AtMost :
    (h : Nodes) (key : Bytes) (w : ℕ) (xs ys : List ℕ)
    → AtMost h key xs
    → floor h key w (xs ++ ys) ≡ floor h key (last_of w xs) ys
floor-AtMost h key w [] ys a = refl
floor-AtMost h key w (x ∷ xs) ys a = rw (a.0) (floor-AtMost h key x xs ys a.1)

-- What `scan` does from the node `w` if the nodes `rest`, two at most, follow it.
abbrev pub short_scan : Remote → Nodes → Bytes → ℕ → Registered → ℕ → List ℕ → Run ℕ
short_scan m h key count b w [] =
    returned (found key count 0 (overwrite 16 b.first (m (h w).node.data_node)))
short_scan m h key count b w (y ∷ []) = undefined_behaviour
short_scan m h key count b w (y ∷ ys) =
    let b' = fetch_two m (h w).node (h y).node b in
    returned (found_two key count 0 b'.second b'.first)

scan_from-short_scan :
    (m : Remote) (h : Nodes) (key : Bytes) (count fuel : ℕ) (b : Registered) (w : ℕ) (ys : List ℕ)
    → Chain h 0 w ys
    → IsAbove h key ys
    → length ys ≤ 2
    → scan_from m h key count (suc fuel) b w ≡ short_scan m h key count b w ys
unfolding scan_from scan_rounds poll_again
scan_from-short_scan m h key count fuel b w [] c a le = rw (forward-slot h w 0 none c) refl
scan_from-short_scan m h key count fuel b w (y ∷ []) c a le =
    rw
      (
        forward-slot h w 0 (some y) c.0,
        forward-slot h y 0 none c.1,
        str_lt_asymm key (anchor_of h y) a.0,
      )
      refl
scan_from-short_scan m h key count fuel b w (y ∷ z ∷ []) c a le =
    rw
      (
        forward-slot h w 0 (some y) c.0,
        forward-slot h y 0 (some z) c.1.0,
        forward-slot h z 0 none c.1.1,
        str_lt_asymm key (anchor_of h y) a.0,
      )
      refl
scan_from-short_scan m h key count fuel b w (y ∷ z ∷ x ∷ ys) c a le = absurd (omega arith)

-- In a well-formed skip list where at most two nodes are above the key, with fuel for all nodes: `scan` counts
-- the values of the node the key belongs to if none is above; if one is, it dereferences a null pointer; and
-- if two are, it counts those of the second of the three nodes and then those of the first, not of the last.
pub scan_nodes-short_scan :
    (ht : ℕ → ℕ) (xs ys : List ℕ) (s : SkipList) (m : Remote) (key : Bytes) (count fuel : ℕ)
    (b : Registered)
    → IsSkipList ht (xs ++ ys) s
    → AtMost s.nodes key xs
    → IsAbove s.nodes key ys
    → length ys ≤ 2
    → length (xs ++ ys) ≤ fuel
    → scan_nodes m s key count (suc fuel) b
      ≡ short_scan m s.nodes key count b (last_of s.head xs) ys
unfolding scan_nodes
scan_nodes-short_scan ht xs ys s m key count fuel b g le above two enough =
    let found_first : fuzzy_search (suc fuel) key s ≡ returned (some (last_of s.head xs)) =
      fuzzy_search-floor ht (xs ++ ys) s g key (suc fuel) (omega arith)
      ∙ ap (λ n. returned (some n))
          (floor-AtMost s.nodes key s.head xs ys le
            ∙ floor-above s.nodes key (last_of s.head xs) ys above) in
    let chain : Chain s.nodes 0 (last_of s.head xs) ys = Chain-append s.nodes 0 s.head xs ys (
      subst (Chain s.nodes 0 s.head)
        (at_level-bottom ht (xs ++ ys) (
          All-imp (λ n. (1 ≤ ht n) × (ht n ≤ s.current_level)) _ (λ n p. p.0) (xs ++ ys) g.heights))
        (g.chains 0 (omega arith))) in
    rw found_first
      (scan_from-short_scan m s.nodes key count fuel b (last_of s.head xs) ys chain above two)
