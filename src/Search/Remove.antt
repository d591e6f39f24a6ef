-- ===== src/Search/Remove.antt =====
-- `remove` of an anchor that is not in the list.
use di_store.Base.{
  ℕ, ◌<◌, ◌≡◌, refl, ap, Bool, inl, inr, true, false, none, some, List, [], ◌∷◌, ◌++◌, Bytes,
  str_lt, str_eq, str_eq→eq, str_lt_irrefl, if◌then◌else◌, Bool-cases, length, All,
}
use di_store.Search.{Run, returned, undefined_behaviour, SkipList, anchor_of, deref}
use di_store.Search.Level.{last_of, Below, forward-slot}
use di_store.Search.Descend.{IsSkipList}
use di_store.Search.Floor.{descend-Bottom}
use di_store.Search.Update.{take_out, remove}
use di_store.Search.Ready.{absent-Parted}

-- What `remove` does before the anchors `ys`, all above the key: with none of them it reads through a null
-- pointer.
abbrev pub removed_absent : SkipList → List ℕ → Run (SkipList × Bool)
removed_absent s [] = undefined_behaviour
removed_absent s (y ∷ ys) = returned (s, false)

-- For a well-formed list, an anchor that no node has and fuel for all nodes: `remove` returns false and
-- leaves the list as it was if some anchor is above the one given, and reads through a null pointer if none
-- is.
pub remove-removed_absent :
    (ht : ℕ → ℕ) (xs ys : List ℕ) (s : SkipList) (fuel : ℕ) (key : Bytes)
    → length (xs ++ ys) < fuel
    → IsSkipList ht (xs ++ ys) s
    → Below s.nodes key xs
    → All (λ m. str_lt key (anchor_of s.nodes m) ≡ true) ys
    → remove fuel key s ≡ removed_absent s ys
unfolding remove deref
remove-removed_absent ht xs [] s fuel key enough g below above =
    let b =
      descend-Bottom ht (xs ++ []) s g key fuel enough
        (absent-Parted s.nodes key xs [] below above) in
    rw (b.run, forward-slot s.nodes (last_of s.head xs) 0 none b.tail) refl
remove-removed_absent ht xs (y ∷ ys) s fuel key enough g below above =
    let b =
      descend-Bottom ht (xs ++ y ∷ ys) s g key fuel enough
        (absent-Parted s.nodes key xs (y ∷ ys) below above) in
    elim (Bool-cases (str_eq (anchor_of s.nodes y) key)) [
      | inl same ↦
          let e = str_eq→eq (anchor_of s.nodes y) key same in
          let self = str_lt_irrefl key in let over = rw e at (above.0) in absurd (cc)
      | inr differs ↦
          rw (b.run, forward-slot s.nodes (last_of s.head xs) 0 (some y) b.tail.0)
            (ap (λ c. if c then take_out b.update y s else returned (s, false)) differs)
    ]
