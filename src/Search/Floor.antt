-- ===== src/Search/Floor.antt =====
-- The searches of a well-formed skip list against a walk of the whole list.
use di_store.Base.{
  ℕ, ◌≤◌, ◌<◌, ◌≡◌, refl, sym, ap, ◌∙◌, subst, inl, inr, true, false, Option, none, some, List, [],
  ◌∷◌, ◌++◌, Bytes, str_lt, str_le, str_eq, str_eq→eq, str_eq_refl, str_lt_irrefl, str_lt_asymm,
  str_lt_total, if◌then◌else◌, Bool-cases, str_lt_of_not_lt, str_lt_nil, arith, length, All,
  All-imp, All-append_left,
}
use di_store.Search.{
  returned, Nodes, SkipList, anchor_of, search_node, fuzzy_search, start, descend,
}
use di_store.Search.Level.{last_of, Chain, Below, NotBelow, forward-slot}
use di_store.Search.Descend.{Ascends, IsSkipList, at_level-bottom}
use di_store.Search.Order.{
  Parted, part-Parted, last_of-All, Chain-append, Ascends-append_right, bottoms, Chain-at,
  descend_head,
}

-- The last node whose anchor is at most the key, or `w`.
abbrev pub floor : Nodes → Bytes → ℕ → List ℕ → ℕ
floor h key w [] = w
floor h key w (n ∷ ns) = if str_le (anchor_of h n) key then floor h key n ns else w

-- The node whose anchor is the key.
abbrev pub lookup : Nodes → Bytes → List ℕ → Option ℕ
lookup h key [] = none
lookup h key (n ∷ ns) = if str_eq (anchor_of h n) key then some n else lookup h key ns

module _ (h : Nodes) (key : Bytes) where
  floor-Below :
      (w : ℕ) (xs ys : List ℕ)
      → Below h key xs
      → floor h key w (xs ++ ys) ≡ floor h key (last_of w xs) ys
  floor-Below w [] ys b = refl
  floor-Below w (x ∷ xs) ys b = rw (str_lt_asymm (anchor_of h x) key b.0) (floor-Below x xs ys b.1)

  pub floor-above :
      (w : ℕ) (ys : List ℕ) → All (λ n. str_lt key (anchor_of h n) ≡ true) ys → floor h key w ys ≡ w
  floor-above w [] a = refl
  floor-above w (y ∷ ys) a = rw (a.0) refl

  lookup-Below : (xs ys : List ℕ) → Below h key xs → lookup h key (xs ++ ys) ≡ lookup h key ys
  lookup-Below [] ys b = refl
  lookup-Below (x ∷ xs) ys b = elim (Bool-cases (str_eq (anchor_of h x) key)) [
    | inl same ↦
        let e = str_eq→eq (anchor_of h x) key same in
        let i = str_lt_irrefl key in let less = rw e at (b.0) in absurd (cc)
    | inr differs ↦ rw differs (lookup-Below xs ys b.1)
  ]

  lookup-above :
      (ys : List ℕ) → All (λ n. str_lt key (anchor_of h n) ≡ true) ys → lookup h key ys ≡ none
  lookup-above [] a = refl
  lookup-above (y ∷ ys) a = elim (Bool-cases (str_eq (anchor_of h y) key)) [
    | inl same ↦
        let e = str_eq→eq (anchor_of h y) key same in
        let i = str_lt_irrefl key in let less = rw e at (a.0) in absurd (cc)
    | inr differs ↦ rw differs (lookup-above ys a.1)
  ]

  -- the nodes after one that is not below the key are above it
  beyond :
      (y : ℕ) (ys : List ℕ)
      → str_lt (anchor_of h y) key ≡ false
      → All (λ m. str_lt (anchor_of h y) (anchor_of h m) ≡ true) ys
      → All (λ m. str_lt key (anchor_of h m) ≡ true) ys
  beyond y ys n a =
      All-imp _ _ (λ m over. str_lt_of_not_lt key (anchor_of h y) (anchor_of h m) n over) ys a

-- Where the walk ends, and what the lowest level holds from there.
pub record Bottom (s : SkipList) (key : Bytes) (fuel : ℕ) (before rest : List ℕ) : Type 0 where
  pub update : ℕ → Option ℕ
  pub run :
      descend s.nodes key fuel 0 s.current_level (start s)
      ≡ returned (record { update = update; walker = last_of s.head before })
  pub tail : Chain s.nodes 0 (last_of s.head before) rest

module _ (s : SkipList) (key : Bytes) (fuel : ℕ) (before : List ℕ) where
  fuzzy_search-rest :
      (rest : List ℕ)
      → Bottom s key fuel before rest
      → NotBelow s.nodes key rest
      → Ascends s.nodes rest
      → str_lt key (anchor_of s.nodes (last_of s.head before)) ≡ false
      → fuzzy_search fuel key s ≡ returned (some (floor s.nodes key (last_of s.head before) rest))
  unfolding fuzzy_search
  fuzzy_search-rest [] b n a w =
      rw (b.run, forward-slot s.nodes (last_of s.head before) 0 none b.tail) refl
  fuzzy_search-rest (y ∷ ys) b n a w =
      let onto = forward-slot s.nodes (last_of s.head before) 0 (some y) b.tail.0 in
      elim (Bool-cases (str_eq (anchor_of s.nodes y) key)) [
        | inl same ↦
            let e = str_eq→eq (anchor_of s.nodes y) key same in
            let i : str_lt key (anchor_of s.nodes y) ≡ false = rw e (str_lt_irrefl key) in
            let stop = floor-above s.nodes key y ys (beyond s.nodes key y ys n.0 a.0) in
            rw (b.run, onto, same, i, stop) refl
        | inr differs ↦
            let over : str_lt key (anchor_of s.nodes y) ≡ true =
              elim (Bool-cases (str_lt key (anchor_of s.nodes y))) [
                | inl yes_over ↦ yes_over
                | inr not_over ↦
                    let e = str_lt_total (anchor_of s.nodes y) key n.0 not_over in
                    let same = rw e at (differs) in let self = str_eq_refl key in absurd (cc)
              ] in
            rw (b.run, onto, differs, over, w) refl
      ]

  search_node-rest :
      (rest : List ℕ)
      → Bottom s key fuel before rest
      → NotBelow s.nodes key rest
      → Ascends s.nodes rest
      → search_node fuel key s ≡ returned (lookup s.nodes key rest)
  unfolding search_node
  search_node-rest [] b n a =
      rw (b.run, forward-slot s.nodes (last_of s.head before) 0 none b.tail) refl
  search_node-rest (y ∷ ys) b n a =
      let onto = forward-slot s.nodes (last_of s.head before) 0 (some y) b.tail.0 in
      elim (Bool-cases (str_eq (anchor_of s.nodes y) key)) [
        | inl same ↦ rw (b.run, onto, same) refl
        | inr differs ↦
            rw (b.run, onto, differs, lookup-above s.nodes key ys (beyond s.nodes key y ys n.0 a.0))
              refl
      ]

module _ (ht : ℕ → ℕ) (ns : List ℕ) (s : SkipList) (g : IsSkipList ht ns s) (key : Bytes) (fuel : ℕ)
    (enough : length ns < fuel) where
  pub descend-Bottom : (p : Parted s.nodes key ns) → Bottom s key fuel p.before p.rest
  descend-Bottom p =
      let bs : All (λ n. 1 ≤ ht n) (p.before ++ p.rest) =
        subst (λ xs. All (λ n. 1 ≤ ht n) xs) p.joined (bottoms ht ns s g key fuel enough p) in
      let (d, run, f) = descend_head ht ns s g key fuel enough p 0 s.current_level (omega arith) in
      let e : d.walker ≡ last_of s.head p.before =
        f.walker
        ∙ ap (last_of s.head)
            (at_level-bottom ht p.before (All-append_left _ p.before p.rest bs)) in
      record {
        update = d.update;
        run = run ∙ ap (λ w. returned (record { update = d.update; walker = w })) e;
        tail = Chain-append s.nodes 0 s.head p.before p.rest (
            subst (λ xs. Chain s.nodes 0 s.head xs) (at_level-bottom ht (p.before ++ p.rest) bs)
              (Chain-at ht ns s g key fuel enough p 0 (omega arith)));
      }

  -- For a well-formed skip list and fuel for all its nodes, `fuzzy_search` of any string returns the last
  -- node of the whole list whose anchor is at most the string, and the head if there is none: never null,
  -- and without a read past a tower.
  pub fuzzy_search-floor : fuzzy_search fuel key s ≡ returned (some (floor s.nodes key s.head ns))
  fuzzy_search-floor =
      let p = part-Parted s.nodes key ns g.ascends.1 in
      let at_head : str_lt key (anchor_of s.nodes s.head) ≡ false = rw (g.first) (str_lt_nil key) in
      let at_last =
        last_of-All (λ n. str_lt key (anchor_of s.nodes n) ≡ false) s.head p.before at_head
          (All-imp _ _ (λ n. str_lt_asymm (anchor_of s.nodes n) key) p.before p.below) in
      let a : Ascends s.nodes (p.before ++ p.rest) = subst (Ascends s.nodes) p.joined g.ascends.1 in
      fuzzy_search-rest s key fuel p.before p.rest (descend-Bottom p) p.not_below
        (Ascends-append_right s.nodes p.before p.rest a) at_last
      ∙ ap (λ n. returned (some n))
          (sym (
            ap (floor s.nodes key s.head) p.joined
            ∙ floor-Below s.nodes key s.head p.before p.rest p.below))

  -- `search` of a string returns the node whose anchor it is, and null exactly if no node has it.
  pub search_node-lookup : search_node fuel key s ≡ returned (lookup s.nodes key ns)
  search_node-lookup =
      let p = part-Parted s.nodes key ns g.ascends.1 in
      let a : Ascends s.nodes (p.before ++ p.rest) = subst (Ascends s.nodes) p.joined g.ascends.1 in
      search_node-rest s key fuel p.before p.rest (descend-Bottom p) p.not_below
        (Ascends-append_right s.nodes p.before p.rest a)
      ∙ ap returned (
          sym (ap (lookup s.nodes key) p.joined ∙ lookup-Below s.nodes key p.before p.rest p.below))
