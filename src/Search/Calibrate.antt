-- ===== src/Search/Calibrate.antt =====
-- `calibrate` links a node that is in the list at its lowest level at the levels above.
use di_store.Base.{
  ℕ, zero, suc, ◌+◌, ◌-◌, ◌≤◌, ◌<◌, ◌≡◌, ◌≢◌, refl, sym, ap, ◌∙◌, subst, inl, inr, false, Option,
  some, List, [], ◌∷◌, ◌++◌, ltb, leb, if◌then◌else◌, Bool-cases, ltb→lt, ltb→ge, arith, length,
  All, All-of, All-imp, All-both, All-append, All-append_left, All-append_right,
}
use di_store.Compute.{SkipListNode}
use di_store.Search.{returned, Nodes, SkipList, anchor_of, max_level}
use di_store.Search.Level.{at_level, last_of, slot, Chain, All-at_level, at_level-append}
use di_store.Search.Descend.{IsSkipList, at_level-top, at_level-bottom}
use di_store.Search.Order.{last_of-All, Chain-append, descend_head}
use di_store.Search.Update.{raise_update, raise_level, calibrate}
use di_store.Search.Splice.{Distinct, SameNodes, Chain-frame, Chain-splice}
use di_store.Search.Link.{CanLink, Linked, link_levels-Linked}
use di_store.Search.Enter.{
  with_height, with_height_self, with_height-ne, Ascends-Distinct, Ascends-frame, Distinct-at_level,
  at_level-same,
}
use di_store.Search.Ready.{
  first_of, Chain-slot, raise_update-above, raise_update-under, raise_level-bounds,
}
use di_store.Search.Middle.{Distinct-middle, node-Parted}

-- `node` is in the list at its lowest level only, and its tower has `level` pointers or more.
pub record CanCalibrate (ht : ℕ → ℕ) (xs ys : List ℕ) (s : SkipList) (node level : ℕ) : Type 0 where
  pub list : IsSkipList ht (xs ++ node ∷ ys) s
  pub once : ht node ≡ 1
  pub tall : (j : ℕ) → j < level → (next : Option ℕ) × (slot s.nodes node j ≡ some next)
  pub one : 1 ≤ level
  pub most : level ≤ max_level

module _ (ht : ℕ → ℕ) (xs ys : List ℕ) (s : SkipList) (node level : ℕ)
    (c : CanCalibrate ht xs ys s node level) where
  abbrev target : ℕ → ℕ
  target j = last_of s.head (at_level ht j xs)

  abbrev lower : ℕ → List ℕ
  lower j = at_level ht j xs ++ at_level ht j ys

  parts :
      All (λ q. q ≢ node) (s.head ∷ xs) × All (λ q. q ≢ node) ys × Distinct (s.head ∷ (xs ++ ys))
  parts =
      Distinct-middle node (s.head ∷ xs) ys
        (Ascends-Distinct s.nodes (s.head ∷ (xs ++ node ∷ ys)) c.list.ascends)

  All-apart : All (λ q. q ≢ node) (xs ++ ys)
  All-apart = All-append _ xs ys parts.0.1 parts.1

  -- above its lowest level, the node is in no chain
  without : (j : ℕ) → 1 ≤ j → at_level ht j (xs ++ node ∷ ys) ≡ lower j
  without j le =
      let low : ltb j (ht node) ≡ false = rw (c.once) (ground arith) in
      at_level-append ht j xs (node ∷ ys) ∙ (rw low refl)

  Chain-without : (j : ℕ) → 1 ≤ j → j < max_level → Chain s.nodes j s.head (lower j)
  Chain-without j le lt = subst (Chain s.nodes j s.head) (without j le) (c.list.chains j lt)

  linkable :
      (u : ℕ → Option ℕ)
      → ((j : ℕ) → 1 ≤ j → j < s.current_level → u j ≡ some (target j))
      → CanLink s.nodes (raise_update level s u) target node 1 level
  linkable u f = record {
    known = λ j p q. elim (Bool-cases (leb s.current_level j)) [
      | inl high ↦
          let over : s.current_level ≤ j = ground arith in
          let none_so_high : at_level ht j xs ≡ [] = at_level-top ht j xs (
            All-imp (λ n. (1 ≤ ht n) × (ht n ≤ s.current_level)) _ (λ n b. omega (arith, b.1)) xs
              (All-append_left _ xs (node ∷ ys) c.list.heights)) in
          raise_update-above level s u j over q
          ∙ ap (λ l. some (last_of s.head l)) (sym none_so_high)
      | inr low ↦
          let under : j < s.current_level = ground arith in
          raise_update-under level s u j under ∙ f j p under
    ];
    apart = λ j p q.
        last_of-All (λ m. m ≢ node) s.head (at_level ht j xs) parts.0.0
          (All-at_level _ ht j xs parts.0.1);
    read = λ j p q. (
      first_of (at_level ht j ys),
      Chain-slot s.nodes j (target j) (at_level ht j ys) (
          Chain-append s.nodes j s.head (at_level ht j xs) (at_level ht j ys)
            (Chain-without j p (omega (arith, c.most)))),
    );
    tall = λ j p q. c.tall j q;
  }

  module _ (h : Nodes) (l : Linked s.nodes h target node 1 level) where
    same_heights : All (λ q. with_height ht node level q ≡ ht q) (xs ++ ys)
    same_heights = All-imp _ _ (λ q ne. with_height-ne ht node level q ne) (xs ++ ys) All-apart

    split_level :
        (j : ℕ)
        → at_level (with_height ht node level) j (xs ++ node ∷ ys)
          ≡ at_level ht j xs ++ (if ltb j level then node ∷ at_level ht j ys else at_level ht j ys)
    split_level j =
        rw
          (
            at_level-append (with_height ht node level) j xs (node ∷ ys),
            at_level-same ht (with_height ht node level) j xs
                (All-append_left _ xs ys same_heights),
            at_level-same ht (with_height ht node level) j ys
                (All-append_right _ xs ys same_heights),
            with_height_self ht node level,
          )
          refl

    Chain-linked :
        (j : ℕ) → 1 ≤ j → j < level → Chain h j s.head (at_level ht j xs ++ node ∷ at_level ht j ys)
    Chain-linked j le lt =
        Chain-splice s.nodes h j node s.head (at_level ht j xs) (at_level ht j ys)
          (l.spliced j le lt)
          (subst (λ ns. Distinct (s.head ∷ ns)) (at_level-append ht j xs ys)
            (All-at_level _ ht j (xs ++ ys) parts.2.0, Distinct-at_level ht j (xs ++ ys) parts.2.1))
          (subst (λ ns. All (λ q. q ≢ node) (s.head ∷ ns)) (at_level-append ht j xs ys)
            (parts.0.0, All-at_level _ ht j (xs ++ ys) All-apart))
          (Chain-without j le (omega (arith, c.most)))

    higher :
        (level ≤ raise_level level s.current_level)
        × (s.current_level ≤ raise_level level s.current_level)
        × (raise_level level s.current_level ≤ max_level)
    higher = raise_level-bounds level s.current_level c.most c.list.levels

    abbrev Fits : ℕ → Type 0
    Fits q =
        (1 ≤ with_height ht node level q)
        × (with_height ht node level q ≤ raise_level level s.current_level)

    heights_calibrated : All Fits (xs ++ node ∷ ys)
    heights_calibrated =
        let old = c.list.heights in
        let fits : (q : ℕ)
            → ((1 ≤ ht q) × (ht q ≤ s.current_level)) × (with_height ht node level q ≡ ht q)
            → Fits q =
          λ q p. rw (p.1) (p.0.0, omega (arith, p.0.1, higher.1)) in
        All-append Fits xs (node ∷ ys)
          (All-imp _ _ fits xs (
            All-both _ _ xs (All-append_left _ xs (node ∷ ys) old)
              (All-append_left _ xs ys same_heights)))
          (
            rw (with_height_self ht node level) (c.one, higher.0),
            All-imp _ _ fits ys (
                All-both _ _ ys (All-append_right _ xs (node ∷ ys) old).1
                  (All-append_right _ xs ys same_heights)),
          )

    chains_calibrated :
        (j : ℕ)
        → j < max_level
        → Chain h j s.head (at_level (with_height ht node level) j (xs ++ node ∷ ys))
    chains_calibrated zero lt =
        rw
          (at_level-bottom (with_height ht node level) (xs ++ node ∷ ys)
            (All-imp Fits _ (λ q p. p.0) (xs ++ node ∷ ys) heights_calibrated))
          (Chain-frame s.nodes h 0 s.head (xs ++ node ∷ ys)
            (All-of _ (λ q. l.outside q 0 (inl (omega arith))) (s.head ∷ (xs ++ node ∷ ys)))
            (subst (Chain s.nodes 0 s.head)
              (at_level-bottom ht (xs ++ node ∷ ys) (
                All-imp (λ n. (1 ≤ ht n) × (ht n ≤ s.current_level)) _ (λ q p. p.0)
                  (xs ++ node ∷ ys) c.list.heights))
              (c.list.chains 0 (omega arith))))
    chains_calibrated (suc i) lt = rw (split_level (suc i)) (elim (Bool-cases (ltb (suc i) level)) [
      | inl low ↦ rw low (Chain-linked (suc i) (omega arith) (ltb→lt (suc i) level low))
      | inr high ↦ rw high (
          Chain-frame s.nodes h (suc i) s.head (lower (suc i))
            (All-of _ (λ q. l.outside q (suc i) (inr (ltb→ge (suc i) level high)))
              (s.head ∷ lower (suc i)))
            (Chain-without (suc i) (omega arith) lt))
    ])

    list_calibrated :
        IsSkipList
          (with_height ht node level)
          (xs ++ node ∷ ys)
          (record s { current_level = raise_level level s.current_level; nodes = h })
    list_calibrated = record {
      chains = chains_calibrated;
      ascends =
          Ascends-frame s.nodes h (s.head ∷ (xs ++ node ∷ ys))
            (All-of _ (λ q. ap (λ (n : SkipListNode). n.anchor) (l.same q).0)
              (s.head ∷ (xs ++ node ∷ ys)))
            c.list.ascends;
      heights = heights_calibrated;
      levels = higher.2;
      first = ap (λ (n : SkipListNode). n.anchor) (l.same s.head).0 ∙ c.list.first;
    }

  -- `calibrate` of a node that is in a well-formed list at its lowest level, with a tower of that many
  -- pointers, returns; the list stays well-formed and the node is in it at all its levels.
  pub calibrate-IsSkipList :
      (fuel : ℕ)
      → length (xs ++ node ∷ ys) < fuel
      → (s' : SkipList) × (calibrate fuel (record { new_node = node; level = level }) s
          ≡ returned s')
        × IsSkipList (with_height ht node level) (xs ++ node ∷ ys) s'
        × SameNodes s.nodes s'.nodes
  unfolding calibrate
  calibrate-IsSkipList fuel enough =
      let key = anchor_of s.nodes node in
      let p = node-Parted s.nodes node xs ys c.list.ascends.1 in
      let mine =
        (All-append_right (λ n. (1 ≤ ht n) × (ht n ≤ s.current_level)) xs (node ∷ ys)
          c.list.heights).0 in
      let e : s.current_level ≡ 1 + (s.current_level - 1) = omega (arith, mine.0, mine.1) in
      let (d, run, f) =
        descend_head ht (xs ++ node ∷ ys) s c.list key fuel enough p 1 (s.current_level - 1) e in
      let (h, link, l) =
        link_levels-Linked s.nodes (raise_update level s d.update) target node 1 (level - 1) level
          (omega (arith, c.one)) (linkable d.update (λ j p q. f.update j p q)) in
      (
        record s { current_level = raise_level level s.current_level; nodes = h },
        rw (run, link) refl,
        list_calibrated h l,
        l.same,
      )
