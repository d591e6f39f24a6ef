-- ===== src/Search/TakeOut.antt =====
-- `remove` of an anchor that a node has.
use di_store.Base.{
  ℕ, ◌≤◌, ◌<◌, ◌≡◌, ◌≢◌, refl, sym, ap, ◌∙◌, subst, inl, inr, true, false, Option, none, some, List,
  [], ◌∷◌, ◌++◌, ltb, Bool-cases, ltb→lt, ltb→ge, arith, length, All, All-of, All-imp, All-both,
  All-append, All-append_left, All-append_right, str_eq_refl, lt→ltb,
}
use di_store.Compute.{SkipListNode}
use di_store.Search.{returned, Nodes, SkipList, anchor_of, max_level, set_backward, deref}
use di_store.Search.Level.{
  at_level, last_of, slot, Chain, at_level-append, All-at_level, forward-slot,
}
use di_store.Search.Descend.{Ascends, IsSkipList}
use di_store.Search.Order.{last_of-All, Chain-append, descend_head}
use di_store.Search.Update.{take_out, remove, lower_level}
use di_store.Search.Splice.{Distinct, Chain-frame}
use di_store.Search.Enter.{Ascends-Distinct, Ascends-frame, Distinct-at_level}
use di_store.Search.Backward.{set_backward-same, backward-IsSkipList}
use di_store.Search.Ready.{first_of, Chain-slot}
use di_store.Search.Middle.{Distinct-middle, node-Parted}
use di_store.Search.Unlink.{CanCut, Cut, unlink_levels-Cut, Chain-cut}
use di_store.Search.Lower.{lower_level-heights}

Ascends-remove :
    (h : Nodes) (n : ℕ) (xs ys : List ℕ) → Ascends h (xs ++ n ∷ ys) → Ascends h (xs ++ ys)
Ascends-remove h n [] ys a = a.1
Ascends-remove h n (x ∷ xs) ys a = (
  All-append _ xs ys (All-append_left _ xs (n ∷ ys) a.0) (All-append_right _ xs (n ∷ ys) a.0).1,
  Ascends-remove h n xs ys a.1,
)

first_of-ne : (n : ℕ) (ns : List ℕ) → All (λ q. q ≢ n) ns → first_of ns ≢ some n
first_of-ne n [] a = λ e. absurd (cc)
first_of-ne n (x ∷ ns) a = λ e. let same : x ≡ n = cc in a.0 same

-- What the next node's `backward` becomes leaves everything else as it was.
abbrev relinked : Nodes → Option ℕ → Option ℕ → Nodes
relinked h after b = elim after [ none ↦ h | some q ↦ set_backward h q b ]

relinked-same :
    (h : Nodes) (after b : Option ℕ) (q : ℕ)
    → ((relinked h after b q).node ≡ (h q).node)
      × ((relinked h after b q).forwards ≡ (h q).forwards)
relinked-same h none b q = (refl, refl)
relinked-same h (some p) b q = set_backward-same h p b q

module _ (ht : ℕ → ℕ) (xs ys : List ℕ) (node : ℕ) (s : SkipList)
    (g : IsSkipList ht (xs ++ node ∷ ys) s) where
  abbrev Fits : ℕ → Type 0
  Fits n = (1 ≤ ht n) × (ht n ≤ s.current_level)

  abbrev target : ℕ → ℕ
  target j = last_of s.head (at_level ht j xs)

  mine : Fits node
  mine = (All-append_right Fits xs (node ∷ ys) g.heights).0

  all-Distinct : Distinct (s.head ∷ (xs ++ node ∷ ys))
  all-Distinct = Ascends-Distinct s.nodes (s.head ∷ (xs ++ node ∷ ys)) g.ascends

  others : All (λ q. q ≢ node) (s.head ∷ xs) × All (λ q. q ≢ node) ys
  others =
      let (left, right, both) = Distinct-middle node (s.head ∷ xs) ys all-Distinct in (left, right)

  target-ne : (j : ℕ) → target j ≢ node
  target-ne j =
      last_of-All (λ m. m ≢ node) s.head (at_level ht j xs) others.0.0
        (All-at_level (λ m. m ≢ node) ht j xs others.0.1)

  with_node :
      (j : ℕ)
      → j < ht node
      → at_level ht j (xs ++ node ∷ ys) ≡ at_level ht j xs ++ node ∷ at_level ht j ys
  with_node j lt = at_level-append ht j xs (node ∷ ys) ∙ rw (lt→ltb j (ht node) lt) refl

  without_node :
      (j : ℕ) → ltb j (ht node) ≡ false → at_level ht j (xs ++ node ∷ ys) ≡ at_level ht j (xs ++ ys)
  without_node j low =
      at_level-append ht j xs (node ∷ ys) ∙ rw low (sym (at_level-append ht j xs ys))

  Chain-with :
      (j : ℕ) → j < ht node → Chain s.nodes j s.head (at_level ht j xs ++ node ∷ at_level ht j ys)
  Chain-with j lt =
      let in_range : j < max_level = let m = mine in let l = g.levels in omega (arith, m.1) in
      subst (Chain s.nodes j s.head) (with_node j lt) (g.chains j in_range)

  Chain-without :
      (j : ℕ)
      → j < max_level
      → ltb j (ht node) ≡ false
      → Chain s.nodes j s.head (at_level ht j (xs ++ ys))
  Chain-without j lt low = subst (Chain s.nodes j s.head) (without_node j low) (g.chains j lt)

  can_cut :
      (update : ℕ → Option ℕ)
      → ((j : ℕ) → 0 ≤ j → j < s.current_level → update j ≡ some (target j))
      → CanCut s.nodes update target node (ht node) 0 s.current_level
  can_cut update known = record {
    known = known;
    linked = λ j p q.
        (Chain-append s.nodes j s.head (at_level ht j xs) (node ∷ at_level ht j ys)
          (Chain-with j q)).0;
    tower = λ j p q. (
      first_of (at_level ht j ys),
      Chain-slot s.nodes j node (at_level ht j ys)
          (Chain-append s.nodes j s.head (at_level ht j xs) (node ∷ at_level ht j ys)
            (Chain-with j q)).1,
    );
    stops = λ j p q.
        let in_range : j < max_level = let l = g.levels in omega arith in
        let low : ltb j (ht node) ≡ false = ground arith in
        (
          first_of (at_level ht j ys),
          Chain-slot s.nodes j (target j) (at_level ht j ys) (
              Chain-append s.nodes j s.head (at_level ht j xs) (at_level ht j ys) (
                subst (Chain s.nodes j s.head) (at_level-append ht j xs ys)
                  (Chain-without j in_range low))),
          first_of-ne node (at_level ht j ys) (All-at_level (λ q. q ≢ node) ht j ys others.1),
        );
  }

  module _ (h : Nodes) (c : Cut s.nodes h target node 0 (ht node)) where
    chains_cut : (j : ℕ) → j < max_level → Chain h j s.head (at_level ht j (xs ++ ys))
    chains_cut j lt = elim (Bool-cases (ltb j (ht node))) [
      | inl tall ↦
          let under = ltb→lt j (ht node) tall in
          let apart : Distinct (s.head ∷ (at_level ht j xs ++ node ∷ at_level ht j ys)) =
            subst (λ ns. Distinct (s.head ∷ ns)) (with_node j under)
              (
                All-at_level (λ m. s.head ≢ m) ht j (xs ++ node ∷ ys) all-Distinct.0,
                Distinct-at_level ht j (xs ++ node ∷ ys) all-Distinct.1,
              ) in
          rw (at_level-append ht j xs ys) (
            Chain-cut s.nodes h j node s.head (at_level ht j xs) (at_level ht j ys)
              (c.cut j (omega arith) under) (λ q ne. c.kept q j (inr (inr ne))) apart
              (Chain-with j under))
      | inr low ↦
          Chain-frame s.nodes h j s.head (at_level ht j (xs ++ ys))
            (All-of _ (λ q. c.kept q j (inr (inl (ltb→ge j (ht node) low))))
              (s.head ∷ at_level ht j (xs ++ ys)))
            (Chain-without j lt low)
    ]

    cut-IsSkipList : IsSkipList ht (xs ++ ys) (record s { nodes = h })
    cut-IsSkipList = record {
      chains = chains_cut;
      ascends =
          Ascends-frame s.nodes h (s.head ∷ (xs ++ ys))
            (All-of _ (λ q. ap (λ (n : SkipListNode). n.anchor) (c.same q).0) (s.head ∷ (xs ++ ys)))
            (Ascends-remove s.nodes node (s.head ∷ xs) ys g.ascends);
      heights =
          All-append Fits xs ys (All-append_left Fits xs (node ∷ ys) g.heights)
            (All-append_right Fits xs (node ∷ ys) g.heights).1;
      levels = g.levels;
      first = ap (λ (n : SkipListNode). n.anchor) (c.same s.head).0 ∙ g.first;
    }

    -- with the empty levels taken off
    lower_cut :
        (h' : Nodes)
        → ((q : ℕ) → ((h' q).node ≡ (h q).node) × ((h' q).forwards ≡ (h q).forwards))
        → (level : ℕ) × (lower_level h' s.head s.current_level ≡ returned level)
          × IsSkipList ht (xs ++ ys) (record s { current_level = level; nodes = h' })
    lower_cut h' same =
        let g' =
          backward-IsSkipList ht (xs ++ ys) (record s { nodes = h }) h' same cut-IsSkipList in
        let (level, run, le, low) =
          lower_level-heights ht (xs ++ ys) h' s.head s.current_level
            (λ j lt. g'.chains j (let l = g.levels in omega arith))
            (All-imp Fits _ (λ q f. f.1) (xs ++ ys) g'.heights) in
        (
          level,
          run,
          record {
            chains = g'.chains;
            ascends = g'.ascends;
            heights =
                All-both _ _ (xs ++ ys) (All-imp Fits _ (λ q f. f.0) (xs ++ ys) g'.heights) low;
            levels = let l = g.levels in omega arith;
            first = g'.first;
          },
        )

  take_out-IsSkipList :
      (update : ℕ → Option ℕ)
      → ((j : ℕ) → 0 ≤ j → j < s.current_level → update j ≡ some (target j))
      → (s' : SkipList) × (take_out update node s ≡ returned (s', true))
        × IsSkipList ht (xs ++ ys) s'
        × ((q : ℕ) → (s'.nodes q).node ≡ (s.nodes q).node)
  unfolding take_out
  take_out-IsSkipList update known =
      let (h, run, c) =
        unlink_levels-Cut update target node (ht node) s.current_level s.current_level 0 s.nodes
          (omega arith) (let m = mine in m.1) (can_cut update known) in
      let (next, at) = (can_cut update known).tower 0 (omega arith) (let m = mine in m.0) in
      let after : slot h node 0 ≡ some next =
        c.kept node 0 (inr (inr (λ e. target-ne 0 (sym e)))) ∙ at in
      let same = relinked-same h next (h node).backward in
      let (level, lowered, list) = lower_cut h c (relinked h next (h node).backward) same in
      (
        record s { current_level = level; nodes = relinked h next (h node).backward },
        rw (run, forward-slot h node 0 next after, lowered) refl,
        list,
        λ q. (same q).0 ∙ (c.same q).0,
      )

  -- For a well-formed list with the nodes `xs`, `node` and `ys` and fuel for all of them: `remove` of the
  -- anchor of `node` returns true, the list is well-formed with the nodes `xs` and `ys`, each at the levels
  -- where it was, and no entry of a node has changed.
  pub remove-IsSkipList :
      (fuel : ℕ)
      → length (xs ++ node ∷ ys) < fuel
      → (s' : SkipList) × (remove fuel (anchor_of s.nodes node) s ≡ returned (s', true))
        × IsSkipList ht (xs ++ ys) s'
        × ((q : ℕ) → (s'.nodes q).node ≡ (s.nodes q).node)
  unfolding remove deref
  remove-IsSkipList fuel enough =
      let key = anchor_of s.nodes node in
      let p = node-Parted s.nodes node xs ys g.ascends.1 in
      let (d, run, f) =
        descend_head ht (xs ++ node ∷ ys) s g key fuel enough p 0 s.current_level (omega arith) in
      let (s', taken, list, entries) = take_out-IsSkipList d.update (λ j a b. f.update j a b) in
      let next : slot s.nodes (target 0) 0 ≡ some (some node) =
        (can_cut d.update (λ j a b. f.update j a b)).linked 0 (omega arith) (let m = mine in m.0) in
      (
        s',
        rw (run, f.walker, forward-slot s.nodes (target 0) 0 (some node) next, str_eq_refl key)
            taken,
        list,
        entries,
      )
