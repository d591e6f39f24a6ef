-- ===== src/Search/Async.antt =====
-- compute_node.cpp, `async_update`, with the calibration that it asks for.
use mathlib.Core.Path.{fun_ext}
use di_store.Base.{
  ℕ, ◌≤◌, ◌<◌, ◌≡◌, ◌≢◌, refl, sym, ap, ◌∙◌, subst, inl, inr, Option, none, some, List, ◌∷◌, ◌++◌,
  Bytes, ◌==◌, Bool-cases, if◌then◌else◌, ltb, ltb→lt, ltb→ge, arith, length, length-append, All,
  All-append_left, All-append_right, get_elem?,
}
use di_store.Compute.{SkipListNode}
use di_store.DataLayer.{LinkedNodeType}
use di_store.Search.{returned, Tower, Nodes, SkipList, max_level, set_backward}
use di_store.Search.Level.{at_level, last_of, slot, forward-slot}
use di_store.Search.Descend.{IsSkipList, Backward, at_level-bottom}
use di_store.Search.Order.{last_of-All, bottoms}
use di_store.Search.Update.{CalibrateContext, async_update, calibrate_popped}
use di_store.Search.Link.{
  second_write, second_write-Spliced, second_write-level, second_write-SameNodes, second_write-runs,
}
use di_store.Search.Splice.{Spliced}
use di_store.Search.Enter.{with_height, with_height_self, CanEnter, entered-IsSkipList}
use di_store.Search.Backward.{
  set_backward-same, set_backward_self, set_backward-ne, backward-IsSkipList, Backward-append_right,
}
use di_store.Search.Ready.{
  first_of, Chain-slot, absent-Parted, placed, kept, named, Chain-placed, tall,
}
use di_store.Search.Calibrate.{calibrate-IsSkipList}

with_height-twice :
    (ht : ℕ → ℕ) (node m n : ℕ) → with_height (with_height ht node m) node n ≡ with_height ht node n
with_height-twice ht node m n = fun_ext λ q. ground arith

module _ (ht : ℕ → ℕ) (xs ys : List ℕ) (s : SkipList) (fuel node level : ℕ) (key : Bytes) (r : ℕ)
    (t : LinkedNodeType) (enough : length (xs ++ node ∷ ys) < fuel)
    (c : CanEnter ht xs ys s node key) (one : 1 ≤ level) (most : level ≤ max_level) where
  fewer : length (xs ++ ys) < fuel
  fewer = omega (arith, length-append xs ys, length-append xs (node ∷ ys))

  abbrev at : ℕ
  at = last_of s.head xs

  abbrev before : Nodes
  before = placed ht xs ys s fuel node level key r t fewer c one most

  bottom : (at_level ht 0 xs ≡ xs) × (at_level ht 0 ys ≡ ys)
  bottom =
      let ones =
        bottoms ht (xs ++ ys) s c.list key fuel fewer
          (absent-Parted s.nodes key xs ys c.below c.above) in
      (
        at_level-bottom ht xs (All-append_left _ xs ys ones),
        at_level-bottom ht ys (All-append_right _ xs ys ones),
      )

  ne : at ≢ node
  ne = last_of-All (λ m. m ≢ node) s.head xs c.fresh.0 (All-append_left _ xs ys c.fresh.1)

  here : slot before at 0 ≡ some (first_of ys)
  here =
      subst (λ w. slot before w 0 ≡ some (first_of ys)) (ap (last_of s.head) bottom.0)
        (Chain-slot before 0 (last_of s.head (at_level ht 0 xs)) (at_level ht 0 ys)
            (Chain-placed ht xs ys s fuel node level key r t fewer c one most 0 (omega arith))
          ∙ ap (λ ns. some (first_of ns)) bottom.1)

  there : slot before node 0 ≡ some none
  there = tall ht xs ys s fuel node level key r t fewer c one most 0 one

  abbrev linked : Nodes
  linked = second_write before node at 0 (first_of ys) none ne here there

  abbrev updated : SkipList
  updated = record s { nodes = set_backward linked node (some at) }

  abbrev request : Option CalibrateContext
  request = if level == 1 then none else some (record { new_node = node; level = level })

  async_update-run : async_update at node level key t r s ≡ returned (updated, request)
  unfolding async_update
  async_update-run =
      let (write_1, write_2) =
        second_write-runs before node at 0 (first_of ys) none ne here there in
      rw (forward-slot before at 0 (first_of ys) here, write_1, write_2) refl

  updated-IsSkipList :
      1 ≤ s.current_level → IsSkipList (with_height ht node 1) (xs ++ node ∷ ys) updated
  updated-IsSkipList started =
      backward-IsSkipList (with_height ht node 1) (xs ++ node ∷ ys) (record s { nodes = linked })
        updated.nodes (set_backward-same linked node (some at))
        (entered-IsSkipList ht xs ys s node key c before
          (kept ht xs ys s fuel node level key r t fewer c one most)
          (ap (λ (n : SkipListNode). n.anchor)
            (named ht xs ys s fuel node level key r t fewer c one most))
          linked 1 s.current_level
          (record {
            same = λ q.
                ap (λ (n : SkipListNode). n.anchor)
                  (second_write-SameNodes before node at 0 (first_of ys) none ne here there q).0;
            spliced = λ j lt.
                subst (λ k. Spliced before linked k (last_of s.head (at_level ht k xs)) node)
                  (let e : 0 ≡ j = omega (arith, lt) in e)
                  (rw (bottom.0)
                    (second_write-Spliced before node at 0 (first_of ys) none ne here there));
            outside = λ q j le.
                second_write-level before node at 0 (first_of ys) none ne here there q j
                  (λ (same : 0 ≡ j). omega arith);
          })
          (omega arith) started (omega arith) c.list.levels)

  tall_updated : (j : ℕ) → j < level → (next : Option ℕ) × (slot updated.nodes node j ≡ some next)
  tall_updated j lt =
      let same : slot updated.nodes node j ≡ slot linked node j =
        ap (λ f. get_elem? f j) (set_backward-same linked node (some at) node).1 in
      elim (Bool-cases (ltb 0 j)) [
        | inl high ↦
            let above : 0 < j = ltb→lt 0 j high in
            (
              none,
              same
                  ∙ second_write-level before node at 0 (first_of ys) none ne here there node j
                      (λ (e : 0 ≡ j). omega arith)
                  ∙ tall ht xs ys s fuel node level key r t fewer c one most j lt,
            )
        | inr low ↦
            let e : 0 ≡ j = let le = ltb→ge 0 j low in omega arith in
            (
              first_of ys,
              same
                  ∙ subst (λ k. slot linked node k ≡ some (first_of ys)) e
                      ((second_write-Spliced before node at 0 (first_of ys) none ne here
                          there).at_node
                        ∙ here),
            )
      ]

  calibrated :
      1 ≤ s.current_level
      → (s' : SkipList) × (calibrate_popped fuel request updated ≡ returned s')
        × IsSkipList (with_height ht node level) (xs ++ node ∷ ys) s'
  unfolding calibrate_popped
  calibrated started = elim (Bool-cases (level == 1)) [
    | inl single ↦
        let e : 1 ≡ level = ground arith in
        (
          updated,
          rw single refl,
          subst (λ l. IsSkipList (with_height ht node l) (xs ++ node ∷ ys) updated) e
              (updated-IsSkipList started),
        )
    | inr several ↦
        let (s', run, g, same) =
          calibrate-IsSkipList (with_height ht node 1) xs ys updated node level
            (record {
              list = updated-IsSkipList started;
              once = with_height_self ht node 1;
              tall = tall_updated;
              one = one;
              most = most;
            })
            fuel enough in
        (
          s',
          rw several run,
          subst (λ f. IsSkipList f (xs ++ node ∷ ys) s') (with_height-twice ht node 1 level) g,
        )
  ]

  -- For a node that is not in a well-formed list with a level or more, the node that `fuzzy_search` of its
  -- key ends at, and fuel for all nodes: `async_update` returns, the new node is between the smaller and the
  -- larger anchors, at the lowest level, and the list is well-formed; once the calibration it asks for is
  -- popped, the node is at all its levels and the list is well-formed again.
  pub async_update-calibrate_popped :
      1 ≤ s.current_level
      → (s' : SkipList) × (req : Option CalibrateContext) × (s'' : SkipList) × (async_update at node
            level key t r s
          ≡ returned (s', req))
        × (calibrate_popped fuel req s' ≡ returned s'')
        × IsSkipList (with_height ht node 1) (xs ++ node ∷ ys) s'
        × IsSkipList (with_height ht node level) (xs ++ node ∷ ys) s''
  async_update-calibrate_popped started =
      let (s'', run, g) = calibrated started in
      (updated, request, s'', async_update-run, run, updated-IsSkipList started, g)

  -- In a list where `backward` of each node is the node before it, `async_update` before a node leaves that
  -- node's `backward` at the node that the new one follows, which is not the node before it any more.
  pub async_update-backward :
      (y : ℕ) (rest : List ℕ)
      → ys ≡ y ∷ rest
      → Backward s.nodes s.head (xs ++ ys)
      → (s' : SkipList) × (req : Option CalibrateContext) × (async_update at node level key t r s
          ≡ returned (s', req))
        × ((s'.nodes node).backward ≡ some at)
        × ((s'.nodes y).backward ≡ some at)
        × ¬ Backward s'.nodes s.head (xs ++ node ∷ ys)
  async_update-backward y rest e back =
      let fresh : All (λ q. q ≢ node) (y ∷ rest) =
        subst (All (λ q. q ≢ node)) e (All-append_right _ xs ys c.fresh.1) in
      let first : Backward s.nodes at (y ∷ rest) =
        subst (Backward s.nodes at) e (Backward-append_right s.nodes s.head xs ys back) in
      let stale : (updated.nodes y).backward ≡ some at =
        set_backward-ne linked node (some at) y fresh.0
        ∙ (second_write-SameNodes before node at 0 (first_of ys) none ne here there y).1
        ∙ ap (λ (x : Tower). x.backward)
            (kept ht xs ys s fuel node level key r t fewer c one most y fresh.0)
        ∙ first.0 in
      let refuted : ¬ Backward updated.nodes s.head (xs ++ node ∷ ys) = λ b.
        let after : Backward updated.nodes at (node ∷ y ∷ rest) =
          subst (λ zs. Backward updated.nodes at (node ∷ zs)) e
            (Backward-append_right updated.nodes s.head xs (node ∷ ys) b) in
        let both : some at ≡ some node = sym stale ∙ after.1.0 in ne (cc) in
      (updated, request, async_update-run, set_backward_self linked node (some at), stale, refuted)
