-- ===== src/Search/Unlink.antt =====
-- The loop of `remove` that takes a node out of its levels, and a level without the node.
use di_store.Base.{
  ℕ, zero, suc, ◌+◌, ◌≤◌, ◌<◌, ◌≡◌, ◌≢◌, refl, sym, ap, ◌∙◌, subst, ◌⊎◌, inl, inr, false, Option,
  none, some, List, [], ◌∷◌, ◌++◌, ltb, ◌==◌, ==_iff, Bool-cases, ltb→lt, ltb→ge, arith, All-imp,
  All-append_left,
}
use di_store.Search.{returned, Nodes, with_forward, deref}
use di_store.Search.Level.{slot, forward-slot, Chain, last_of}
use di_store.Search.Order.{last_of-All}
use di_store.Search.Update.{unlink_levels}
use di_store.Search.Link.{set_forward-slot, SameNodes-trans}
use di_store.Search.Splice.{
  Distinct, SameNodes, with_forward-SameNodes, slot-with_forward_self, slot-with_forward_ne,
  slot-with_forward_level, Chain-restart,
}

-- From the level `lowest` up to `top`, `node` follows `target j` at the levels below `height` and does not
-- at the others.
pub record CanCut (h : Nodes) (update : ℕ → Option ℕ) (target : ℕ → ℕ) (node height lowest top : ℕ)
    : Type 0 where
  pub known : (j : ℕ) → lowest ≤ j → j < top → update j ≡ some (target j)
  pub linked : (j : ℕ) → lowest ≤ j → j < height → slot h (target j) j ≡ some (some node)
  pub tower : (j : ℕ) → lowest ≤ j → j < height → (next : Option ℕ) × (slot h node j ≡ some next)
  pub stops :
      (j : ℕ)
      → height ≤ j
      → j < top
      → (next : Option ℕ) × (slot h (target j) j ≡ some next) × (next ≢ some node)

pub record Cut (h h' : Nodes) (target : ℕ → ℕ) (node lowest height : ℕ) : Type 0 where
  pub same : SameNodes h h'
  pub cut : (j : ℕ) → lowest ≤ j → j < height → slot h' (target j) j ≡ slot h node j
  pub kept : (q j : ℕ) → (j < lowest) ⊎ (height ≤ j) ⊎ (q ≢ target j) → slot h' q j ≡ slot h q j

unchanged-Cut :
    (h : Nodes) (target : ℕ → ℕ) (node lowest height : ℕ)
    → height ≤ lowest
    → Cut h h target node lowest height
unchanged-Cut h target node lowest height le = record {
  same = λ q. (refl, refl);
  cut = λ j p q. absurd (omega arith);
  kept = λ q j o. refl;
}

module _ (update : ℕ → Option ℕ) (target : ℕ → ℕ) (node height top : ℕ) where
  -- the pass at a level where the node is
  Cut-one :
      (h : Nodes) (i : ℕ) (after : Option ℕ)
      → i < height
      → slot h (target i) i ≡ some (some node)
      → slot h node i ≡ some after
      → (h' : Nodes) → Cut (with_forward h (target i) i after) h' target node (suc i) height
      → Cut h h' target node i height
  Cut-one h i after lt here there h' c =
      let g = with_forward h (target i) i after in
      let above : (q j : ℕ) → i ≢ j → slot g q j ≡ slot h q j =
        λ q j. slot-with_forward_level h (target i) q j i after in
      record {
        same = SameNodes-trans h g h' (with_forward-SameNodes h (target i) i after) c.same;
        cut = λ j p q. elim (Bool-cases (ltb i j)) [
          | inl more ↦
              let m = ltb→lt i j more in
              c.cut j (omega arith) q ∙ above node j (λ (at : i ≡ j). omega arith)
          | inr less ↦
              let at : i ≡ j = let ge = ltb→ge i j less in omega arith in
              subst (λ k. slot h' (target k) k ≡ slot h node k) at
                (c.kept (target i) i (inl (omega arith))
                  ∙ slot-with_forward_self h (target i) i (some node) after here
                  ∙ sym there)
        ];
        kept = λ q j o. elim (Bool-cases (j == i)) [
          | inl at ↦
              let e : j ≡ i = (==_iff j i).0 at in
              let ne : q ≢ target i = elim o [
                | inl under ↦ absurd (omega arith)
                | inr (inl over) ↦ absurd (omega arith)
                | inr (inr apart) ↦ rw e at apart
              ] in
              rw e
                (c.kept q i (inl (omega arith)) ∙ slot-with_forward_ne h (target i) q i i after ne)
          | inr away ↦
              let ne : i ≢ j = ground arith in
              let o' : (j < suc i) ⊎ (height ≤ j) ⊎ (q ≢ target j) = elim o [
                | inl under ↦ inl (omega arith)
                | inr rest ↦ inr rest
              ] in
              c.kept q j o' ∙ above q j ne
        ];
      }

  later :
      (h : Nodes) (i : ℕ) (after : Option ℕ)
      → i < height
      → CanCut h update target node height i top
      → CanCut (with_forward h (target i) i after) update target node height (suc i) top
  later h i after lt c =
      let above : (q j : ℕ)
          → suc i ≤ j
          → slot (with_forward h (target i) i after) q j ≡ slot h q j =
        λ q j le. slot-with_forward_level h (target i) q j i after (λ (at : i ≡ j). omega arith) in
      record {
        known = λ j p q. c.known j (omega arith) q;
        linked = λ j p q. above (target j) j p ∙ c.linked j (omega arith) q;
        tower = λ j p q. let (next, e) = c.tower j (omega arith) q in (next, above node j p ∙ e);
        stops = λ j p q.
            let (next, e, ne) = c.stops j p q in (next, above (target j) j (omega arith) ∙ e, ne);
      }

  go_one :
      (h : Nodes) (i count : ℕ) (after : Option ℕ)
      → update i ≡ some (target i)
      → slot h (target i) i ≡ some (some node)
      → slot h node i ≡ some after
      → unlink_levels update node i (suc count) h
        ≡ unlink_levels update node (suc i) count (with_forward h (target i) i after)
  unfolding unlink_levels deref
  go_one h i count after known here there =
      rw
        (
          known,
          forward-slot h (target i) i (some node) here,
          (==_iff node node).1 refl,
          forward-slot h node i after there,
          set_forward-slot h (target i) i (some node) after here,
        )
        refl

  end_one : (h : Nodes) (i : ℕ) → unlink_levels update node i 0 h ≡ returned h
  unfolding unlink_levels
  end_one h i = refl

  -- the pass at a level where the node is not
  stop_one :
      (h : Nodes) (i count : ℕ) (next : Option ℕ)
      → update i ≡ some (target i)
      → slot h (target i) i ≡ some next
      → next ≢ some node
      → unlink_levels update node i (suc count) h ≡ returned h
  unfolding unlink_levels deref
  stop_one h i count none known at ne = rw (known, forward-slot h (target i) i none at) refl
  stop_one h i count (some q) known at ne =
      let other : (q == node) ≡ false = elim (Bool-cases (q == node)) [
        | inr differs ↦ differs
        | inl same ↦ absurd (ne (ap some ((==_iff q node).0 same)))
      ] in
      rw (known, forward-slot h (target i) i (some q) at, other) refl

  pub unlink_levels-Cut :
      (count i : ℕ) (h : Nodes)
      → i + count ≡ top
      → height ≤ top
      → CanCut h update target node height i top
      → (h' : Nodes) × (unlink_levels update node i count h ≡ returned h')
        × Cut h h' target node i height
  unlink_levels-Cut zero i h e le c =
      (h, end_one h i, unchanged-Cut h target node i height (omega arith))
  unlink_levels-Cut (suc count) i h e le c = elim (Bool-cases (ltb i height)) [
    | inr over ↦
        let ge = ltb→ge i height over in
        let (next, at, ne) = c.stops i ge (omega arith) in
        (
          h,
          stop_one h i count next (c.known i (omega arith) (omega arith)) at ne,
          unchanged-Cut h target node i height ge,
        )
    | inl under ↦
        let lt = ltb→lt i height under in
        let here = c.linked i (omega arith) lt in
        let (after, there) = c.tower i (omega arith) lt in
        let (h', run, cut) =
          unlink_levels-Cut count (suc i) (with_forward h (target i) i after) (omega arith) le
            (later h i after lt c) in
        (
          h',
          go_one h i count after (c.known i (omega arith) (omega arith)) here there ∙ run,
          Cut-one h i after lt here there h' cut,
        )
  ]

-- A level without a node that its predecessor has been made to skip.
pub Chain-cut :
    (h h' : Nodes) (j node w : ℕ) (xs ys : List ℕ)
    → slot h' (last_of w xs) j ≡ slot h node j
    → ((q : ℕ) → q ≢ last_of w xs → slot h' q j ≡ slot h q j)
    → Distinct (w ∷ (xs ++ node ∷ ys))
    → Chain h j w (xs ++ node ∷ ys)
    → Chain h' j w (xs ++ ys)
Chain-cut h h' j node w [] ys cut kept d c =
    Chain-restart h h' j node w ys cut (All-imp _ _ (λ q ne. kept q (λ e. ne (sym e))) ys d.0.1) c.1
Chain-cut h h' j node w (x ∷ xs) ys cut kept d c =
    let apart : w ≢ last_of x xs =
      last_of-All (λ m. w ≢ m) x xs d.0.0 (All-append_left _ xs (node ∷ ys) d.0.1) in
    (kept w apart ∙ c.0, Chain-cut h h' j node x xs ys cut kept d.1 c.1)
