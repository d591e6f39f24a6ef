-- ===== src/Search/Link.antt =====
-- The loop of `insert` and `calibrate` that links a node in at the levels it is to be at.
use di_store.Base.{
  ℕ, zero, suc, ◌+◌, ◌≤◌, ◌<◌, ◌≡◌, ◌≢◌, refl, sym, ◌∙◌, subst, ◌⊎◌, inl, inr, Option, some, ltb,
  Bool-cases, ltb→lt, ltb→ge, arith,
}
use di_store.Search.{returned, Nodes, set_forward, with_forward, deref}
use di_store.Search.Level.{slot, forward-slot}
use di_store.Search.Update.{link_levels}
use di_store.Search.Splice.{
  SameNodes, Spliced, with_forward-SameNodes, slot-with_forward_self, slot-with_forward_ne,
  slot-with_forward_level,
}

pub set_forward-slot :
    (h : Nodes) (p i : ℕ) (old new : Option ℕ)
    → slot h p i ≡ some old
    → set_forward h p i new ≡ returned (with_forward h p i new)
unfolding set_forward
set_forward-slot h p i old new e = rw (e, set_forward) refl

pub SameNodes-trans : (f g h : Nodes) → SameNodes f g → SameNodes g h → SameNodes f h
SameNodes-trans f g h a b q = ((b q).0 ∙ (a q).0, (b q).1 ∙ (a q).1)

-- The two writes that link `node` in after `p` at the level `i`.
module _ (h : Nodes) (node p i : ℕ) (next old : Option ℕ) (ne : p ≢ node)
    (here : slot h p i ≡ some next) (there : slot h node i ≡ some old) where
  abbrev pub first_write : Nodes
  first_write = with_forward h node i next

  abbrev pub second_write : Nodes
  second_write = with_forward first_write p i (some node)

  kept : slot first_write p i ≡ some next
  kept = slot-with_forward_ne h node p i i next ne ∙ here

  pub second_write-Spliced : Spliced h second_write i p node
  second_write-Spliced = record {
    at_before = slot-with_forward_self first_write p i next (some node) kept;
    at_node =
        slot-with_forward_ne first_write p node i i (some node) (λ e. ne (sym e))
        ∙ slot-with_forward_self h node i old next there
        ∙ sym here;
    elsewhere = λ q a b.
        slot-with_forward_ne first_write p q i i (some node) a
        ∙ slot-with_forward_ne h node q i i next b;
  }

  pub second_write-level : (q j : ℕ) → i ≢ j → slot second_write q j ≡ slot h q j
  second_write-level q j e =
      slot-with_forward_level first_write p q j i (some node) e
      ∙ slot-with_forward_level h node q j i next e

  pub second_write-SameNodes : SameNodes h second_write
  second_write-SameNodes =
      SameNodes-trans h first_write second_write (with_forward-SameNodes h node i next)
        (with_forward-SameNodes first_write p i (some node))

  pub second_write-runs :
      (set_forward h node i next ≡ returned first_write)
      × (set_forward first_write p i (some node) ≡ returned second_write)
  second_write-runs = (
    set_forward-slot h node i old next there,
    set_forward-slot first_write p i next (some node) kept,
  )

-- `node` can be linked in after `target j` at each level `j` of a range.
pub record CanLink (h : Nodes) (update : ℕ → Option ℕ) (target : ℕ → ℕ) (node lowest top : ℕ)
    : Type 0 where
  pub known : (j : ℕ) → lowest ≤ j → j < top → update j ≡ some (target j)
  pub apart : (j : ℕ) → lowest ≤ j → j < top → target j ≢ node
  pub read : (j : ℕ) → lowest ≤ j → j < top → (next : Option ℕ) × (slot h (target j) j ≡ some next)
  pub tall : (j : ℕ) → lowest ≤ j → j < top → (old : Option ℕ) × (slot h node j ≡ some old)

pub record Linked (h h' : Nodes) (target : ℕ → ℕ) (node lowest top : ℕ) : Type 0 where
  pub same : SameNodes h h'
  pub spliced : (j : ℕ) → lowest ≤ j → j < top → Spliced h h' j (target j) node
  pub outside : (q j : ℕ) → (j < lowest) ⊎ (top ≤ j) → slot h' q j ≡ slot h q j

Spliced-later :
    (f g h : Nodes) (j p node : ℕ)
    → ((q : ℕ) → slot g q j ≡ slot f q j)
    → Spliced g h j p node
    → Spliced f h j p node
Spliced-later f g h j p node same s = record {
  at_before = s.at_before;
  at_node = s.at_node ∙ same p;
  elsewhere = λ q a b. s.elsewhere q a b ∙ same q;
}

Spliced-then :
    (f g h : Nodes) (j p node : ℕ)
    → Spliced f g j p node
    → ((q : ℕ) → slot h q j ≡ slot g q j)
    → Spliced f h j p node
Spliced-then f g h j p node s same = record {
  at_before = same p ∙ s.at_before;
  at_node = same node ∙ s.at_node;
  elsewhere = λ q a b. same q ∙ s.elsewhere q a b;
}

module _ (h : Nodes) (update : ℕ → Option ℕ) (target : ℕ → ℕ) (node lowest : ℕ) where
  pub link_levels-Linked :
      (count top : ℕ)
      → top ≡ lowest + count
      → CanLink h update target node lowest top
      → (h' : Nodes) × (link_levels update node lowest count h ≡ returned h')
        × Linked h h' target node lowest top
  unfolding link_levels deref
  link_levels-Linked zero top e c = (
    h,
    refl,
    record {
      same = λ q. (refl, refl);
      spliced = λ j p q. absurd (omega arith);
      outside = λ q j o. refl;
    },
  )
  link_levels-Linked (suc count) top e c =
      let i = lowest + count in
      let fewer : CanLink h update target node lowest i = record {
        known = λ j p q. c.known j p (omega arith);
        apart = λ j p q. c.apart j p (omega arith);
        read = λ j p q. c.read j p (omega arith);
        tall = λ j p q. c.tall j p (omega arith);
      } in
      let (g, run, l) = link_levels-Linked count i refl fewer in
      let (next, at_target) = c.read i (omega arith) (omega arith) in
      let (old, at_node) = c.tall i (omega arith) (omega arith) in
      let ne = c.apart i (omega arith) (omega arith) in
      let here = l.outside (target i) i (inr (omega arith)) ∙ at_target in
      let there = l.outside node i (inr (omega arith)) ∙ at_node in
      let h' = second_write g node (target i) i next old ne here there in
      let (write_1, write_2) = second_write-runs g node (target i) i next old ne here there in
      let s = second_write-Spliced g node (target i) i next old ne here there in
      (
        h',
        rw
            (
              run,
              c.known i (omega arith) (omega arith),
              forward-slot g (target i) i next here,
              write_1,
            )
            write_2,
        record {
          same =
              SameNodes-trans h g h' l.same
                (second_write-SameNodes g node (target i) i next old ne here there);
          spliced = λ j p q. elim (Bool-cases (ltb j i)) [
            | inl under ↦
                Spliced-then h g h' j (target j) node (l.spliced j p (ltb→lt j i under)) (λ x.
                  second_write-level g node (target i) i next old ne here there x j
                    (λ (at : i ≡ j). let lt = ltb→lt j i under in absurd (omega arith)))
            | inr over ↦
                let same_level : i ≡ j = let ge = ltb→ge j i over in omega arith in
                subst (λ k. Spliced h h' k (target k) node) same_level
                  (Spliced-later h g h' i (target i) node (λ x. l.outside x i (inr (omega arith)))
                    s)
          ];
          outside = λ x j o.
              let away : (i ≢ j) × ((j < lowest) ⊎ (i ≤ j)) = elim o [
                | inl lo ↦ (λ (at : i ≡ j). omega arith, inl lo)
                | inr hi ↦ (λ (at : i ≡ j). omega arith, inr (omega arith))
              ] in
              second_write-level g node (target i) i next old ne here there x j away.0
              ∙ l.outside x j away.1;
        },
      )
