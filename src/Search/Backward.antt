-- ===== src/Search/Backward.antt =====
-- The `backward` pointers of a skip list, and that writing them leaves the rest of it as it was.
use di_store.Base.{
  ℕ, ◌≡◌, ◌≢◌, refl, ap, ◌∙◌, inl, inr, Option, List, [], ◌∷◌, ◌++◌, ◌==◌, Bool-cases, arith,
  get_elem?, All, All-of,
}
use di_store.Compute.{SkipListNode}
use di_store.Search.{Nodes, SkipList, set_backward}
use di_store.Search.Level.{at_level, last_of}
use di_store.Search.Descend.{Backward, IsSkipList}
use di_store.Search.Enter.{Ascends-frame}
use di_store.Search.Splice.{Chain-frame, put_self, put-ne}

module _ (h : Nodes) (p : ℕ) (b : Option ℕ) where
  pub set_backward-same :
      (q : ℕ)
      → ((set_backward h p b q).node ≡ (h q).node)
        × ((set_backward h p b q).forwards ≡ (h q).forwards)
  unfolding set_backward
  set_backward-same q = elim (Bool-cases (q == p)) [
    | inl here ↦ let e : q ≡ p = ground arith in rw (here, e) (refl, refl)
    | inr there ↦ rw there (refl, refl)
  ]

  pub set_backward_self : (set_backward h p b p).backward ≡ b
  unfolding set_backward
  set_backward_self = rw (put_self h p _) refl

  pub set_backward-ne : (q : ℕ) → q ≢ p → (set_backward h p b q).backward ≡ (h q).backward
  unfolding set_backward
  set_backward-ne q ne = rw (put-ne h p q _ ne) refl

-- A list stays well-formed when only `backward` pointers change.
pub backward-IsSkipList :
    (ht : ℕ → ℕ) (ns : List ℕ) (s : SkipList) (h : Nodes)
    → ((q : ℕ) → ((h q).node ≡ (s.nodes q).node) × ((h q).forwards ≡ (s.nodes q).forwards))
    → IsSkipList ht ns s
    → IsSkipList ht ns (record s { nodes = h })
backward-IsSkipList ht ns s h same g = record {
  chains = λ j lt.
      Chain-frame s.nodes h j s.head (at_level ht j ns)
        (All-of _ (λ q. ap (λ l. get_elem? l j) (same q).1) (s.head ∷ at_level ht j ns))
        (g.chains j lt);
  ascends =
      Ascends-frame s.nodes h (s.head ∷ ns)
        (All-of _ (λ q. ap (λ (n : SkipListNode). n.anchor) (same q).0) (s.head ∷ ns)) g.ascends;
  heights = g.heights;
  levels = g.levels;
  first = ap (λ (n : SkipListNode). n.anchor) (same s.head).0 ∙ g.first;
}

pub Backward-frame :
    (h h' : Nodes) (w : ℕ) (ns : List ℕ)
    → All (λ q. (h' q).backward ≡ (h q).backward) ns
    → Backward h w ns
    → Backward h' w ns
Backward-frame h h' w [] a b = tt
Backward-frame h h' w (n ∷ ns) a b = (a.0 ∙ b.0, Backward-frame h h' n ns a.1 b.1)

pub Backward-append_right :
    (h : Nodes) (w : ℕ) (xs ys : List ℕ) → Backward h w (xs ++ ys) → Backward h (last_of w xs) ys
Backward-append_right h w [] ys b = b
Backward-append_right h w (x ∷ xs) ys b = Backward-append_right h x xs ys b.1

pub Backward-join :
    (h h' : Nodes) (w : ℕ) (xs ys zs : List ℕ)
    → All (λ q. (h' q).backward ≡ (h q).backward) xs
    → Backward h w (xs ++ ys)
    → Backward h' (last_of w xs) zs
    → Backward h' w (xs ++ zs)
Backward-join h h' w [] ys zs a b c = c
Backward-join h h' w (x ∷ xs) ys zs a b c = (a.0 ∙ b.0, Backward-join h h' x xs ys zs a.1 b.1 c)
