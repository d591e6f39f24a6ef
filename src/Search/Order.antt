-- ===== src/Search/Order.antt =====
-- A key parts the nodes of a skip list in those below it and the rest.
use di_store.Base.{
  ℕ, ◌+◌, ◌≤◌, ◌<◌, ◌≡◌, refl, sym, ap, subst, inl, inr, none, List, [], ◌∷◌, ◌++◌, Bytes, str_lt,
  str_lt_asymm, str_le_trans, Bool-cases, arith, length, length-append, All, All-imp,
  All-append_left,
}
use di_store.Search.{returned, Nodes, SkipList, Descent, anchor_of, max_level, start, descend}
use di_store.Search.Level.{at_level, last_of, Chain, Below, NotBelow}
use di_store.Search.Descend.{Ascends, IsSkipList, Descended, at_level-top, descend-Descended}

pub record Parted (h : Nodes) (key : Bytes) (ns : List ℕ) : Type 0 where
  pub before : List ℕ
  pub rest : List ℕ
  pub joined : ns ≡ before ++ rest
  pub below : Below h key before
  pub not_below : NotBelow h key rest

pub part-Parted : (h : Nodes) (key : Bytes) (ns : List ℕ) → Ascends h ns → Parted h key ns
part-Parted h key [] a = record {
  before = [];
  rest = [];
  joined = refl;
  below = tt;
  not_below = tt;
}
part-Parted h key (n ∷ ns) a = elim (Bool-cases (str_lt (anchor_of h n) key)) [
  | inl less ↦
      let p = part-Parted h key ns a.1 in
      record {
        before = n ∷ p.before;
        rest = p.rest;
        joined = ap (λ (t : List ℕ). n ∷ t) p.joined;
        below = (less, p.below);
        not_below = p.not_below;
      }
  | inr not_less ↦ record {
    before = [];
    rest = n ∷ ns;
    joined = refl;
    below = tt;
    not_below = (
      not_less,
      All-imp _ _
          (λ m over.
            str_le_trans key (anchor_of h n) (anchor_of h m) not_less
              (str_lt_asymm (anchor_of h n) (anchor_of h m) over))
          ns a.0,
    );
  }
]

pub last_of-All {κ} : (P : ℕ → Type κ) (w : ℕ) (ns : List ℕ) → P w → All P ns → P (last_of w ns)
last_of-All P w [] p a = p
last_of-All P w (n ∷ ns) p a = last_of-All P n ns a.0 a.1

pub Chain-append :
    (h : Nodes) (j w : ℕ) (xs ys : List ℕ) → Chain h j w (xs ++ ys) → Chain h j (last_of w xs) ys
Chain-append h j w [] ys c = c
Chain-append h j w (x ∷ xs) ys c = Chain-append h j x xs ys c.1

pub Ascends-append_right : (h : Nodes) (xs ys : List ℕ) → Ascends h (xs ++ ys) → Ascends h ys
Ascends-append_right h [] ys a = a
Ascends-append_right h (x ∷ xs) ys a = Ascends-append_right h xs ys a.1

-- The loop that every operation begins with, on a well-formed skip list.
module _ (ht : ℕ → ℕ) (ns : List ℕ) (s : SkipList) (g : IsSkipList ht ns s) (key : Bytes) (fuel : ℕ)
    (enough : length ns < fuel) (p : Parted s.nodes key ns) where
  tops : All (λ n. ht n ≤ s.current_level) ns
  tops = All-imp _ _ (λ n b. b.1) ns g.heights

  pub bottoms : All (λ n. 1 ≤ ht n) ns
  bottoms = All-imp _ _ (λ n b. b.0) ns g.heights

  pub Chain-at :
      (j : ℕ) → j < max_level → Chain s.nodes j s.head (at_level ht j (p.before ++ p.rest))
  Chain-at j lt = subst (λ xs. Chain s.nodes j s.head (at_level ht j xs)) p.joined (g.chains j lt)

  shorter : length p.before < fuel
  shorter =
      omega (arith, length-append p.before p.rest, ap (λ (xs : List ℕ). length xs) p.joined, enough)

  pub tops_before : All (λ n. ht n ≤ s.current_level) p.before
  tops_before =
      All-append_left _ p.before p.rest
        (subst (λ xs. All (λ n. ht n ≤ s.current_level) xs) p.joined tops)

  -- from the top level to `lowest`
  pub descend_head :
      (lowest count : ℕ)
      → s.current_level ≡ lowest + count
      → (d : Descent) × (descend s.nodes key fuel lowest count (start s) ≡ returned d)
        × Descended ht lowest s.current_level s.head p.before (λ j. none) d
  descend_head lowest count e =
      descend-Descended s.nodes ht key fuel s.head p.before p.rest shorter p.below p.not_below
        lowest count s.current_level (λ j. none) s.head e
        (λ j lt. Chain-at j (omega (arith, g.levels)))
        (sym (ap (last_of s.head) (at_level-top ht s.current_level p.before tops_before)))
