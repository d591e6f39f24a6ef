-- ===== src/Search/Descend.antt =====
-- The walk down the levels of a well-formed skip list, and what is well-formed.
use di_store.Base.{
  ℕ, zero, suc, ◌+◌, ◌≤◌, ◌<◌, ◌≡◌, refl, sym, ap, ◌∙◌, true, Option, some, List, [], ◌∷◌, ◌++◌,
  Bytes, str_lt, inl, inr, ltb, Bool-cases, ltb→lt, ltb→ge, arith, length, All,
}
use di_store.Search.{
  returned, Nodes, SkipList, Descent, anchor_of, max_level, walk, descend, with_update,
}
use di_store.Search.Level.{at_level, last_of, Chain, Below, NotBelow, walk-last}

-- Each anchor is below all that follow.
abbrev pub Ascends : Nodes → List ℕ → Type 0
Ascends h [] = Unit
Ascends h (n ∷ ns) = All (λ m. str_lt (anchor_of h n) (anchor_of h m) ≡ true) ns × Ascends h ns

-- `backward` of each node is the node before it.
abbrev pub Backward : Nodes → ℕ → List ℕ → Type 0
Backward h w [] = Unit
Backward h w (n ∷ ns) = ((h n).backward ≡ some w) × Backward h n ns

-- The nodes after the head are `ns`, each linked at its lowest `ht` levels.
pub record IsSkipList (ht : ℕ → ℕ) (ns : List ℕ) (s : SkipList) : Type 0 where
  pub chains : (j : ℕ) → j < max_level → Chain s.nodes j s.head (at_level ht j ns)
  pub ascends : Ascends s.nodes (s.head ∷ ns)
  pub heights : All (λ n. (1 ≤ ht n) × (ht n ≤ s.current_level)) ns
  pub levels : s.current_level ≤ max_level
  pub first : anchor_of s.nodes s.head ≡ []

pub at_level-top :
    (ht : ℕ → ℕ) (j : ℕ) (ns : List ℕ) → All (λ n. ht n ≤ j) ns → at_level ht j ns ≡ []
at_level-top ht j [] a = refl
at_level-top ht j (n ∷ ns) a =
    let rest = at_level-top ht j ns a.1 in let low = a.0 in ground (arith)

pub at_level-bottom : (ht : ℕ → ℕ) (ns : List ℕ) → All (λ n. 1 ≤ ht n) ns → at_level ht 0 ns ≡ ns
at_level-bottom ht [] a = refl
at_level-bottom ht (n ∷ ns) a =
    let rest = at_level-bottom ht ns a.1 in let low = a.0 in ground (arith)

-- What a walk down to the level `lowest` has found for a key above the nodes `pre` and no more.
pub record Descended (ht : ℕ → ℕ) (lowest top w : ℕ) (pre : List ℕ) (before : ℕ → Option ℕ)
    (d : Descent) : Type 0 where
  pub walker : d.walker ≡ last_of w (at_level ht lowest pre)
  pub update : (j : ℕ) → lowest ≤ j → j < top → d.update j ≡ some (last_of w (at_level ht j pre))
  pub above : (j : ℕ) → top ≤ j → d.update j ≡ before j

with_update_self : (i p : ℕ) (u : ℕ → Option ℕ) (j : ℕ) → j ≡ i → with_update i p u j ≡ some p
with_update_self i p u j e = ground arith

with_update-above : (i p : ℕ) (u : ℕ → Option ℕ) (j : ℕ) → i < j → with_update i p u j ≡ u j
with_update-above i p u j e = ground arith

module _ (h : Nodes) (ht : ℕ → ℕ) (key : Bytes) (fuel w : ℕ) (pre post : List ℕ)
    (enough : length pre < fuel) (below : Below h key pre) (not_below : NotBelow h key post) where
  pub descend-Descended :
      (lowest count top : ℕ) (u : ℕ → Option ℕ) (x : ℕ)
      → top ≡ lowest + count
      → ((j : ℕ) → j < top → Chain h j w (at_level ht j (pre ++ post)))
      → x ≡ last_of w (at_level ht top pre)
      → (d : Descent) × (descend h key fuel lowest count (record { update = u; walker = x })
          ≡ returned d)
        × Descended ht lowest top w pre u d
  unfolding descend
  descend-Descended lowest zero top u x t c e =
      let same : top ≡ lowest = omega arith in
      (
        record { update = u; walker = x },
        refl,
        record {
          walker = e ∙ ap (λ j. last_of w (at_level ht j pre)) same;
          update = λ j p q. absurd (omega arith);
          above = λ j p. refl;
        },
      )
  descend-Descended lowest (suc count) top u x t c e =
      let i = lowest + count in
      let onto : walk h key i fuel x ≡ returned (last_of w (at_level ht i pre)) =
        ap (λ y. walk h key i fuel y) e
        ∙ walk-last h key i ht top fuel w pre post (omega arith) enough (c i (omega arith)) below
            not_below in
      let y = last_of w (at_level ht i pre) in
      let (d, run, f) =
        descend-Descended lowest count i (with_update i y u) y refl (λ j p. c j (omega arith))
          refl in
      (
        d,
        rw onto run,
        record {
          walker = f.walker;
          update = λ j p q. elim (Bool-cases (ltb j i)) [
            | inl under ↦ f.update j p (ltb→lt j i under)
            | inr above ↦
                let here : j ≡ i = let ge = ltb→ge j i above in omega arith in
                f.above j (omega arith)
                ∙ with_update_self i y u j here
                ∙ ap (λ k. some (last_of w (at_level ht k pre))) (sym here)
          ];
          above = λ j p. f.above j (omega arith) ∙ with_update-above i y u j (omega arith);
        },
      )
