-- ===== src/Search/Lower.antt =====
-- The loop of `remove` that takes empty levels off.
use di_store.Base.{
  ℕ, zero, suc, ◌≤◌, ◌<◌, ◌≡◌, refl, inl, inr, none, some, List, [], ◌∷◌, ltb, Bool-cases, ltb→ge,
  arith, All,
}
use di_store.Search.{returned, Nodes}
use di_store.Search.Update.{lower_level}
use di_store.Search.Level.{at_level, Chain, List-cases, forward-slot}

at_level-nil : (ht : ℕ → ℕ) (j : ℕ) (ns : List ℕ) → at_level ht j ns ≡ [] → All (λ n. ht n ≤ j) ns
at_level-nil ht j [] e = tt
at_level-nil ht j (n ∷ ns) e = elim (Bool-cases (ltb j (ht n))) [
  | inl tall ↦ absurd (let cons = rw tall at e in cc)
  | inr low ↦ (ltb→ge j (ht n) low, at_level-nil ht j ns (rw low at e))
]

-- The loop ends at a level that no node is above.
pub lower_level-heights :
    (ht : ℕ → ℕ) (ns : List ℕ) (h : Nodes) (head level : ℕ)
    → ((j : ℕ) → j < level → Chain h j head (at_level ht j ns))
    → All (λ n. ht n ≤ level) ns
    → (level' : ℕ) × (lower_level h head level ≡ returned level')
      × (level' ≤ level)
      × All (λ n. ht n ≤ level') ns
unfolding lower_level
lower_level-heights ht ns h head zero c a = (zero, refl, omega arith, a)
lower_level-heights ht ns h head (suc level) c a =
    let chain = c level (omega arith) in
    elim (List-cases (at_level ht level ns)) [
      | inl empty ↦
          let next = rw empty at chain in
          let (l, run, le, fits) =
            lower_level-heights ht ns h head level (λ j p. c j (omega arith))
              (at_level-nil ht level ns empty) in
          (l, rw (forward-slot h head level none next) run, omega arith, fits)
      | inr (x, rest, full) ↦
          let next = rw full at chain in
          (suc level, rw (forward-slot h head level (some x) next.0) refl, omega arith, a)
    ]
