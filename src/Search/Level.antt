-- ===== src/Search/Level.antt =====
-- A level of the skip list as a plain list, and the walk along it.
use di_store.Base.{
  ℕ, zero, suc, ◌≤◌, ◌<◌, ◌≡◌, ◌⊎◌, inl, inr, refl, true, false, Option, none, some, List, [], ◌∷◌,
  ◌++◌, Bytes, str_lt, ltb, if◌then◌else◌, Bool-cases, arith, length, All, get_elem?,
}
use di_store.Search.{returned, Nodes, anchor_of, forward, walk}

-- The nodes of a list that are linked at the level `j`: `ht` says at how many levels a node is.
abbrev pub at_level : (ℕ → ℕ) → ℕ → List ℕ → List ℕ
at_level ht j [] = []
at_level ht j (n ∷ ns) = if ltb j (ht n) then n ∷ at_level ht j ns else at_level ht j ns

-- The last node of a list, or the one before it.
abbrev pub last_of : ℕ → List ℕ → ℕ
last_of w [] = w
last_of w (n ∷ ns) = last_of n ns

abbrev pub slot : Nodes → ℕ → ℕ → Option (Option ℕ)
slot h p j = get_elem? (h p).forwards j

-- From `w`, the pointers of the level `j` lead through the list to null.
abbrev pub Chain : Nodes → ℕ → ℕ → List ℕ → Type 0
Chain h j w [] = slot h w j ≡ some none
Chain h j w (n ∷ ns) = (slot h w j ≡ some (some n)) × Chain h j n ns

abbrev pub Below : Nodes → Bytes → List ℕ → Type 0
Below h key ns = All (λ n. str_lt (anchor_of h n) key ≡ true) ns

abbrev pub NotBelow : Nodes → Bytes → List ℕ → Type 0
NotBelow h key ns = All (λ n. str_lt (anchor_of h n) key ≡ false) ns

pub List-cases {ℓ} :
    {A : Type ℓ} (xs : List A) → (xs ≡ []) ⊎ ((x : A) × (rest : List A) × (xs ≡ x ∷ rest))
List-cases [] = inl refl
List-cases (x ∷ xs) = inr (x, xs, refl)

pub at_level-append :
    (ht : ℕ → ℕ) (j : ℕ) (xs ys : List ℕ)
    → at_level ht j (xs ++ ys) ≡ at_level ht j xs ++ at_level ht j ys
at_level-append ht j [] ys = refl
at_level-append ht j (x ∷ xs) ys = ground (arith, at_level-append ht j xs ys)

pub All-at_level {κ} :
    (P : ℕ → Type κ) (ht : ℕ → ℕ) (j : ℕ) (xs : List ℕ) → All P xs → All P (at_level ht j xs)
All-at_level P ht j [] a = tt
All-at_level P ht j (x ∷ xs) a = elim (Bool-cases (ltb j (ht x))) [
  | inl tall ↦ rw tall (a.0, All-at_level P ht j xs a.1)
  | inr low ↦ rw low (All-at_level P ht j xs a.1)
]

pub forward-slot :
    (h : Nodes) (p i : ℕ) (next : Option ℕ) → slot h p i ≡ some next → forward h p i ≡ returned next
unfolding forward
forward-slot h p i next e = rw (e, forward) refl

module _ (h : Nodes) (key : Bytes) (i : ℕ) where
  walk-stop :
      (fuel w : ℕ) (ns : List ℕ)
      → Chain h i w ns
      → NotBelow h key ns
      → walk h key i (suc fuel) w ≡ returned w
  unfolding walk
  walk-stop fuel w [] c b = rw (forward-slot h w i none c) refl
  walk-stop fuel w (n ∷ ns) c b = rw (forward-slot h w i (some n) c.0, b.0) refl

  walk-step :
      (fuel w n : ℕ)
      → slot h w i ≡ some (some n)
      → str_lt (anchor_of h n) key ≡ true
      → walk h key i (suc fuel) w ≡ walk h key i fuel n
  unfolding walk
  walk-step fuel w n c b = rw (forward-slot h w i (some n) c, b) refl

  -- A walk that starts where the one of a higher level ended.
  pub walk-last :
      (ht : ℕ → ℕ) (j fuel w : ℕ) (pre post : List ℕ)
      → i ≤ j
      → length pre < fuel
      → Chain h i w (at_level ht i (pre ++ post))
      → Below h key pre
      → NotBelow h key post
      → walk h key i fuel (last_of w (at_level ht j pre)) ≡ returned (last_of w (at_level ht i pre))
  walk-last ht j zero w pre post le f c b nb = absurd (omega arith)
  walk-last ht j (suc fuel) w [] post le f c b nb =
      walk-stop fuel w (at_level ht i post) c (All-at_level _ ht i post nb)
  walk-last ht j (suc fuel) w (n ∷ pre) post le f c b nb =
      let f' : length pre < suc fuel = omega arith in
      elim (Bool-cases (ltb i (ht n))) [
        | inr low ↦
            let out : ltb j (ht n) ≡ false = ground (arith) in
            let c' = rw low at c in
            rw (low, out) (walk-last ht j (suc fuel) w pre post le f' c' b.1 nb)
        | inl tall ↦
            let c' = rw tall at c in
            let onto = walk-step fuel w n c'.0 b.0 in
            elim (Bool-cases (ltb j (ht n))) [
              | inl top ↦ rw (tall, top) (walk-last ht j (suc fuel) n pre post le f' c'.1 b.1 nb)
              | inr mid ↦ elim (List-cases (at_level ht j pre)) [
                | inl empty ↦
                    let rest =
                      rw empty at (walk-last ht j fuel n pre post le (omega arith) c'.1 b.1 nb) in
                    rw (tall, mid, empty, onto) rest
                | inr (x, xs, full) ↦
                    let rest =
                      rw full at (walk-last ht j (suc fuel) n pre post le f' c'.1 b.1 nb) in
                    rw (tall, mid, full) rest
              ]
            ]
      ]
