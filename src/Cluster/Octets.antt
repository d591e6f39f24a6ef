-- ===== src/Cluster/Octets.antt =====
-- One group of digits of an address.
use di_store.Base.{
  ℕ, ◌+◌, ◌/◌, ◌%◌, ◌<◌, ◌≡◌, ◌⊎◌, inl, inr, refl, true, false, some, [], ◌∷◌, ◌++◌, Bytes, arith,
  ltb, ltb→lt, Bool-cases,
}
use di_store.Workload.{digits}
use di_store.Cluster.{span_digits, is_digit, octet, decimal_string, atoi}

-- A string that does not go on with a digit.
abbrev pub Stops : Bytes → Type 0
Stops [] = Unit
Stops (c ∷ cs) = is_digit c ≡ false

span_digits-Stops : (r : Bytes) → Stops r → span_digits r ≡ ([], r)
unfolding span_digits
span_digits-Stops [] h = refl
span_digits-Stops (c ∷ cs) h = rw h refl

digit-is_digit : (n : ℕ) → n < 10 → is_digit (48 + n) ≡ true
digit-is_digit n lt = ground arith

span_digits-cons :
    (n : ℕ) (s ds r : Bytes)
    → n < 10
    → span_digits s ≡ (ds, r)
    → span_digits ((48 + n) ∷ s) ≡ ((48 + n) ∷ ds, r)
unfolding span_digits
span_digits-cons n s ds r lt e = rw (digit-is_digit n lt, e) refl

-- The digits of a number below 1000, by how many there are.
decimal-cases :
    (n : ℕ)
    → n < 1000
    → ((n < 10) × (decimal_string n ≡ (48 + n) ∷ []))
      ⊎ ((n < 100) × (decimal_string n ≡ (48 + n / 10) ∷ (48 + n % 10) ∷ []))
      ⊎ (decimal_string n ≡ (48 + n / 100) ∷ (48 + n / 10 % 10) ∷ (48 + n % 10) ∷ [])
unfolding digits
decimal-cases n lt = elim (Bool-cases (ltb n 10)) [
  | inl one ↦ inl (ltb→lt n 10 one, rw one refl)
  | inr more ↦ elim (Bool-cases (ltb (n / 10) 10)) [
    | inl two ↦ let lt10 = ltb→lt (n / 10) 10 two in inr (inl (omega arith, rw (more, two) refl))
    | inr three ↦
        let high : n / 10 / 10 % 10 ≡ n / 100 = omega arith in
        inr (inr (rw (more, three, high) refl))
  ]
]

pub atoi-decimal : (n : ℕ) → n < 1000 → atoi (decimal_string n) ≡ n
atoi-decimal n lt = elim (decimal-cases n lt) [
  | inl (s, e) ↦ rw e (omega arith)
  | inr (inl (s, e)) ↦ rw e (omega arith)
  | inr (inr e) ↦ rw e (omega arith)
]

-- What follows the digits of a number below 1000 is left, and the group is the digits.
pub octet-decimal :
    (n : ℕ) (r : Bytes)
    → n < 1000
    → Stops r
    → octet (decimal_string n ++ r) ≡ some (decimal_string n, r)
unfolding octet
octet-decimal n r lt h = elim (decimal-cases n lt) [
  | inl (s, e) ↦ rw (e, span_digits-cons n r [] r (omega arith) (span_digits-Stops r h)) refl
  | inr (inl (s, e)) ↦
      let one = span_digits-cons (n % 10) r [] r (omega arith) (span_digits-Stops r h) in
      rw (e, span_digits-cons (n / 10) _ _ r (omega arith) one) refl
  | inr (inr e) ↦
      let one = span_digits-cons (n % 10) r [] r (omega arith) (span_digits-Stops r h) in
      let two = span_digits-cons (n / 10 % 10) _ _ r (omega arith) one in
      rw (e, span_digits-cons (n / 100) _ _ r (omega arith) two) refl
]
