-- ===== src/Workload/Keys.antt =====
-- The keys of the workloads.
use mathlib.Core.Option
use mathlib.Core.List.{append_assoc}
use di_store.Base.{
  ℕ, zero, suc, ◌+◌, ◌-◌, ◌*◌, ◌/◌, ◌%◌, ◌^◌, ◌≤◌, ◌<◌, ◌≡◌, inl, inr, refl, sym, ap, ◌∙◌, true,
  false, Option, none, some, [], ◌∷◌, ◌++◌, Bytes, arith, str_lt, ltb, ltb→lt, ltb→ge, Bool-cases,
  if◌then◌else◌, length, length-append, replicate,
}
use di_store.Workload.{YcsbWorkloadType, choose, digits, pad_key, key_size, next}

abbrev pub limit : ℕ → ℕ
limit zero = 1
limit (suc w) = 10 * limit w

-- The decimal digits of a number, `w` of them.
abbrev pub decimal : ℕ → ℕ → Bytes
decimal zero n = []
decimal (suc w) n = decimal w (n / 10) ++ (48 + n % 10) ∷ []

length-decimal : (w n : ℕ) → length (decimal w n) ≡ w
length-decimal zero n = refl
length-decimal (suc w) n =
    omega
      (arith, length-append (decimal w (n / 10)) ((48 + n % 10) ∷ []), length-decimal w (n / 10))

replicate_snoc : (n a : ℕ) → replicate n a ++ a ∷ [] ≡ a ∷ replicate n a
replicate_snoc zero a = refl
replicate_snoc (suc n) a = ap (λ (t : Bytes). a ∷ t) (replicate_snoc n a)

decimal-zero : (w : ℕ) → decimal w 0 ≡ replicate w 48
decimal-zero zero = refl
decimal-zero (suc w) = ap (λ (t : Bytes). t ++ 48 ∷ []) (decimal-zero w) ∙ replicate_snoc w 48

pad-digit :
    (w n : ℕ) → n < 10 → replicate w 48 ++ (48 + n) ∷ [] ≡ decimal w (n / 10) ++ (48 + n % 10) ∷ []
pad-digit w n lt =
    let high : n / 10 ≡ 0 = omega arith in
    let low : n % 10 ≡ n = omega arith in rw (high, low, decimal-zero w) refl

module _ (fuel : ℕ) where
  abbrev Pads : ℕ → ℕ → Bytes → Type 0
  Pads w n d = (length d ≤ suc w) × (replicate (suc w - length d) 48 ++ d ≡ decimal (suc w) n)

  pad-more :
      (w n : ℕ)
      → n < limit (suc w)
      → w ≤ suc fuel
      → 10 ≤ n
      → ((v m : ℕ) → m < limit (suc v) → v ≤ fuel → Pads v m (digits fuel m))
      → Pads w n (digits fuel (n / 10) ++ (48 + n % 10) ∷ [])
  pad-more zero n lt le ge f = absurd (omega arith)
  pad-more (suc w) n lt le ge f =
      let d = digits fuel (n / 10) in
      let (short, e) = f w (n / 10) (omega arith) (omega arith) in
      let longer : length (d ++ (48 + n % 10) ∷ []) ≡ length d + 1 =
        length-append d ((48 + n % 10) ∷ []) in
      let same : suc (suc w) - (length d + 1) ≡ suc w - length d = omega arith in
      (
        omega (arith, longer, short),
        rw (longer, same)
            (sym (append_assoc (replicate (suc w - length d) 48) d ((48 + n % 10) ∷ []))
              ∙ ap (λ (t : Bytes). t ++ (48 + n % 10) ∷ []) e),
      )

pad-digits :
    (fuel w n : ℕ)
    → n < limit (suc w)
    → w ≤ fuel
    → (length (digits fuel n) ≤ suc w)
      × (replicate (suc w - length (digits fuel n)) 48 ++ digits fuel n ≡ decimal (suc w) n)
unfolding digits
pad-digits zero zero n lt le = let low : n % 10 ≡ n = omega arith in (omega arith, refl)
pad-digits zero (suc w) n lt le = absurd (omega arith)
pad-digits (suc fuel) w n lt le = elim (Bool-cases (ltb n 10)) [
  | inl small ↦
      let same : suc w - 1 ≡ w = omega arith in
      rw (small, same) (omega arith, pad-digit w n (ltb→lt n 10 small))
  | inr large ↦ rw large (pad-more fuel w n lt le (ltb→ge n 10 large) (pad-digits fuel))
]

limit_pos : (w : ℕ) → 1 ≤ limit w
limit_pos zero = omega arith
limit_pos (suc w) = omega (arith, limit_pos w)

digits-long : (fuel w n : ℕ) → limit w ≤ n → w ≤ fuel → suc w ≤ length (digits fuel n)
unfolding digits
digits-long zero zero n le f = omega arith
digits-long zero (suc w) n le f = absurd (omega arith)
digits-long (suc fuel) zero n le f = elim (Bool-cases (ltb n 10)) [
  | inl small ↦ rw small (omega arith)
  | inr large ↦ rw large (omega (arith, length-append (digits fuel (n / 10)) ((48 + n % 10) ∷ [])))
]
digits-long (suc fuel) (suc w) n le f =
    let some_limit = limit_pos w in
    let large : ltb n 10 ≡ false = ground arith in
    rw large (
      omega (
        arith,
        length-append (digits fuel (n / 10)) ((48 + n % 10) ∷ []),
        digits-long fuel w (n / 10) (omega arith) (omega arith),
      ))

pad_key-long : (k : Bytes) → 17 ≤ length k → pad_key k ≡ none
unfolding pad_key
pad_key-long k h = ground arith

pad_key-short : (k : Bytes) → length k ≤ 16 → pad_key k ≡ some (replicate (16 - length k) 48 ++ k)
unfolding pad_key
pad_key-short k h = ground arith

next-pad_key :
    (type : YcsbWorkloadType) (load op : ℕ) (o : Option Bytes)
    → pad_key (digits 19 load) ≡ o
    → next type load op ≡ Option.map (λ k. (choose type op, k)) o
unfolding next
next-pad_key type load op o e = ap (Option.map (λ k. (choose type op, k))) e

-- For any number below 2 ^ 64, whatever the operation: `next` returns the operation chosen and the sixteen
-- decimal digits of the number if it has no more, and throws if it has.
pub next-decimal :
    (type : YcsbWorkloadType) (load op : ℕ)
    → load < 2 ^ 64
    → next type load op
      ≡ (if ltb load (10 ^ 16) then some (choose type op, decimal key_size load) else none)
next-decimal type load op lt = elim (Bool-cases (ltb load (10 ^ 16))) [
  | inl fits ↦
      let (short, e) = pad-digits 19 15 load (ltb→lt load (10 ^ 16) fits) (omega arith) in
      next-pad_key type load op
        (some (replicate (16 - length (digits 19 load)) 48 ++ digits 19 load))
        (pad_key-short (digits 19 load) short)
      ∙ (rw (fits, e) refl)
  | inr long ↦
      let more = digits-long 19 16 load (ltb→ge load (10 ^ 16) long) (omega arith) in
      next-pad_key type load op none (pad_key-long (digits 19 load) more) ∙ (rw long refl)
]

str_lt-append :
    (xs ys us vs : Bytes)
    → length xs ≡ length ys
    → str_lt xs ys ≡ true
    → str_lt (xs ++ us) (ys ++ vs) ≡ true
unfolding str_lt
str_lt-append [] [] us vs e h = cc
str_lt-append [] (y ∷ ys) us vs e h = absurd (omega arith)
str_lt-append (x ∷ xs) [] us vs e h = absurd (omega arith)
str_lt-append (x ∷ xs) (y ∷ ys) us vs e h = ground (arith, str_lt-append xs ys us vs (omega arith))

str_lt-append_left : (xs us vs : Bytes) → str_lt (xs ++ us) (xs ++ vs) ≡ str_lt us vs
unfolding str_lt
str_lt-append_left [] us vs = refl
str_lt-append_left (x ∷ xs) us vs = rw (str_lt-append_left xs us vs) (ground arith)

digit-str_lt : (a b : ℕ) → a < b → str_lt (a ∷ []) (b ∷ []) ≡ true
unfolding str_lt
digit-str_lt a b lt = ground arith

-- Keys are ordered as their numbers: of two numbers below 10 ^ `w`, the smaller has the smaller digits.
pub decimal-str_lt : (w n m : ℕ) → n < m → m < limit w → str_lt (decimal w n) (decimal w m) ≡ true
decimal-str_lt zero n m lt lim = absurd (omega arith)
decimal-str_lt (suc w) n m lt lim = elim (Bool-cases (ltb (n / 10) (m / 10))) [
  | inl less ↦
      str_lt-append (decimal w (n / 10)) (decimal w (m / 10)) ((48 + n % 10) ∷ [])
        ((48 + m % 10) ∷ []) (length-decimal w (n / 10) ∙ sym (length-decimal w (m / 10)))
        (decimal-str_lt w (n / 10) (m / 10) (ltb→lt (n / 10) (m / 10) less) (omega arith))
  | inr not_less ↦
      let ge = ltb→ge (n / 10) (m / 10) not_less in
      let same : n / 10 ≡ m / 10 = omega arith in
      let smaller : n % 10 < m % 10 = omega arith in
      rw same (
        str_lt-append_left (decimal w (m / 10)) ((48 + n % 10) ∷ []) ((48 + m % 10) ∷ [])
        ∙ digit-str_lt (48 + n % 10) (48 + m % 10) (omega arith))
]
