-- ===== src/DiStoreString/Update.antt =====
-- `make_string`, `inplace_update` and `compare` of DiStoreString.
use di_store.Base.{
  ℕ, zero, suc, ◌+◌, ◌-◌, ◌≤◌, ◌<◌, ◌^◌, ◌%◌, ◌≡◌, ◌≢◌, refl, ◌∙◌, ◌⊎◌, inl, inr, true, false, [],
  ◌∷◌, arith, min, Bytes, memcpy, length, length-append, length-take, All, take, drop, str_eq,
  str_lt, ltb, ltb→lt, ltb→ge, Bool-cases, ◌==◌, if◌then◌else◌, take-take_append,
}
use di_store.DiStoreString.{
  DiStoreString, to_string, make_string, inplace_update, Sign, negative, equal, positive, int_sign,
  strncmp, or_else, compare_with,
}
use di_store.DiStoreString.Order.{IsStored}

-- `make_string` of bytes that are there, in any memory: the string is their first `size % 2 ^ 15` bytes, all of
-- them for a size below 2 ^ 15.
pub make_string-to_string :
    (chunk bytes : Bytes) (size : ℕ)
    → size ≤ length bytes
    → (to_string (make_string chunk bytes size) ≡ take (size % 2 ^ 15) bytes)
      × IsStored (make_string chunk bytes size)
unfolding make_string memcpy
make_string-to_string chunk bytes size h = (
  take-take_append (size % 2 ^ 15) size bytes (drop (length (take size bytes)) chunk) (omega arith)
      h,
  omega (
    arith,
    length-append (take size bytes) (drop (length (take size bytes)) chunk),
    length-take size bytes,
  ),
)

-- `inplace_update` of a string whose content is in memory: bytes that are too many are refused and change
-- nothing, others become the string.
pub inplace_update-to_string :
    (s : DiStoreString) (bytes : Bytes) (size : ℕ)
    → IsStored s
    → s.length < 2 ^ 15
    → size ≤ length bytes
    → ((s.length < size) × (inplace_update bytes size s ≡ (s, false)))
      ⊎ ((size ≤ s.length)
          × ((inplace_update bytes size s).1 ≡ true)
          × (to_string (inplace_update bytes size s).0 ≡ take size bytes)
          × IsStored (inplace_update bytes size s).0)
unfolding inplace_update memcpy
inplace_update-to_string s bytes size stored short h = elim (Bool-cases (ltb s.length size)) [
  | inl long ↦ inl (ltb→lt s.length size long, rw long refl)
  | inr fits ↦
      let le = ltb→ge s.length size fits in
      let same : size % 2 ^ 15 ≡ size = omega arith in
      inr (
        le,
        rw fits refl,
        rw (fits, same)
            (take-take_append size size bytes (drop (length (take size bytes)) s.content)
              (omega arith) h),
        rw (fits, same)
            (omega (
              arith,
              length-append (take size bytes) (drop (length (take size bytes)) s.content),
              length-take size bytes,
            )),
      )
]

-- The sign that the order of two strings has.
abbrev pub order_sign : Bytes → Bytes → Sign
order_sign xs ys = if str_lt xs ys then negative else if str_eq xs ys then equal else positive

strncmp-order_sign :
    (n la lb : ℕ) (xs ys : Bytes) (last : Sign)
    → n ≡ min la lb
    → la ≤ length xs
    → lb ≤ length ys
    → All (λ x. x ≢ 0) (take la xs)
    → last ≡ (if ltb la lb then negative else if la == lb then equal else positive)
    → or_else (strncmp n xs ys) last ≡ order_sign (take la xs) (take lb ys)
unfolding strncmp str_lt str_eq
strncmp-order_sign zero zero zero xs ys last e p q z l = l
strncmp-order_sign zero zero (suc lb) xs [] last e p q z l = absurd (omega arith)
strncmp-order_sign zero zero (suc lb) xs (y ∷ ys) last e p q z l = l ∙ ground arith
strncmp-order_sign zero (suc la) zero [] ys last e p q z l = absurd (omega arith)
strncmp-order_sign zero (suc la) zero (x ∷ xs) ys last e p q z l = l ∙ ground arith
strncmp-order_sign zero (suc la) (suc lb) xs ys last e p q z l = absurd (omega arith)
strncmp-order_sign (suc n) zero lb xs ys last e p q z l = absurd (omega arith)
strncmp-order_sign (suc n) (suc la) zero xs ys last e p q z l = absurd (omega arith)
strncmp-order_sign (suc n) (suc la) (suc lb) [] ys last e p q z l = absurd (omega arith)
strncmp-order_sign (suc n) (suc la) (suc lb) (x ∷ xs) [] last e p q z l = absurd (omega arith)
strncmp-order_sign (suc n) (suc la) (suc lb) (x ∷ xs) (y ∷ ys) last e p q z l =
    let same : last ≡ (if ltb la lb then negative else if la == lb then equal else positive) =
      l ∙ ground arith in
    let rest =
      strncmp-order_sign n la lb xs ys last (omega arith) (omega arith) (omega arith) z.1 same in
    let nonzero = z.0 in ground arith

int_sign-lengths :
    (n m : ℕ)
    → n < 2 ^ 15
    → m < 2 ^ 31
    → int_sign ((n + 2 ^ 64 - m) % 2 ^ 64)
      ≡ (if ltb n m then negative else if n == m then equal else positive)
unfolding int_sign
int_sign-lengths n m p q = elim (Bool-cases (ltb n m)) [
  | inl less ↦
      let lt = ltb→lt n m less in
      let low : ((n + 2 ^ 64 - m) % 2 ^ 64) % 2 ^ 32 ≡ 2 ^ 32 - (m - n) = omega arith in
      rw (less, low) (ground arith)
  | inr not_less ↦
      let ge = ltb→ge n m not_less in
      let low : ((n + 2 ^ 64 - m) % 2 ^ 64) % 2 ^ 32 ≡ n - m = omega arith in
      rw (not_less, low) (ground arith)
]

-- `compare` with a shorter buffer than 2 ^ 31 bytes, of a string whose content is in memory and has no zero
-- byte: the sign is that of the lexicographic order.
pub compare_with-order_sign :
    (s : DiStoreString) (rhs : Bytes) (r_sz : ℕ)
    → IsStored s
    → s.length < 2 ^ 15
    → r_sz ≤ length rhs
    → r_sz < 2 ^ 31
    → All (λ x. x ≢ 0) (to_string s)
    → compare_with s rhs r_sz ≡ order_sign (to_string s) (take r_sz rhs)
unfolding compare_with
compare_with-order_sign s rhs r_sz stored short there small nonzero =
    strncmp-order_sign (min s.length r_sz) s.length r_sz s.content rhs
      (int_sign ((s.length + 2 ^ 64 - r_sz) % 2 ^ 64)) refl stored there nonzero
      (int_sign-lengths s.length r_sz short small)
