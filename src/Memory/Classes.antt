-- ===== src/Memory/Classes.antt =====
-- `get_class` finds the smallest class that a request fits.
use di_store.Base.{
  ℕ, zero, suc, ◌+◌, ◌-◌, ◌*◌, ◌/◌, ◌^◌, ◌≤◌, ◌<◌, ◌≡◌, ◌≢◌, ◌⊎◌, refl, ap, ==_iff, true, false,
  none, some, arith, ltb, leb, ◌==◌, Bool-cases, inl, inr, if◌then◌else◌,
}
use native.Mathlib.Numerals.{add-one}
use di_store.Memory.Page.{AllocationClass, class_no, class_size, class_at, highest_bit, get_class}

highest_bit-suc : (fuel x : ℕ) → 1 < x → highest_bit (suc fuel) x ≡ suc (highest_bit fuel (x / 2))
unfolding highest_bit
highest_bit-suc fuel x h = let t : leb x 1 ≡ false = ground arith in simp t

highest_bit-one : (fuel x : ℕ) → x ≤ 1 → highest_bit (suc fuel) x ≡ 0
unfolding highest_bit
highest_bit-one fuel x h = let t : leb x 1 ≡ true = ground arith in simp t

-- x lies between the power of its highest bit and the one above.
highest_bit-bounds :
    (fuel x : ℕ)
    → 0 < x
    → x < 2 ^ fuel
    → (2 ^ highest_bit fuel x ≤ x) × (x < 2 * 2 ^ highest_bit fuel x)
highest_bit-bounds zero x a b = absurd (omega arith)
highest_bit-bounds (suc fuel) x a b = elim (Bool-cases (leb x 1)) [
  | inl one ↦
      let le : x ≤ 1 = ground arith in rw (highest_bit-one fuel x le) (omega (arith), omega (arith))
  | inr more ↦
      let gt : 1 < x = ground arith in
      let ih = highest_bit-bounds fuel (x / 2) (omega (arith, gt)) (omega arith) in
      rw (highest_bit-suc fuel x gt) (omega (arith, ih.0), omega (arith, ih.1))
]

one_le_pow : (k : ℕ) → 1 ≤ 2 ^ k
one_le_pow zero = omega arith
one_le_pow (suc k) = omega (arith, one_le_pow k)

pow_above : (k : ℕ) → 256 < 2 ^ suc (suc (suc (suc (suc (suc (suc (suc (suc k))))))))
pow_above k = omega (arith, one_le_pow k)

small_exponent : (k : ℕ) → 2 ^ k ≤ 256 → k ≤ 8
small_exponent zero h = omega arith
small_exponent (suc zero) h = omega arith
small_exponent (suc (suc zero)) h = omega arith
small_exponent (suc (suc (suc zero))) h = omega arith
small_exponent (suc (suc (suc (suc zero)))) h = omega arith
small_exponent (suc (suc (suc (suc (suc zero))))) h = omega arith
small_exponent (suc (suc (suc (suc (suc (suc zero)))))) h = omega arith
small_exponent (suc (suc (suc (suc (suc (suc (suc zero))))))) h = omega arith
small_exponent (suc (suc (suc (suc (suc (suc (suc (suc zero)))))))) h = omega arith
small_exponent (suc (suc (suc (suc (suc (suc (suc (suc (suc k))))))))) h =
    absurd (omega (arith, pow_above k))

strict_exponent : (k : ℕ) → 2 ^ k < 256 → k < 8
strict_exponent k h = elim (Bool-cases (k == 8)) [
  | inl e ↦
      let same : k ≡ 8 = (==_iff k 8).0 e in absurd (omega (arith, ap (λ (n : ℕ). 2 ^ n) same))
  | inr ne ↦ let differ : k ≢ 8 = ground arith in omega (arith, small_exponent k (omega arith))
]

-- The exponent that `get_class` computes is the least one that holds `times`.
exponent-bounds :
    (ct times : ℕ)
    → times ≤ 256
    → 2 ^ ct ≤ times
    → times < 2 * 2 ^ ct
    → (let e = ct + (if ltb (2 ^ ct) times then 1 else 0) in
        (e ≤ 8) × (times ≤ 2 ^ e) × (2 ^ e < 2 * times))
exponent-bounds ct times a b c = elim (Bool-cases (ltb (2 ^ ct) times)) [
  | inl above ↦
      let gt : 2 ^ ct < times = ground arith in
      let e : 2 ^ (ct + 1) ≡ 2 * 2 ^ ct = rw add-one (omega arith) in
      rw above (
        omega (arith, strict_exponent ct (omega (arith, gt))),
        omega (arith, e),
        omega (arith, e, gt),
      )
  | inr equal ↦
      let le : times ≤ 2 ^ ct = ground arith in
      let same : ct + 0 ≡ ct = omega arith in
      let e : 2 ^ (ct + 0) ≡ 2 ^ ct = rw same refl in
      rw equal
        (omega (arith, small_exponent ct (omega arith)), omega (arith, e), omega (arith, e, le))
]

class_no-class_at : (e : ℕ) → e ≤ 8 → class_no (class_at e) ≡ e
class_no-class_at zero h = refl
class_no-class_at (suc zero) h = refl
class_no-class_at (suc (suc zero)) h = refl
class_no-class_at (suc (suc (suc zero))) h = refl
class_no-class_at (suc (suc (suc (suc zero)))) h = refl
class_no-class_at (suc (suc (suc (suc (suc zero))))) h = refl
class_no-class_at (suc (suc (suc (suc (suc (suc zero)))))) h = refl
class_no-class_at (suc (suc (suc (suc (suc (suc (suc zero))))))) h = refl
class_no-class_at (suc (suc (suc (suc (suc (suc (suc (suc zero)))))))) h = refl
class_no-class_at (suc (suc (suc (suc (suc (suc (suc (suc (suc k))))))))) h = absurd (omega arith)

half_too_small :
    (e sz : ℕ) → 0 < sz → 2 ^ e < 2 * ((sz - 1) / 16 + 1) → (e ≡ 0) ⊎ (16 * 2 ^ e < 2 * sz)
half_too_small zero sz pos h = inl refl
half_too_small (suc e) sz pos h = inr (omega arith)

-- For a size from 1 to 4096 `get_class` finds a class; the size fits it, and no chunk of half its size
-- would do unless it is the smallest class. For any other size it throws.
pub get_class-least :
    (sz : ℕ)
    → ((c : AllocationClass) × (get_class sz ≡ some c)
        × (class_no c ≤ 8)
        × (sz ≤ class_size c)
        × ((class_no c ≡ 0) ⊎ (class_size c < 2 * sz)))
      ⊎ ((get_class sz ≡ none) × ((sz ≡ 0) ⊎ (4096 < sz)))
unfolding get_class
get_class-least sz = elim (Bool-cases (sz == 0)) [
  | inl zero_size ↦ inr (rw zero_size refl, inl ((==_iff sz 0).0 zero_size))
  | inr some_size ↦ elim (Bool-cases (ltb 4096 sz)) [
    | inl large ↦ inr (rw (some_size, large) refl, inr (ground arith))
    | inr fitting ↦
        let times : ℕ = (sz - 1) / 16 + 1 in
        let ct : ℕ = highest_bit 64 times in
        let e : ℕ = ct + (if ltb (2 ^ ct) times then 1 else 0) in
        let le : sz ≤ 4096 = ground arith in
        let pos : 0 < sz = ground arith in
        let small : times ≤ 256 = omega (arith, le) in
        let (lo, hi) = highest_bit-bounds 64 times (omega arith) (omega (arith, small)) in
        let (x, y, z) = exponent-bounds ct times small lo hi in
        let no : class_no (class_at e) ≡ e = class_no-class_at e x in
        inl (
          class_at e,
          rw (some_size, fitting) refl,
          omega (arith, no, x),
          rw no (omega (arith, y, pos)),
          rw no (half_too_small e sz pos z),
        )
  ]
]
