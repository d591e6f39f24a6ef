-- ===== src/Base/Strings.antt =====
-- Byte strings, `std::string` and `memcmp`: equality, the lexicographic order, `memcpy`.
use Prim.Native.Nat.{ℕ}
use mathlib.Core.Path.{◌≡◌, refl, ap, ◌∙◌}
use mathlib.Core.Logic.{◌↔◌}
use mathlib.Core.Bool.{Bool, true, false, not}
use mathlib.Core.List.{List, [], ◌∷◌, ◌++◌, append-nil}
use native.Mathlib.Omega.{arith}
use di_store.Base.Tests.{ltb, ◌==◌, if◌then◌else◌}
use di_store.Base.Lists.{length, drop, drop_all}

abbrev pub Bytes : Type 0
Bytes = List ℕ

-- `memcpy(dst, src, src.size())` into a field of fixed size.
unfoldable pub memcpy : Bytes → Bytes → Bytes
memcpy dst src = src ++ drop (length src) dst

unfoldable pub str_eq : Bytes → Bytes → Bool
str_eq [] [] = true
str_eq [] (y ∷ ys) = false
str_eq (x ∷ xs) [] = false
str_eq (x ∷ xs) (y ∷ ys) = if x == y then str_eq xs ys else false

-- `std::string::compare` below zero: bytes compare as unsigned, a proper prefix is smaller.
unfoldable pub str_lt : Bytes → Bytes → Bool
str_lt [] [] = false
str_lt [] (y ∷ ys) = true
str_lt (x ∷ xs) [] = false
str_lt (x ∷ xs) (y ∷ ys) = if ltb x y then true else if x == y then str_lt xs ys else false

abbrev pub str_le : Bytes → Bytes → Bool
str_le a b = not (str_lt b a)

pub memcpy_full : (dst src : Bytes) → length dst ≡ length src → memcpy dst src ≡ src
unfolding memcpy
memcpy_full dst src h =
    ap (λ (t : Bytes). src ++ t) (drop_all (length src) dst (omega arith)) ∙ append-nil src

pub str_eq_refl : (a : Bytes) → str_eq a a ≡ true
unfolding str_eq
str_eq_refl [] = refl
str_eq_refl (x ∷ xs) = ground (arith, str_eq_refl xs)

pub str_eq→eq : (a b : Bytes) → str_eq a b ≡ true → a ≡ b
unfolding str_eq
str_eq→eq [] [] h = refl
str_eq→eq [] (y ∷ ys) h = cc
str_eq→eq (x ∷ xs) [] h = cc
str_eq→eq (x ∷ xs) (y ∷ ys) h = ground (arith, str_eq→eq xs ys)

pub str_eq_iff : (a b : Bytes) → (str_eq a b ≡ true) ↔ (a ≡ b)
str_eq_iff a b = (str_eq→eq a b, λ e. ground (arith, str_eq_refl a))

pub str_lt_irrefl : (a : Bytes) → str_lt a a ≡ false
unfolding str_lt
str_lt_irrefl [] = refl
str_lt_irrefl (x ∷ xs) = ground (arith, str_lt_irrefl xs)

pub str_lt_nil : (a : Bytes) → str_lt a [] ≡ false
unfolding str_lt
str_lt_nil [] = refl
str_lt_nil (x ∷ xs) = refl

pub str_lt_trans : (a b c : Bytes) → str_lt a b ≡ true → str_lt b c ≡ true → str_lt a c ≡ true
unfolding str_lt
str_lt_trans [] [] c p q = cc
str_lt_trans [] (y ∷ ys) [] p q = cc
str_lt_trans [] (y ∷ ys) (z ∷ zs) p q = refl
str_lt_trans (x ∷ xs) [] c p q = cc
str_lt_trans (x ∷ xs) (y ∷ ys) [] p q = cc
str_lt_trans (x ∷ xs) (y ∷ ys) (z ∷ zs) p q = ground (arith, str_lt_trans xs ys zs)

pub str_lt_asymm : (a b : Bytes) → str_lt a b ≡ true → str_lt b a ≡ false
unfolding str_lt
str_lt_asymm [] [] p = refl
str_lt_asymm [] (y ∷ ys) p = refl
str_lt_asymm (x ∷ xs) [] p = cc
str_lt_asymm (x ∷ xs) (y ∷ ys) p = ground (arith, str_lt_asymm xs ys)

-- Of two strings neither of which is smaller, both are the same.
pub str_lt_total : (a b : Bytes) → str_lt a b ≡ false → str_lt b a ≡ false → a ≡ b
unfolding str_lt
str_lt_total [] [] p q = refl
str_lt_total [] (y ∷ ys) p q = cc
str_lt_total (x ∷ xs) [] p q = cc
str_lt_total (x ∷ xs) (y ∷ ys) p q = ground (arith, str_lt_total xs ys)

pub str_le_trans : (a b c : Bytes) → str_lt b a ≡ false → str_lt c b ≡ false → str_lt c a ≡ false
unfolding str_lt
str_le_trans [] [] [] p q = refl
str_le_trans [] [] (z ∷ zs) p q = refl
str_le_trans [] (y ∷ ys) [] p q = cc
str_le_trans [] (y ∷ ys) (z ∷ zs) p q = refl
str_le_trans (x ∷ xs) [] c p q = cc
str_le_trans (x ∷ xs) (y ∷ ys) [] p q = cc
str_le_trans (x ∷ xs) (y ∷ ys) (z ∷ zs) p q = ground (arith, str_le_trans xs ys zs)

-- What is above a string that is not below another is above that one too.
pub str_lt_of_not_lt : (a b c : Bytes) → str_lt b a ≡ false → str_lt b c ≡ true → str_lt a c ≡ true
unfolding str_lt
str_lt_of_not_lt [] [] [] p q = cc
str_lt_of_not_lt [] [] (z ∷ zs) p q = refl
str_lt_of_not_lt [] (y ∷ ys) [] p q = cc
str_lt_of_not_lt [] (y ∷ ys) (z ∷ zs) p q = refl
str_lt_of_not_lt (x ∷ xs) [] c p q = cc
str_lt_of_not_lt (x ∷ xs) (y ∷ ys) [] p q = cc
str_lt_of_not_lt (x ∷ xs) (y ∷ ys) (z ∷ zs) p q = ground (arith, str_lt_of_not_lt xs ys zs)
