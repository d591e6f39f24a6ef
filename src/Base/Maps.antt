-- ===== src/Base/Maps.antt =====
-- `std::unordered_map` with strings for keys, as an association list.
use mathlib.Core.Path.{◌≡◌, refl, sym, ◌∙◌}
use mathlib.Core.Logic.{◌⊎◌, inl, inr}
use mathlib.Core.Bool.{Bool, true, false, ◌&&◌}
use mathlib.Core.Option.{Option, none, some}
use mathlib.Core.List.{List, [], ◌∷◌}
use native.Mathlib.Omega.{arith}
use di_store.Base.Tests.{if◌then◌else◌, Bool-cases, Option-cases}
use di_store.Base.Strings.{Bytes, str_eq, str_eq_refl, str_eq→eq}

abbrev pub Map {ℓ} : Type ℓ → Type ℓ
Map V = List (Bytes × V)

abbrev pub is_set {ℓ} : {A : Type ℓ} → Option A → Bool
is_set none = false
is_set (some a) = true

abbrev pub prefer {ℓ} : {A : Type ℓ} → Option A → Option A → Option A
prefer none b = b
prefer (some a) b = some a

module _ {ℓ} {V : Type ℓ} where
  unfoldable pub lookup_key : Bytes → Map V → Option V
  lookup_key k [] = none
  lookup_key k ((j, v) ∷ m) = if str_eq j k then some v else lookup_key k m

  -- `insert`: what is there stays, and whether the key is new
  unfoldable pub insert_new : Bytes → V → Map V → Map V × Bool
  insert_new k v m = elim (lookup_key k m) [ none ↦ ((k, v) ∷ m, true) | some u ↦ (m, false) ]

  -- `ret->second = v` of a key that is there
  unfoldable pub replace : Bytes → V → Map V → Map V
  replace k v [] = []
  replace k v ((j, u) ∷ m) = if str_eq j k then (j, v) ∷ m else (j, u) ∷ replace k v m

  -- Keys are there once.
  abbrev pub IsMap : Map V → Type ℓ
  IsMap [] = Unit
  IsMap ((k, v) ∷ m) = (lookup_key k m ≡ none) × IsMap m

  pub lookup_key-insert_new :
      (j k : Bytes) (v : V) (m : Map V)
      → lookup_key j (insert_new k v m).0
        ≡ (if str_eq k j then prefer (lookup_key k m) (some v) else lookup_key j m)
  unfolding lookup_key insert_new
  lookup_key-insert_new j k v m = elim (Option-cases (lookup_key k m)) [
    | inl absent ↦ rw (absent, insert_new) refl
    | inr (u, here) ↦ elim (Bool-cases (str_eq k j)) [
      | inl same ↦ let e = str_eq→eq k j same in rw (here, insert_new, same) (rw (sym e) here)
      | inr other ↦ rw (here, insert_new, other) refl
    ]
  ]

  pub insert_new-IsMap : (k : Bytes) (v : V) (m : Map V) → IsMap m → IsMap (insert_new k v m).0
  unfolding insert_new
  insert_new-IsMap k v m h = elim (Option-cases (lookup_key k m)) [
    | inl absent ↦ rw (absent, insert_new) (absent, h)
    | inr (u, here) ↦ rw (here, insert_new) h
  ]

  pub insert_new-is_set :
      (k : Bytes) (v : V) (m : Map V)
      → (insert_new k v m).1 ≡ (if is_set (lookup_key k m) then false else true)
  unfolding insert_new
  insert_new-is_set k v m = elim (Option-cases (lookup_key k m)) [
    | inl absent ↦ rw (absent, insert_new) refl
    | inr (u, here) ↦ rw (here, insert_new) refl
  ]

  pub lookup_key-replace :
      (j k : Bytes) (v : V) (m : Map V)
      → lookup_key j (replace k v m)
        ≡ (if str_eq k j && is_set (lookup_key k m) then some v else lookup_key j m)
  unfolding lookup_key replace
  lookup_key-replace j k v [] = ground arith
  lookup_key-replace j k v ((i, u) ∷ m) = elim (Bool-cases (str_eq i k)) [
    | inl same ↦ let e = str_eq→eq i k same in rw (same, e) (ground arith)
    | inr other ↦ elim (Bool-cases (str_eq i j)) [
      | inr below ↦ rw (other, below) (lookup_key-replace j k v m)
      | inl here ↦ elim (Bool-cases (str_eq k j)) [
        | inr apart ↦ rw (other, here, apart) refl
        | inl both ↦
            let e : i ≡ k = str_eq→eq i j here ∙ sym (str_eq→eq k j both) in
            let f : true ≡ false = sym (str_eq_refl k) ∙ (rw e at other) in absurd (cc)
      ]
    ]
  ]

  -- Which keys are there after an insertion.
  pub insert_new-grows :
      (j k : Bytes) (v : V) (m : Map V)
      → is_set (lookup_key j m) ≡ true
      → is_set (lookup_key j (insert_new k v m).0) ≡ true
  insert_new-grows j k v m h = rw (lookup_key-insert_new j k v m) (ground arith)

  pub insert_new_self :
      (k : Bytes) (v : V) (m : Map V) → is_set (lookup_key k (insert_new k v m).0) ≡ true
  insert_new_self k v m = rw (lookup_key-insert_new k k v m, str_eq_refl k) (ground arith)

  pub insert_new_only :
      (j k : Bytes) (v : V) (m : Map V)
      → is_set (lookup_key j (insert_new k v m).0) ≡ true
      → (k ≡ j) ⊎ (is_set (lookup_key j m) ≡ true)
  insert_new_only j k v m h = elim (Bool-cases (str_eq k j)) [
    | inl same ↦ inl (str_eq→eq k j same)
    | inr other ↦ inr (rw (lookup_key-insert_new j k v m, other) at h)
  ]
