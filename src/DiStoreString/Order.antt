-- ===== src/DiStoreString/Order.antt =====
-- The comparison operators of DiStoreString against the lexicographic order of strings.
use di_store.Base.{
  ℕ, zero, suc, ◌≤◌, ◌≡◌, refl, sym, ap, ◌∙◌, subst, inl, inr, Bool-cases, Bool, false, not, [],
  ◌∷◌, arith, min, Bytes, length, take, str_eq, str_lt, ltb, leb, ◌==◌, if◌then◌else◌,
}
use di_store.DiStoreString.{
  DiStoreString, to_string, eq_loop, equals, differs, less_loop, greater_loop, less, less_eq,
  greater, greater_eq,
}

-- The content is in the memory.
abbrev pub IsStored : DiStoreString → Type 0
IsStored s = s.length ≤ length s.content

eq_loop-str_eq :
    (n : ℕ) (xs ys : Bytes)
    → n ≤ length xs
    → n ≤ length ys
    → eq_loop n xs ys ≡ str_eq (take n xs) (take n ys)
unfolding eq_loop str_eq
eq_loop-str_eq zero xs ys p q = refl
eq_loop-str_eq (suc n) [] ys p q = absurd (omega arith)
eq_loop-str_eq (suc n) (x ∷ xs) [] p q = absurd (omega arith)
eq_loop-str_eq (suc n) (x ∷ xs) (y ∷ ys) p q =
    ap (λ (b : Bool). if x == y then b else false)
      (eq_loop-str_eq n xs ys (omega arith) (omega arith))

-- strings of different lengths differ
str_eq-take :
    (n m : ℕ) (xs ys : Bytes)
    → n ≤ length xs
    → m ≤ length ys
    → (n == m) ≡ false
    → str_eq (take n xs) (take m ys) ≡ false
unfolding str_eq
str_eq-take zero zero xs ys p q d = ground arith
str_eq-take zero (suc m) xs [] p q d = absurd (omega arith)
str_eq-take zero (suc m) xs (y ∷ ys) p q d = refl
str_eq-take (suc n) m [] ys p q d = absurd (omega arith)
str_eq-take (suc n) zero (x ∷ xs) ys p q d = refl
str_eq-take (suc n) (suc m) (x ∷ xs) [] p q d = absurd (omega arith)
str_eq-take (suc n) (suc m) (x ∷ xs) (y ∷ ys) p q d =
    let fewer : (n == m) ≡ false = ground arith in
    rw (str_eq-take n m xs ys (omega arith) (omega arith) fewer) (ground arith)

less_loop-str_lt :
    (n la lb : ℕ) (xs ys : Bytes) (last : Bool)
    → n ≡ min la lb
    → la ≤ length xs
    → lb ≤ length ys
    → last ≡ ltb la lb
    → less_loop n xs ys last ≡ str_lt (take la xs) (take lb ys)
unfolding less_loop str_lt
less_loop-str_lt zero zero zero xs ys last e p q l = l
less_loop-str_lt zero zero (suc lb) xs [] last e p q l = absurd (omega arith)
less_loop-str_lt zero zero (suc lb) xs (y ∷ ys) last e p q l = l ∙ ground arith
less_loop-str_lt zero (suc la) zero [] ys last e p q l = absurd (omega arith)
less_loop-str_lt zero (suc la) zero (x ∷ xs) ys last e p q l = l ∙ ground arith
less_loop-str_lt zero (suc la) (suc lb) xs ys last e p q l = absurd (omega arith)
less_loop-str_lt (suc n) zero lb xs ys last e p q l = absurd (omega arith)
less_loop-str_lt (suc n) (suc la) zero xs ys last e p q l = absurd (omega arith)
less_loop-str_lt (suc n) (suc la) (suc lb) [] ys last e p q l = absurd (omega arith)
less_loop-str_lt (suc n) (suc la) (suc lb) (x ∷ xs) [] last e p q l = absurd (omega arith)
less_loop-str_lt (suc n) (suc la) (suc lb) (x ∷ xs) (y ∷ ys) last e p q l =
    let same : last ≡ ltb la lb = l ∙ ground arith in
    let rest = less_loop-str_lt n la lb xs ys last (omega arith) (omega arith) (omega arith) same in
    rw rest (ground arith)

-- `operator>` is `operator<` the other way round.
greater_loop-less_loop :
    (n : ℕ) (xs ys : Bytes) (last : Bool) → greater_loop n xs ys last ≡ less_loop n ys xs last
unfolding less_loop greater_loop
greater_loop-less_loop zero xs ys last = refl
greater_loop-less_loop (suc n) [] [] last = refl
greater_loop-less_loop (suc n) [] (y ∷ ys) last = refl
greater_loop-less_loop (suc n) (x ∷ xs) [] last = refl
greater_loop-less_loop (suc n) (x ∷ xs) (y ∷ ys) last =
    rw (greater_loop-less_loop n xs ys last) (ground arith)

less_loop-swap :
    (n : ℕ) (xs ys : Bytes) (last : Bool)
    → n ≤ length xs
    → n ≤ length ys
    → less_loop n xs ys (not last) ≡ not (less_loop n ys xs last)
unfolding less_loop
less_loop-swap zero xs ys last p q = refl
less_loop-swap (suc n) [] ys last p q = absurd (omega arith)
less_loop-swap (suc n) (x ∷ xs) [] last p q = absurd (omega arith)
less_loop-swap (suc n) (x ∷ xs) (y ∷ ys) last p q =
    rw (less_loop-swap n xs ys last (omega arith) (omega arith)) (ground arith)

leb-ltb : (a b : ℕ) → leb a b ≡ not (ltb b a)
leb-ltb a b = ground arith

module _ (a b : DiStoreString) (p : IsStored a) (q : IsStored b) where
  less-str_lt : less a b ≡ str_lt (to_string a) (to_string b)
  unfolding less
  less-str_lt =
      less_loop-str_lt (min a.length b.length) a.length b.length a.content b.content
        (ltb a.length b.length) refl p q refl

  swapped :
      (n : ℕ)
      → n ≡ min a.length b.length
      → less_loop n b.content a.content (leb b.length a.length)
        ≡ not (str_lt (to_string a) (to_string b))
  swapped n e = rw (leb-ltb b.length a.length) (
      less_loop-swap n b.content a.content (ltb a.length b.length) (omega arith) (omega arith)
      ∙ ap not (
          less_loop-str_lt n a.length b.length a.content b.content (ltb a.length b.length) e p q
            refl))

  equals-str_eq : equals a b ≡ str_eq (to_string a) (to_string b)
  unfolding equals
  equals-str_eq = elim (Bool-cases (a.length == b.length)) [
    | inl same ↦
        let e : a.length ≡ b.length = ground arith in
        rw same (
          subst
            (λ m. eq_loop a.length a.content b.content ≡ str_eq (to_string a) (take m b.content)) e
            (eq_loop-str_eq a.length a.content b.content p (omega arith)))
    | inr not_same ↦
        rw not_same (sym (str_eq-take a.length b.length a.content b.content p q not_same))
  ]

-- For two strings whose content is in memory, the six comparison operators are the equality and the
-- lexicographic order of the strings of bytes that `to_string` returns.
pub operators-to_string :
    (a b : DiStoreString)
    → IsStored a
    → IsStored b
    → (equals a b ≡ str_eq (to_string a) (to_string b))
      × (differs a b ≡ not (str_eq (to_string a) (to_string b)))
      × (less a b ≡ str_lt (to_string a) (to_string b))
      × (less_eq a b ≡ not (str_lt (to_string b) (to_string a)))
      × (greater a b ≡ str_lt (to_string b) (to_string a))
      × (greater_eq a b ≡ not (str_lt (to_string a) (to_string b)))
unfolding differs less_eq greater greater_eq
operators-to_string a b p q =
    let n = min a.length b.length in
    (
      equals-str_eq a b p q,
      ap not (equals-str_eq a b p q),
      less-str_lt a b p q,
      swapped b a q p n (omega arith),
      greater_loop-less_loop n a.content b.content (ltb b.length a.length)
          ∙ less_loop-str_lt n b.length a.length b.content a.content (ltb b.length a.length)
              (omega arith) q p refl,
      greater_loop-less_loop n a.content b.content (leb b.length a.length) ∙ swapped a b p q n refl,
    )
