-- ===== src/Split/Select.antt =====
-- One round of `construct_reorder_map` picks a least key among those that are not picked.
use di_store.Base.{
  ℕ, suc, ◌+◌, ◌≤◌, ◌<◌, ◌≡◌, ◌⊎◌, inl, inr, refl, Bool, true, false, List, [], ◌∷◌, arith, Bytes,
  str_lt, str_lt_irrefl, str_lt_asymm, str_lt_trans, str_le_trans, Bool-cases, length, get_or,
}
use di_store.Split.{first_unpicked, min_scan, select_min}

-- Read in lockstep with the keys: how many are picked, no picked key lies above the bound, no key that
-- is not picked lies below it.
abbrev pub count_picked : List Bool → List Bytes → ℕ
count_picked [] ks = 0
count_picked (b ∷ bs) [] = 0
count_picked (true ∷ bs) (k ∷ ks) = suc (count_picked bs ks)
count_picked (false ∷ bs) (k ∷ ks) = count_picked bs ks

abbrev pub PickedBelow : Bytes → List Bool → List Bytes → Type 0
PickedBelow bound [] ks = Unit
PickedBelow bound (b ∷ bs) [] = Unit
PickedBelow bound (true ∷ bs) (k ∷ ks) = (str_lt bound k ≡ false) × PickedBelow bound bs ks
PickedBelow bound (false ∷ bs) (k ∷ ks) = PickedBelow bound bs ks

abbrev pub OthersAbove : Bytes → List Bool → List Bytes → Type 0
OthersAbove bound [] ks = Unit
OthersAbove bound (b ∷ bs) [] = Unit
OthersAbove bound (true ∷ bs) (k ∷ ks) = OthersAbove bound bs ks
OthersAbove bound (false ∷ bs) (k ∷ ks) = (str_lt k bound ≡ false) × OthersAbove bound bs ks

-- Index d of the keys is free, and its key is `k`.
pub record IsFree (d : ℕ) (k : Bytes) (bs : List Bool) (ks : List Bytes) : Type 0 where
  pub within : d < length ks
  pub free : get_or bs d true ≡ false
  pub key : get_or ks d [] ≡ k

IsFree-cons :
    {d : ℕ} {k : Bytes} {bs : List Bool} {ks : List Bytes} (b : Bool) (x : Bytes)
    → IsFree d k bs ks
    → IsFree (suc d) k (b ∷ bs) (x ∷ ks)
IsFree-cons b x f = record { within = omega (arith, f.within); free = f.free; key = f.key }

IsFree-head : (k : Bytes) (bs : List Bool) (ks : List Bytes) → IsFree 0 k (false ∷ bs) (k ∷ ks)
IsFree-head k bs ks = record { within = omega arith; free = refl; key = refl }

first_unpicked-IsFree :
    (target j : ℕ) (bs : List Bool) (ks : List Bytes)
    → length ks ≤ length bs
    → count_picked bs ks < length ks
    → (d : ℕ) × (first_unpicked target j bs ks ≡ j + d) × IsFree d (get_or ks d []) bs ks
unfolding first_unpicked
first_unpicked-IsFree target j [] [] a h = absurd (omega arith)
first_unpicked-IsFree target j [] (k ∷ ks) a h = absurd (omega arith)
first_unpicked-IsFree target j (b ∷ bs) [] a h = elim h [ ]
first_unpicked-IsFree target j (true ∷ bs) (k ∷ ks) a h =
    let (d, e, f) = first_unpicked-IsFree target (suc j) bs ks (omega arith) (omega arith) in
    (suc d, omega arith, IsFree-cons true k f)
first_unpicked-IsFree target j (false ∷ bs) (k ∷ ks) a h = (0, omega arith, IsFree-head k bs ks)

-- What the second loop ends with: its start, if no free key is below `best`, or a free index.
abbrev Least : ℕ → ℕ → Bytes → ℕ → List Bool → List Bytes → Type 0
Least r target best j bs ks =
    ((r ≡ target) × OthersAbove best bs ks)
    ⊎ ((d : ℕ) × (k : Bytes) × (r ≡ j + d)
        × IsFree d k bs ks
        × OthersAbove k bs ks
        × (str_lt k best ≡ true))

min_scan-Least :
    (target : ℕ) (best : Bytes) (j : ℕ) (bs : List Bool) (ks : List Bytes)
    → Least (min_scan target best j bs ks) target best j bs ks
unfolding min_scan
min_scan-Least target best j [] ks = inl (refl, tt)
min_scan-Least target best j (b ∷ bs) [] = inl (refl, tt)
min_scan-Least target best j (true ∷ bs) (k ∷ ks) =
    elim (min_scan-Least target best (suc j) bs ks) [
      | inl h ↦ inl h
      | inr (d, x, e, f, o, l) ↦ inr (suc d, x, omega arith, IsFree-cons true k f, o, l)
    ]
min_scan-Least target best j (false ∷ bs) (k ∷ ks) = elim (Bool-cases (str_lt k best)) [
  | inl below ↦ rw below (elim (min_scan-Least j k (suc j) bs ks) [
    | inl h ↦ inr (0, k, omega (arith, h.0), IsFree-head k bs ks, (str_lt_irrefl k, h.1), below)
    | inr (d, x, e, f, o, l) ↦ inr (
      suc d,
      x,
      omega arith,
      IsFree-cons false k f,
      (str_lt_asymm x k l, o),
      str_lt_trans x k best l below,
    )
  ])
  | inr above ↦ rw above (elim (min_scan-Least target best (suc j) bs ks) [
    | inl h ↦ inl (h.0, (refl, h.1))
    | inr (d, x, e, f, o, l) ↦ inr (
      suc d,
      x,
      omega arith,
      IsFree-cons false k f,
      (str_le_trans x best k (str_lt_asymm x best l) above, o),
      l,
    )
  ])
]

-- The picked index is free, and no free key is below its key.
pub select_min-least :
    (keys : List Bytes) (target : ℕ) (picked : List Bool)
    → length keys ≤ length picked
    → count_picked picked keys < length keys
    → (let t = select_min keys target picked in
        IsFree t (get_or keys t []) picked keys × OthersAbove (get_or keys t []) picked keys)
unfolding select_min
select_min-least keys target picked a h =
    let (d, e, f) = first_unpicked-IsFree target 0 picked keys a h in
    let first : first_unpicked target 0 picked keys ≡ d = omega arith in
    rw first (elim (min_scan-Least d (get_or keys d []) 0 picked keys) [
      | inl g ↦ rw g.0 (f, g.1)
      | inr (c, k, r, g, o, l) ↦
          let at : min_scan d (get_or keys d []) 0 picked keys ≡ c = omega arith in
          rw (at, g.key) (g, o)
    ])
