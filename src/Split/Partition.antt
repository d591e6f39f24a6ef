-- ===== src/Split/Partition.antt =====
-- The records of a split: who goes where, and where a key is found afterwards.
use di_store.Base.{
  ℕ, zero, suc, ◌+◌, ◌≤◌, ◌<◌, ◌≡◌, refl, ap, Bool, true, false, none, List, [], ◌∷◌, map, arith,
  Bytes, str_lt, str_eq_iff, str_eq_refl, str_lt_total, Bool-cases, if◌then◌else◌, inl, inr, length,
  get_or,
}
use di_store.DataLayer.{Kv}
use di_store.DataLayer.Find.{lookup, occurrences}
use di_store.Split.{key_of}
use di_store.Split.Select.{count_picked, PickedBelow, OthersAbove}

-- The records that are picked (`true`), or the others (`false`), in order.
abbrev pub chosen : Bool → List Bool → List Kv → List Kv
chosen want [] ps = []
chosen want (b ∷ bs) [] = []
chosen true (true ∷ bs) (p ∷ ps) = p ∷ chosen true bs ps
chosen true (false ∷ bs) (p ∷ ps) = chosen true bs ps
chosen false (true ∷ bs) (p ∷ ps) = chosen false bs ps
chosen false (false ∷ bs) (p ∷ ps) = p ∷ chosen false bs ps

pub length-chosen :
    (bs : List Bool) (ps : List Kv)
    → length ps ≤ length bs
    → (length (chosen true bs ps) ≡ count_picked bs (map key_of ps))
      × (length (chosen true bs ps) + length (chosen false bs ps) ≡ length ps)
length-chosen [] [] h = (refl, refl)
length-chosen [] (p ∷ ps) h = absurd (omega arith)
length-chosen (b ∷ bs) [] h = (refl, refl)
length-chosen (true ∷ bs) (p ∷ ps) h =
    let (a, c) = length-chosen bs ps (omega arith) in (ap suc a, omega arith)
length-chosen (false ∷ bs) (p ∷ ps) h =
    let (a, c) = length-chosen bs ps (omega arith) in (a, omega arith)

pub occurrences-chosen :
    (j : Bytes) (bs : List Bool) (ps : List Kv)
    → length ps ≤ length bs
    → occurrences j (chosen true bs ps) + occurrences j (chosen false bs ps) ≡ occurrences j ps
unfolding occurrences
occurrences-chosen j [] [] h = refl
occurrences-chosen j [] (p ∷ ps) h = absurd (omega arith)
occurrences-chosen j (b ∷ bs) [] h = refl
occurrences-chosen j (true ∷ bs) (p ∷ ps) h =
    omega (arith, occurrences-chosen j bs ps (omega arith))
occurrences-chosen j (false ∷ bs) (p ∷ ps) h =
    omega (arith, occurrences-chosen j bs ps (omega arith))

lookup_of_occurrences : (j : Bytes) (ps : List Kv) → occurrences j ps ≡ 0 → lookup j ps ≡ none
unfolding occurrences lookup
lookup_of_occurrences j [] h = refl
lookup_of_occurrences j (p ∷ ps) h = ground (arith, lookup_of_occurrences j ps)

-- A key that one side lacks is looked up on the other.
lookup-chosen_others :
    (j : Bytes) (bs : List Bool) (ps : List Kv)
    → length ps ≤ length bs
    → lookup j (chosen true bs ps) ≡ none
    → lookup j ps ≡ lookup j (chosen false bs ps)
unfolding lookup
lookup-chosen_others j [] [] h e = refl
lookup-chosen_others j [] (p ∷ ps) h e = absurd (omega arith)
lookup-chosen_others j (b ∷ bs) [] h e = refl
lookup-chosen_others j (true ∷ bs) (p ∷ ps) h e = ground (arith, lookup-chosen_others j bs ps)
lookup-chosen_others j (false ∷ bs) (p ∷ ps) h e = ground (arith, lookup-chosen_others j bs ps)

lookup-chosen_picked :
    (j : Bytes) (bs : List Bool) (ps : List Kv)
    → length ps ≤ length bs
    → lookup j (chosen false bs ps) ≡ none
    → lookup j ps ≡ lookup j (chosen true bs ps)
unfolding lookup
lookup-chosen_picked j [] [] h e = refl
lookup-chosen_picked j [] (p ∷ ps) h e = absurd (omega arith)
lookup-chosen_picked j (b ∷ bs) [] h e = refl
lookup-chosen_picked j (true ∷ bs) (p ∷ ps) h e = ground (arith, lookup-chosen_picked j bs ps)
lookup-chosen_picked j (false ∷ bs) (p ∷ ps) h e = ground (arith, lookup-chosen_picked j bs ps)

lookup-PickedBelow :
    (j bound : Bytes) (bs : List Bool) (ps : List Kv)
    → PickedBelow bound bs (map key_of ps)
    → str_lt bound j ≡ true
    → lookup j (chosen true bs ps) ≡ none
unfolding lookup
lookup-PickedBelow j bound [] ps h e = refl
lookup-PickedBelow j bound (b ∷ bs) [] h e = refl
lookup-PickedBelow j bound (true ∷ bs) (p ∷ ps) h e =
    ground (arith, lookup-PickedBelow j bound bs ps h.1 e, str_eq_iff j p.key)
lookup-PickedBelow j bound (false ∷ bs) (p ∷ ps) h e = lookup-PickedBelow j bound bs ps h e

lookup-OthersAbove :
    (j bound : Bytes) (bs : List Bool) (ps : List Kv)
    → OthersAbove bound bs (map key_of ps)
    → str_lt j bound ≡ true
    → lookup j (chosen false bs ps) ≡ none
unfolding lookup
lookup-OthersAbove j bound [] ps h e = refl
lookup-OthersAbove j bound (b ∷ bs) [] h e = refl
lookup-OthersAbove j bound (false ∷ bs) (p ∷ ps) h e =
    ground (arith, lookup-OthersAbove j bound bs ps h.1 e, str_eq_iff j p.key)
lookup-OthersAbove j bound (true ∷ bs) (p ∷ ps) h e = lookup-OthersAbove j bound bs ps h e

occurrences-unmarked :
    (a : ℕ) (bs : List Bool) (ps : List Kv)
    → a < length (map key_of ps)
    → get_or bs a true ≡ false
    → 1 ≤ occurrences (get_or (map key_of ps) a []) (chosen false bs ps)
unfolding occurrences
occurrences-unmarked a [] ps h e = cc
occurrences-unmarked a (b ∷ bs) [] h e = elim h [ ]
occurrences-unmarked zero (true ∷ bs) (p ∷ ps) h e = cc
occurrences-unmarked zero (false ∷ bs) (p ∷ ps) h e = rw (str_eq_refl p.key) (omega arith)
occurrences-unmarked (suc a) (true ∷ bs) (p ∷ ps) h e = occurrences-unmarked a bs ps (omega arith) e
occurrences-unmarked (suc a) (false ∷ bs) (p ∷ ps) h e =
    omega (arith, occurrences-unmarked a bs ps (omega arith) e)

-- Where a key is found once the records are shared out at the anchor: below it left, else right.
pub lookup-cut :
    (j : Bytes) (a : ℕ) (bs : List Bool) (ps : List Kv)
    → length ps ≤ length bs
    → a < length (map key_of ps)
    → get_or bs a true ≡ false
    → PickedBelow (get_or (map key_of ps) a []) bs (map key_of ps)
    → OthersAbove (get_or (map key_of ps) a []) bs (map key_of ps)
    → occurrences j ps ≤ 1
    → lookup j ps ≡ (
        if str_lt j (get_or (map key_of ps) a [])
        then lookup j (chosen true bs ps)
        else lookup j (chosen false bs ps))
lookup-cut j a bs ps covers within free below above once =
    let anchor = get_or (map key_of ps) a [] in
    elim (Bool-cases (str_lt j anchor)) [
      | inl left ↦
          rw left
            (lookup-chosen_picked j bs ps covers (lookup-OthersAbove j anchor bs ps above left))
      | inr right ↦ rw right (
          lookup-chosen_others j bs ps covers (elim (Bool-cases (str_lt anchor j)) [
            | inl past ↦ lookup-PickedBelow j anchor bs ps below past
            | inr here ↦
                let same : anchor ≡ j = str_lt_total anchor j here right in
                let found : 1 ≤ occurrences j (chosen false bs ps) =
                  rw same at (occurrences-unmarked a bs ps within free) in
                lookup_of_occurrences j (chosen true bs ps)
                  (omega (arith, occurrences-chosen j bs ps covers))
          ]))
    ]
