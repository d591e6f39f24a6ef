-- ===== src/Compute/Morph.antt =====
-- `morph_node` counts fingerprints, not records: when the type that it finds holds the node.
use di_store.Base.{
  ℕ, zero, suc, ◌+◌, ◌≤◌, ◌<◌, ◌≡◌, ◌≢◌, ◌⊎◌, List, [], ◌∷◌, arith, ◌==◌, if◌then◌else◌, length,
}
use di_store.DataLayer.{LinkedNode}
use di_store.Compute.{capacity}
use di_store.Compute.WriteBack.{count_fingerprints, morph_type, morph_node}

-- None of the first n fingerprints is zero.
abbrev pub NonZero : ℕ → List ℕ → Type 0
NonZero zero fs = Unit
NonZero (suc n) [] = ⊥
NonZero (suc n) (f ∷ fs) = (f ≢ 0) × NonZero n fs

-- How many of the first n are.
abbrev pub zeros : ℕ → List ℕ → ℕ
zeros zero fs = 0
zeros (suc n) [] = 0
zeros (suc n) (f ∷ fs) = (if f == 0 then 1 else 0) + zeros n fs

-- Those from the n-th on are zero, as in a node that was never larger.
abbrev pub ZeroFrom : ℕ → List ℕ → Type 0
ZeroFrom n [] = Unit
ZeroFrom zero (f ∷ fs) = (f ≡ 0) × ZeroFrom zero fs
ZeroFrom (suc n) (f ∷ fs) = ZeroFrom n fs

count_fingerprints-ge : (n m : ℕ) (fs : List ℕ) → n ≤ m → NonZero n fs → n ≤ count_fingerprints m fs
unfolding count_fingerprints
count_fingerprints-ge zero m fs h z = omega arith
count_fingerprints-ge (suc n) zero fs h z = absurd (omega arith)
count_fingerprints-ge (suc n) (suc m) [] h z = elim z [ ]
count_fingerprints-ge (suc n) (suc m) (f ∷ fs) h z =
    ground (arith, count_fingerprints-ge n m fs (omega arith) z.1)

count_fingerprints-le : (m : ℕ) (fs : List ℕ) → count_fingerprints m fs ≤ m
unfolding count_fingerprints
count_fingerprints-le zero fs = omega arith
count_fingerprints-le (suc m) [] = omega arith
count_fingerprints-le (suc m) (f ∷ fs) = ground (arith, count_fingerprints-le m fs)

count_fingerprints-zeros :
    (n m : ℕ) (fs : List ℕ)
    → n ≤ m
    → n ≤ length fs
    → ZeroFrom n fs
    → count_fingerprints m fs + zeros n fs ≡ n
unfolding count_fingerprints
count_fingerprints-zeros zero zero fs h l z = omega arith
count_fingerprints-zeros zero (suc m) [] h l z = omega arith
count_fingerprints-zeros zero (suc m) (f ∷ fs) h l z =
    ground (arith, count_fingerprints-zeros zero m fs (omega arith) (omega arith) z.1)
count_fingerprints-zeros (suc n) zero fs h l z = absurd (omega arith)
count_fingerprints-zeros (suc n) (suc m) [] h l z = absurd (omega arith)
count_fingerprints-zeros (suc n) (suc m) (f ∷ fs) h l z =
    ground (arith, count_fingerprints-zeros n m fs (omega arith) (omega arith) z)

-- In a node of at most 16 records none of which has the fingerprint zero, `morph_node` finds a type
-- that holds all the records.
pub morph_node-fits :
    (buf : LinkedNode)
    → buf.next ≤ 16
    → NonZero buf.next buf.fingerprints
    → buf.next ≤ capacity (morph_node buf)
unfolding morph_node morph_type
morph_node-fits buf h z = ground (
  arith,
  count_fingerprints-ge buf.next 16 buf.fingerprints h z,
  count_fingerprints-le 16 buf.fingerprints,
)

-- In a node of 11, 13 or 15 records, with zero fingerprints behind them, one record whose fingerprint
-- is zero is enough for `morph_node` to find a type that is too small for the records.
pub morph_node_undercounts :
    (buf : LinkedNode)
    → (buf.next ≡ 11) ⊎ (buf.next ≡ 13) ⊎ (buf.next ≡ 15)
    → buf.next ≤ length buf.fingerprints
    → ZeroFrom buf.next buf.fingerprints
    → 0 < zeros buf.next buf.fingerprints
    → capacity (morph_node buf) < buf.next
unfolding morph_node morph_type
morph_node_undercounts buf odd l z some_zero = ground (
  arith,
  count_fingerprints-zeros buf.next 16 buf.fingerprints (omega arith) l z,
  count_fingerprints-le 16 buf.fingerprints,
)
