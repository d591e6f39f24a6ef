-- ===== src/Memory/Bitmap.antt =====
-- src/components/memory/memory.hpp, `Bitmap`, and src/components/memory/memory_node/memory_node.hpp,
-- `MemoryNodeAllocator`: a byte of the map is a number below 256. `map[i] & byte_masks[j]` reads the bit j
-- of a byte, which is `x / 2 ^ j % 2`; a bit is set and cleared by adding and subtracting its power.
use di_store.Base.{
  ℕ, zero, suc, ◌+◌, ◌-◌, ◌*◌, ◌/◌, ◌%◌, ◌^◌, ◌≡◌, refl, ap, Option, none, some, List, [], ◌∷◌,
  arith, ◌==◌, Option-cases, ◌++◌, inl, inr, if◌then◌else◌, length, length-append, length-replicate,
  replicate, get_or, set,
}
use di_store.Memory.Page.{memory_page_size, segment_size}

abbrev pub bit : ℕ → ℕ → ℕ
bit x j = x / 2 ^ j % 2

-- The loop over the bits of one byte, from j on with n bits left: the first that is clear.
unfoldable pub clear_bit : ℕ → ℕ → ℕ → Option ℕ
clear_bit x zero j = none
clear_bit x (suc n) j = let rest = clear_bit x n (suc j) in if bit x j == 0 then some j else rest

-- `Bitmap::get_empty`: the map with the bit set, and its number
unfoldable pub get_empty : ℕ → List ℕ → List ℕ × Option ℕ
get_empty i [] = ([], none)
get_empty i (x ∷ xs) =
    let (ys, found) = get_empty (suc i) xs in
    elim (clear_bit x 8 0) [
      | some j ↦ ((x + 2 ^ j) ∷ xs, some (i * 8 + j))
      | none ↦ (x ∷ ys, found)
    ]

-- `Bitmap::find_empty`
unfoldable pub find_empty : ℕ → List ℕ → Option ℕ
find_empty i [] = none
find_empty i (x ∷ xs) =
    let found = find_empty (suc i) xs in
    elim (clear_bit x 8 0) [ some j ↦ some (i * 8 + j) | none ↦ found ]

-- `Bitmap::unset`
unfoldable pub unset : ℕ → List ℕ → List ℕ
unset pos xs =
    let i = pos / 8 in let j = pos % 8 in let x = get_or xs i 0 in set xs i (x - bit x j * 2 ^ j)

unfoldable pub make_bitmap : ℕ → List ℕ
make_bitmap count = replicate (count / 8 + 1) 0

-- `MemoryNodeAllocator::make_allocator`
unfoldable pub make_allocator : ℕ → List ℕ
make_allocator memory_size = make_bitmap (memory_size / segment_size)

-- `MemoryNodeAllocator::allocate` on a region at `base`
unfoldable pub allocate_segment : ℕ → List ℕ → List ℕ × Option ℕ
allocate_segment base map =
    let (map', found) = get_empty 0 map in
    elim found [
      | none ↦ (map', none)
      | some n ↦ (map', some (base + memory_page_size + n * segment_size))
    ]

-- `MemoryNodeAllocator::deallocate`
unfoldable pub deallocate_segment : ℕ → ℕ → List ℕ → List ℕ
deallocate_segment base segment map = unset ((segment - base - memory_page_size) / segment_size) map

-- `get_empty` returns the number that `find_empty` does, from any byte on.
pub get_empty-find_empty : (i : ℕ) (xs : List ℕ) → (get_empty i xs).1 ≡ find_empty i xs
unfolding get_empty find_empty
get_empty-find_empty i [] = refl
get_empty-find_empty i (x ∷ xs) = elim (Option-cases (clear_bit x 8 0)) [
  | inl full ↦ rw (get_empty, find_empty, full) (get_empty-find_empty (suc i) xs)
  | inr (j, free) ↦ rw (get_empty, find_empty, free) refl
]

-- q full bytes and the byte that is always kept
abbrev pub all_used : ℕ → List ℕ
all_used q = replicate q 255 ++ 0 ∷ []

get_empty-all_used :
    (i q : ℕ) → get_empty i (all_used q) ≡ (replicate q 255 ++ 1 ∷ [], some ((i + q) * 8))
unfolding get_empty clear_bit
get_empty-all_used i zero =
    let e : i * 8 + 0 ≡ (i + 0) * 8 = omega arith in ap (λ (n : ℕ). (1 ∷ [], some n)) e
get_empty-all_used i (suc q) =
    let e : (suc i + q) * 8 ≡ (i + suc q) * 8 = omega arith in
    rw (get_empty-all_used (suc i) q)
      (ap (λ (n : ℕ). (255 ∷ (replicate q 255 ++ 1 ∷ []), some n)) e)

-- A memory of 8 q segments, all of them handed out: the allocator gives out one more, which starts behind
-- the last segment.
pub allocate_segment-beyond :
    (base q : ℕ)
    → (length (make_allocator (8 * q * segment_size)) ≡ length (all_used q))
      × ((allocate_segment base (all_used q)).1
          ≡ some (base + memory_page_size + 8 * q * segment_size))
unfolding allocate_segment make_allocator make_bitmap
allocate_segment-beyond base q =
    let count : 8 * q * segment_size / segment_size / 8 ≡ q = omega arith in
    let place : base + memory_page_size + (0 + q) * 8 * segment_size
        ≡ base + memory_page_size + 8 * q * segment_size =
      omega arith in
    (
      rw (count, length-append, length-replicate, length-replicate) refl,
      rw (allocate_segment, get_empty-all_used 0 q) (ap (λ (n : ℕ). some n) place),
    )
