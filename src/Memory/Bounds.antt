-- ===== src/Memory/Bounds.antt =====
-- Where the chunks and the pages that the compute node's allocator hands out lie.
use di_store.Base.{
  ℕ, ◌+◌, ◌*◌, ◌/◌, ◌%◌, ◌^◌, ◌≤◌, ◌<◌, ◌≡◌, ◌⊎◌, inl, inr, refl, ap, Bool, true, false, [], ◌∷◌,
  arith, ==_iff, Bool-cases,
}
use di_store.Memory.Page.{
  AllocationClass, chunk16, chunk32, chunk64, chunk128, chunk256, chunk512, chunk1024, chunk2048,
  chunk4096, chunk_unknown, class_no, class_size, memory_page_size, PageMirror, PageGroup,
  same_class, initialize, page_allocate, page_available, group_allocate, available_loop, ok,
}

slot_fits :
    (c : AllocationClass) (o : ℕ)
    → class_no c ≤ 8
    → o < memory_page_size / class_size c
    → o * class_size c + class_size c ≤ memory_page_size
slot_fits chunk16 o h l = omega arith
slot_fits chunk32 o h l = omega arith
slot_fits chunk64 o h l = omega arith
slot_fits chunk128 o h l = omega arith
slot_fits chunk256 o h l = omega arith
slot_fits chunk512 o h l = omega arith
slot_fits chunk1024 o h l = omega arith
slot_fits chunk2048 o h l = omega arith
slot_fits chunk4096 o h l = omega arith
slot_fits chunk_unknown o h l = absurd (omega arith)

abbrev pub HasBase : ℕ → PageGroup → Type 0
HasBase b [] = ⊥
HasBase b (p ∷ ps) = (p.page_base ≡ b) ⊎ HasBase b ps

-- A chunk of the class at the address, within a page of the group.
abbrev pub IsChunk : AllocationClass → PageGroup × ℕ → Type 0
IsChunk ac (g, a) = (b : ℕ) × HasBase b g × (b ≤ a) × (a + class_size ac ≤ b + memory_page_size)

IsChunk-cons :
    (ac : AllocationClass) (p : PageMirror) (g : PageGroup) (a : ℕ)
    → IsChunk ac (g, a)
    → IsChunk ac (p ∷ g, a)
IsChunk-cons ac p g a (b, h, lo, hi) = (b, inr h, lo, hi)

page_allocate-IsChunk :
    (ac : AllocationClass) (p : PageMirror) (ps : PageGroup)
    → class_no ac ≤ 8
    → class_no p.desc.allocation_class ≡ class_no ac
    → page_available p ≡ true
    → IsChunk ac ((page_allocate p).0 ∷ ps, (page_allocate p).1)
unfolding page_allocate page_available
page_allocate-IsChunk ac p ps known same there =
    let room : p.desc.offset < memory_page_size / class_size p.desc.allocation_class =
      ground arith in
    let fits = slot_fits p.desc.allocation_class p.desc.offset (omega (arith, same)) room in
    let size : class_size p.desc.allocation_class ≡ class_size ac =
      ap (λ (n : ℕ). 16 * 2 ^ n) same in
    (p.page_base, inl refl, omega arith, omega (arith, fits, size))

pub initialize-available :
    (ac : AllocationClass) (p : PageMirror)
    → class_no ac ≤ 8
    → page_available (initialize ac p) ≡ true
unfolding page_available initialize
initialize-available chunk16 p h = refl
initialize-available chunk32 p h = refl
initialize-available chunk64 p h = refl
initialize-available chunk128 p h = refl
initialize-available chunk256 p h = refl
initialize-available chunk512 p h = refl
initialize-available chunk1024 p h = refl
initialize-available chunk2048 p h = refl
initialize-available chunk4096 p h = refl
initialize-available chunk_unknown p h = absurd (omega arith)

-- When `PageGroup::available` says Ok for one of the nine classes, `PageGroup::allocate` returns a chunk
-- of the class that lies within one of the group's pages.
pub group_allocate-IsChunk :
    (ac : AllocationClass) (have_ac : Bool) (g : PageGroup)
    → class_no ac ≤ 8
    → available_loop ac have_ac g ≡ ok
    → IsChunk ac (group_allocate ac g)
unfolding group_allocate available_loop initialize
group_allocate-IsChunk ac true [] known h = absurd (cc)
group_allocate-IsChunk ac false [] known h = absurd (cc)
group_allocate-IsChunk ac have_ac (p ∷ ps) known h =
    elim (Bool-cases (same_class p.desc.allocation_class chunk_unknown)) [
      | inl fresh ↦
          let other : same_class p.desc.allocation_class ac ≡ false = ground arith in
          rw (other, fresh)
            (page_allocate-IsChunk ac (initialize ac p) ps known refl
              (initialize-available ac p known))
      | inr taken ↦ elim (Bool-cases (same_class p.desc.allocation_class ac)) [
        | inr other ↦
            rw (other, taken)
              (IsChunk-cons ac p _ _
                (group_allocate-IsChunk ac have_ac ps known (rw (taken, other) at h)))
        | inl same ↦ elim (Bool-cases (page_available p)) [
          | inl there ↦
              rw (same, there) (page_allocate-IsChunk ac p ps known ((==_iff _ _).0 same) there)
          | inr full ↦
              rw (same, full, taken)
                (IsChunk-cons ac p _ _
                  (group_allocate-IsChunk ac true ps known (rw (taken, same, full) at h)))
        ]
      ]
    ]

few_slots :
    (c : AllocationClass) → 1 ≤ class_no c → class_no c ≤ 8 → memory_page_size / class_size c ≤ 128
few_slots chunk16 a b = absurd (omega arith)
few_slots chunk32 a b = omega arith
few_slots chunk64 a b = omega arith
few_slots chunk128 a b = omega arith
few_slots chunk256 a b = omega arith
few_slots chunk512 a b = omega arith
few_slots chunk1024 a b = omega arith
few_slots chunk2048 a b = omega arith
few_slots chunk4096 a b = omega arith
few_slots chunk_unknown a b = absurd (omega arith)

next_multiple : (b o x : ℕ) → b + (o + 1) * x ≡ b + o * x + x
next_multiple b o x = grind arith

next_slot :
    (b o : ℕ) (c : AllocationClass)
    → b + (o + 1) * class_size c ≡ b + o * class_size c + class_size c
next_slot b o c = next_multiple b o (class_size c)

-- A page of a class above 16 bytes that has a chunk left, with its offset in 8 bits: the chunk lies in the
-- page, and the next one starts right behind it.
pub page_allocate-fresh :
    (p : PageMirror)
    → 1 ≤ class_no p.desc.allocation_class
    → class_no p.desc.allocation_class ≤ 8
    → page_available p ≡ true
    → (let (p', a) = page_allocate p in
        (p.page_base ≤ a)
        × (a + class_size p.desc.allocation_class ≤ p.page_base + memory_page_size)
        × ((page_allocate p').1 ≡ a + class_size p.desc.allocation_class))
unfolding page_allocate page_available
page_allocate-fresh p lo hi there =
    let room : p.desc.offset < memory_page_size / class_size p.desc.allocation_class =
      ground arith in
    let fits = slot_fits p.desc.allocation_class p.desc.offset hi room in
    let few = few_slots p.desc.allocation_class lo hi in
    let next : (p.desc.offset + 1) % 2 ^ 8 ≡ p.desc.offset + 1 = omega arith in
    (
      omega arith,
      omega arith,
      rw next (next_slot p.page_base p.desc.offset p.desc.allocation_class),
    )

-- A page of 16-byte chunks never runs out: it has 256 slots, and the offset has 8 bits. When the last slot
-- is handed out, the page still counts as available and hands out its first slot again.
pub page_allocate-chunk16 :
    (p : PageMirror)
    → p.desc.allocation_class ≡ chunk16
    → p.desc.offset ≡ 255
    → (let (p', a) = page_allocate p in
        (a ≡ p.page_base + 4080)
        × (page_available p' ≡ true)
        × ((page_allocate p').1 ≡ p.page_base))
unfolding page_allocate page_available
page_allocate-chunk16 p e o = rw (e, o) (refl, refl, omega arith)
