-- ===== src/Memory/Allocate.antt =====
-- `ComputeNodeAllocator::allocate` as a whole, and the pages that a segment offers.
use di_store.Base.{
  ℕ, ◌≤◌, ◌<◌, ◌≡◌, ◌≢◌, ◌⊎◌, inl, inr, refl, ap, Bool, true, false, Option, none, some, [], ◌∷◌,
  arith, leb, Bool-cases, Option-cases,
}
use di_store.Memory.Page.{
  AllocationClass, chunk_unknown, class_no, class_size, pagegroup_no, PageMirror, PageGroup,
  same_class, initialize, page_available, group_allocate, available_loop, group_available,
  MemoryAllocationStatus, ok, no_memory, empty_page, empty_page_group, Segment, offer_page,
  offer_pages, Allocator, refill, renew, refill_single_page, take_chunk, allocate_class, allocate,
}
use di_store.Memory.Classes.{get_class-least}
use di_store.Memory.Bounds.{IsChunk, group_allocate-IsChunk, initialize-available}

status-cases :
    (s : MemoryAllocationStatus)
    → (s ≡ ok) ⊎ (s ≡ no_memory) ⊎ (s ≡ empty_page) ⊎ (s ≡ empty_page_group)
status-cases ok = inl refl
status-cases no_memory = inr (inl refl)
status-cases empty_page = inr (inr (inl refl))
status-cases empty_page_group = inr (inr (inr refl))

available_loop-memory :
    (ac : AllocationClass) (have_ac : Bool) (g : PageGroup)
    → available_loop ac have_ac g ≢ no_memory
unfolding available_loop
available_loop-memory ac true [] e = absurd (cc)
available_loop-memory ac false [] e = absurd (cc)
available_loop-memory ac have_ac (p ∷ ps) e =
    elim (Bool-cases (same_class p.desc.allocation_class chunk_unknown)) [
      | inl fresh ↦ let no_memory_ok : ok ≡ no_memory = rw fresh at e in absurd (cc)
      | inr taken ↦ elim (Bool-cases (same_class p.desc.allocation_class ac)) [
        | inr other ↦ available_loop-memory ac have_ac ps (rw (taken, other) at e)
        | inl same ↦ elim (Bool-cases (page_available p)) [
          | inl there ↦
              let no_memory_ok : ok ≡ no_memory = rw (taken, same, there) at e in absurd (cc)
          | inr full ↦ available_loop-memory ac true ps (rw (taken, same, full) at e)
        ]
      ]
    ]

fresh-ok :
    (ac : AllocationClass) (have_ac : Bool) (p : PageMirror) (g : PageGroup)
    → class_no ac ≤ 8
    → available_loop ac have_ac (initialize ac p ∷ g) ≡ ok
unfolding available_loop initialize
fresh-ok ac have_ac p g known =
    let taken : same_class ac chunk_unknown ≡ false = ground arith in
    let same : same_class ac ac ≡ true = ground arith in
    rw (taken, same, initialize-available ac p known) refl

renew-ok :
    (ac : AllocationClass) (have_ac : Bool) (t : Segment) (g : PageGroup)
    → class_no ac ≤ 8
    → available_loop ac false g ≡ empty_page
    → available_loop ac have_ac (renew ac t g).1 ≡ ok
unfolding available_loop renew
renew-ok ac have_ac t [] known e = absurd (cc)
renew-ok ac have_ac t (p ∷ ps) known e =
    elim (Bool-cases (same_class p.desc.allocation_class chunk_unknown)) [
      | inl fresh ↦ let found : ok ≡ empty_page = rw fresh at e in absurd (cc)
      | inr taken ↦ elim (Bool-cases (same_class p.desc.allocation_class ac)) [
        | inr other ↦
            rw (other, taken, other) (renew-ok ac have_ac t ps known (rw (taken, other) at e))
        | inl same ↦ elim (Bool-cases (page_available p)) [
          | inl there ↦ let found : ok ≡ empty_page = rw (taken, same, there) at e in absurd (cc)
          | inr full ↦
              rw (same, full)
                (fresh-ok ac have_ac (offer_page t).1 (renew ac (offer_page t).0 ps).1 known)
        ]
      ]
    ]

-- What `allocate` gives for a class: nothing, and the allocator as it was, when there is no segment with
-- a page group left, and otherwise a chunk of the class within a page of the thread's group.
abbrev pub Gives : AllocationClass → Allocator → Allocator × ℕ → Type 0
Gives ac s r =
    ((refill s ≡ none) × (r ≡ (s, 0)))
    ⊎ ((g : PageGroup) × (r.0.group ≡ some g) × IsChunk ac (g, r.1))

take_chunk-IsChunk :
    (ac : AllocationClass) (g : PageGroup) (s : Allocator)
    → class_no ac ≤ 8
    → group_available ac g ≡ ok
    → (h : PageGroup) × ((take_chunk ac g s).0.group ≡ some h)
      × IsChunk ac (h, (take_chunk ac g s).1)
unfolding take_chunk
take_chunk-IsChunk ac g s known e =
    ((group_allocate ac g).0, refl, group_allocate-IsChunk ac false g known e)

-- There is a page group left in the segment, or neither refill does anything.
refill-cases :
    (s : Allocator)
    → ((refill s ≡ none)
        × ((ac : AllocationClass) (g : PageGroup) → refill_single_page ac g s ≡ none))
      ⊎ ((t : Segment) × (refill s
            ≡ some (record {
              current = some (offer_pages pagegroup_no t).0;
              group = some (offer_pages pagegroup_no t).1;
            }))
          × ((ac : AllocationClass) (g : PageGroup)
              → refill_single_page ac g s
                ≡ some (record { current = some (renew ac t g).0; group = some (renew ac t g).1 })))
unfolding refill refill_single_page
refill-cases s = elim (Option-cases (s.current)) [
  | inl nothing ↦ inl (rw nothing refl, λ ac g. rw nothing refl)
  | inr (t, here) ↦ elim (Bool-cases (leb pagegroup_no t.available_pages)) [
    | inl enough ↦ inr (t, rw (here, enough) refl, λ ac g. rw (here, enough) refl)
    | inr few ↦ inl (rw (here, few) refl, λ ac g. rw (here, few) refl)
  ]
]

offer_pages-ok :
    (ac : AllocationClass) (t : Segment) → group_available ac (offer_pages pagegroup_no t).1 ≡ ok
unfolding offer_pages offer_page available_loop
offer_pages-ok ac t = refl

allocate_class-IsChunk :
    (ac : AllocationClass) (g : PageGroup) (s : Allocator)
    → class_no ac ≤ 8
    → group_available ac g ≡ ok
    → (h : PageGroup) × ((allocate_class ac g s).0.group ≡ some h)
      × IsChunk ac (h, (allocate_class ac g s).1)
unfolding allocate_class
allocate_class-IsChunk ac g s known free =
    rw (allocate_class, free) (take_chunk-IsChunk ac g s known free)

allocate_class-Gives :
    (ac : AllocationClass) (g : PageGroup) (s : Allocator)
    → class_no ac ≤ 8
    → Gives ac s (allocate_class ac g s)
unfolding allocate_class
allocate_class-Gives ac g s known = elim (status-cases (group_available ac g)) [
  | inl free ↦ rw (allocate_class, free) (inr (take_chunk-IsChunk ac g s known free))
  | inr (inl never) ↦ absurd (available_loop-memory ac false g never)
  | inr (inr (inl page)) ↦ elim (refill-cases s) [
    | inl (refused, single) ↦ inl (refused, rw (allocate_class, page, single) refl)
    | inr (t, filled, single) ↦
        rw (allocate_class, page, single)
          (inr (take_chunk-IsChunk ac (renew ac t g).1 _ known (renew-ok ac false t g known page)))
  ]
  | inr (inr (inr group)) ↦ elim (refill-cases s) [
    | inl (refused, single) ↦ inl (refused, rw (allocate_class, group, refused) refl)
    | inr (t, filled, single) ↦
        rw (allocate_class, group, filled)
          (inr (take_chunk-IsChunk ac (offer_pages pagegroup_no t).1 _ known (offer_pages-ok ac t)))
  ]
]

-- `allocate` throws for a size of 0 or above a page. For any other size it returns the null pointer, and
-- leaves the allocator as it was, when no page group can be had where one is needed; otherwise it
-- returns a chunk of at least that size, within a page of the thread's group.
pub allocate-Gives :
    (sz : ℕ) (s : Allocator)
    → ((allocate sz s ≡ none) × ((sz ≡ 0) ⊎ (4096 < sz)))
      ⊎ ((ac : AllocationClass) × (r : Allocator × ℕ) × (allocate sz s ≡ some r)
          × (sz ≤ class_size ac)
          × Gives ac s r)
unfolding allocate
allocate-Gives sz s = elim (get_class-least sz) [
  | inr (throws, why) ↦ inl (rw (allocate, throws) refl, why)
  | inl (ac, found, known, fits, least) ↦ elim (Option-cases (s.group)) [
    | inr (g, here) ↦ inr (
      ac,
      allocate_class ac g s,
      rw (allocate, found, here)
          (ap (λ (o : Option PageGroup). some (allocate_class ac g (record s { group = o }))) here),
      fits,
      allocate_class-Gives ac g s known,
    )
    | inl new_thread ↦ elim (refill-cases s) [
      | inl (refused, single) ↦ inr (
        ac,
        (s, 0),
        rw (allocate, found, new_thread, refused)
            (ap (λ (o : Option PageGroup). some (record s { group = o }, 0)) new_thread),
        fits,
        inl (refused, refl),
      )
      | inr (t, filled, single) ↦
          let g : PageGroup = (offer_pages pagegroup_no t).1 in
          let s' : Allocator = record {
            current = some (offer_pages pagegroup_no t).0;
            group = some g;
          } in
          let free = offer_pages-ok ac t in
          inr (
            ac,
            allocate_class ac g s',
            rw (allocate, found, new_thread, filled) refl,
            fits,
            inr (allocate_class-IsChunk ac g s' known free),
          )
    ]
  ]
]
