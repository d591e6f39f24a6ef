-- ===== src/Tests/Allocation.antt =====
-- The theorems on the allocators and on pointers, at concrete inputs.
use di_store.Base.{
  ◌==◌, suc, if◌then◌else◌, ℕ, zero, ◌+◌, ◌^◌, ◌≤◌, ◌<◌, ◌≡◌, ◌⊎◌, refl, true, none, some, [], ◌∷◌,
  arith,
}
use di_store.Compute.{is_nullptr}
use di_store.Memory.Remote.{
  offer_remote_segment, offer_remote_segment-first, node_allocate, IsGiven, node_allocate-IsGiven,
}
use di_store.Memory.Page.{
  AllocationClass, chunk16, chunk512, class_size, PageMirror, page_allocate, page_available,
  offer_pages, new_segment, Allocator, get_class, highest_bit, allocate,
}
use di_store.Memory.Bounds.{page_allocate-chunk16}
use di_store.Memory.Allocate.{Gives, allocate-Gives}
use di_store.Memory.Segments.{Offered, new_segment-IsSegment, offer_pages-Offered}
use di_store.Memory.Bitmap.{get_empty, clear_bit}

node_class : get_class 368 ≡ some chunk512
unfolding get_class highest_bit
node_class = refl

abbrev empty : Allocator
empty = record { current = none; group = none }

abbrev supplied : Allocator
supplied = record { current = some (new_segment (2 ^ 30) 0); group = none }

allocate-Gives_example :
    ((allocate 368 supplied ≡ none) × ((368 ≡ zero) ⊎ (4096 < 368)))
    ⊎ ((ac : AllocationClass) × (r : Allocator × ℕ) × (allocate 368 supplied ≡ some r)
        × (368 ≤ class_size ac)
        × Gives ac supplied r)
allocate-Gives_example = allocate-Gives 368 supplied

offer_pages-Offered_example :
    Offered 8 (new_segment (2 ^ 30) 0) (offer_pages 8 (new_segment (2 ^ 30) 0))
unfolding new_segment
offer_pages-Offered_example =
    offer_pages-Offered 8 (new_segment (2 ^ 30) 0) (new_segment-IsSegment (2 ^ 30) 0) (omega arith)

abbrev page_of : AllocationClass → ℕ → PageMirror
page_of c n = record {
  desc = record { empty_slots = 0; allocation_class = c; synced = 0; offset = n };
  page_id = 0;
  page_base = 8192;
}

page_allocate-chunk16_example :
    (let (p', a) = page_allocate (page_of chunk16 255) in
      (a ≡ 8192 + 4080) × (page_available p' ≡ true) × ((page_allocate p').1 ≡ 8192))
page_allocate-chunk16_example = page_allocate-chunk16 (page_of chunk16 255) refl refl

eleventh : get_empty 0 (255 ∷ 7 ∷ []) ≡ (255 ∷ 15 ∷ [], some 11)
unfolding get_empty clear_bit
eleventh = refl

-- the second memory node has a segment, the others have none
abbrev answers : ℕ → ℕ
answers i = if i == 1 then 2 ^ 30 else 0

answers-empty : (i : ℕ) → i < 1 → is_nullptr (answers (0 + i)) ≡ true
answers-empty zero lt = refl
answers-empty (suc i) lt = absurd (omega arith)

offer_remote_segment-first_example : offer_remote_segment answers 2 0 ≡ some (0, 2)
offer_remote_segment-first_example =
    offer_remote_segment-first answers 1 2 0 answers-empty refl (omega arith)

node_allocate-IsGiven_example : IsGiven 368 (node_allocate answers (λ n. 2 ^ 20) 2 368 0 empty)
node_allocate-IsGiven_example =
    node_allocate-IsGiven answers (λ n. 2 ^ 20) 1 2 368 0 empty (omega arith) (omega arith)
      answers-empty refl (omega arith)
