-- ===== src/Memory/Segments.antt =====
-- The pages that a segment offers.
use di_store.Base.{ℕ, zero, suc, ◌+◌, ◌-◌, ◌*◌, ◌/◌, ◌≤◌, ◌≡◌, refl, ap, [], ◌∷◌, arith, length}
use di_store.Memory.Page.{
  PageGroup, Segment, offer_page, offer_pages, new_segment, memory_page_size, segment_size,
}

-- The pages are those from number n of the segment on, one after the other.
abbrev pub FromPage : ℕ → ℕ → PageGroup → Type 0
FromPage seg n [] = Unit
FromPage seg n (p ∷ ps) = (p.page_base ≡ seg + n * memory_page_size) × FromPage seg (n + 1) ps

-- Every page of the segment but the first is offered or left.
abbrev pub IsSegment : Segment → Type 0
IsSegment t = (1 ≤ t.offset) × (t.offset + t.available_pages ≡ segment_size / memory_page_size)

-- What n offers leave: the next n pages of the segment, which end within it.
pub record Offered (n : ℕ) (t : Segment) (r : Segment × PageGroup) : Type 0 where
  pub pages : FromPage t.seg t.offset r.1
  pub count : length r.1 ≡ n
  pub within : (t.offset + n) * memory_page_size ≤ segment_size
  pub segment : IsSegment r.0
  pub same : r.0.seg ≡ t.seg
  pub advanced : r.0.offset ≡ t.offset + n

pub new_segment-IsSegment : (seg base : ℕ) → IsSegment (new_segment seg base)
unfolding new_segment
new_segment-IsSegment seg base = (omega arith, refl)

-- A segment with n pages left offers its next n pages, all within it and none of them its first page, and
-- afterwards the rest is left.
pub offer_pages-Offered :
    (n : ℕ) (t : Segment) → IsSegment t → n ≤ t.available_pages → Offered n t (offer_pages n t)
unfolding offer_pages offer_page
offer_pages-Offered zero t s h = record {
  pages = tt;
  count = refl;
  within = omega (arith, s.1);
  segment = s;
  same = refl;
  advanced = omega arith;
}
offer_pages-Offered (suc n) t s h =
    let t' : Segment = record t {
      available_pages = t.available_pages - 1;
      offset = t.offset + 1;
    } in
    let s' : IsSegment t' = (omega arith, omega (arith, s.1)) in
    let ih = offer_pages-Offered n t' s' (omega arith) in
    record {
      pages = (refl, ih.pages);
      count = ap suc ih.count;
      within = omega (arith, ih.within);
      segment = ih.segment;
      same = ih.same;
      advanced = omega (arith, ih.advanced);
    }
