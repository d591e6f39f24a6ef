-- ===== src/Memory/Page.antt =====
-- src/components/memory/compute_node/compute_node.hpp and compute_node.cpp: pages, page groups, segments
-- and `ComputeNodeAllocator`. A page is a `PageMirror`, a page group the list of its pages, a pointer a
-- number, 0 the null pointer. `empty_slots` and `offset` have 8 bits.
use di_store.Base.{
  ℕ, zero, suc, ◌+◌, ◌-◌, ◌*◌, ◌/◌, ◌%◌, ◌^◌, Bool, true, false, not, ◌&&◌, Option, none, some,
  List, [], ◌∷◌, ltb, leb, ◌==◌, if◌then◌else◌, get_or,
}

abbrev pub memory_page_size : ℕ
memory_page_size = 4096

abbrev pub segment_size : ℕ
segment_size = 2 ^ 30

abbrev pub pagegroup_no : ℕ
pagegroup_no = 8

pub data AllocationClass : Type 0 where
  chunk16 chunk32 chunk64 chunk128 chunk256 chunk512 chunk1024 chunk2048 chunk4096 chunk_unknown :
      AllocationClass

-- The number of a class. `allocation_class_size_map` has no entry for the last one, and the code never
-- asks for it.
abbrev pub class_no : AllocationClass → ℕ
class_no chunk16 = 0
class_no chunk32 = 1
class_no chunk64 = 2
class_no chunk128 = 3
class_no chunk256 = 4
class_no chunk512 = 5
class_no chunk1024 = 6
class_no chunk2048 = 7
class_no chunk4096 = 8
class_no chunk_unknown = 9

abbrev pub class_size : AllocationClass → ℕ
class_size c = 16 * 2 ^ class_no c

pub record PageDescriptor : Type 0 where
  pub empty_slots : ℕ
  pub allocation_class : AllocationClass
  pub synced : ℕ
  pub offset : ℕ

pub record PageMirror : Type 0 where
  pub desc : PageDescriptor
  pub page_id : ℕ
  pub page_base : ℕ

abbrev pub cleared : PageDescriptor
cleared = record { empty_slots = 0; allocation_class = chunk_unknown; synced = 0; offset = 0 }

-- `PageDescriptor::initialize`
unfoldable pub initialize : AllocationClass → PageMirror → PageMirror
initialize ac p = record p {
  desc = record {
    empty_slots = memory_page_size / class_size ac % 2 ^ 8;
    allocation_class = ac;
    synced = 0;
    offset = 0;
  };
}

-- `PageMirror::allocate`
unfoldable pub page_allocate : PageMirror → PageMirror × ℕ
page_allocate p =
    let d = p.desc in
    let desc : PageDescriptor = record d {
      empty_slots = (d.empty_slots + 2 ^ 8 - 1) % 2 ^ 8;
      offset = (d.offset + 1) % 2 ^ 8;
    } in
    (record p { desc = desc }, p.page_base + d.offset * class_size d.allocation_class)

-- `PageMirror::available`
unfoldable pub page_available : PageMirror → Bool
page_available p = not (leb (memory_page_size / class_size p.desc.allocation_class) p.desc.offset)

-- `PageMirror::free`, with `ptr.page()`, and what `++desc.empty_slots` is as a bool
unfoldable pub page_free : ℕ → PageMirror → PageMirror × Bool
page_free ptr p =
    let d = p.desc in
    let n = (d.empty_slots + 1) % 2 ^ 8 in
    if p.page_base == ptr - ptr % memory_page_size
    then (record p { desc = record d { empty_slots = n } }, not (n == 0))
    else (p, false)

abbrev pub same_class : AllocationClass → AllocationClass → Bool
same_class a b = class_no a == class_no b

abbrev pub PageGroup : Type 0
PageGroup = List PageMirror

-- `PageGroup::allocate`
unfoldable pub group_allocate : AllocationClass → PageGroup → PageGroup × ℕ
group_allocate ac [] = ([], 0)
group_allocate ac (p ∷ ps) =
    let rest = group_allocate ac ps in
    if same_class p.desc.allocation_class ac && page_available p
    then (let (p', a) = page_allocate p in (p' ∷ ps, a))
    else (if same_class p.desc.allocation_class chunk_unknown
        then (let (p', a) = page_allocate (initialize ac p) in (p' ∷ ps, a))
        else (p ∷ rest.0, rest.1))

pub data MemoryAllocationStatus : Type 0 where
  ok no_memory empty_page empty_page_group : MemoryAllocationStatus

-- The loop of `PageGroup::available`, with `have_ac`
unfoldable pub available_loop : AllocationClass → Bool → PageGroup → MemoryAllocationStatus
available_loop ac have_ac [] = if have_ac then empty_page else empty_page_group
available_loop ac have_ac (p ∷ ps) =
    let fits = same_class p.desc.allocation_class ac in
    let found = available_loop ac true ps in
    let missed = available_loop ac have_ac ps in
    if same_class p.desc.allocation_class chunk_unknown
    then ok
    else (if fits then (if page_available p then ok else found) else missed)

abbrev pub group_available : AllocationClass → PageGroup → MemoryAllocationStatus
group_available ac ps = available_loop ac false ps

-- `Segment`, without the map of its mirrors
pub record Segment : Type 0 where
  pub seg : ℕ
  pub base_addr : ℕ
  pub offset : ℕ
  pub available_pages : ℕ

unfoldable pub new_segment : ℕ → ℕ → Segment
new_segment seg base = record {
  seg = seg;
  base_addr = base;
  offset = 1;
  available_pages = segment_size / memory_page_size - 1;
}

-- `SegmentTracker::offer_page`, on a segment that has a page left
unfoldable pub offer_page : Segment → Segment × PageMirror
offer_page s =
    let page = s.seg + s.offset * memory_page_size in
    (
      record s { available_pages = s.available_pages - 1; offset = s.offset + 1 },
      record {
        desc = cleared;
        page_id =
            (((page + 2 ^ 64 - s.base_addr) % 2 ^ 64) / memory_page_size + 2 ^ 40 - 1) % 2 ^ 40;
        page_base = page;
      },
    )

unfoldable pub offer_pages : ℕ → Segment → Segment × PageGroup
offer_pages zero s = (s, [])
offer_pages (suc n) s =
    let (s', p) = offer_page s in let (s'', ps) = offer_pages n s' in (s'', p ∷ ps)

-- `SegmentTracker` and the page group of the calling thread
pub record Allocator : Type 0 where
  pub current : Option Segment
  pub group : Option PageGroup

-- `ComputeNodeAllocator::apply_for_memory`
unfoldable pub apply_for_memory : ℕ → ℕ → Allocator → Allocator
apply_for_memory seg base s = record s { current = some (new_segment seg base) }

-- `ComputeNodeAllocator::refill`: none for false
unfoldable pub refill : Allocator → Option Allocator
refill s = elim (s.current) [
  | none ↦ none
  | some t ↦
      let (t', g) = offer_pages pagegroup_no t in
      if leb pagegroup_no t.available_pages
      then some (record { current = some t'; group = some g })
      else none
]

-- The loop of `refill_single_page`: every full page of the class is replaced by a fresh one.
unfoldable pub renew : AllocationClass → Segment → PageGroup → Segment × PageGroup
renew ac t [] = (t, [])
renew ac t (p ∷ ps) =
    let (t', fresh) = offer_page t in
    let replaced = renew ac t' ps in
    let kept = renew ac t ps in
    if same_class p.desc.allocation_class ac && not (page_available p)
    then (replaced.0, initialize ac fresh ∷ replaced.1)
    else (kept.0, p ∷ kept.1)

-- `ComputeNodeAllocator::refill_single_page`
unfoldable pub refill_single_page : AllocationClass → PageGroup → Allocator → Option Allocator
refill_single_page ac g s = elim (s.current) [
  | none ↦ none
  | some t ↦
      let (t', g') = renew ac t g in
      if leb pagegroup_no t.available_pages
      then some (record { current = some t'; group = some g' })
      else none
]

-- `63 - __builtin_clzll(x)` for x from 1 on: with fuel 64 it is the number of the highest bit.
unfoldable pub highest_bit : ℕ → ℕ → ℕ
highest_bit zero x = 0
highest_bit (suc fuel) x = let rest = highest_bit fuel (x / 2) in if leb x 1 then 0 else suc rest

-- `table[n]`
abbrev pub class_at : ℕ → AllocationClass
class_at n =
    get_or
      (chunk16 ∷ chunk32 ∷ chunk64 ∷ chunk128 ∷ chunk256 ∷ chunk512 ∷ chunk1024 ∷ chunk2048
        ∷ chunk4096 ∷ [])
      n chunk_unknown

-- `get_class`; none for the exception
unfoldable pub get_class : ℕ → Option AllocationClass
get_class sz =
    let times = (sz - 1) / 16 + 1 in
    let ct = highest_bit 64 times in
    let exp = ct + (if ltb (2 ^ ct) times then 1 else 0) in
    if sz == 0 then none else (if ltb 4096 sz then none else some (class_at exp))

-- `group->second->allocate(ac)`
unfoldable pub take_chunk : AllocationClass → PageGroup → Allocator → Allocator × ℕ
take_chunk ac g s = let (g', a) = group_allocate ac g in (record s { group = some g' }, a)

-- `ComputeNodeAllocator::allocate` once the thread has a page group
unfoldable pub allocate_class : AllocationClass → PageGroup → Allocator → Allocator × ℕ
allocate_class ac g s = elim (group_available ac g) [
  | ok ↦ take_chunk ac g s
  | empty_page ↦ elim (refill_single_page ac g s) [
    | none ↦ (s, 0)
    | some s' ↦ elim (s'.group) [ none ↦ (s', 0) | some g' ↦ take_chunk ac g' s' ]
  ]
  | empty_page_group ↦ elim (refill s) [
    | none ↦ (s, 0)
    | some s' ↦ elim (s'.group) [ none ↦ (s', 0) | some g' ↦ take_chunk ac g' s' ]
  ]
  | no_memory ↦ (s, 0)
]

-- `ComputeNodeAllocator::allocate`: none for an exception, 0 for the null pointer
unfoldable pub allocate : ℕ → Allocator → Option (Allocator × ℕ)
allocate sz s = elim (get_class sz) [
  | none ↦ none
  | some ac ↦ elim (s.group) [
    | some g ↦ some (allocate_class ac g s)
    | none ↦ elim (refill s) [
      | none ↦ some (s, 0)
      | some s' ↦ elim (s'.group) [ none ↦ some (s', 0) | some g ↦ some (allocate_class ac g s') ]
    ]
  ]
]
