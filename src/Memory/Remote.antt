-- ===== src/Memory/Remote.antt =====
-- src/components/memory/compute_node/compute_node.cpp, `RemoteMemoryManager::offer_remote_segment`, and
-- compute_node.cpp of src/components/node, `ComputeNode::allocate` and `preallocate`.
--
-- What the memory nodes answer to the RPC is an argument: `answer i` is the answer to the i-th request, which
-- goes to the node `i % memory_nodes.size()`. `offer_remote_segment` calls itself, on fuel here.
use mathlib.Core.Option
use di_store.Base.{
  ℕ, zero, suc, ◌+◌, ◌≤◌, ◌<◌, ◌≡◌, ◌≢◌, inl, inr, refl, sym, ap, ◌∙◌, subst, true, false, Option,
  none, some, arith, if◌then◌else◌, Bool-cases,
}
use di_store.Compute.{is_nullptr}
use di_store.Memory.Page.{
  AllocationClass, class_size, PageGroup, Allocator, new_segment, offer_pages, apply_for_memory,
  refill, allocate,
}
use di_store.Memory.Bounds.{IsChunk}
use di_store.Memory.Allocate.{allocate-Gives}
use di_store.Memory.Pointer.{get_node}

module _ (answer : ℕ → ℕ) where
  -- `offer_remote_segment` with `current`: what it returns, and `current` after it
  unfoldable pub offer_remote_segment : ℕ → ℕ → Option (ℕ × ℕ)
  offer_remote_segment zero current = none
  offer_remote_segment (suc fuel) current =
      let nested = offer_remote_segment fuel (suc current) in
      if is_nullptr (answer current)
      then Option.map (λ r. (answer current, r.1)) nested
      else some (answer current, suc current)

-- What `ComputeNode::allocate` comes to.
pub data Allocated : Type 0 where
  threw : Allocated
  -- the memory nodes are still being asked
  asking : Allocated
  gave : Allocator → ℕ → ℕ → Allocated

module _ (answer base_addr : ℕ → ℕ) where
  -- with the segment that `offer_remote_segment` returned
  unfoldable pub allocate_after : ℕ → Allocator → Option (ℕ × ℕ) → Allocated
  allocate_after size s none = asking
  allocate_after size s (some (seg, current)) =
      elim (allocate size (apply_for_memory seg (base_addr (get_node seg)) s)) [
        | none ↦ threw
        | some (s', remote) ↦ gave s' current remote
      ]

  -- `ComputeNode::allocate`
  unfoldable pub node_allocate : ℕ → ℕ → ℕ → Allocator → Allocated
  node_allocate fuel size current s = elim (allocate size s) [
    | none ↦ threw
    | some (s', remote) ↦
        if is_nullptr remote
        then allocate_after size s' (offer_remote_segment answer fuel current)
        else gave s' current remote
  ]

  -- `ComputeNode::preallocate`
  unfoldable pub preallocate : ℕ → ℕ → Allocator → Option (Allocator × ℕ)
  preallocate fuel current s =
      Option.map (λ r. (apply_for_memory r.0 (base_addr (get_node r.0)) s, r.1))
        (offer_remote_segment answer fuel current)

-- When the `k` memory nodes whose turn it is answer null and the one after them does not, with fuel for one
-- call more, `offer_remote_segment` returns the answer of the first node asked, and the turn is at the node
-- after the last: for `k` above 0 it returns null, and the segment that was found is lost.
pub offer_remote_segment-first :
    (answer : ℕ → ℕ) (k fuel current : ℕ)
    → ((i : ℕ) → i < k → is_nullptr (answer (current + i)) ≡ true)
    → is_nullptr (answer (current + k)) ≡ false
    → k < fuel
    → offer_remote_segment answer fuel current ≡ some (answer current, current + k + 1)
unfolding offer_remote_segment
offer_remote_segment-first answer k zero current empty full enough = absurd (omega arith)
offer_remote_segment-first answer zero (suc fuel) current empty full enough =
    let here : is_nullptr (answer current) ≡ false =
      subst (λ n. is_nullptr (answer n) ≡ false) (let e : current + 0 ≡ current = omega arith in e)
        full in
    rw here (ap (λ n. some (answer current, n)) (omega arith))
offer_remote_segment-first answer (suc k) (suc fuel) current empty full enough =
    let here : is_nullptr (answer current) ≡ true =
      subst (λ n. is_nullptr (answer n) ≡ true) (let e : current + 0 ≡ current = omega arith in e)
        (empty 0 (omega arith)) in
    let rest =
      offer_remote_segment-first answer k fuel (suc current)
        (λ i lt.
          subst (λ n. is_nullptr (answer n) ≡ true)
            (let e : current + suc i ≡ suc current + i = omega arith in e)
            (empty (suc i) (omega arith)))
        (subst (λ n. is_nullptr (answer n) ≡ false)
          (let e : current + suc k ≡ suc current + k = omega arith in e) full)
        (omega arith) in
    rw (here, rest) (ap (λ n. some (answer current, n)) (omega arith))

refill-new_segment : (seg base : ℕ) (s : Allocator) → refill (apply_for_memory seg base s) ≢ none
unfolding refill apply_for_memory new_segment offer_pages
refill-new_segment seg base s e = absurd (cc)

-- A chunk of a size in a page of the thread's group, and what `node_allocate` returned.
abbrev pub IsGiven : ℕ → Allocated → Type 0
IsGiven size threw = ⊥
IsGiven size asking = ⊥
IsGiven size (gave s current remote) =
    (ac : AllocationClass) × (g : PageGroup) × (size ≤ class_size ac)
    × (s.group ≡ some g)
    × IsChunk ac (g, remote)

allocate_after-IsGiven :
    (answer base_addr : ℕ → ℕ) (size : ℕ) (s : Allocator) (seg current : ℕ)
    → 1 ≤ size
    → size ≤ 4096
    → IsGiven size (allocate_after answer base_addr size s (some (seg, current)))
unfolding allocate_after
allocate_after-IsGiven answer base_addr size s seg current lo hi =
    elim (allocate-Gives size (apply_for_memory seg (base_addr (get_node seg)) s)) [
      | inl (throws, inl low) ↦ absurd (omega arith)
      | inl (throws, inr high) ↦ absurd (omega arith)
      | inr (ac, r, run, fits, inl (refused, nothing)) ↦
          absurd (refill-new_segment seg (base_addr (get_node seg)) s refused)
      | inr (ac, r, run, fits, inr (g, here, chunk)) ↦
          let e : allocate_after answer base_addr size s (some (seg, current))
              ≡ gave r.0 current r.1 =
            rw (run, allocate_after) refl in
          subst (IsGiven size) (sym e) (ac, g, fits, here, chunk)
    ]

node_allocate-run :
    (answer base_addr : ℕ → ℕ) (fuel size current : ℕ) (s : Allocator) (r : Allocator × ℕ)
    → allocate size s ≡ some r
    → node_allocate answer base_addr fuel size current s ≡ (
        if is_nullptr r.1
        then allocate_after answer base_addr size r.0 (offer_remote_segment answer fuel current)
        else gave r.0 current r.1)
unfolding node_allocate
node_allocate-run answer base_addr fuel size current s r run = rw (run, node_allocate) refl

-- For a size from 1 to 4096, when `offer_remote_segment` returns, `ComputeNode::allocate` returns a chunk of
-- at least that size in a page of the thread's group: it neither throws nor fails a second time.
pub node_allocate-IsGiven :
    (answer base_addr : ℕ → ℕ) (k fuel size current : ℕ) (s : Allocator)
    → 1 ≤ size
    → size ≤ 4096
    → ((i : ℕ) → i < k → is_nullptr (answer (current + i)) ≡ true)
    → is_nullptr (answer (current + k)) ≡ false
    → k < fuel
    → IsGiven size (node_allocate answer base_addr fuel size current s)
node_allocate-IsGiven answer base_addr k fuel size current s lo hi empty full enough =
    let offered = offer_remote_segment-first answer k fuel current empty full enough in
    let again : (s' : Allocator)
        → IsGiven size
            (allocate_after answer base_addr size s' (offer_remote_segment answer fuel current)) =
      λ s'.
        subst (λ o. IsGiven size (allocate_after answer base_addr size s' o)) (sym offered)
          (allocate_after-IsGiven answer base_addr size s' (answer current) (current + k + 1) lo
            hi) in
    elim (allocate-Gives size s) [
      | inl (throws, inl low) ↦ absurd (omega arith)
      | inl (throws, inr high) ↦ absurd (omega arith)
      | inr (ac, r, run, fits, given) ↦ elim (Bool-cases (is_nullptr r.1)) [
        | inl null ↦
            subst (IsGiven size)
              (sym (
                node_allocate-run answer base_addr fuel size current s r run
                ∙ ap
                    (λ c.
                      if c
                      then allocate_after answer base_addr size r.0
                          (offer_remote_segment answer fuel current)
                      else gave r.0 current r.1)
                    null))
              (again r.0)
        | inr not_null ↦ elim given [
          | inl (refused, nothing) ↦
              let zero_null : is_nullptr r.1 ≡ true =
                ap (λ (x : Allocator × ℕ). is_nullptr x.1) nothing in
              absurd (cc)
          | inr (g, here, chunk) ↦
              subst (IsGiven size)
                (sym (
                  node_allocate-run answer base_addr fuel size current s r run
                  ∙ ap
                      (λ c.
                        if c
                        then allocate_after answer base_addr size r.0
                            (offer_remote_segment answer fuel current)
                        else gave r.0 current r.1)
                      not_null))
                (ac, g, fits, here, chunk)
        ]
      ]
    ]
