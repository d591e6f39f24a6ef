-- ===== src/Compute/Gate/Kept.antt =====
-- The invariant of the queues: what each kind of operation does to the requests and the replies.
use di_store.Base.{
  ℕ, ◌+◌, ◌≡◌, inl, inr, refl, sym, ap, ◌∙◌, Bool, true, false, not, ◌&&◌, Option, none, some, List,
  [], ◌∷◌, ◌++◌, arith, ◌==◌, ==_iff, Bool-cases, Option-cases, if◌then◌else◌, Bytes,
}
use di_store.Compute.Lock.{assign}
use di_store.Compute.Gate.{
  Gates, Waiting, Answer, stored, again, Phase, outside, draining, awaiting, go, take_reply,
}

-- The requests of thread t about node r.
abbrev pub requests_of : ℕ → ℕ → List Waiting → ℕ
requests_of t r [] = 0
requests_of t r (q ∷ qs) = (if q.waiter == t && q.target == r then 1 else 0) + requests_of t r qs

-- The thread waits for a reply about node r from the context w.
abbrev pub is_awaiting : Phase → ℕ → ℕ → Bool
is_awaiting (awaiting r' w') r w = r' == r && w' == w
is_awaiting _ r w = false

abbrev pub is_answered : Option Answer → Bool
is_answered (some a) = true
is_answered none = false

abbrev pub owed : Phase → Option Answer → ℕ → ℕ → ℕ
owed p a r w = if is_awaiting p r w && not (is_answered a) then 1 else 0

abbrev pub waits : Phase → Bool
waits (awaiting r w) = true
waits _ = false

pub record IsKept (s : Gates) : Type 0 where
  pub kept : (t r w : ℕ) → requests_of t r (s.requests w) ≡ owed (s.phase t) (s.replies t) r w
  pub asked : (t : ℕ) → is_answered (s.replies t) ≡ true → waits (s.phase t) ≡ true

is_awaiting-waits : (p : Phase) (r w : ℕ) → waits p ≡ false → is_awaiting p r w ≡ false
is_awaiting-waits (awaiting r' w') r w h = cc
is_awaiting-waits _ r w h = refl

owed-waits : (p : Phase) (a : Option Answer) (r w : ℕ) → waits p ≡ false → owed p a r w ≡ 0
owed-waits p a r w h = rw (is_awaiting-waits p r w h) refl

pub requests_of-append :
    (t r : ℕ) (xs ys : List Waiting)
    → requests_of t r (xs ++ ys) ≡ requests_of t r xs + requests_of t r ys
requests_of-append t r [] ys = omega arith
requests_of-append t r (q ∷ xs) ys = omega (arith, requests_of-append t r xs ys)

-- A thread that does not wait goes on to where it does not wait, and no queue and no reply changes.
pub go-IsKept :
    (s : Gates) (t : ℕ) (ctx : ℕ → Option ℕ) (depth : ℕ → ℕ) (key : ℕ → Bytes) (p : Phase)
    → IsKept s
    → waits (s.phase t) ≡ false
    → waits p ≡ false
    → IsKept (go (record s { ctx = ctx; max_depth = depth; key = key }) t p)
go-IsKept s t ctx depth key p k before after = record {
  kept = λ u r w. elim (Bool-cases (u == t)) [
    | inl same ↦
        let e : u ≡ t = (==_iff u t).0 same in
        rw (same, owed-waits p (s.replies u) r w after)
          (k.kept u r w ∙ owed-waits (s.phase u) (s.replies u) r w (rw e before))
    | inr other ↦ rw other (k.kept u r w)
  ];
  asked = λ u h. elim (Bool-cases (u == t)) [
    | inl same ↦
        let e : u ≡ t = (==_iff u t).0 same in
        let w : waits (s.phase u) ≡ true = k.asked u h in
        let v : waits (s.phase u) ≡ false = rw e before in absurd (cc)
    | inr other ↦ rw other (k.asked u h)
  ];
}

answered-none : (a : Option Answer) → is_answered a ≡ false → a ≡ none
answered-none none h = refl
answered-none (some a) h = cc

asked-quiet :
    (s : Gates) (t : ℕ) → IsKept s → waits (s.phase t) ≡ false → is_answered (s.replies t) ≡ false
asked-quiet s t k before = elim (Bool-cases (is_answered (s.replies t))) [
  | inl h ↦ let w = k.asked t h in absurd (cc)
  | inr h ↦ h
]

-- A thread pushes its request.
pub push-IsKept :
    (s : Gates) (t r w : ℕ)
    → IsKept s
    → waits (s.phase t) ≡ false
    → IsKept (
        go
          (record s {
            requests = assign s.requests w (s.requests w ++ record { waiter = t; target = r } ∷ []);
          })
          t
          (awaiting r w))
push-IsKept s t r w k before = record {
  kept = λ u r' w'.
      let old = k.kept u r' w' in
      let none_before = owed-waits (s.phase t) (s.replies t) r' w' before in
      let split = requests_of-append u r' (s.requests w) (record { waiter = t; target = r } ∷ []) in
      elim (Bool-cases (u == t)) [
        | inl same ↦
            let e : u ≡ t = (==_iff u t).0 same in
            let quiet : is_answered (s.replies u) ≡ false = rw e (asked-quiet s t k before) in
            let none_then : owed (s.phase u) (s.replies u) r' w' ≡ 0 = rw e none_before in
            elim (Bool-cases (w' == w)) [
              | inl here ↦
                  let f : w' ≡ w = (==_iff w' w).0 here in
                  let old_w : requests_of u r' (s.requests w) ≡ 0 = rw (sym f) (old ∙ none_then) in
                  rw (same, here, quiet) (ground arith)
              | inr there ↦ rw (same, there, quiet) (ground arith)
            ]
        | inr other ↦ elim (Bool-cases (w' == w)) [
          | inl here ↦ let f : w' ≡ w = (==_iff w' w).0 here in rw (other, here) (ground arith)
          | inr there ↦ rw (other, there) old
        ]
      ];
  asked = λ u h. elim (Bool-cases (u == t)) [
    | inl same ↦ rw same refl
    | inr other ↦ rw other (k.asked u h)
  ];
}

is_awaiting-eq :
    (p : Phase) (r w r' w' : ℕ)
    → is_awaiting p r w ≡ true
    → is_awaiting p r' w' ≡ (r == r' && w == w')
is_awaiting-eq (awaiting r0 w0) r w r' w' h = ground arith
is_awaiting-eq _ r w r' w' h = absurd (cc)

waits-is_awaiting : (p : Phase) (r w : ℕ) → is_awaiting p r w ≡ true → waits p ≡ true
waits-is_awaiting (awaiting r0 w0) r w h = refl
waits-is_awaiting _ r w h = absurd (cc)

-- The thread of the first request in a queue waits for it and has no reply yet.
head-owed :
    (s : Gates) (t : ℕ) (q : Waiting) (qs : List Waiting)
    → IsKept s
    → s.requests t ≡ q ∷ qs
    → (is_awaiting (s.phase q.waiter) q.target t ≡ true)
      × (is_answered (s.replies q.waiter) ≡ false)
      × (requests_of q.waiter q.target qs ≡ 0)
head-owed s t q qs k e =
    let old : requests_of q.waiter q.target (q ∷ qs)
        ≡ owed (s.phase q.waiter) (s.replies q.waiter) q.target t =
      rw e at (k.kept q.waiter q.target t) in
    ground arith

-- The first request of a queue is taken out and answered.
pub answer-IsKept :
    (s : Gates) (t : ℕ) (q : Waiting) (qs : List Waiting) (a : Answer)
    → IsKept s
    → s.requests t ≡ q ∷ qs
    → IsKept (record s {
      requests = assign s.requests t qs;
      replies = assign s.replies q.waiter (some a);
    })
answer-IsKept s t q qs a k e =
    let (here, quiet, last) = head-owed s t q qs k e in
    record {
      kept = λ u r w.
          let old = k.kept u r w in
          let only = is_awaiting-eq (s.phase q.waiter) q.target t r w here in
          elim (Bool-cases (w == t)) [
            | inl same ↦
                let f : w ≡ t = (==_iff w t).0 same in
                let old_t : requests_of u r (q ∷ qs) ≡ owed (s.phase u) (s.replies u) r w =
                  (λ i. requests_of u r (sym e i)) ∙ (rw (sym f) old) in
                elim (Bool-cases (u == q.waiter)) [
                  | inl own ↦
                      let g : u ≡ q.waiter = (==_iff u q.waiter).0 own in
                      rw (same, own) (ground arith)
                  | inr foreign ↦ rw (same, foreign) (ground arith)
                ]
            | inr other ↦ elim (Bool-cases (u == q.waiter)) [
              | inl own ↦
                  let g : u ≡ q.waiter = (==_iff u q.waiter).0 own in rw (other, own) (ground arith)
              | inr foreign ↦ rw (other, foreign) old
            ]
          ];
      asked = λ u h. elim (Bool-cases (u == q.waiter)) [
        | inl same ↦
            let f : u ≡ q.waiter = (==_iff u q.waiter).0 same in
            rw f (waits-is_awaiting (s.phase q.waiter) q.target t here)
        | inr other ↦ k.asked u (rw other at h)
      ];
    }

-- A thread takes its reply and no longer waits.
pub resume-IsKept :
    (s : Gates) (t : ℕ) (p : Phase)
    → IsKept s
    → is_answered (s.replies t) ≡ true
    → waits p ≡ false
    → IsKept (go (record s { replies = assign s.replies t none }) t p)
resume-IsKept s t p k ready after = record {
  kept = λ u r w.
      let old = k.kept u r w in
      let new = owed-waits p none r w after in
      elim (Bool-cases (u == t)) [
        | inl same ↦ let e : u ≡ t = (==_iff u t).0 same in rw same (ground arith)
        | inr other ↦ rw other old
      ];
  asked = λ u h. elim (Bool-cases (u == t)) [
    | inl same ↦ absurd (let no : false ≡ true = rw same at h in cc)
    | inr other ↦ rw other (k.asked u (rw other at h))
  ];
}

-- A thread that spins stays where it is.
pub stay-IsKept : (s : Gates) (t : ℕ) (p : Phase) → IsKept s → s.phase t ≡ p → IsKept (go s t p)
stay-IsKept s t p k e = record {
  kept = λ u r w. elim (Bool-cases (u == t)) [
    | inl same ↦
        let f : u ≡ t = (==_iff u t).0 same in
        let g : s.phase u ≡ p = ap s.phase f ∙ e in rw (same, sym g) (k.kept u r w)
    | inr other ↦ rw other (k.kept u r w)
  ];
  asked = λ u h. elim (Bool-cases (u == t)) [
    | inl same ↦
        let f : u ≡ t = (==_iff u t).0 same in
        let g : s.phase u ≡ p = ap s.phase f ∙ e in rw (same, sym g) (k.asked u h)
    | inr other ↦ rw other (k.asked u h)
  ];
}

pub take_reply-IsKept :
    (s : Gates) (t r w : ℕ)
    → IsKept s
    → s.phase t ≡ awaiting r w
    → IsKept (take_reply s t r (awaiting r w))
unfolding take_reply
take_reply-IsKept s t r w k e = elim (Option-cases (s.replies t)) [
  | inl quiet ↦ rw (quiet, take_reply) (stay-IsKept s t (awaiting r w) k e)
  | inr (stored n, ready) ↦
      rw (ready, take_reply) (resume-IsKept s t outside k (rw ready refl) refl)
  | inr (again, ready) ↦
      rw (ready, take_reply) (resume-IsKept s t (draining r) k (rw ready refl) refl)
]
