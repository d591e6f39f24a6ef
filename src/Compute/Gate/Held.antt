-- ===== src/Compute/Gate/Held.antt =====
-- The requests of a context: the one that its thread has popped, and those in the queue.
use mathlib.Core.List.{append_assoc}
use di_store.Base.{
  ℕ, ◌≡◌, ◌⊎◌, inl, inr, refl, sym, ap, ◌∙◌, false, Option, none, some, List, [], ◌∷◌, ◌++◌, arith,
  Bytes, ◌==◌, ==_iff, Bool-cases, Option-cases,
}
use di_store.Compute.Lock.{assign}
use di_store.Compute.Gate.{
  Gates, Waiting, Answer, stored, again, Phase, outside, draining, declining, answering, awaiting,
  go, compete, pop_request, reply_to, push_back, take_reply,
}
use di_store.Compute.Gate.Kept.{
  IsKept, requests_of, waits, go-IsKept, push-IsKept, answer-IsKept, resume-IsKept, stay-IsKept,
  requests_of-append,
}

-- The request that a thread has popped and neither answered nor pushed back.
abbrev pub held : Phase → List Waiting
held (declining r q) = q ∷ []
held (answering r l q) = q ∷ []
held _ = []

abbrev pub with_held : Gates → Gates
with_held s = record s { requests = λ w. held (s.phase w) ++ s.requests w }

-- Only how often a request is in a queue matters.
IsKept-queues :
    (s : Gates) (queues : ℕ → List Waiting)
    → ((u r w : ℕ) → requests_of u r (queues w) ≡ requests_of u r (s.requests w))
    → IsKept s
    → IsKept (record s { requests = queues })
IsKept-queues s queues same k = record {
  kept = λ u r w. same u r w ∙ k.kept u r w;
  asked = k.asked;
}

-- A thread goes on with what it held before.
same_held :
    (s : Gates) (t : ℕ) (p : Phase)
    → held p ≡ held (s.phase t)
    → (u r w : ℕ)
    → requests_of u r (held (assign s.phase t p w) ++ s.requests w)
      ≡ requests_of u r (held (s.phase w) ++ s.requests w)
same_held s t p e u r w = elim (Bool-cases (w == t)) [
  | inl here ↦ let f : w ≡ t = (==_iff w t).0 here in rw (here, f, e) refl
  | inr there ↦ rw there refl
]

pub go-held :
    (s : Gates) (t : ℕ) (ctx : ℕ → Option ℕ) (depth : ℕ → ℕ) (key : ℕ → Bytes) (p : Phase)
    → IsKept (with_held s)
    → (waits (s.phase t) ≡ false) × (held (s.phase t) ≡ [])
    → (waits p ≡ false) × (held p ≡ [])
    → IsKept (with_held (go (record s { ctx = ctx; max_depth = depth; key = key }) t p))
go-held s t ctx depth key p k (w0, h0) (w1, h1) =
    IsKept-queues (go (record (with_held s) { ctx = ctx; max_depth = depth; key = key }) t p)
      (λ w. held (assign s.phase t p w) ++ s.requests w) (same_held s t p (h1 ∙ sym h0))
      (go-IsKept (with_held s) t ctx depth key p k w0 w1)

List-cases : (xs : List Waiting) → (xs ≡ []) ⊎ ((q : Waiting) × (qs : List Waiting) × (xs ≡ q ∷ qs))
List-cases [] = inl refl
List-cases (q ∷ qs) = inr (q, qs, refl)

-- A request goes from the queue to the hand of the thread.
pub pop_request-held :
    (s : Gates) (t : ℕ) (popped : Waiting → Phase) (finished : Phase)
    → IsKept (with_held s)
    → (waits (s.phase t) ≡ false) × (held (s.phase t) ≡ [])
    → ((q : Waiting) → (waits (popped q) ≡ false) × (held (popped q) ≡ q ∷ []))
    → (waits finished ≡ false) × (held finished ≡ [])
    → IsKept (with_held (pop_request s t popped finished))
unfolding pop_request
pop_request-held s t popped finished k before m f = elim (List-cases (s.requests t)) [
  | inl empty ↦ rw (empty, pop_request) (go-held s t s.ctx s.max_depth s.key finished k before f)
  | inr (q, qs, e) ↦
      rw (e, pop_request)
        (IsKept-queues (go (with_held s) t (popped q))
          (λ w. held (assign s.phase t (popped q) w) ++ assign s.requests t qs w)
          (λ u r w. elim (Bool-cases (w == t)) [
            | inl here ↦
                let at_t : w ≡ t = (==_iff w t).0 here in rw (here, at_t, before.1, (m q).1, e) refl
            | inr there ↦ rw there refl
          ])
          (go-IsKept (with_held s) t s.ctx s.max_depth s.key (popped q) k before.0 (m q).0))
]

-- The request in the hand of the thread is answered.
pub reply_to-held :
    (s : Gates) (t : ℕ) (q : Waiting) (a : Answer) (p : Phase)
    → IsKept (with_held s)
    → (waits (s.phase t) ≡ false) × (held (s.phase t) ≡ q ∷ [])
    → (waits p ≡ false) × (held p ≡ [])
    → IsKept (with_held (reply_to s t q a p))
unfolding reply_to
reply_to-held s t q a p k (w0, h0) (w1, h1) =
    let first : held (s.phase t) ++ s.requests t ≡ q ∷ s.requests t =
      ap (λ (h : List Waiting). h ++ s.requests t) h0 in
    let answered : Gates = record (with_held s) {
      requests = assign (with_held s).requests t (s.requests t);
      replies = assign s.replies q.waiter (some a);
    } in
    let k' : IsKept answered = answer-IsKept (with_held s) t q (s.requests t) a k first in
    IsKept-queues (go answered t p) (λ w. held (assign s.phase t p w) ++ s.requests w)
      (λ u r w. elim (Bool-cases (w == t)) [
        | inl here ↦ let at_t : w ≡ t = (==_iff w t).0 here in rw (here, at_t, h1) refl
        | inr there ↦ rw there refl
      ])
      (go-IsKept answered t s.ctx s.max_depth s.key p k' w0 w1)

-- The request in the hand of the thread goes to the end of the queue.
pub push_back-held :
    (s : Gates) (t : ℕ) (q : Waiting) (p : Phase)
    → IsKept (with_held s)
    → (waits (s.phase t) ≡ false) × (held (s.phase t) ≡ q ∷ [])
    → (waits p ≡ false) × (held p ≡ [])
    → IsKept (with_held (push_back s t q p))
unfolding push_back
push_back-held s t q p k (w0, h0) (w1, h1) =
    IsKept-queues (go (with_held s) t p)
      (λ w. held (assign s.phase t p w) ++ assign s.requests t (s.requests t ++ q ∷ []) w)
      (λ u r w. elim (Bool-cases (w == t)) [
        | inl here ↦
            let at_t : w ≡ t = (==_iff w t).0 here in
            let moved = requests_of-append u r (s.requests t) (q ∷ []) in
            rw (here, at_t, h0, h1) (omega arith)
        | inr there ↦ rw there refl
      ])
      (go-IsKept (with_held s) t s.ctx s.max_depth s.key p k w0 w1)

-- A thread pushes its request.
pub push-held :
    (s : Gates) (t r w : ℕ)
    → IsKept (with_held s)
    → (waits (s.phase t) ≡ false) × (held (s.phase t) ≡ [])
    → IsKept (
        with_held (
          go
            (record s {
              requests =
                  assign s.requests w (s.requests w ++ record { waiter = t; target = r } ∷ []);
            })
            t
            (awaiting r w)))
push-held s t r w k (w0, h0) =
    let q : Waiting = record { waiter = t; target = r } in
    let queues : ℕ → List Waiting = assign s.requests w (s.requests w ++ q ∷ []) in
    let before : Gates = record (with_held s) {
      requests = assign (with_held s).requests w ((with_held s).requests w ++ q ∷ []);
    } in
    IsKept-queues (go before t (awaiting r w))
      (λ v. held (assign s.phase t (awaiting r w) v) ++ queues v)
      (λ u r' v.
        (λ i. same_held (record s { requests = queues }) t (awaiting r w) (sym h0) u r' v i)
        ∙ elim (Bool-cases (v == w)) [
          | inl here ↦
              let at_w : v ≡ w = (==_iff v w).0 here in
              rw (here, at_w)
                (ap (λ (qs : List Waiting). requests_of u r' qs)
                  (sym (append_assoc (held (s.phase w)) (s.requests w) (q ∷ []))))
          | inr there ↦ rw there refl
        ])
      (push-IsKept (with_held s) t r w k w0)

pub take_reply-held :
    (s : Gates) (t r w : ℕ)
    → IsKept (with_held s)
    → s.phase t ≡ awaiting r w
    → IsKept (with_held (take_reply s t r (awaiting r w)))
unfolding take_reply
take_reply-held s t r w k e =
    let h0 : held (s.phase t) ≡ [] = ap held e in
    elim (Option-cases (s.replies t)) [
      | inl quiet ↦
          rw (quiet, take_reply)
            (IsKept-queues (go (with_held s) t (awaiting r w))
              (λ v. held (assign s.phase t (awaiting r w) v) ++ s.requests v)
              (same_held s t (awaiting r w) (sym h0))
              (stay-IsKept (with_held s) t (awaiting r w) k e))
      | inr (stored n, ready) ↦
          rw (ready, take_reply)
            (IsKept-queues
              (go (record (with_held s) { replies = assign s.replies t none }) t outside)
              (λ v. held (assign s.phase t outside v) ++ s.requests v)
              (same_held s t outside (sym h0))
              (resume-IsKept (with_held s) t outside k (rw ready refl) refl))
      | inr (again, ready) ↦
          rw (ready, take_reply)
            (IsKept-queues
              (go (record (with_held s) { replies = assign s.replies t none }) t (draining r))
              (λ v. held (assign s.phase t (draining r) v) ++ s.requests v)
              (same_held s t (draining r) (sym h0))
              (resume-IsKept (with_held s) t (draining r) k (rw ready refl) refl))
    ]

pub compete-held :
    (s : Gates) (n t : ℕ) (won : Phase) (lost : ℕ → Phase)
    → IsKept (with_held s)
    → (waits (s.phase t) ≡ false) × (held (s.phase t) ≡ [])
    → (waits won ≡ false) × (held won ≡ [])
    → ((w : ℕ) → (waits (lost w) ≡ false) × (held (lost w) ≡ []))
    → IsKept (with_held (compete s n t won lost))
unfolding compete
compete-held s n t won lost k before h g = elim (Option-cases (s.ctx n)) [
  | inl free ↦
      rw (free, compete) (go-held s t (assign s.ctx n (some t)) s.max_depth s.key won k before h)
  | inr (w, taken) ↦
      rw (taken, compete) (go-held s t s.ctx s.max_depth s.key (lost w) k before (g w))
]
