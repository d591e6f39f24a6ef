-- ===== src/Compute/Gate/Queued.antt =====
-- No request of a waiting thread is lost or answered twice: whatever the threads do, in any order, the
-- queues and the hands of their threads hold exactly the requests that their threads still wait for.
use di_store.Base.{ℕ, ◌≡◌, refl, none, some, arith, Option, ◌++◌, ◌==◌, if◌then◌else◌}
use di_store.Compute.Lock.{assign}
use di_store.Compute.Gate.{
  Gates, DataNodes, Waiting, Answer, again, Phase, outside, draining, declining, closing, trying,
  failing, dropping, between, opening, fetching, serving, answering, served, leaving, leaving_pred,
  reopening, spinning, subtracting, pushing, awaiting, Choice, serve_request, answer_of, advance,
  act, Reach, start, later, minus_one, is_positive, less_one,
}
use di_store.Compute.Gate.Kept.{IsKept, requests_of, owed}
use di_store.Compute.Gate.Held.{
  held, with_held, go-held, pop_request-held, reply_to-held, push_back-held, push-held,
  take_reply-held, compete-held,
}

serve_request-held :
    (s : Gates) (t r l : ℕ) (q : Waiting) (o : Option Answer)
    → IsKept (with_held s)
    → s.phase t ≡ answering r l q
    → IsKept (with_held (serve_request s t r l q o))
unfolding serve_request
serve_request-held s t r l q none k e =
    push_back-held s t q (served r l) k (rw e (refl, refl)) (refl, refl)
serve_request-held s t r l q (some a) k e =
    reply_to-held s t q a (serving r l) k (rw e (refl, refl)) (refl, refl)

-- One operation of a thread, in whichever phase it is.
advance-held :
    (nodes : DataNodes) (s : Gates) (t : ℕ) (c : Choice) (p : Phase)
    → s.phase t ≡ p
    → IsKept (with_held s)
    → IsKept (with_held (advance nodes t c p s))
unfolding advance
advance-held nodes s t c outside e k =
    go-held s t s.ctx s.max_depth (assign s.key t c.key) (draining c.node) k (rw e (refl, refl))
      (refl, refl)
advance-held nodes s t c (draining r) e k =
    pop_request-held s t (declining r) (closing r) k (rw e (refl, refl)) (λ q. (refl, refl))
      (refl, refl)
advance-held nodes s t c (declining r q) e k =
    reply_to-held s t q again (draining r) k (rw e (refl, refl)) (refl, refl)
advance-held nodes s t c (closing r) e k =
    go-held s t s.ctx (assign s.max_depth t minus_one) s.key (trying r) k (rw e (refl, refl))
      (refl, refl)
advance-held nodes s t c (trying r) e k =
    compete-held s r t (between r (nodes.backward r)) (spinning r) k (rw e (refl, refl))
      (refl, refl) (λ w. (refl, refl))
advance-held nodes s t c (between r l) e k =
    compete-held s l t (opening r l) (λ w. failing r) k (rw e (refl, refl)) (refl, refl)
      (λ w. (refl, refl))
advance-held nodes s t c (failing r) e k =
    go-held s t s.ctx (assign s.max_depth t 0) s.key (dropping r) k (rw e (refl, refl)) (refl, refl)
advance-held nodes s t c (dropping r) e k =
    go-held s t (assign s.ctx r none) s.max_depth s.key (draining r) k (rw e (refl, refl))
      (refl, refl)
advance-held nodes s t c (opening r l) e k =
    go-held s t s.ctx (assign s.max_depth t 4) s.key (fetching r l) k (rw e (refl, refl))
      (refl, refl)
advance-held nodes s t c (fetching r l) e k =
    go-held s t s.ctx (assign s.max_depth t minus_one) s.key (serving r l) k (rw e (refl, refl))
      (refl, refl)
advance-held nodes s t c (serving r l) e k =
    pop_request-held s t (answering r l) (served r l) k (rw e (refl, refl)) (λ q. (refl, refl))
      (refl, refl)
advance-held nodes s t c (answering r l q) e k =
    serve_request-held s t r l q (answer_of nodes c (s.key q.waiter) r l) k e
advance-held nodes s t c (served r l) e k =
    go-held s t s.ctx s.max_depth s.key (if c.more then serving r l else leaving r l) k
      (rw e (refl, refl)) (ground arith)
advance-held nodes s t c (leaving r l) e k =
    go-held s t (assign s.ctx r none) s.max_depth s.key (leaving_pred r l) k (rw e (refl, refl))
      (refl, refl)
advance-held nodes s t c (leaving_pred r l) e k =
    go-held s t (assign s.ctx l none) s.max_depth s.key reopening k (rw e (refl, refl)) (refl, refl)
advance-held nodes s t c reopening e k =
    go-held s t s.ctx (assign s.max_depth t 4) s.key outside k (rw e (refl, refl)) (refl, refl)
advance-held nodes s t c (spinning r w) e k =
    go-held s t s.ctx s.max_depth s.key
      (if s.max_depth w == minus_one then spinning r w else subtracting r w) k (rw e (refl, refl))
      (ground arith)
advance-held nodes s t c (subtracting r w) e k =
    go-held s t s.ctx (assign s.max_depth w (less_one (s.max_depth w))) s.key
      (if is_positive (s.max_depth w) then pushing r w else draining r) k (rw e (refl, refl))
      (ground arith)
advance-held nodes s t c (pushing r w) e k = push-held s t r w k (rw e (refl, refl))
advance-held nodes s t c (awaiting r w) e k = take_reply-held s t r w k e

Reach-held : {nodes : DataNodes} {s : Gates} → Reach nodes s → IsKept (with_held s)
Reach-held start = record { kept = λ t r w. refl; asked = λ t h. absurd (cc) }
Reach-held {nodes = nodes} (later {s = s} r (act t c)) =
    advance-held nodes s t c (s.phase t) refl (Reach-held r)

-- In every state that the threads reach, putting in any order, the requests of a context w are those in its
-- queue and the one that its thread has popped and neither answered nor pushed back. Among them is one
-- request of a thread t about a node r when t waits for w's answer about r and has none yet, and no such
-- request otherwise: no request is lost, none is there twice, and none stays behind once it is answered.
pub requests_of-owed :
    (nodes : DataNodes) (s : Gates) (t r w : ℕ)
    → Reach nodes s
    → requests_of t r (held (s.phase w) ++ s.requests w) ≡ owed (s.phase t) (s.replies t) r w
requests_of-owed nodes s t r w reach = (Reach-held reach).kept t r w
