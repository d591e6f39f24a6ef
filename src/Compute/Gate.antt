-- ===== src/Compute/Gate.antt =====
-- compute_node.cpp, `failed_write`, `drain_pending` and `put10`, and compute_node.hpp,
-- `try_win_for_insert`: the threads that lose a node and what they share with the thread that won it.
--
-- Every thread puts. A step is one atomic operation of one thread: a load, a store or a fetch_sub of
-- `max_depth`, a compare-and-exchange or a store of a node's `ctx`, a push or a pop of `requests`, a load or
-- the stores of a reply, of which `is_done` is the last and the first that the waiting thread reads. A
-- context is named by its thread, a request by the thread that waits for it and the node that this thread
-- puts into; its `tag` points to the key of that thread. What the buffers hold is left out: the choice of
-- a step says whether the store of a request succeeded, whether a request that the node cannot take goes
-- back to the queue (`help_others`) or is told to retry (`put10`), and whether the winner goes through the
-- queue once more, with a larger buffer, before it leaves.
pub mod Admission
pub mod Kept
pub mod Held
pub mod Queued
pub mod Elsewhere
use di_store.Base.{
  ℕ, ◌+◌, ◌-◌, ◌%◌, ◌^◌, Bool, true, false, ◌&&◌, Option, none, some, List, [], ◌∷◌, ◌++◌, ltb,
  ◌==◌, if◌then◌else◌, Bytes, str_lt,
}
use di_store.Compute.Lock.{assign, exchange}

-- `std::atomic<int>`: a word of 32 bits, the negative numbers from 2 ^ 31 on.
abbrev pub minus_one : ℕ
minus_one = 2 ^ 32 - 1

abbrev pub is_positive : ℕ → Bool
is_positive depth = ltb 0 depth && ltb depth (2 ^ 31)

-- What `fetch_sub(1)` leaves.
abbrev pub less_one : ℕ → ℕ
less_one depth = (depth + minus_one) % 2 ^ 32

pub record Waiting : Type 0 where
  pub waiter : ℕ
  pub target : ℕ

-- `succeed` and `retry` once `is_done` is set; `stored` names the node whose winner stored the request.
pub data Answer : Type 0 where
  stored : ℕ → Answer
  again : Answer

-- What the threads know of the nodes.
pub record DataNodes : Type 0 where
  pub backward : ℕ → ℕ
  pub anchor : ℕ → Bytes

-- Where a thread is in its put into the node r: in `drain_pending`; before the store of -1; before the
-- exchange on r, and on the predecessor l; before the two stores of a thread that did not get l; before
-- the stores of 4 and of -1 around the fetch; in the loop over the requests, and with a request popped, in
-- `drain_pending` (declining) and in the loop (answering); behind the loop; before the three stores that
-- release; and with the context w of another winner: before the load, the fetch_sub, the push and the
-- reply.
pub data Phase : Type 0 where
  outside : Phase
  draining closing trying failing dropping : ℕ → Phase
  between opening fetching serving served leaving leaving_pred : ℕ → ℕ → Phase
  declining : ℕ → Waiting → Phase
  answering : ℕ → ℕ → Waiting → Phase
  reopening : Phase
  spinning subtracting pushing awaiting : ℕ → ℕ → Phase

pub record Gates : Type 0 where
  pub ctx : ℕ → Option ℕ
  pub max_depth : ℕ → ℕ
  pub requests : ℕ → List Waiting
  pub replies : ℕ → Option Answer
  pub key : ℕ → Bytes
  pub phase : ℕ → Phase

-- The node that a thread outside puts into and its key, whether a store succeeds, whether a refused request
-- goes back, and whether there is one more loop.
pub record Choice : Type 0 where
  pub node : ℕ
  pub key : Bytes
  pub fits : Bool
  pub back : Bool
  pub more : Bool

abbrev pub go : Gates → ℕ → Phase → Gates
go s t p = record s { phase = assign s.phase t p }

abbrev pub set_depth : Gates → ℕ → ℕ → Phase → Gates
set_depth s t d p = go (record s { max_depth = assign s.max_depth t d }) t p

abbrev pub set_ctx : Gates → ℕ → Option ℕ → ℕ → Phase → Gates
set_ctx s n v t p = go (record s { ctx = assign s.ctx n v }) t p

-- `compare_exchange_strong`, and where the thread goes on when it wins and when it does not
unfoldable pub compete : Gates → ℕ → ℕ → Phase → (ℕ → Phase) → Gates
compete s n t won lost = elim (s.ctx n) [
  | none ↦ set_ctx s n (some t) t won
  | some w ↦ go s t (lost w)
]

-- `try_pop`, and where the thread goes on with a request and without one
unfoldable pub pop_request : Gates → ℕ → (Waiting → Phase) → Phase → Gates
pop_request s t popped finished = elim (s.requests t) [
  | [] ↦ go s t finished
  | q ∷ qs ↦ go (record s { requests = assign s.requests t qs }) t (popped q)
]

-- The stores of `succeed`, `retry` and `is_done`
unfoldable pub reply_to : Gates → ℕ → Waiting → Answer → Phase → Gates
reply_to s t q a p = go (record s { replies = assign s.replies q.waiter (some a) }) t p

unfoldable pub push_back : Gates → ℕ → Waiting → Phase → Gates
push_back s t q p = go (record s { requests = assign s.requests t (s.requests t ++ q ∷ []) }) t p

-- The reply to a key by the winner of r, whose predecessor is l: none if the request goes back.
unfoldable pub answer_of : DataNodes → Choice → Bytes → ℕ → ℕ → Option Answer
answer_of nodes c k r l =
    if str_lt k (nodes.anchor r)
    then some (if c.fits then stored l else again)
    else (if c.fits then some (stored r) else (if c.back then none else some again))

-- A request that goes back ends the loop.
unfoldable pub serve_request : Gates → ℕ → ℕ → ℕ → Waiting → Option Answer → Gates
unfolding reply_to push_back
serve_request s t r l q none = push_back s t q (served r l)
serve_request s t r l q (some a) = reply_to s t q a (serving r l)

-- `while (!req->is_done);` and what `failed_write` and `put_dispatcher` make of the reply
unfoldable pub take_reply : Gates → ℕ → ℕ → Phase → Gates
take_reply s t r p = elim (s.replies t) [
  | none ↦ go s t p
  | some (stored n) ↦ go (record s { replies = assign s.replies t none }) t outside
  | some again ↦ go (record s { replies = assign s.replies t none }) t (draining r)
]

-- One atomic operation of thread t.
unfoldable pub advance : DataNodes → ℕ → Choice → Phase → Gates → Gates
advance nodes t c outside s = go (record s { key = assign s.key t c.key }) t (draining c.node)
advance nodes t c (draining r) s = pop_request s t (declining r) (closing r)
advance nodes t c (declining r q) s = reply_to s t q again (draining r)
advance nodes t c (closing r) s = set_depth s t minus_one (trying r)
advance nodes t c (trying r) s = compete s r t (between r (nodes.backward r)) (spinning r)
advance nodes t c (between r l) s = compete s l t (opening r l) (λ w. failing r)
advance nodes t c (failing r) s = set_depth s t 0 (dropping r)
advance nodes t c (dropping r) s = set_ctx s r none t (draining r)
advance nodes t c (opening r l) s = set_depth s t 4 (fetching r l)
advance nodes t c (fetching r l) s = set_depth s t minus_one (serving r l)
advance nodes t c (serving r l) s = pop_request s t (answering r l) (served r l)
advance nodes t c (answering r l q) s =
    serve_request s t r l q (answer_of nodes c (s.key q.waiter) r l)
advance nodes t c (served r l) s = go s t (if c.more then serving r l else leaving r l)
advance nodes t c (leaving r l) s = set_ctx s r none t (leaving_pred r l)
advance nodes t c (leaving_pred r l) s = set_ctx s l none t reopening
advance nodes t c reopening s = set_depth s t 4 outside
advance nodes t c (spinning r w) s =
    go s t (if s.max_depth w == minus_one then spinning r w else subtracting r w)
advance nodes t c (subtracting r w) s =
    let depth = s.max_depth w in
    go (record s { max_depth = assign s.max_depth w (less_one depth) }) t
      (if is_positive depth then pushing r w else draining r)
advance nodes t c (pushing r w) s =
    go
      (record s {
        requests = assign s.requests w (s.requests w ++ record { waiter = t; target = r } ∷ []);
      })
      t (awaiting r w)
advance nodes t c (awaiting r w) s = take_reply s t r (awaiting r w)

pub data Step (nodes : DataNodes) (s : Gates) : Gates → Type 0 where
  act : (t : ℕ) (c : Choice) → Step nodes s (advance nodes t c (s.phase t) s)

-- `ConcurrencyContext()` for every thread
abbrev pub fresh : Gates
fresh = record {
  ctx = λ n. none;
  max_depth = λ t. 4;
  requests = λ t. [];
  replies = λ t. none;
  key = λ t. [];
  phase = λ t. outside;
}

pub data Reach (nodes : DataNodes) : Gates → Type 0 where
  start : Reach nodes fresh
  later : {s s' : Gates} → Reach nodes s → Step nodes s s' → Reach nodes s'
