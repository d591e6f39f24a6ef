-- ===== src/Compute/Requests.antt =====
-- compute_node.hpp, `help_pred`, `help_others`, and compute_node.cpp, `drain_pending`: the winner of a
-- node serves the requests of the threads that lost. A request is its key and its value; its reply is
-- what the winner stores in `succeed` and `retry` before it sets `is_done`.
use di_store.Base.{Bool, true, false, not, List, [], ◌∷◌, ◌++◌, Bytes, str_lt, ℕ, if◌then◌else◌}
use di_store.DataLayer.{LinkedNode, LinkedNodeType, type10, type12, type14, type16, store}

-- `ConcurrencyRequests`: `tag` points to the key, `content` to the value
pub record Request : Type 0 where
  pub tag : Bytes
  pub content : Bytes

pub record Reply : Type 0 where
  pub request : Request
  pub succeed : Bool
  pub retry : Bool

-- The two buffers, the queue of `ConcurrencyContext` and the replies given so far.
pub record Serving : Type 0 where
  pub pred : LinkedNode
  pub real : LinkedNode
  pub requests : List Request
  pub replies : List Reply

-- `drain_pending`: every request left in the queue is told to retry.
unfoldable pub drain_pending : List Request → List Reply
drain_pending [] = []
drain_pending (req ∷ rs) =
    record { request = req; succeed = false; retry = true } ∷ drain_pending rs

module _ (city : Bytes → ℕ) where
  abbrev pub store_as : LinkedNodeType → Bytes → Bytes → LinkedNode → LinkedNode × Bool
  store_as type16 k v buf = store city 16 k v buf
  store_as type14 k v buf = store city 14 k v buf
  store_as type12 k v buf = store city 12 k v buf
  store_as type10 k v buf = store city 10 k v buf
  store_as _ k v buf = (buf, false)

  -- `help_pred`: the predecessor's buffer is used at the capacity of its own type.
  unfoldable pub help_pred : Bytes → Bytes → LinkedNode → LinkedNode × Bool
  help_pred k v buf = store_as buf.type k v buf

  -- The loop of `help_others`, over the queue. A request that the full node cannot take goes back to
  -- the end of the queue, and the loop ends.
  unfoldable pub help_loop :
      ℕ → Bytes → LinkedNode → LinkedNode → List Request → List Reply → Serving
  help_loop cap anchor pred real [] done = record {
    pred = pred;
    real = real;
    requests = [];
    replies = done;
  }
  help_loop cap anchor pred real (req ∷ rs) done =
      let (pred', s) = help_pred req.tag req.content pred in
      let (real', t) = store city cap req.tag req.content real in
      let to_pred =
        help_loop cap anchor pred' real rs
          (done ++ record { request = req; succeed = s; retry = not s } ∷ []) in
      let to_real =
        help_loop cap anchor pred real' rs
          (done ++ record { request = req; succeed = t; retry = false } ∷ []) in
      let stop =
        let back : Serving = record {
          pred = pred;
          real = real';
          requests = rs ++ req ∷ [];
          replies = done;
        } in
        back in
      if str_lt req.tag anchor then to_pred else (if t then to_real else stop)

  unfoldable pub help_others : ℕ → Bytes → Serving → Serving
  help_others cap anchor s = help_loop cap anchor s.pred s.real s.requests s.replies

  -- The loop of `put10` over the queue: `retry` is set when the store failed, and it never stops early.
  unfoldable pub serve_loop : Bytes → LinkedNode → LinkedNode → List Request → List Reply → Serving
  serve_loop anchor pred real [] done = record {
    pred = pred;
    real = real;
    requests = [];
    replies = done;
  }
  serve_loop anchor pred real (req ∷ rs) done =
      let (pred', s) = help_pred req.tag req.content pred in
      let (real', t) = store city 16 req.tag req.content real in
      let to_pred =
        serve_loop anchor pred' real rs
          (done ++ record { request = req; succeed = s; retry = not s } ∷ []) in
      let to_real =
        serve_loop anchor pred real' rs
          (done ++ record { request = req; succeed = t; retry = not t } ∷ []) in
      if str_lt req.tag anchor then to_pred else to_real
