-- ===== src/Compute/Gather.antt =====
-- What a split works on: the source copied to the larger buffer, the put's own record, and those of
-- the requests.
use di_store.Base.{
  ℕ, ◌+◌, ◌≤◌, ◌≡◌, refl, ap, ◌∙◌, ◌&&◌, str_eq, Option, some, none, if◌then◌else◌, false, not, map,
  List, ◌++◌, arith, Bytes, length, take-take_append,
}
use di_store.DataLayer.{LinkedNode, keylen, vallen}
use di_store.DataLayer.Find.{entries, lookup, or_else, Sized, IsWellFormed}
use di_store.Compute.Requests.{Request, Reply, Serving, help_others}
use di_store.Compute.Serve.{
  AllSized, IsSound, Acked, Acked-Grows, Grows, Grows-refl, Grows-trans, Present, Present-Grows,
}
use di_store.Compute.Told.{Told, first_value, to_pred, to_real, or_else_assoc, help_loop-Told}
use di_store.Compute.Served.{request_of, Served, Served-later, help_loop-Served}
use di_store.Compute.Put.{Winner, Attempt, buffer_of, store_own, gather}
use di_store.Compute.Room.{
  buffer_of-IsWellFormed, Own, store_own-Own, store_own-reads, help_loop-next,
}

module _ (city : Bytes → ℕ) where
  -- The attempt of a put that has to split: its buffers and the room behind them are sound, what it
  -- still has to store has 16 bytes, and what it acknowledged is there.
  pub record CanGather (cap : ℕ) (key value : Bytes) (w : Winner) (a : Attempt) : Type 0 where
    pub real : IsWellFormed city cap a.serving.real
    pub within : cap ≤ 16
    pub has_fingerprints : 16 ≤ length a.serving.real.fingerprints
    pub has_pairs : 16 ≤ length a.serving.real.pairs
    pub pred : IsSound city a.serving.pred
    pub stack_sized : Sized w.stack_pairs
    pub stack_room : 5 ≤ length w.stack_pairs
    pub key_size : length key ≡ keylen
    pub value_size : length value ≡ vallen
    pub requests_sized : AllSized a.serving.requests
    pub acked : Acked w.node.anchor a.serving.pred a.serving.real a.serving.replies

  -- What the split gathers, and the replies that were given on the way.
  pub record Gathered (key value : Bytes) (w : Winner) (a : Attempt) (s : Serving) : Type 0 where
    pub given : List Reply
    pub replies : s.replies ≡ a.serving.replies ++ given
    pub pred_reads :
        (k : Bytes)
        → lookup k (entries s.pred)
          ≡ or_else
              (lookup k (entries a.serving.pred))
              (first_value (to_pred w.node.anchor) k given)
    pub real_reads :
        (k : Bytes)
        → lookup k (entries s.real)
          ≡ or_else (lookup k (entries a.serving.real)) (
              or_else
                (if not a.done && str_eq k key then some value else none)
                (first_value (to_real w.node.anchor) k given))
    pub served :
        Served city 21 w.node.anchor a.serving.pred a.serving.real
          (map request_of a.serving.replies ++ a.serving.requests)
          s
    pub there : a.done ≡ false → Present key s.real
    pub fewer : s.real.next ≤ a.serving.real.next + 1 + length a.serving.requests
    pub more : a.serving.real.next ≤ s.real.next

  module _ (cap : ℕ) (key value : Bytes) (w : Winner) (a : Attempt)
      (c : CanGather cap key value w a) where
    abbrev start : Serving
    start = record (a.serving) { real = buffer_of w a.serving.real }

    start-entries : entries start.real ≡ entries a.serving.real
    start-entries =
        take-take_append a.serving.real.next 16 a.serving.real.pairs w.stack_pairs
          (omega (arith, c.real.room, c.within)) c.has_pairs

    start-Grows : Grows a.serving.real start.real
    start-Grows j v e = rw start-entries e

    start-IsWellFormed : IsWellFormed city 21 start.real
    start-IsWellFormed =
        buffer_of-IsWellFormed city cap w a.serving.real c.real c.within c.has_fingerprints
          c.has_pairs c.stack_sized c.stack_room

    own_reads :
        (k : Bytes)
        → lookup k (entries (store_own city key value 21 a.done start).real)
          ≡ or_else
              (lookup k (entries a.serving.real))
              (if not a.done && str_eq k key then some value else none)
    own_reads k =
        let e : lookup k (entries start.real) ≡ lookup k (entries a.serving.real) =
          ap (lookup k) start-entries in
        store_own-reads city key value a.done start start-IsWellFormed
          (omega (arith, c.real.room, c.within)) c.key_size c.value_size k
        ∙ ap
            (λ (o : Option Bytes).
              or_else o (if not a.done && str_eq k key then some value else none))
            e

    serve-Gathered :
        (s : Serving)
        → Own city a.done key start s
        → ((k : Bytes)
            → lookup k (entries s.real)
              ≡ or_else
                  (lookup k (entries a.serving.real))
                  (if not a.done && str_eq k key then some value else none))
        → Gathered key value w a (help_others city 21 w.node.anchor s)
    unfolding help_others
    serve-Gathered s own reads =
        let before : Grows a.serving.real s.real =
          Grows-trans a.serving.real start.real s.real start-Grows own.grows in
        let here : Grows a.serving.pred a.serving.pred = Grows-refl a.serving.pred in
        let acked : Acked w.node.anchor s.pred s.real s.replies =
          rw (own.pred, own.replies)
            (Acked-Grows w.node.anchor a.serving.pred a.serving.real a.serving.pred s.real
              a.serving.replies here before c.acked) in
        let r : Served city 21 w.node.anchor s.pred s.real
            (map request_of a.serving.replies ++ a.serving.requests)
            (help_others city 21 w.node.anchor s) =
          help_loop-Served city 21 w.node.anchor s.pred s.real s.requests s.replies _
            (rw (own.replies, own.requests) refl) (rw own.pred c.pred) own.sound
            (rw own.requests c.requests_sized) acked in
        let told : Told w.node.anchor s.pred s.real s.replies
            (help_others city 21 w.node.anchor s) =
          help_loop-Told city 21 w.node.anchor s.pred s.real s.requests s.replies
            (rw own.pred c.pred) own.sound (rw own.requests c.requests_sized) in
        let (lo, hi) = help_loop-next city 21 w.node.anchor s.pred s.real s.requests s.replies in
        record {
          given = told.given;
          replies =
              told.replies ∙ ap (λ (as_before : List Reply). as_before ++ told.given) own.replies;
          pred_reads = λ k.
              told.pred_reads k
              ∙ ap
                  (λ (n : LinkedNode).
                    or_else (lookup k (entries n))
                      (first_value (to_pred w.node.anchor) k told.given))
                  own.pred;
          real_reads = λ k.
              told.real_reads k
              ∙ rw (reads k) (or_else_assoc (lookup k (entries a.serving.real)) _ _);
          served =
              Served-later city 21 w.node.anchor a.serving.pred s.pred a.serving.real s.real _ _
                (rw own.pred here) before r;
          there = λ e.
              Present-Grows key s.real (help_others city 21 w.node.anchor s).real r.real_grows
                (own.there e);
          fewer = omega (arith, hi, own.fewer, ap (λ (rs : List Request). length rs) own.requests);
          more = omega (arith, lo, own.more);
        }

    -- A put that splits, with sound buffers and sizes of 16 bytes: what is gathered is well formed at the
    -- 21 slots of the larger buffer, and has for a key what the node had, or else the put's value if the
    -- key is its own and the attempt did not store it, or else the value of the first request with that
    -- key, not below the anchor, that was told success on the way. The predecessor's buffer has what it
    -- had, or else the value of the first such request below the anchor. There is at most one record
    -- more than the node's for the put and for each request.
    pub gather-Gathered : Gathered key value w a (gather city key value w a)
    unfolding gather
    gather-Gathered =
        serve-Gathered (store_own city key value 21 a.done start)
          (store_own-Own city key value a.done start start-IsWellFormed
            (omega (arith, c.real.room, c.within)) c.key_size c.value_size)
          own_reads
