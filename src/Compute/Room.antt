-- ===== src/Compute/Room.antt =====
-- The larger buffer of a split, and the room that a put's own record and the requests take in it.
use di_store.Base.{
  ℕ, zero, suc, ◌+◌, ◌≤◌, ◌<◌, ◌≡◌, refl, sym, ◌&&◌, str_eq, some, none, if◌then◌else◌, Bool, true,
  false, not, List, [], ◌∷◌, ◌++◌, arith, Bytes, length, take, length-append, length-take,
  length-replicate, take-take_append,
}
use di_store.DataLayer.{Kv, LinkedNode, keylen, vallen, store, write_slot, available}
use di_store.DataLayer.Find.{entries, lookup, or_else, Sized, Fingered, IsWellFormed}
use di_store.Compute.Requests.{Request, Reply, Serving, help_pred, help_loop}
use di_store.Compute.Serve.{Grows, Grows-refl, Present, store-Stored}
use di_store.Compute.Told.{or_else-none, store-Reads}
use di_store.Compute.Put.{Winner, buffer_of, store_own}

Sized-take : (n : ℕ) (ps : List Kv) → Sized ps → Sized (take n ps)
Sized-take zero ps s = tt
Sized-take (suc n) [] s = tt
Sized-take (suc n) (p ∷ ps) s = (s.0, s.1, Sized-take n ps s.2)

Sized-append : (ps qs : List Kv) → Sized ps → Sized qs → Sized (ps ++ qs)
Sized-append [] qs s t = t
Sized-append (p ∷ ps) qs s t = (s.0, s.1, Sized-append ps qs s.2 t)

module _ (city : Bytes → ℕ) where
  Fingered-take_append :
      (n m : ℕ) (fs gs : List ℕ) (ps qs : List Kv)
      → n ≤ m
      → Fingered city n fs ps
      → Fingered city n (take m fs ++ gs) (take m ps ++ qs)
  Fingered-take_append zero m fs gs ps qs h f = tt
  Fingered-take_append (suc n) zero fs gs ps qs h f = absurd (omega arith)
  Fingered-take_append (suc n) (suc m) [] gs ps qs h f = elim f [ ]
  Fingered-take_append (suc n) (suc m) (x ∷ fs) gs [] qs h f = elim f [ ]
  Fingered-take_append (suc n) (suc m) (x ∷ fs) gs (p ∷ ps) qs h f =
      (f.0, Fingered-take_append n m fs gs ps qs (omega arith) f.1)

  pub buffer_of-IsWellFormed :
      (cap : ℕ) (w : Winner) (source : LinkedNode)
      → IsWellFormed city cap source
      → cap ≤ 16
      → 16 ≤ length source.fingerprints
      → 16 ≤ length source.pairs
      → Sized w.stack_pairs
      → 5 ≤ length w.stack_pairs
      → IsWellFormed city 21 (buffer_of w source)
  buffer_of-IsWellFormed cap w source s c f p z five = record {
    room = omega (arith, s.room);
    has_fingerprints = rw (length-append, length-take, length-replicate) (omega arith);
    has_pairs = rw (length-append, length-take) (omega arith);
    sized = Sized-append _ w.stack_pairs (Sized-take 16 source.pairs s.sized) z;
    fingered =
        Fingered-take_append source.next 16 source.fingerprints _ source.pairs _
          (omega (arith, s.room)) s.fingered;
    unique = λ j.
        rw (take-take_append source.next 16 source.pairs w.stack_pairs (omega (arith, s.room)) p)
          (s.unique j);
  }

  store-next :
      (cap : ℕ) (node : LinkedNode) (key value : Bytes)
      → (node.next ≤ (store city cap key value node).0.next)
        × ((store city cap key value node).0.next ≤ node.next + 1)
  unfolding store write_slot
  store-next cap node key value = ground arith

  pub store-room :
      (cap : ℕ) (node : LinkedNode) (key value : Bytes)
      → node.next < cap
      → (store city cap key value node).1 ≡ true
  unfolding store available
  store-room cap node key value h = ground arith

  -- The own record of a put, stored before the requests are served unless it was before.
  pub record Own (done : Bool) (key : Bytes) (before : Serving) (s : Serving) : Type 0 where
    pub sound : IsWellFormed city 21 s.real
    pub grows : Grows before.real s.real
    pub there : done ≡ false → Present key s.real
    pub fewer : s.real.next ≤ before.real.next + 1
    pub more : before.real.next ≤ s.real.next
    pub pred : s.pred ≡ before.pred
    pub requests : s.requests ≡ before.requests
    pub replies : s.replies ≡ before.replies

  pub store_own-Own :
      (key value : Bytes) (done : Bool) (before : Serving)
      → IsWellFormed city 21 before.real
      → before.real.next < 21
      → length key ≡ keylen
      → length value ≡ vallen
      → Own done key before (store_own city key value 21 done before)
  store_own-Own key value true before w h hk hv = record {
    sound = w;
    grows = Grows-refl before.real;
    there = λ e. absurd (cc);
    fewer = omega arith;
    more = omega arith;
    pred = refl;
    requests = refl;
    replies = refl;
  }
  store_own-Own key value false before w h hk hv =
      let s = store-Stored city 21 before.real key value w hk hv in
      let (lo, hi) = store-next 21 before.real key value in
      record {
        sound = s.sound;
        grows = s.grows;
        there = λ e. s.acked (store-room 21 before.real key value h);
        fewer = hi;
        more = lo;
        pred = refl;
        requests = refl;
        replies = refl;
      }

  pub store_own-reads :
      (key value : Bytes) (done : Bool) (before : Serving)
      → IsWellFormed city 21 before.real
      → before.real.next < 21
      → length key ≡ keylen
      → length value ≡ vallen
      → (k : Bytes)
      → lookup k (entries (store_own city key value 21 done before).real)
        ≡ or_else
            (lookup k (entries before.real))
            (if not done && str_eq k key then some value else none)
  store_own-reads key value true before w h hk hv k =
      sym (or_else-none (lookup k (entries before.real)))
  store_own-reads key value false before w h hk hv k =
      rw (store-room 21 before.real key value h) at
        (store-Reads city 21 before.real key value w hk hv k)

  pub help_loop-next :
      (cap : ℕ) (anchor : Bytes) (pred real : LinkedNode) (rs : List Request) (done : List Reply)
      → (let n = (help_loop city cap anchor pred real rs done).real.next in
          (real.next ≤ n) × (n ≤ real.next + length rs))
  unfolding help_loop
  help_loop-next cap anchor pred real [] done = (omega arith, omega arith)
  help_loop-next cap anchor pred real (req ∷ rs) done =
      let (pred', s) = help_pred city req.tag req.content pred in
      let (real', t) = store city cap req.tag req.content real in
      ground (
        arith,
        store-next cap real req.tag req.content,
        help_loop-next cap anchor pred' real rs
            (done ++ record { request = req; succeed = s; retry = not s } ∷ []),
        help_loop-next cap anchor pred real' rs
            (done ++ record { request = req; succeed = t; retry = false } ∷ []),
      )
