-- ===== src/Compute/PutGet.antt =====
-- `put12` and `put16` on a full node, and `get` after them.
use di_store.Base.{
  ℕ, ◌+◌, ◌≤◌, ◌<◌, ◌≡◌, refl, ap, ◌∙◌, true, false, Option, none, some, List, [], arith, Bytes,
  ◌==◌, ltb, leb, str_lt, Bool-cases, Option-cases, inl, inr, if◌then◌else◌, length,
}
use di_store.DataLayer.{
  Kv, LinkedNode, LinkedNodeType, type10, type12, keylen, vallen, store, available,
}
use di_store.DataLayer.Find.{entries, lookup, Sized, IsWellFormed}
use di_store.Split.Records.{IsTarget}
use di_store.Compute.{SkipListNode, Outside, capacity}
use di_store.Compute.Requests.{Request}
use di_store.Compute.Serve.{AllSized, IsSound}
use di_store.Compute.Put.{
  Winner, Attempt, PutResult, gather, try_put_to_existing_node, put12, put16, put_splitted,
}
use di_store.Compute.SplitPut.{CanSplit, Places, result-linked}
use di_store.Compute.Gather.{CanGather, Gathered, gather-Gathered}
use di_store.Compute.Read.{get}
use di_store.Compute.ReadBack.{owner, get-put_splitted}

-- The node that the search layer has for a key after a put.
abbrev pub node_for : PutResult → Bytes → SkipListNode
node_for r j = elim (r.linked) [
  | none ↦ r.node
  | some fresh ↦ if str_lt j fresh.anchor then r.node else fresh
]

module _ (city : Bytes → ℕ) (checksum : List Kv → ℕ) where
  -- What `get` returns after a put over the node `before`: the old value of a key that was there, and
  -- some value for the put's own key, in the first pass, whatever is in the queue.
  pub record ReadsBack (key : Bytes) (before : LinkedNode) (r : PutResult) : Type 0 where
    pub completed : r.completed ≡ true
    pub kept :
        (j v : Bytes) (pending : ℕ → List Request) (fuel : ℕ)
        → length j ≡ keylen
        → 0 < fuel
        → lookup j (entries before) ≡ some v
        → (get city checksum j
            (λ i. record { pending = pending i; node = node_for r j; memory = r.memory })
            fuel).result
          ≡ some (some v)
    pub own :
        (pending : ℕ → List Request) (fuel : ℕ)
        → 0 < fuel
        → (v : Bytes) × ((get city checksum key
              (λ i. record { pending = pending i; node = node_for r key; memory = r.memory })
              fuel).result
            ≡ some (some v))

-- The winner of a full node of capacity `cap`: sound buffers with room for 16 records, and sizes of 16
-- bytes.
pub record IsFull (city : Bytes → ℕ) (cap : ℕ) (key value : Bytes) (w : Winner) : Type 0 where
  pub real : IsWellFormed city cap w.serving.real
  pub full : w.serving.real.next ≡ cap
  pub real_room : IsTarget city w.serving.real
  pub third_room : IsTarget city w.third
  pub pred : IsSound city w.serving.pred
  pub stack_sized : Sized w.stack_pairs
  pub stack_room : 5 ≤ length w.stack_pairs
  pub key_size : length key ≡ keylen
  pub value_size : length value ≡ vallen
  pub requests_sized : AllSized w.serving.requests
  pub unreplied : w.serving.replies ≡ []

module _ (city : Bytes → ℕ) (checksum : List Kv → ℕ) (out : Outside) (key value : Bytes)
    (w : Winner) (p : Places out) where
  module _ (cap : ℕ) (f : IsFull city cap key value w) (small : cap ≤ 16) where
    abbrev pub refused : Attempt
    refused = record {
      serving = w.serving;
      memory = w.memory;
      done = false;
      pendings = length w.serving.requests + 1;
    }

    pub try_put-full : try_put_to_existing_node city out key value cap w ≡ refused
    unfolding try_put_to_existing_node store available
    try_put-full = let t : ltb w.serving.real.next cap ≡ false = ground (arith, f.full) in simp t

    pub refused-CanGather : CanGather city cap key value w refused
    refused-CanGather = record {
      real = f.real;
      within = small;
      has_fingerprints = f.real_room.has_fingerprints;
      has_pairs = f.real_room.has_pairs;
      pred = f.pred;
      stack_sized = f.stack_sized;
      stack_room = f.stack_room;
      key_size = f.key_size;
      value_size = f.value_size;
      requests_sized = f.requests_sized;
      acked = rw f.unreplied tt;
    }

    abbrev pub all : LinkedNode
    all = (gather city key value w refused).real

    pub all-Gathered : Gathered city key value w refused (gather city key value w refused)
    all-Gathered = gather-Gathered city cap key value w refused refused-CanGather

    pub all-CanSplit :
        (left_cap : ℕ) → left_cap < cap → 5 ≤ left_cap → CanSplit city left_cap w refused all
    all-CanSplit left_cap h k = record {
      sound = all-Gathered.served.real_sound;
      more = omega (arith, all-Gathered.more, f.full);
      left_room = omega arith;
      right_room = omega (arith, all-Gathered.served.real_sound.room);
      left_target = f.real_room;
      right_target = f.third_room;
    }

    module _ (left_cap : ℕ) (ltype rtype : LinkedNodeType) (lcap rcap : ℕ) where
      abbrev split : PutResult
      split = put_splitted city checksum out key value left_cap ltype rtype lcap rcap w refused

      node_for-owner :
          (j : Bytes)
          → node_for split j
            ≡ owner city checksum out key value w refused left_cap ltype rtype lcap rcap p j
      node_for-owner j =
          let (x, at, z) =
            result-linked city checksum out key value w refused left_cap ltype rtype lcap rcap p in
          rw z refl

      split-ReadsBack :
          CanSplit city left_cap w refused all
          → left_cap ≤ lcap
          → lcap ≤ 16
          → capacity ltype ≤ lcap
          → all.next ≤ left_cap + rcap
          → rcap ≤ 16
          → capacity rtype ≤ rcap
          → ReadsBack city checksum key w.serving.real split
      split-ReadsBack c l1 l2 lt r1 r2 rt =
          let (x, at, z) =
            result-linked city checksum out key value w refused left_cap ltype rtype lcap rcap p in
          let g = all-Gathered in
          record {
            completed = x;
            kept = λ j v pending fuel hj h e. rw node_for-owner (
                get-put_splitted city checksum out key value w refused left_cap ltype rtype lcap
                  rcap p c l1 l2 lt r1 r2 rt j pending fuel hj h
                ∙ ap (λ (o : Option Bytes). some o) (g.served.real_grows j v e));
            own = λ pending fuel h. elim (Option-cases (lookup key (entries all))) [
              | inl gone ↦ let there = g.there refl in absurd (cc)
              | inr (v, here) ↦ (
                v,
                rw node_for-owner (
                    get-put_splitted city checksum out key value w refused left_cap ltype rtype lcap
                      rcap p c l1 l2 lt r1 r2 rt key pending fuel f.key_size h
                    ∙ ap (λ (o : Option Bytes). some o) here),
              )
            ];
          }

  -- `put16` on a full node, when the write completes, with any number of requests in the queue: it
  -- reports success, and afterwards `get` returns in its first pass the value that any key of 16 bytes
  -- had in the node, and some value for the key that was put.
  pub put16-ReadsBack :
      IsFull city 16 key value w
      → ReadsBack city checksum key w.serving.real (put16 city checksum out key value w)
  unfolding put16
  put16-ReadsBack f =
      let g = all-Gathered 16 f (omega arith) in
      let n : ℕ = length w.serving.requests + 1 in
      let few : (all 16 f (omega arith)).next ≤ 16 + n = omega (arith, g.fewer, f.full) in
      let room : (all 16 f (omega arith)).next ≤ 21 = g.served.real_sound.room in
      let nine = all-CanSplit 16 f (omega arith) 9 (omega arith) (omega arith) in
      let ten = all-CanSplit 16 f (omega arith) 10 (omega arith) (omega arith) in
      let t : (n == 0) ≡ false = ground arith in
      rw (try_put-full 16 f (omega arith), t)
        (elim (Bool-cases (leb n 2)) [
          | inl two ↦ rw two (
              split-ReadsBack 16 f (omega arith) 9 type10 type10 10 10 nine (omega arith)
                (omega arith) (omega arith) (ground arith) (omega arith) (omega arith))
          | inr more ↦ rw more (elim (Bool-cases (leb n 4)) [
            | inl four ↦ rw four (
                split-ReadsBack 16 f (omega arith) 9 type10 type12 10 12 nine (omega arith)
                  (omega arith) (omega arith) (ground arith) (omega arith) (omega arith))
            | inr five ↦ rw five (
                split-ReadsBack 16 f (omega arith) 10 type12 type12 12 12 ten (omega arith)
                  (omega arith) (omega arith) (omega arith) (omega arith) (omega arith))
          ])
        ])

  -- `put12` on a full node with four to six requests in the queue splits it. When the write completes
  -- it reports success, and afterwards `get` returns in its first pass the value that any key of 16
  -- bytes had in the node, and some value for the key that was put.
  pub put12-ReadsBack :
      IsFull city 12 key value w
      → 4 ≤ length w.serving.requests
      → length w.serving.requests ≤ 6
      → ReadsBack city checksum key w.serving.real (put12 city checksum out key value w)
  unfolding put12
  put12-ReadsBack f many few =
      let g = all-Gathered 12 f (omega arith) in
      let n : ℕ = length w.serving.requests + 1 in
      let room : (all 12 f (omega arith)).next ≤ 19 = omega (arith, g.fewer, f.full) in
      let nine = all-CanSplit 12 f (omega arith) 9 (omega arith) (omega arith) in
      let t : (n == 0) ≡ false = ground arith in
      let u : leb n 4 ≡ false = ground arith in
      rw (try_put-full 12 f (omega arith), t, u)
        (split-ReadsBack 12 f (omega arith) 9 type10 type10 10 10 nine (omega arith) (omega arith)
          (omega arith) (omega arith) (omega arith) (omega arith))
