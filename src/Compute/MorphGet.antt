-- ===== src/Compute/MorphGet.antt =====
-- `put12` and `put14` on a full node with few requests: `eager_morph`, and `get` after it.
use di_store.Base.{
  ℕ, ◌+◌, ◌≤◌, ◌<◌, ◌≡◌, refl, ap, ◌∙◌, true, false, Option, none, some, List, arith, Bytes, ◌==◌,
  leb, Option-cases, inl, inr, length,
}
use di_store.DataLayer.{Kv, LinkedNode, type16, keylen, store}
use di_store.DataLayer.Find.{entries, lookup, IsWellFormed}
use di_store.Split.Records.{IsTarget}
use di_store.Compute.{Remote, Outside, capacity, write_node}
use di_store.Compute.Requests.{Request, Serving, help_others}
use di_store.Compute.Serve.{Grows, Grows-trans, Present, Present-Grows, Stored, store-Stored}
use di_store.Compute.Served.{Served, help_others-Served}
use di_store.Compute.WriteBack.{write_back_morphed}
use di_store.Compute.Memory.{write_node_self}
use di_store.Compute.Room.{store-room}
use di_store.Compute.Put.{Winner, PutResult, sealed, eager_morph, put12, put14}
use di_store.Compute.SplitPut.{Places}
use di_store.Compute.Read.{get}
use di_store.Compute.ReadBack.{Readable, sealed-Readable, get-Readable}
use di_store.Compute.PutGet.{IsFull, ReadsBack, node_for, refused, try_put-full}

module _ (city : Bytes → ℕ) where
  widened :
      (cap : ℕ) (node : LinkedNode)
      → IsWellFormed city cap node
      → cap ≤ 16
      → IsTarget city node
      → IsWellFormed city 16 node
  widened cap node w h t = record {
    room = omega (arith, w.room);
    has_fingerprints = t.has_fingerprints;
    has_pairs = t.has_pairs;
    sized = w.sized;
    fingered = w.fingered;
    unique = w.unique;
  }

module _ (city : Bytes → ℕ) (checksum : List Kv → ℕ) (out : Outside) (key value : Bytes)
    (w : Winner) (p : Places out) (cap : ℕ) (f : IsFull city cap key value w)
    (room : cap < 16) where
  abbrev held : LinkedNode
  held = (store city 16 key value w.serving.real).0

  abbrev morphing : Serving
  morphing = help_others city 16 w.node.anchor (record (w.serving) { real = held })

  held-Stored : Stored city 16 key w.serving.real (store city 16 key value w.serving.real)
  held-Stored =
      store-Stored city 16 w.serving.real key value
        (widened city cap w.serving.real f.real (omega arith) f.real_room) f.key_size f.value_size

  morphing-Served : Served city 16 w.node.anchor w.serving.pred held w.serving.requests morphing
  morphing-Served =
      (help_others-Served city 16 w.node.anchor (record (w.serving) { real = held }) f.pred
        held-Stored.sound f.requests_sized f.unreplied).0

  kept_all : Grows w.serving.real morphing.real
  kept_all =
      Grows-trans w.serving.real held morphing.real held-Stored.grows morphing-Served.real_grows

  own_there : Present key morphing.real
  own_there =
      Present-Grows key held morphing.real morphing-Served.real_grows
        (held-Stored.acked (store-room city 16 w.serving.real key value (omega (arith, f.full))))

  abbrev morphed : PutResult
  morphed =
      eager_morph city checksum out key value w
        (refused city checksum out key value w p cap f (omega arith))

  abbrev beneath : Remote
  beneath =
      write_node w.memory w.backward (capacity morphing.pred.type)
        (record (morphing.pred) { rlink = out.left })

  morphed-facts :
      (out.left == 0) ≡ false
      → (morphed.completed ≡ true)
        × (morphed.linked ≡ none)
        × (morphed.node.data_node ≡ out.left)
        × (morphed.node.type ≡ type16)
        × (morphed.memory ≡ write_node beneath out.left 16 (sealed checksum type16 morphing.real))
  unfolding eager_morph write_back_morphed
  morphed-facts there = simp (p.completed, there) (refl, refl, refl, refl, refl)

  morphed-Readable :
      (out.left == 0) ≡ false
      → Readable city checksum (morphed.memory out.left) type16 morphing.real
  morphed-Readable there =
      let (a, b, c, d, at) = morphed-facts there in
      rw (at, write_node_self beneath out.left 16 (sealed checksum type16 morphing.real))
        (sealed-Readable city checksum 16 morphing.real.rlink (beneath out.left) morphing.real
          type16 morphing-Served.real_sound (omega arith))

  morphed-get :
      (out.left == 0) ≡ false
      → (j v : Bytes) (pending : ℕ → List Request) (fuel : ℕ) → length j ≡ keylen
      → 0 < fuel
      → lookup j (entries morphing.real) ≡ some v
      → (get city checksum j
          (λ i. record { pending = pending i; node = node_for morphed j; memory = morphed.memory })
          fuel).result
        ≡ some (some v)
  morphed-get there j v pending fuel hj h e =
      let (a, b, c, d, at) = morphed-facts there in
      let owner : node_for morphed j ≡ morphed.node = rw b refl in
      rw owner (
        get-Readable city checksum morphed.memory morphed.node out.left type16 morphing.real j
          pending fuel c d (morphed-Readable there) hj h
        ∙ ap (λ (o : Option Bytes). some o) e)

  eager_morph-ReadsBack :
      (out.left == 0) ≡ false → ReadsBack city checksum key w.serving.real morphed
  eager_morph-ReadsBack there = record {
    completed = (morphed-facts there).0;
    kept = λ j v pending fuel hj h e. morphed-get there j v pending fuel hj h (kept_all j v e);
    own = λ pending fuel h. elim (Option-cases (lookup key (entries morphing.real))) [
      | inl gone ↦ let there = own_there in absurd (cc)
      | inr (v, here) ↦ (v, morphed-get there key v pending fuel f.key_size h here)
    ];
  }

module _ (city : Bytes → ℕ) (checksum : List Kv → ℕ) (out : Outside) (key value : Bytes)
    (w : Winner) (p : Places out) where
  -- `put12` on a full node with at most three requests in the queue morphs it to 16 slots. When the
  -- write completes and the new place is not null it reports success, and afterwards `get` returns in
  -- its first pass the value that any key of 16 bytes had in the node, and some value for the key that
  -- was put.
  pub put12_morphs-ReadsBack :
      IsFull city 12 key value w
      → length w.serving.requests ≤ 3
      → (out.left == 0) ≡ false
      → ReadsBack city checksum key w.serving.real (put12 city checksum out key value w)
  unfolding put12
  put12_morphs-ReadsBack f few there =
      let n : ℕ = length w.serving.requests + 1 in
      let t : (n == 0) ≡ false = ground arith in
      let u : leb n 4 ≡ true = ground arith in
      rw (try_put-full city checksum out key value w p 12 f (omega arith), t, u)
        (eager_morph-ReadsBack city checksum out key value w p 12 f (omega arith) there)

  -- `put14` on a full node with at most one request in the queue morphs it to 16 slots. When the write
  -- completes and the new place is not null it reports success, and afterwards `get` returns in its
  -- first pass the value that any key of 16 bytes had in the node, and some value for the key that was
  -- put.
  pub put14_morphs-ReadsBack :
      IsFull city 14 key value w
      → length w.serving.requests ≤ 1
      → (out.left == 0) ≡ false
      → ReadsBack city checksum key w.serving.real (put14 city checksum out key value w)
  unfolding put14
  put14_morphs-ReadsBack f few there =
      let n : ℕ = length w.serving.requests + 1 in
      let t : (n == 0) ≡ false = ground arith in
      let u : leb n 2 ≡ true = ground arith in
      rw (try_put-full city checksum out key value w p 14 f (omega arith), t, u)
        (eager_morph-ReadsBack city checksum out key value w p 14 f (omega arith) there)
