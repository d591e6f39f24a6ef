-- ===== src/Split/Records.antt =====
-- `out_of_place_split_node`: the two nodes that a split leaves.
use di_store.Base.{
  ℕ, zero, suc, ◌+◌, ◌≤◌, ◌<◌, ◌≡◌, refl, sym, ap, ◌∙◌, Bool, true, false, List, [], ◌∷◌, ◌++◌,
  arith, Bytes, str_lt, if◌then◌else◌, length, get_or, take, length-set, length-take, length-map,
  set-take_snoc,
}
use mathlib.Core.List.{append-nil, append_assoc}
use native.Mathlib.Numerals.{add-one}
use di_store.DataLayer.{Kv, LinkedNode, keylen, vallen, finger_of}
use di_store.DataLayer.Find.{entries, lookup, occurrences, Sized, Fingered, IsWellFormed}
use di_store.DataLayer.Store.{Sized-set, Fingered-set}
use di_store.Split.{key_of, keys_of, push_record, share_out, split_records}
use di_store.Split.Rounds.{IsCut, construct_reorder_map-IsCut}
use di_store.Split.Partition.{chosen, length-chosen, occurrences-chosen, lookup-cut}

push_record-entries :
    (f : ℕ) (p : Kv) (node : LinkedNode)
    → node.next < length node.pairs
    → entries (push_record f p node) ≡ entries node ++ p ∷ []
unfolding push_record
push_record-entries f p node h = rw add-one (set-take_snoc node.pairs node.next p h)

module _ (city : Bytes → ℕ) where
  -- A buffer with room for `extra` more records, whose slots in use are sound.
  pub record IsBuffer (extra : ℕ) (node : LinkedNode) : Type 0 where
    pub room_fingerprints : node.next + extra ≤ length node.fingerprints
    pub room_pairs : node.next + extra ≤ length node.pairs
    pub sized : Sized node.pairs
    pub fingered : Fingered city node.next node.fingerprints node.pairs

  push_record-IsBuffer :
      (extra f : ℕ) (p : Kv) (node : LinkedNode)
      → IsBuffer (suc extra) node
      → f ≡ finger_of city p.key
      → length p.key ≡ keylen
      → length p.value ≡ vallen
      → IsBuffer extra (push_record f p node)
  unfolding push_record
  push_record-IsBuffer extra f p node b e hk hv = record {
    room_fingerprints = rw length-set (omega (arith, b.room_fingerprints));
    room_pairs = rw length-set (omega (arith, b.room_pairs));
    sized = Sized-set node.pairs node.next p b.sized hk hv;
    fingered =
        rw (e, add-one)
          (Fingered-set city node.next node.fingerprints node.pairs p b.fingered
            (omega (arith, b.room_fingerprints)) (omega (arith, b.room_pairs)));
  }

  abbrev picked_of : Bool → ℕ → List Bool → List Kv → List Kv
  picked_of want n bs ps = chosen want bs (take n ps)

  -- What a buffer holds after the loop: what it had, and the records sent to it, in order.
  pub record Receives (node before : LinkedNode) (sent : List Kv) : Type 0 where
    pub holds : entries node ≡ entries before ++ sent
    pub counts : node.next ≡ before.next + length sent
    pub buffer : IsBuffer 0 node
    pub kept_fingerprints : length node.fingerprints ≡ length before.fingerprints
    pub kept_pairs : length node.pairs ≡ length before.pairs

  Receives-cons :
      (f : ℕ) (p : Kv) (node before : LinkedNode) (sent : List Kv)
      → before.next < length before.pairs
      → Receives node (push_record f p before) sent
      → Receives node before (p ∷ sent)
  Receives-cons f p node before sent h r = record {
    holds =
        r.holds
        ∙ ap (λ (t : List Kv). t ++ sent) (push_record-entries f p before h)
        ∙ append_assoc (entries before) (p ∷ []) sent;
    counts = unfold push_record in omega (arith, r.counts);
    buffer = r.buffer;
    kept_fingerprints =
        r.kept_fingerprints ∙ unfold push_record in length-set before.fingerprints before.next f;
    kept_pairs = r.kept_pairs ∙ unfold push_record in length-set before.pairs before.next p;
  }

  Receives-nil : (node : LinkedNode) → IsBuffer 0 node → Receives node node []
  Receives-nil node b = record {
    holds = sym (append-nil (entries node));
    counts = omega arith;
    buffer = b;
    kept_fingerprints = refl;
    kept_pairs = refl;
  }

  share_out-Receives :
      (n : ℕ) (fs : List ℕ) (ps : List Kv) (bs : List Bool) (left right : LinkedNode)
      → n ≤ length bs
      → Sized ps
      → Fingered city n fs ps
      → IsBuffer (length (picked_of true n bs ps)) left
      → IsBuffer (length (picked_of false n bs ps)) right
      → Receives (share_out n fs ps bs left right).0 left (picked_of true n bs ps)
        × Receives (share_out n fs ps bs left right).1 right (picked_of false n bs ps)
  unfolding share_out
  share_out-Receives zero fs ps [] left right h s g a b =
      (Receives-nil left a, Receives-nil right b)
  share_out-Receives zero fs ps (c ∷ bs) left right h s g a b =
      (Receives-nil left a, Receives-nil right b)
  share_out-Receives (suc n) [] ps bs left right h s g a b = elim g [ ]
  share_out-Receives (suc n) (f ∷ fs) [] bs left right h s g a b = elim g [ ]
  share_out-Receives (suc n) (f ∷ fs) (p ∷ ps) [] left right h s g a b = absurd (omega arith)
  share_out-Receives (suc n) (f ∷ fs) (p ∷ ps) (true ∷ bs) left right h s g a b =
      let (x, y) =
        share_out-Receives n fs ps bs (push_record f p left) right (omega arith) s.2 g.1
          (push_record-IsBuffer _ f p left a g.0 s.0 s.1) b in
      (Receives-cons f p _ left _ (omega (arith, a.room_pairs)) x, y)
  share_out-Receives (suc n) (f ∷ fs) (p ∷ ps) (false ∷ bs) left right h s g a b =
      let (x, y) =
        share_out-Receives n fs ps bs left (push_record f p right) (omega arith) s.2 g.1 a
          (push_record-IsBuffer _ f p right b g.0 s.0 s.1) in
      (x, Receives-cons f p _ right _ (omega (arith, b.room_pairs)) y)

  -- The two buffers that the split fills: their arrays have room for 16 records.
  pub record IsTarget (node : LinkedNode) : Type 0 where
    pub has_fingerprints : 16 ≤ length node.fingerprints
    pub has_pairs : 16 ≤ length node.pairs
    pub sized : Sized node.pairs

  IsTarget-IsBuffer :
      (extra : ℕ) (node : LinkedNode)
      → IsTarget node
      → extra ≤ 16
      → IsBuffer extra (record node { next = 0 })
  IsTarget-IsBuffer extra node t h = record {
    room_fingerprints = omega (arith, t.has_fingerprints);
    room_pairs = omega (arith, t.has_pairs);
    sized = t.sized;
    fingered = tt;
  }

  length-keys_of :
      (node : LinkedNode) → node.next ≤ length node.pairs → length (keys_of node) ≡ node.next
  length-keys_of node h =
      omega (arith, length-map key_of (take node.next node.pairs), length-take node.next node.pairs)

  pub record IsSplit (tmp : LinkedNode) (left_cap : ℕ) (left right : LinkedNode) (anchor : Bytes)
      : Type 0 where
    pub left_count : left.next ≡ left_cap
    pub right_count : left_cap + right.next ≡ tmp.next
    pub left_sound : (cap : ℕ) → left_cap ≤ cap → cap ≤ 16 → IsWellFormed city cap left
    pub right_sound : (cap : ℕ) → right.next ≤ cap → cap ≤ 16 → IsWellFormed city cap right
    pub right_pairs : 16 ≤ length right.pairs
    pub routed :
        (j : Bytes)
        → lookup j (entries tmp)
          ≡ (if str_lt j anchor then lookup j (entries left) else lookup j (entries right))

  Receives-IsWellFormed :
      (node buffer : LinkedNode) (sent : List Kv) (cap : ℕ)
      → IsTarget buffer
      → Receives node (record buffer { next = 0 }) sent
      → node.next ≤ cap
      → cap ≤ 16
      → ((j : Bytes) → occurrences j sent ≤ 1)
      → IsWellFormed city cap node
  Receives-IsWellFormed node buffer sent cap t r lo hi once = record {
    room = lo;
    has_fingerprints = omega (arith, t.has_fingerprints, r.kept_fingerprints);
    has_pairs = omega (arith, t.has_pairs, r.kept_pairs);
    sized = r.buffer.sized;
    fingered = r.buffer.fingered;
    unique = λ j. rw r.holds (once j);
  }

  -- The sharing itself, for picks that cut the keys.
  share_out-IsSplit :
      (tmp : LinkedNode) (left_cap a : ℕ) (picked : List Bool) (left right : LinkedNode)
      → IsWellFormed city 21 tmp
      → IsCut (keys_of tmp) left_cap a picked
      → left_cap ≤ 16
      → tmp.next ≤ left_cap + 16
      → IsTarget left
      → IsTarget right
      → (let r =
            share_out tmp.next tmp.fingerprints tmp.pairs picked
              (record left { next = 0 })
              (record right { next = 0 }) in
          IsSplit tmp left_cap r.0 r.1 (get_or (keys_of tmp) a []))
  share_out-IsSplit tmp left_cap a picked left right w c lo hi tl tr =
      let size : length (keys_of tmp) ≡ tmp.next =
        length-keys_of tmp (omega (arith, w.room, w.has_pairs)) in
      let covers : length (entries tmp) ≤ length picked =
        omega (arith, c.covers, length-map key_of (entries tmp)) in
      let (counted, all) = length-chosen picked (entries tmp) covers in
      let total : length (entries tmp) ≡ tmp.next =
        omega (arith, size, length-map key_of (entries tmp)) in
      let (l, r) =
        share_out-Receives tmp.next tmp.fingerprints tmp.pairs picked (record left { next = 0 })
          (record right { next = 0 }) (omega (arith, c.covers, size)) w.sized w.fingered
          (IsTarget-IsBuffer _ left tl (omega (arith, counted, c.count)))
          (IsTarget-IsBuffer _ right tr (omega (arith, counted, c.count, all, total))) in
      record {
        left_count = omega (arith, l.counts, counted, c.count);
        right_count = omega (arith, r.counts, counted, c.count, all, total);
        left_sound = λ cap x y.
            Receives-IsWellFormed _ left _ cap tl l (omega (arith, l.counts, counted, c.count)) y
              (λ j. omega (arith, occurrences-chosen j picked (entries tmp) covers, w.unique j));
        right_sound = λ cap x y.
            Receives-IsWellFormed _ right _ cap tr r x y
              (λ j. omega (arith, occurrences-chosen j picked (entries tmp) covers, w.unique j));
        right_pairs = rw r.kept_pairs tr.has_pairs;
        routed = λ j.
            rw (l.holds, r.holds)
              (lookup-cut j a picked (entries tmp) covers c.within c.unmarked c.below c.above
                (w.unique j));
      }

  -- `out_of_place_split_node` after its requests are served: on a well-formed buffer of at most 21
  -- records, more than `left_cap` and at most `left_cap` + 16, and two target buffers with room for 16,
  -- the left node gets `left_cap` records and the right node the others, both well formed for every
  -- capacity up to 16 that holds them, and each key is found where the anchor sends it, with the value
  -- that it had.
  pub split_records-IsSplit :
      (tmp : LinkedNode) (left_cap : ℕ) (left right : LinkedNode)
      → IsWellFormed city 21 tmp
      → left_cap < tmp.next
      → left_cap ≤ 16
      → tmp.next ≤ left_cap + 16
      → IsTarget left
      → IsTarget right
      → (let r = split_records tmp left_cap left right in IsSplit tmp left_cap r.0 r.1 r.2)
  unfolding split_records
  split_records-IsSplit tmp left_cap left right w more lo hi tl tr =
      let size : length (keys_of tmp) ≡ tmp.next =
        length-keys_of tmp (omega (arith, w.room, w.has_pairs)) in
      let (e, c) =
        construct_reorder_map-IsCut (keys_of tmp) left_cap 32 (omega (arith, size))
          (omega (arith, size, w.room)) in
      share_out-IsSplit tmp left_cap _ _ left right w c lo hi tl tr
