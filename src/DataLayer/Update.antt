-- ===== src/DataLayer/Update.antt =====
-- `LinkedNode::update`: the value of the entry with the key is replaced in place.
use di_store.Base.{
  ℕ, zero, suc, ◌≡◌, refl, sym, ◌∙◌, Bool, true, false, Option, none, some, List, [], ◌∷◌, ◌&&◌,
  arith, Bytes, str_eq, str_eq_iff, if◌then◌else◌, length, take, memcpy_full,
}
use di_store.DataLayer.{Kv, LinkedNode, keylen, vallen, find, update_loop, update}
use di_store.DataLayer.Find.{
  lookup, occurrences, Sized, Fingered, IsWellFormed, find-lookup, key_matches-str_eq, finger-congr,
}

abbrev pub is_some : Option Bytes → Bool
is_some (some _) = true
is_some none = false

module _ (city : Bytes → ℕ) (key value : Bytes) (hk : length key ≡ keylen)
    (hv : length value ≡ vallen) where
  abbrev after : ℕ → List ℕ → List Kv → List Kv
  after n fs ps = (update_loop city key value n fs ps).0

  length-update_loop : (n : ℕ) (fs : List ℕ) (ps : List Kv) → length (after n fs ps) ≡ length ps
  unfolding update_loop
  length-update_loop zero fs ps = refl
  length-update_loop (suc n) [] ps = refl
  length-update_loop (suc n) (f ∷ fs) [] = refl
  length-update_loop (suc n) (f ∷ fs) (p ∷ ps) = ground (arith, length-update_loop n fs ps)

  Sized-update_loop : (n : ℕ) (fs : List ℕ) (ps : List Kv) → Sized ps → Sized (after n fs ps)
  unfolding update_loop
  Sized-update_loop zero fs ps s = s
  Sized-update_loop (suc n) [] ps s = s
  Sized-update_loop (suc n) (f ∷ fs) [] s = s
  Sized-update_loop (suc n) (f ∷ fs) (p ∷ ps) s =
      ground (arith, Sized-update_loop n fs ps s.2, memcpy_full p.value value (s.1 ∙ sym hv))

  Fingered-update_loop :
      (n : ℕ) (fs : List ℕ) (ps : List Kv)
      → Fingered city n fs ps
      → Fingered city n fs (after n fs ps)
  unfolding update_loop
  Fingered-update_loop zero fs ps h = tt
  Fingered-update_loop (suc n) [] ps h = elim h [ ]
  Fingered-update_loop (suc n) (f ∷ fs) [] h = elim h [ ]
  Fingered-update_loop (suc n) (f ∷ fs) (p ∷ ps) h =
      ground (arith, Fingered-update_loop n fs ps h.1)

  update_loop-found :
      (n : ℕ) (fs : List ℕ) (ps : List Kv)
      → Sized ps
      → Fingered city n fs ps
      → (update_loop city key value n fs ps).1 ≡ is_some (lookup key (take n ps))
  unfolding update_loop lookup
  update_loop-found zero fs ps s h = refl
  update_loop-found (suc n) [] ps s h = elim h [ ]
  update_loop-found (suc n) (f ∷ fs) [] s h = elim h [ ]
  update_loop-found (suc n) (f ∷ fs) (p ∷ ps) s h = ground (
    arith,
    update_loop-found n fs ps s.2 h.1,
    key_matches-str_eq city key p hk s.0,
    finger-congr city key p,
  )

  update_loop-lookup :
      (j : Bytes) (n : ℕ) (fs : List ℕ) (ps : List Kv)
      → Sized ps
      → Fingered city n fs ps
      → lookup j (take n (after n fs ps)) ≡ (
          if str_eq j key && is_some (lookup key (take n ps))
          then some value
          else lookup j (take n ps))
  unfolding update_loop lookup
  update_loop-lookup j zero fs ps s h = ground arith
  update_loop-lookup j (suc n) [] ps s h = elim h [ ]
  update_loop-lookup j (suc n) (f ∷ fs) [] s h = elim h [ ]
  update_loop-lookup j (suc n) (f ∷ fs) (p ∷ ps) s h = ground (
    arith,
    update_loop-lookup j n fs ps s.2 h.1,
    key_matches-str_eq city key p hk s.0,
    finger-congr city key p,
    memcpy_full p.value value (s.1 ∙ sym hv),
    str_eq_iff key p.key,
    str_eq_iff j p.key,
    str_eq_iff j key,
  )

  occurrences-update_loop :
      (j : Bytes) (n : ℕ) (fs : List ℕ) (ps : List Kv)
      → occurrences j (take n (after n fs ps)) ≡ occurrences j (take n ps)
  unfolding update_loop occurrences
  occurrences-update_loop j zero fs ps = refl
  occurrences-update_loop j (suc n) [] ps = refl
  occurrences-update_loop j (suc n) (f ∷ fs) [] = refl
  occurrences-update_loop j (suc n) (f ∷ fs) (p ∷ ps) =
      ground (arith, occurrences-update_loop j n fs ps)

  module _ (cap : ℕ) (node : LinkedNode) (w : IsWellFormed city cap node) where
    -- `update` leaves a well-formed node well formed.
    pub update-IsWellFormed : IsWellFormed city cap (update city key value node).0
    unfolding update
    update-IsWellFormed = record {
      room = w.room;
      has_fingerprints = w.has_fingerprints;
      has_pairs = rw (length-update_loop node.next node.fingerprints node.pairs) w.has_pairs;
      sized = Sized-update_loop node.next node.fingerprints node.pairs w.sized;
      fingered = Fingered-update_loop node.next node.fingerprints node.pairs w.fingered;
      unique =
          λ j. rw (occurrences-update_loop j node.next node.fingerprints node.pairs) (w.unique j);
    }

    -- On a well-formed node and keys and a value of 16 bytes, `update` says whether `find` reads the
    -- key, and afterwards `find` reads the new value at that key if it was there, and every other key
    -- as before.
    pub find-update :
        (j : Bytes)
        → length j ≡ keylen
        → ((update city key value node).1 ≡ is_some (find city node key))
          × (find city (update city key value node).0 j ≡ (
              if str_eq j key && is_some (find city node key)
              then some value
              else find city node j))
    find-update j hj = (
      rw (find-lookup city cap node key w hk) (
          unfold update in
          update_loop-found node.next node.fingerprints node.pairs w.sized w.fingered),
      rw
          (
            find-lookup city cap node key w hk,
            find-lookup city cap node j w hj,
            find-lookup city cap (update city key value node).0 j update-IsWellFormed hj,
          )
          (unfold update in
            update_loop-lookup j node.next node.fingerprints node.pairs w.sized w.fingered),
    )
