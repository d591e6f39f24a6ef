-- ===== src/DataLayer/Store.antt =====
-- `LinkedNode::store`: the entry is appended, unless the node is full or has the key.
use mathlib.Core.Path.{subst}
use di_store.Base.{
  ℕ, zero, suc, ◌+◌, ◌≤◌, ◌<◌, ◌≡◌, inl, inr, refl, sym, ap, ◌∙◌, Bool, true, false, none, some,
  List, [], ◌∷◌, ◌++◌, ◌&&◌, arith, Bytes, str_eq, str_eq_iff, ltb, if◌then◌else◌, length, set,
  get_or, length-set, set-take_snoc, memcpy_full, Option-cases, Bool-cases,
}
use native.Mathlib.Numerals.{add-one}
use di_store.DataLayer.{
  Kv, LinkedNode, keylen, vallen, no_pair, finger_of, find, fill, available, write_slot, store,
}
use di_store.DataLayer.Find.{
  or_else, entries, lookup, occurrences, Sized, Fingered, IsWellFormed, find-lookup,
}

Sized-get :
    (ps : List Kv) (i : ℕ)
    → Sized ps
    → i < length ps
    → (length (get_or ps i no_pair).key ≡ keylen) × (length (get_or ps i no_pair).value ≡ vallen)
Sized-get [] i s h = elim h [ ]
Sized-get (p ∷ ps) zero s h = (s.0, s.1)
Sized-get (p ∷ ps) (suc i) s h = Sized-get ps i s.2 (omega arith)

pub Sized-set :
    (ps : List Kv) (i : ℕ) (p : Kv)
    → Sized ps
    → length p.key ≡ keylen
    → length p.value ≡ vallen
    → Sized (set ps i p)
Sized-set [] i p s hk hv = tt
Sized-set (q ∷ ps) zero p s hk hv = (hk, hv, s.2)
Sized-set (q ∷ ps) (suc i) p s hk hv = (s.0, s.1, Sized-set ps i p s.2 hk hv)

pub lookup-append :
    (j : Bytes) (es : List Kv) (p : Kv)
    → lookup j (es ++ p ∷ [])
      ≡ or_else (lookup j es) (if str_eq j p.key then some p.value else none)
unfolding lookup
lookup-append j [] p = ground arith
lookup-append j (e ∷ es) p = ground (arith, lookup-append j es p)

occurrences-append :
    (j : Bytes) (es : List Kv) (p : Kv)
    → occurrences j (es ++ p ∷ []) ≡ occurrences j es + (if str_eq j p.key then 1 else 0)
unfolding occurrences
occurrences-append j [] p = omega arith
occurrences-append j (e ∷ es) p = omega (arith, occurrences-append j es p)

occurrences-eq-zero : (j : Bytes) (es : List Kv) → lookup j es ≡ none → occurrences j es ≡ 0
unfolding occurrences lookup
occurrences-eq-zero j [] h = refl
occurrences-eq-zero j (e ∷ es) h = ground (arith, occurrences-eq-zero j es)

module _ (city : Bytes → ℕ) where
  pub Fingered-set :
      (n : ℕ) (fs : List ℕ) (ps : List Kv) (p : Kv)
      → Fingered city n fs ps
      → n < length fs
      → n < length ps
      → Fingered city (suc n) (set fs n (finger_of city p.key)) (set ps n p)
  Fingered-set zero [] ps p h a b = elim a [ ]
  Fingered-set zero (f ∷ fs) [] p h a b = elim b [ ]
  Fingered-set zero (f ∷ fs) (q ∷ ps) p h a b = (refl, tt)
  Fingered-set (suc n) [] ps p h a b = elim h [ ]
  Fingered-set (suc n) (f ∷ fs) [] p h a b = elim h [ ]
  Fingered-set (suc n) (f ∷ fs) (q ∷ ps) p h a b =
      (h.0, Fingered-set n fs ps p h.1 (omega arith) (omega arith))

  module _ (cap : ℕ) (node : LinkedNode) (w : IsWellFormed city cap node) (key value : Bytes)
      (hk : length key ≡ keylen) (hv : length value ≡ vallen) where
    abbrev added : Kv
    added = record { key = key; value = value }

    fill-added : node.next < cap → fill city (get_or node.pairs node.next no_pair) key value ≡ added
    fill-added h =
        let (a, b) = Sized-get node.pairs node.next w.sized (omega (arith, w.has_pairs)) in
        λ i. record {
          key = memcpy_full (get_or node.pairs node.next no_pair).key key (a ∙ sym hk) i;
          value = memcpy_full (get_or node.pairs node.next no_pair).value value (b ∙ sym hv) i;
        }

    once :
        (j : Bytes)
        → lookup key (entries node) ≡ none
        → occurrences j (entries node) + (if str_eq j key then 1 else 0) ≤ 1
    once j absent = elim (Bool-cases (str_eq j key)) [
      | inl e ↦
          let same : j ≡ key = (str_eq_iff j key).0 e in
          ground (
            arith,
            occurrences-eq-zero j (entries node),
            ap (λ (t : Bytes). lookup t (entries node)) same,
          )
      | inr e ↦ rw e (omega (arith, w.unique j))
    ]

    pub write_slot-entries :
        node.next < cap → entries (write_slot city key value node) ≡ entries node ++ added ∷ []
    unfolding write_slot
    write_slot-entries h =
        rw (fill-added h)
          (rw add-one (set-take_snoc node.pairs node.next added (omega (arith, w.has_pairs))))

    pub write_slot-IsWellFormed :
        node.next < cap
        → lookup key (entries node) ≡ none
        → IsWellFormed city cap (write_slot city key value node)
    unfolding write_slot
    write_slot-IsWellFormed h absent = record {
      room = omega arith;
      has_fingerprints = rw length-set w.has_fingerprints;
      has_pairs = rw length-set w.has_pairs;
      sized = rw (fill-added h) (Sized-set node.pairs node.next added w.sized hk hv);
      fingered =
          rw (fill-added h, add-one)
            (Fingered-set node.next node.fingerprints node.pairs added w.fingered
              (omega (arith, w.has_fingerprints)) (omega (arith, w.has_pairs)));
      unique = λ j.
          subst (λ (es : List Kv). occurrences j es ≤ 1)
            (sym (unfold write_slot in write_slot-entries h))
            (rw (occurrences-append j (entries node) added) (once j absent));
    }

    -- What `store` did: nothing on a full node, nothing when the key is there, and otherwise the
    -- entry stands behind the others.
    pub record Stores (r : LinkedNode × Bool) : Type 0 where
      pub refused : cap ≤ node.next → r ≡ (node, false)
      pub kept :
          (v : Bytes) → node.next < cap → lookup key (entries node) ≡ some v → r ≡ (node, true)
      pub appended :
          node.next < cap
          → lookup key (entries node) ≡ none
          → (r.1 ≡ true) × (entries r.0 ≡ entries node ++ added ∷ [])
      pub well_formed : IsWellFormed city cap r.0

    -- On a well-formed node, and a key and a value of 16 bytes, `store` refuses when the node is full,
    -- changes nothing and says true when the key is there, and otherwise appends the entry and says
    -- true; the node stays well formed.
    pub store-Stores : Stores (store city cap key value node)
    unfolding store available
    store-Stores = elim (Bool-cases (ltb node.next cap)) [
      | inr full ↦ rw full (record {
        refused = λ h. refl;
        kept = λ v h e. absurd (ground arith);
        appended = λ h e. absurd (ground arith);
        well_formed = w;
      })
      | inl free ↦ elim (Option-cases (lookup key (entries node))) [
        | inl absent ↦
            let h : node.next < cap = ground arith in
            rw (free, find-lookup city cap node key w hk, absent)
              (record {
                refused = λ g. absurd (omega arith);
                kept = λ v g e. absurd (cc);
                appended = λ g e. (refl, write_slot-entries h);
                well_formed = write_slot-IsWellFormed h absent;
              })
        | inr (v, present) ↦
            rw (free, find-lookup city cap node key w hk, present)
              (record {
                refused = λ g. absurd (ground arith);
                kept = λ u g e. refl;
                appended = λ g e. absurd (cc);
                well_formed = w;
              })
      ]
    ]

    -- What `find` reads after `store`, on a well-formed node and keys and values of 16 bytes: the new
    -- value at the key if there was room and the key was new, and what it read before otherwise.
    pub find-store :
        (j : Bytes)
        → length j ≡ keylen
        → find city (store city cap key value node).0 j
          ≡ or_else
              (find city node j)
              (if ltb node.next cap && str_eq j key then some value else none)
    find-store j hj =
        rw
          (
            find-lookup city cap (store city cap key value node).0 j store-Stores.well_formed hj,
            find-lookup city cap node j w hj,
          )
          (elim (Bool-cases (ltb node.next cap)) [
            | inr full ↦ rw (store-Stores.refused (ground arith)) (ground arith)
            | inl free ↦ elim (Option-cases (lookup key (entries node))) [
              | inl absent ↦
                  rw ((store-Stores.appended (ground arith) absent).1)
                    (ground (arith, lookup-append j (entries node) added))
              | inr (v, present) ↦
                  rw (store-Stores.kept v (ground arith) present) (ground (arith, str_eq_iff j key))
            ]
          ])
