-- ===== src/Compute/Serve.antt =====
-- What serving the queue does: an entry is never lost or overwritten, a request that is told it
-- succeeded has its key in the buffer that its key belongs to, and no request is dropped.
use di_store.Base.{
  ℕ, ◌≡◌, inl, inr, refl, Bool, true, some, List, [], ◌∷◌, ◌++◌, arith, Bytes, str_lt, str_eq_refl,
  ltb, Bool-cases, Option-cases, if◌then◌else◌, length,
}
use di_store.DataLayer.{
  Kv, LinkedNode, LinkedNodeType, keylen, vallen, type10, type12, type14, type16, store, write_slot,
}
use di_store.DataLayer.Find.{entries, lookup, IsWellFormed}
use di_store.DataLayer.Store.{store-Stores, lookup-append}
use di_store.DataLayer.Update.{is_some}
use di_store.Compute.{capacity}
use di_store.Compute.Requests.{Request, Reply, store_as, help_pred}

-- Every key and every value in the queue has 16 bytes.
abbrev pub AllSized : List Request → Type 0
AllSized [] = Unit
AllSized (r ∷ rs) = (length r.tag ≡ keylen) × (length r.content ≡ vallen) × AllSized rs

abbrev pub Present : Bytes → LinkedNode → Type 0
Present key node = is_some (lookup key (entries node)) ≡ true

-- What was there is there still, with its value.
abbrev pub Grows : LinkedNode → LinkedNode → Type 0
Grows node node' =
    (key v : Bytes) → lookup key (entries node) ≡ some v → lookup key (entries node') ≡ some v

pub Grows-refl : (node : LinkedNode) → Grows node node
Grows-refl node key v e = e

pub Grows-trans : (a b c : LinkedNode) → Grows a b → Grows b c → Grows a c
Grows-trans a b c f g key v e = g key v (f key v e)

pub Present-Grows : (key : Bytes) (a b : LinkedNode) → Grows a b → Present key a → Present key b
Present-Grows key a b g p = elim (Option-cases (lookup key (entries a))) [
  | inl gone ↦ absurd (cc)
  | inr (v, here) ↦ rw (g key v here)
]

module _ (city : Bytes → ℕ) where
  -- One store at a capacity: the node stays sound, grows, and has the key if the store said so.
  pub record Stored (cap : ℕ) (key : Bytes) (node : LinkedNode) (r : LinkedNode × Bool)
      : Type 0 where
    pub sound : IsWellFormed city cap r.0
    pub grows : Grows node r.0
    pub acked : r.1 ≡ true → Present key r.0

  pub store-Stored :
      (cap : ℕ) (node : LinkedNode) (key value : Bytes)
      → IsWellFormed city cap node
      → length key ≡ keylen
      → length value ≡ vallen
      → Stored cap key node (store city cap key value node)
  store-Stored cap node key value w hk hv =
      let s = store-Stores city cap node w key value hk hv in
      let p : Kv = record { key = key; value = value } in
      elim (Bool-cases (ltb node.next cap)) [
        | inr full ↦
            let e = s.refused (ground arith) in
            record {
              sound = s.well_formed;
              grows = rw e (Grows-refl node);
              acked = rw e (λ h. absurd (cc));
            }
        | inl free ↦ elim (Option-cases (lookup key (entries node))) [
          | inr (v, here) ↦
              let e = s.kept v (ground arith) here in
              record {
                sound = s.well_formed;
                grows = rw e (Grows-refl node);
                acked = rw e (λ h. rw here);
              }
          | inl absent ↦
              let (t, e) = s.appended (ground arith) absent in
              record {
                sound = s.well_formed;
                grows = λ j v h. rw e (ground (arith, lookup-append j (entries node) p));
                acked =
                    λ h. rw e (ground (arith, lookup-append key (entries node) p, str_eq_refl key));
              }
        ]
      ]

  store-type :
      (cap : ℕ) (node : LinkedNode) (key value : Bytes)
      → (store city cap key value node).0.type ≡ node.type
  unfolding store write_slot
  store-type cap node key value = ground arith

  store_as-Stored :
      (t : LinkedNodeType) (node : LinkedNode) (key value : Bytes)
      → IsWellFormed city (capacity t) node
      → length key ≡ keylen
      → length value ≡ vallen
      → Stored (capacity t) key node (store_as city t key value node)
        × ((store_as city t key value node).0.type ≡ node.type)
  store_as-Stored type10 node k v w hk hv =
      (store-Stored 10 node k v w hk hv, store-type 10 node k v)
  store_as-Stored type12 node k v w hk hv =
      (store-Stored 12 node k v w hk hv, store-type 12 node k v)
  store_as-Stored type14 node k v w hk hv =
      (store-Stored 14 node k v w hk hv, store-type 14 node k v)
  store_as-Stored type16 node k v w hk hv =
      (store-Stored 16 node k v w hk hv, store-type 16 node k v)
  store_as-Stored _ node k v w hk hv =
      (record { sound = w; grows = Grows-refl node; acked = λ h. absurd (cc) }, refl)

  -- A predecessor's buffer, sound at the capacity of its own type.
  abbrev pub IsSound : LinkedNode → Type 0
  IsSound node = IsWellFormed city (capacity node.type) node

  pub record Helped (key : Bytes) (node : LinkedNode) (r : LinkedNode × Bool) : Type 0 where
    pub sound : IsSound r.0
    pub grows : Grows node r.0
    pub acked : r.1 ≡ true → Present key r.0

  pub help_pred-Helped :
      (node : LinkedNode) (key value : Bytes)
      → IsSound node
      → length key ≡ keylen
      → length value ≡ vallen
      → Helped key node (help_pred city key value node)
  unfolding help_pred
  help_pred-Helped node key value w hk hv =
      let (s, e) = store_as-Stored node.type node key value w hk hv in
      record { sound = rw e s.sound; grows = s.grows; acked = s.acked }

-- A reply that says success is about a key that its buffer has: the predecessor's buffer below the
-- anchor, the node's buffer otherwise.
abbrev pub Acked : Bytes → LinkedNode → LinkedNode → List Reply → Type 0
Acked anchor pred real [] = Unit
Acked anchor pred real (a ∷ done) =
    (a.succeed ≡ true → Present a.request.tag (if str_lt a.request.tag anchor then pred else real))
    × Acked anchor pred real done

pub Acked-Grows :
    (anchor : Bytes) (p r p' r' : LinkedNode) (done : List Reply)
    → Grows p p'
    → Grows r r'
    → Acked anchor p r done
    → Acked anchor p' r' done
Acked-Grows anchor p r p' r' [] gp gr h = tt
Acked-Grows anchor p r p' r' (a ∷ done) gp gr h = (
  λ ok. elim (Bool-cases (str_lt a.request.tag anchor)) [
    | inl below ↦ rw below (Present-Grows _ p p' gp (rw below at (h.0 ok)))
    | inr above ↦ rw above (Present-Grows _ r r' gr (rw above at (h.0 ok)))
  ],
  Acked-Grows anchor p r p' r' done gp gr h.1,
)

pub Acked-append :
    (anchor : Bytes) (pred real : LinkedNode) (done : List Reply) (a : Reply)
    → Acked anchor pred real done
    → (a.succeed ≡ true
        → Present a.request.tag (if str_lt a.request.tag anchor then pred else real))
    → Acked anchor pred real (done ++ a ∷ [])
Acked-append anchor pred real [] a h g = (g, tt)
Acked-append anchor pred real (b ∷ done) a h g = (h.0, Acked-append anchor pred real done a h.1 g)
