-- ===== src/Compute/Told.antt =====
-- What the requests that were told they succeeded left in the buffers: their values.
use mathlib.Core.List.{append-nil, append_assoc}
use di_store.Base.{
  ℕ, ◌≡◌, inl, inr, refl, sym, ◌∙◌, Bool, false, not, ◌&&◌, Option, none, some, List, [], ◌∷◌, ◌++◌,
  arith, Bytes, str_lt, str_eq, str_eq_iff, ltb, Bool-cases, Option-cases, if◌then◌else◌, length,
  All,
}
use di_store.DataLayer.{
  Kv, LinkedNode, LinkedNodeType, keylen, vallen, type10, type12, type14, type16, store,
}
use di_store.DataLayer.Find.{or_else, entries, lookup, IsWellFormed}
use di_store.DataLayer.Store.{store-Stores, lookup-append}
use di_store.Compute.{capacity}
use di_store.Compute.Requests.{Request, Reply, Serving, store_as, help_pred, help_loop}
use di_store.Compute.Serve.{AllSized, Stored, store-Stored, IsSound, Helped, help_pred-Helped}

abbrev pub to_pred : Bytes → Reply → Bool
to_pred anchor a = a.succeed && str_lt a.request.tag anchor

abbrev pub to_real : Bytes → Reply → Bool
to_real anchor a = a.succeed && not (str_lt a.request.tag anchor)

-- The value of the first of these replies that is about the key.
unfoldable pub first_value : (Reply → Bool) → Bytes → List Reply → Option Bytes
first_value is_told k [] = none
first_value is_told k (a ∷ others) =
    if is_told a && str_eq k a.request.tag
    then some a.request.content
    else first_value is_told k others

pub or_else-none : (o : Option Bytes) → or_else o none ≡ o
or_else-none none = refl
or_else-none (some v) = refl

pub or_else_assoc : (a b c : Option Bytes) → or_else (or_else a b) c ≡ or_else a (or_else b c)
or_else_assoc none b c = refl
or_else_assoc (some v) b c = refl

-- What a store makes of the value of a key.
abbrev pub Reads : Bytes → Bytes → LinkedNode → LinkedNode × Bool → Type 0
Reads key value node r =
    (j : Bytes)
    → lookup j (entries r.0)
      ≡ or_else (lookup j (entries node)) (if r.1 && str_eq j key then some value else none)

module _ (city : Bytes → ℕ) where
  pub store-Reads :
      (cap : ℕ) (node : LinkedNode) (key value : Bytes)
      → IsWellFormed city cap node
      → length key ≡ keylen
      → length value ≡ vallen
      → Reads key value node (store city cap key value node)
  store-Reads cap node key value w hk hv j =
      let s = store-Stores city cap node w key value hk hv in
      let p : Kv = record { key = key; value = value } in
      elim (Bool-cases (ltb node.next cap)) [
        | inr full ↦ rw (s.refused (ground arith)) (sym (or_else-none (lookup j (entries node))))
        | inl free ↦ elim (Option-cases (lookup key (entries node))) [
          | inr (v, here) ↦ rw (s.kept v (ground arith) here) (ground (arith, str_eq_iff j key))
          | inl absent ↦
              let (t, e) = s.appended (ground arith) absent in
              rw (e, t) (lookup-append j (entries node) p)
        ]
      ]

  store_as-Reads :
      (t : LinkedNodeType) (node : LinkedNode) (key value : Bytes)
      → IsWellFormed city (capacity t) node
      → length key ≡ keylen
      → length value ≡ vallen
      → Reads key value node (store_as city t key value node)
  store_as-Reads type10 node k v w hk hv j = store-Reads 10 node k v w hk hv j
  store_as-Reads type12 node k v w hk hv j = store-Reads 12 node k v w hk hv j
  store_as-Reads type14 node k v w hk hv j = store-Reads 14 node k v w hk hv j
  store_as-Reads type16 node k v w hk hv j = store-Reads 16 node k v w hk hv j
  store_as-Reads _ node k v w hk hv j = sym (or_else-none (lookup j (entries node)))

  help_pred-Reads :
      (node : LinkedNode) (key value : Bytes)
      → IsSound city node
      → length key ≡ keylen
      → length value ≡ vallen
      → Reads key value node (help_pred city key value node)
  unfolding help_pred
  help_pred-Reads node key value w hk hv = store_as-Reads node.type node key value w hk hv

-- What a buffer has for a key is what it had, or else the value of the first request told that it was
-- stored there; a request is told that it is stored, or to retry.
pub record Told (anchor : Bytes) (pred real : LinkedNode) (done : List Reply) (s : Serving)
    : Type 0 where
  pub given : List Reply
  pub replies : s.replies ≡ done ++ given
  pub pred_reads :
      (k : Bytes)
      → lookup k (entries s.pred)
        ≡ or_else (lookup k (entries pred)) (first_value (to_pred anchor) k given)
  pub real_reads :
      (k : Bytes)
      → lookup k (entries s.real)
        ≡ or_else (lookup k (entries real)) (first_value (to_real anchor) k given)
  pub or_retry : All (λ (a : Reply). a.retry ≡ not a.succeed) given

-- One reply, and then the others.
next_read :
    (is_told : Reply → Bool) (a : Reply) (others : List Reply) (k : Bytes)
    (old new last : Option Bytes)
    → new
      ≡ or_else old (if is_told a && str_eq k a.request.tag then some a.request.content else none)
    → last ≡ or_else new (first_value is_told k others)
    → last ≡ or_else old (first_value is_told k (a ∷ others))
unfolding first_value
next_read is_told a others k old new last e f =
    f
    ∙ rw e (
        or_else_assoc old _ (first_value is_told k others)
        ∙ elim (Bool-cases (is_told a && str_eq k a.request.tag)) [
          | inl told ↦ rw told refl
          | inr untold ↦ rw untold refl
        ])

-- No reply is given, and the node reads as before.
Told-none :
    (anchor : Bytes) (pred real real' : LinkedNode) (rs : List Request) (done : List Reply)
    → ((k : Bytes) → lookup k (entries real') ≡ lookup k (entries real))
    → Told anchor pred real done
        (record { pred = pred; real = real'; requests = rs; replies = done })
unfolding first_value
Told-none anchor pred real real' rs done same = record {
  given = [];
  replies = sym (append-nil done);
  pred_reads = λ k. sym (or_else-none (lookup k (entries pred)));
  real_reads = λ k. same k ∙ sym (or_else-none (lookup k (entries real)));
  or_retry = tt;
}

-- One reply, to a request that left these two buffers, and then the others.
Told-cons :
    (anchor : Bytes) (pred pred' real real' : LinkedNode) (done : List Reply) (a : Reply)
    (s : Serving)
    → ((k : Bytes)
        → lookup k (entries pred')
          ≡ or_else
              (lookup k (entries pred))
              (if to_pred anchor a && str_eq k a.request.tag then some a.request.content else none))
    → ((k : Bytes)
        → lookup k (entries real')
          ≡ or_else
              (lookup k (entries real))
              (if to_real anchor a && str_eq k a.request.tag then some a.request.content else none))
    → a.retry ≡ not a.succeed
    → Told anchor pred' real' (done ++ a ∷ []) s
    → Told anchor pred real done s
Told-cons anchor pred pred' real real' done a s in_pred in_real clear t = record {
  given = a ∷ t.given;
  replies = t.replies ∙ append_assoc done (a ∷ []) t.given;
  pred_reads = λ k. next_read (to_pred anchor) a t.given k _ _ _ (in_pred k) (t.pred_reads k);
  real_reads = λ k. next_read (to_real anchor) a t.given k _ _ _ (in_real k) (t.real_reads k);
  or_retry = (clear, t.or_retry);
}

module _ (city : Bytes → ℕ) (cap : ℕ) (anchor : Bytes) where
  pub help_loop-Told :
      (pred real : LinkedNode) (rs : List Request) (done : List Reply)
      → IsSound city pred
      → IsWellFormed city cap real
      → AllSized rs
      → Told anchor pred real done (help_loop city cap anchor pred real rs done)
  unfolding help_loop
  help_loop-Told pred real [] done p r s = Told-none anchor pred real real [] done (λ k. refl)
  help_loop-Told pred real (req ∷ rs) done p r s =
      let (pred', helped) = help_pred city req.tag req.content pred in
      let (real', stored) = store city cap req.tag req.content real in
      let h : Helped city req.tag pred (pred', helped) =
        help_pred-Helped city pred req.tag req.content p s.0 s.1 in
      let t : Stored city cap req.tag real (real', stored) =
        store-Stored city cap real req.tag req.content r s.0 s.1 in
      let hr : Reads req.tag req.content pred (pred', helped) =
        help_pred-Reads city pred req.tag req.content p s.0 s.1 in
      let tr : Reads req.tag req.content real (real', stored) =
        store-Reads city cap real req.tag req.content r s.0 s.1 in
      let from_pred : Reply = record { request = req; succeed = helped; retry = not helped } in
      let from_real : Reply = record { request = req; succeed = stored; retry = false } in
      elim (Bool-cases (str_lt req.tag anchor)) [
        | inl below ↦ rw below (
            Told-cons anchor pred pred' real real done from_pred _
              (λ k. hr k ∙ rw below (ground arith)) (λ k. rw below (ground arith)) refl
              (help_loop-Told pred' real rs (done ++ from_pred ∷ []) h.sound r s.2))
        | inr above ↦ elim (Bool-cases stored) [
          | inl ok ↦
              let told =
                Told-cons anchor pred pred real real' done from_real
                  (help_loop city cap anchor pred real' rs (done ++ from_real ∷ []))
                  (λ k. rw above (ground arith)) (λ k. tr k ∙ rw above (ground arith)) (rw ok refl)
                  (help_loop-Told pred real' rs (done ++ from_real ∷ []) p t.sound s.2) in
              rw (above, ok) (rw ok at told)
          | inr full ↦
              rw (above, full)
                (Told-none anchor pred real real' (rs ++ req ∷ []) done
                  (λ k. tr k ∙ rw full (or_else-none (lookup k (entries real)))))
        ]
      ]
