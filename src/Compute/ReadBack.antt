-- ===== src/Compute/ReadBack.antt =====
-- `get` after a put that splits: the put's nodes are read back.
use di_store.Base.{
  ℕ, zero, suc, ◌+◌, ◌≤◌, ◌<◌, ◌≡◌, refl, sym, ap, ◌∙◌, Option, some, List, [], ◌∷◌, ◌++◌, arith,
  Bytes, str_lt, Bool-cases, inl, inr, if◌then◌else◌, length, take, drop, take-take_append,
}
use di_store.DataLayer.{
  Kv, LinkedNode, LinkedNodeType, type_head, type10, type12, type14, type16, type_var, not_set,
  keylen, crc_validate, find, find_loop,
}
use di_store.DataLayer.Find.{entries, lookup, IsWellFormed, find-lookup}
use di_store.Compute.{SkipListNode, Remote, Outside, capacity, overwrite}
use di_store.Compute.Requests.{Request}
use di_store.Compute.Put.{Winner, Attempt, sealed, put_splitted}
use di_store.Compute.SplitPut.{
  CanSplit, Places, tmp, halves, halves-IsSplit, result, beneath, halfway, result-left,
  result-right, result-linked,
}
use di_store.Compute.Read.{Pass, Got, get}
use di_store.Compute.Get.{get-first}

-- The types of node that a put writes.
abbrev pub IsNodeType : LinkedNodeType → Type 0
IsNodeType type_head = ⊥
IsNodeType type_var = ⊥
IsNodeType not_set = ⊥
IsNodeType _ = Unit

crc_validate-overwrite :
    (checksum : List Kv → ℕ) (cap : ℕ) (old new : LinkedNode) (t : LinkedNodeType)
    → capacity t ≤ cap
    → cap ≤ length new.pairs
    → crc_validate checksum (overwrite cap old new) t ≡ crc_validate checksum new t
unfolding crc_validate
crc_validate-overwrite checksum cap old new type10 h k =
    rw (take-take_append 10 cap new.pairs (drop cap old.pairs) h k) refl
crc_validate-overwrite checksum cap old new type12 h k =
    rw (take-take_append 12 cap new.pairs (drop cap old.pairs) h k) refl
crc_validate-overwrite checksum cap old new type14 h k =
    rw (take-take_append 14 cap new.pairs (drop cap old.pairs) h k) refl
crc_validate-overwrite checksum cap old new type16 h k =
    rw (take-take_append 16 cap new.pairs (drop cap old.pairs) h k) refl
crc_validate-overwrite checksum cap old new type_head h k = refl
crc_validate-overwrite checksum cap old new type_var h k = refl
crc_validate-overwrite checksum cap old new not_set h k = refl

crc_validate-header :
    (checksum : List Kv → ℕ) (link sum : ℕ) (node : LinkedNode) (t : LinkedNodeType)
    → crc_validate checksum (record node { rlink = link; crc = sum }) t
      ≡ crc_validate checksum node t
unfolding crc_validate
crc_validate-header checksum link sum node type_head = refl
crc_validate-header checksum link sum node type10 = refl
crc_validate-header checksum link sum node type12 = refl
crc_validate-header checksum link sum node type14 = refl
crc_validate-header checksum link sum node type16 = refl
crc_validate-header checksum link sum node type_var = refl
crc_validate-header checksum link sum node not_set = refl

module _ (city : Bytes → ℕ) where
  find_loop-take :
      (key : Bytes) (n cap : ℕ) (fs : List ℕ) (ps qs : List Kv)
      → n ≤ cap
      → cap ≤ length ps
      → find_loop city key n fs (take cap ps ++ qs) ≡ find_loop city key n fs ps
  unfolding find_loop
  find_loop-take key zero cap fs ps qs h k = refl
  find_loop-take key (suc n) zero fs ps qs h k = absurd (omega arith)
  find_loop-take key (suc n) (suc cap) [] [] qs h k = absurd (omega arith)
  find_loop-take key (suc n) (suc cap) [] (p ∷ ps) qs h k = refl
  find_loop-take key (suc n) (suc cap) (f ∷ fs) [] qs h k = absurd (omega arith)
  find_loop-take key (suc n) (suc cap) (f ∷ fs) (p ∷ ps) qs h k =
      rw (find_loop-take key n cap fs ps qs (omega arith) (omega arith)) refl

  find-overwrite :
      (key : Bytes) (cap : ℕ) (old new : LinkedNode)
      → new.next ≤ cap
      → cap ≤ length new.pairs
      → find city (overwrite cap old new) key ≡ find city new key
  unfolding find
  find-overwrite key cap old new h k =
      find_loop-take key new.next cap new.fingerprints new.pairs (drop cap old.pairs) h k

module _ (city : Bytes → ℕ) (checksum : List Kv → ℕ) where
  -- A node in memory, in the type that the search layer has for it.
  pub record Readable (node : LinkedNode) (t : LinkedNodeType) (half : LinkedNode) : Type 0 where
    pub fits : crc_validate checksum node t ≡ node.crc
    pub reads : (j : Bytes) → length j ≡ keylen → find city node j ≡ lookup j (entries half)

  -- `link` is the right link that the write-back gives the node.
  pub sealed-Readable :
      (cap link : ℕ) (old half : LinkedNode) (t : LinkedNodeType)
      → IsWellFormed city cap half
      → capacity t ≤ cap
      → Readable (overwrite cap old (record (sealed checksum t half) { rlink = link })) t half
  unfolding find
  sealed-Readable cap link old half t w h =
      let node : LinkedNode = record (sealed checksum t half) { rlink = link } in
      record {
        fits =
            crc_validate-overwrite checksum cap old node t h w.has_pairs
            ∙ crc_validate-header checksum link _ (record half { type = t }) t;
        reads = λ j hj.
            find-overwrite city j cap old node w.room w.has_pairs
            ∙ find-lookup city cap half j w hj;
      }

  pub get-Readable :
      (m : Remote) (node : SkipListNode) (addr : ℕ) (t : LinkedNodeType) (half : LinkedNode)
      (j : Bytes) (pending : ℕ → List Request) (fuel : ℕ)
      → node.data_node ≡ addr
      → node.type ≡ t
      → Readable (m addr) t half
      → length j ≡ keylen
      → 0 < fuel
      → (get city checksum j
          (λ i. record { pending = pending i; node = node; memory = m })
          fuel).result
        ≡ some (lookup j (entries half))
  get-Readable m node addr t half j pending fuel at of r hj h =
      let passes : ℕ → Pass = λ i. record { pending = pending i; node = node; memory = m } in
      ap (λ (g : Got). g.result)
        (get-first city checksum j passes 0 fuel h (λ i b. absurd (omega arith))
          (rw (at, of) r.fits))
      ∙ ap (λ (o : Option Bytes). some o) (rw at (r.reads j hj))

  module _ (out : Outside) (key value : Bytes) (w : Winner) (a : Attempt) (left_cap : ℕ)
      (ltype rtype : LinkedNodeType) (lcap rcap : ℕ) (p : Places out) where
    -- The node that the search layer has for a key after the split, at which `get` looks.
    abbrev pub owner : Bytes → SkipListNode
    owner j =
        let r = result city checksum out key value w a left_cap ltype rtype lcap rcap p in
        let anchor = (halves city checksum out key value w a left_cap).2 in
        let fresh : SkipListNode = record {
          anchor = anchor;
          data_node = out.right;
          type = rtype;
        } in
        if str_lt j anchor then r.node else fresh

    abbrev pub after_split : ℕ → LinkedNode
    after_split = (result city checksum out key value w a left_cap ltype rtype lcap rcap p).memory

    abbrev gathered : LinkedNode
    gathered = tmp city checksum out key value w a left_cap

    owner_type :
        (result city checksum out key value w a left_cap ltype rtype lcap rcap p).node.type ≡ ltype
    unfolding put_splitted
    owner_type = refl

    left-Readable :
        CanSplit city left_cap w a gathered
        → left_cap ≤ lcap
        → lcap ≤ 16
        → capacity ltype ≤ lcap
        → Readable (after_split out.left) ltype (halves city checksum out key value w a left_cap).0
    left-Readable c l1 l2 t =
        let s = halves-IsSplit city checksum out key value w a left_cap c in
        rw (result-left city checksum out key value w a left_cap ltype rtype lcap rcap p) (
          sealed-Readable lcap out.right
            (beneath city checksum out key value w a left_cap ltype rtype lcap rcap p out.left)
            (halves city checksum out key value w a left_cap).0 ltype (s.left_sound lcap l1 l2) t)

    right-Readable :
        CanSplit city left_cap w a gathered
        → gathered.next ≤ left_cap + rcap
        → rcap ≤ 16
        → capacity rtype ≤ rcap
        → Readable (after_split out.right) rtype (halves city checksum out key value w a left_cap).1
    right-Readable c r1 r2 t =
        let s = halves-IsSplit city checksum out key value w a left_cap c in
        rw (result-right city checksum out key value w a left_cap ltype rtype lcap rcap p) (
          sealed-Readable rcap (halves city checksum out key value w a left_cap).0.rlink
            (halfway city checksum out key value w a left_cap ltype rtype lcap rcap p out.right)
            (halves city checksum out key value w a left_cap).1 rtype
            (s.right_sound rcap (omega (arith, s.right_count)) r2) t)

    -- After a put that splits, at capacities that hold both halves and that the halves' types do not
    -- exceed, when the write completes: `get` at the node that the search layer has for a key of 16
    -- bytes returns in its first pass, whatever is in the queue, with the value that the gathered
    -- records have for the key, or with nothing if they have none.
    pub get-put_splitted :
        CanSplit city left_cap w a gathered
        → left_cap ≤ lcap
        → lcap ≤ 16
        → capacity ltype ≤ lcap
        → gathered.next ≤ left_cap + rcap
        → rcap ≤ 16
        → capacity rtype ≤ rcap
        → (j : Bytes) (pending : ℕ → List Request) (fuel : ℕ) → length j ≡ keylen
        → 0 < fuel
        → (get city checksum j
            (λ i. record { pending = pending i; node = owner j; memory = after_split })
            fuel).result
          ≡ some (lookup j (entries gathered))
    get-put_splitted c l1 l2 lt r1 r2 rt j pending fuel hj h =
        let s = halves-IsSplit city checksum out key value w a left_cap c in
        let (l, r, anchor) = halves city checksum out key value w a left_cap in
        let found = s.routed j in
        let (x, at, z) =
          result-linked city checksum out key value w a left_cap ltype rtype lcap rcap p in
        elim (Bool-cases (str_lt j anchor)) [
          | inl below ↦
              get-Readable after_split (owner j) out.left ltype l j pending fuel (rw below at)
                (rw below owner_type) (left-Readable c l1 l2 lt) hj h
              ∙ ap (λ (o : Option Bytes). some o) (sym (rw below at found))
          | inr above ↦
              get-Readable after_split (owner j) out.right rtype r j pending fuel (rw above refl)
                (rw above refl) (right-Readable c r1 r2 rt) hj h
              ∙ ap (λ (o : Option Bytes). some o) (sym (rw above at found))
        ]
