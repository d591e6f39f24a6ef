-- ===== src/DataLayer/Find.antt =====
-- What a node holds: its entries, when it is well formed, and that `find` reads the entries.
use di_store.Base.{
  ℕ, zero, suc, ◌+◌, ◌≤◌, ◌≡◌, refl, ap, ◌∙◌, true, Option, none, some, List, [], ◌∷◌, arith, Bytes,
  str_eq, str_eq_iff, if◌then◌else◌, length, take, take_all,
}
use di_store.DataLayer.{Kv, LinkedNode, keylen, vallen, key_matches, finger_of, find_loop, find}

-- The pairs in use, in the order in which they came.
abbrev pub entries : LinkedNode → List Kv
entries node = take node.next node.pairs

abbrev pub or_else : Option Bytes → Option Bytes → Option Bytes
or_else (some v) o = some v
or_else none o = o

-- The reference definition of `find`: the first pair with the key, with no fingerprints.
unfoldable pub lookup : Bytes → List Kv → Option Bytes
lookup key [] = none
lookup key (p ∷ ps) = if str_eq key p.key then some p.value else lookup key ps

unfoldable pub occurrences : Bytes → List Kv → ℕ
occurrences key [] = 0
occurrences key (p ∷ ps) = (if str_eq key p.key then 1 else 0) + occurrences key ps

-- Each array of the buffer has its 16 bytes.
abbrev pub Sized : List Kv → Type 0
Sized [] = Unit
Sized (p ∷ ps) = (length p.key ≡ keylen) × (length p.value ≡ vallen) × Sized ps

module _ (city : Bytes → ℕ) where
  -- The first n slots exist, and each has the fingerprint of its key.
  abbrev pub Fingered : ℕ → List ℕ → List Kv → Type 0
  Fingered zero fs ps = Unit
  Fingered (suc n) (f ∷ fs) (p ∷ ps) = (f ≡ finger_of city p.key) × Fingered n fs ps
  Fingered (suc n) _ _ = ⊥

  pub record IsWellFormed (cap : ℕ) (node : LinkedNode) : Type 0 where
    pub room : node.next ≤ cap
    pub has_fingerprints : cap ≤ length node.fingerprints
    pub has_pairs : cap ≤ length node.pairs
    pub sized : Sized node.pairs
    pub fingered : Fingered node.next node.fingerprints node.pairs
    pub unique : (key : Bytes) → occurrences key (entries node) ≤ 1

  pub key_matches-str_eq :
      (key : Bytes) (p : Kv)
      → length key ≡ keylen
      → length p.key ≡ keylen
      → key_matches key p ≡ str_eq key p.key
  unfolding key_matches
  key_matches-str_eq key p hk hp = ap (str_eq key) (take_all (length key) p.key (hp ∙ omega arith))

  pub finger-congr :
      (key : Bytes) (p : Kv) → str_eq key p.key ≡ true → finger_of city key ≡ finger_of city p.key
  finger-congr key p h = ap (finger_of city) ((str_eq_iff key p.key).0 h)

  pub find_loop-lookup :
      (key : Bytes) (n : ℕ) (fs : List ℕ) (ps : List Kv)
      → length key ≡ keylen
      → Sized ps
      → Fingered n fs ps
      → find_loop city key n fs ps ≡ lookup key (take n ps)
  unfolding find_loop lookup
  find_loop-lookup key zero fs ps hk s h = refl
  find_loop-lookup key (suc n) [] ps hk s h = elim h [ ]
  find_loop-lookup key (suc n) (f ∷ fs) [] hk s h = elim h [ ]
  find_loop-lookup key (suc n) (f ∷ fs) (p ∷ ps) hk s h = ground (
    arith,
    find_loop-lookup key n fs ps hk s.2 h.1,
    key_matches-str_eq key p hk s.0,
    take_all vallen p.value s.1,
    finger-congr key p,
  )

  -- The fingerprints only save comparisons: on a well-formed node and a key of 16 bytes `find`
  -- returns what the search without them returns.
  pub find-lookup :
      (cap : ℕ) (node : LinkedNode) (key : Bytes)
      → IsWellFormed cap node
      → length key ≡ keylen
      → find city node key ≡ lookup key (entries node)
  unfolding find
  find-lookup cap node key w hk =
      find_loop-lookup key node.next node.fingerprints node.pairs hk w.sized w.fingered
