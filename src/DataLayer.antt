-- ===== src/DataLayer.antt =====
-- src/components/data_layer/data_layer.hpp: a `LinkedNode`, the unit of remote memory.
--
-- `LinkedNode<M, N>` is one record. The template argument N is the argument `cap` of `store`. The
-- arrays are lists of their declared length, so that a node is read as one of another capacity
-- (`reinterpret_cast<LinkedNode16 *>`) without a change. `CityHash64`, a vendored library, is the
-- parameter `city`, and Boost's CRC is the parameter `checksum`.
pub mod Find
pub mod Store
pub mod Update
pub mod Scan
use di_store.Base.{
  ℕ, zero, suc, ◌+◌, ◌-◌, ◌*◌, ◌%◌, ◌^◌, Bool, true, false, not, ◌&&◌, Option, none, some, List, [],
  ◌∷◌, ◌++◌, Bytes, memcpy, str_eq, str_lt, str_le, ltb, leb, ◌==◌, if◌then◌else◌, length, get_or,
  set, take,
}

-- `Constants::KEYLEN` and `Constants::VALLEN`
abbrev pub keylen : ℕ
keylen = 16

abbrev pub vallen : ℕ
vallen = keylen

pub data LinkedNodeType : Type 0 where
  type_head type10 type12 type14 type16 type_var not_set : LinkedNodeType

pub record Kv : Type 0 where
  pub key : Bytes
  pub value : Bytes

-- What an index past the arrays would read; no proof uses it.
abbrev pub no_pair : Kv
no_pair = record { key = []; value = [] }

pub record LinkedNode : Type 0 where
  pub llink : ℕ
  pub rlink : ℕ
  pub crc : ℕ
  pub type : LinkedNodeType
  pub next : ℕ
  pub fingerprints : List ℕ
  pub pairs : List Kv

-- `sizeof(LinkedNode<M, N>)`: two links, a 16-bit crc padded to 4 bytes, type, next, M fingerprints,
-- N pairs of 32 bytes, the whole padded to the 8 bytes of a pointer.
abbrev pub sizeof_linked_node : ℕ → ℕ → ℕ
sizeof_linked_node m n =
    let raw = 8 + 8 + 4 + 4 + 4 + m + n * (keylen + vallen) in raw + (8 - raw % 8) % 8

unfoldable pub sizeof_node : LinkedNodeType → ℕ
sizeof_node type_head = sizeof_linked_node 1 1
sizeof_node type10 = sizeof_linked_node 16 10
sizeof_node type12 = sizeof_linked_node 16 12
sizeof_node type14 = sizeof_linked_node 16 14
sizeof_node type16 = sizeof_linked_node 16 16
sizeof_node _ = 0

-- `crc_validate`: the checksum of the first 10, 12, 14 or 16 pairs, 0 for the other types.
unfoldable pub crc_validate : (List Kv → ℕ) → LinkedNode → LinkedNodeType → ℕ
crc_validate checksum buffer type10 = checksum (take 10 buffer.pairs) % 2 ^ 16
crc_validate checksum buffer type12 = checksum (take 12 buffer.pairs) % 2 ^ 16
crc_validate checksum buffer type14 = checksum (take 14 buffer.pairs) % 2 ^ 16
crc_validate checksum buffer type16 = checksum (take 16 buffer.pairs) % 2 ^ 16
crc_validate checksum buffer _ = 0

unfoldable pub available : ℕ → LinkedNode → Bool
available cap node = ltb node.next cap

-- `key.compare(0, key.size(), slot, key.size()) == 0`
unfoldable pub key_matches : Bytes → Kv → Bool
key_matches key p = str_eq key (take (length key) p.key)

module _ (city : Bytes → ℕ) where
  -- `(uint8_t)CityHash64(key.c_str(), key.size())`
  abbrev pub finger_of : Bytes → ℕ
  finger_of key = city key % 256

  -- The loop of `find`, over the slots left: their fingerprints and their pairs.
  unfoldable pub find_loop : Bytes → ℕ → List ℕ → List Kv → Option Bytes
  find_loop key zero fs ps = none
  find_loop key (suc n) (f ∷ fs) (p ∷ ps) =
      let rest = find_loop key n fs ps in
      if finger_of key == f
      then if key_matches key p then some (take vallen p.value) else rest
      else rest
  find_loop key (suc n) _ _ = none

  unfoldable pub find : LinkedNode → Bytes → Option Bytes
  find node key = find_loop key node.next node.fingerprints node.pairs

  abbrev pub fill : Kv → Bytes → Bytes → Kv
  fill p key value = record { key = memcpy p.key key; value = memcpy p.value value }

  -- The record in the first free slot, with its fingerprint.
  unfoldable pub write_slot : Bytes → Bytes → LinkedNode → LinkedNode
  write_slot key value node = record node {
    next = node.next + 1;
    fingerprints = set node.fingerprints node.next (finger_of key);
    pairs = set node.pairs node.next (fill (get_or node.pairs node.next no_pair) key value);
  }

  -- `store(const std::string &, const std::string &)`: nothing is written if the key is there.
  unfoldable pub store : ℕ → Bytes → Bytes → LinkedNode → LinkedNode × Bool
  store cap key value node =
      if available cap node
      then elim (find node key) [ some _ ↦ (node, true) | none ↦ (write_slot key value node, true) ]
      else (node, false)

  -- `store(const_byte_ptr_t, size_t, const_byte_ptr_t, size_t)`: no look for the key
  unfoldable pub store_raw : ℕ → Bytes → Bytes → LinkedNode → LinkedNode × Bool
  store_raw cap key value node =
      if available cap node then (write_slot key value node, true) else (node, false)

  -- The loop of `update`: the pairs after it, and whether a slot was found.
  unfoldable pub update_loop : Bytes → Bytes → ℕ → List ℕ → List Kv → List Kv × Bool
  update_loop key value zero fs ps = (ps, false)
  update_loop key value (suc n) (f ∷ fs) (p ∷ ps) =
      let rest = update_loop key value n fs ps in
      if finger_of key == f
      then if key_matches key p
        then (record p { value = memcpy p.value value } ∷ ps, true)
        else (p ∷ rest.0, rest.1)
      else (p ∷ rest.0, rest.1)
  update_loop key value (suc n) _ ps = (ps, false)

  unfoldable pub update : Bytes → Bytes → LinkedNode → LinkedNode × Bool
  update key value node =
      let (ps, done) = update_loop key value node.next node.fingerprints node.pairs in
      (record node { pairs = ps }, done)

-- The loop of `scan`: `total` values are in `ret` so far. `ct - total` is unsigned.
unfoldable pub scan_loop : Bytes → ℕ → ℕ → List Bytes → ℕ → List Kv → ℕ × List Bytes
scan_loop key ct total ret zero ps = (total, ret)
scan_loop key ct total ret (suc n) (p ∷ ps) =
    let hit = scan_loop key ct (total + 1) (ret ++ take vallen p.value ∷ []) n ps in
    let miss = scan_loop key ct total ret n ps in
    if ltb 0 ((ct + 2 ^ 64 - total) % 2 ^ 64) && str_le key (take (length key) p.key)
    then hit
    else miss
scan_loop key ct total ret (suc n) [] = (total, ret)

unfoldable pub scan : Bytes → ℕ → List Bytes → LinkedNode → ℕ × List Bytes
scan key ct ret node = scan_loop key ct 0 ret node.next node.pairs
