-- ===== src/DataLayer/Scan.antt =====
-- `LinkedNode::scan`: the values from a key on, at most `ct` of them, in the order of the slots.
use di_store.Base.{
  inl, inr, ℕ, zero, suc, ◌+◌, ◌-◌, ◌%◌, ◌^◌, ◌≤◌, ◌<◌, ◌≡◌, ◌∙◌, List, [], ◌∷◌, ◌++◌, arith, Bytes,
  str_le, str_lt, if◌then◌else◌, length, take, take_all, Bool-cases,
}
use mathlib.Core.List.{append-nil, append_assoc}
use di_store.DataLayer.{Kv, LinkedNode, keylen, vallen, scan_loop, scan}
use di_store.DataLayer.Find.{entries, Sized}

-- The reference definition: the values of the entries whose key is not below `key`.
unfoldable pub from_key : Bytes → List Kv → List Bytes
from_key key [] = []
from_key key (p ∷ ps) = if str_le key p.key then p.value ∷ from_key key ps else from_key key ps

abbrev Scanned : ℕ × List Bytes → ℕ → List Bytes → List Bytes → Type 0
Scanned r total ret found = r ≡ (total + length found, ret ++ found)

module _ (key : Bytes) (hk : length key ≡ keylen) (ct : ℕ) (small : ct < 2 ^ 64) where
  budget : (total k : ℕ) → total + k ≡ ct → (ct + 2 ^ 64 - total) % 2 ^ 64 ≡ k
  budget total k h = omega arith

  next_assoc : (ret found : List Bytes) (v : Bytes) → (ret ++ v ∷ []) ++ found ≡ ret ++ v ∷ found
  next_assoc ret found v = append_assoc ret (v ∷ []) found

  scan_loop-take :
      (n k total : ℕ) (ret : List Bytes) (ps : List Kv)
      → total + k ≡ ct
      → n ≤ length ps
      → Sized ps
      → Scanned (scan_loop key ct total ret n ps) total ret (take k (from_key key (take n ps)))
  unfolding scan_loop from_key
  scan_loop-take zero zero total ret ps a b s = rw (append-nil ret) (ground arith)
  scan_loop-take zero (suc k) total ret ps a b s = rw (append-nil ret) (ground arith)
  scan_loop-take (suc n) k total ret [] a b s = absurd (omega arith)
  scan_loop-take (suc n) zero total ret (p ∷ ps) a b s =
      rw (budget total 0 a) (scan_loop-take n zero total ret ps a (omega arith) s.2)
  scan_loop-take (suc n) (suc k) total ret (p ∷ ps) a b s =
      rw
        (
          budget total (suc k) a,
          take_all (length key) p.key (s.0 ∙ omega arith),
          take_all vallen p.value s.1,
        )
        (elim (Bool-cases (str_lt p.key key)) [
          | inl below ↦
              rw below (ground (arith, scan_loop-take n (suc k) total ret ps a (omega arith) s.2))
          | inr hit ↦ rw hit (
              ground (
                arith,
                scan_loop-take n k (total + 1) (ret ++ p.value ∷ []) ps (omega arith) (omega arith)
                    s.2,
                next_assoc ret (take k (from_key key (take n ps))) p.value,
              ))
        ])

  -- On arrays of 16 bytes, with `next` within them, a key of 16 bytes and a count below 2^64, `scan`
  -- appends the values of the first `ct` entries in slot order whose key is not below `key`, and
  -- returns how many it appended.
  pub scan-take :
      (node : LinkedNode) (ret : List Bytes)
      → node.next ≤ length node.pairs
      → Sized node.pairs
      → scan key ct ret node ≡ (
        length (take ct (from_key key (entries node))),
        ret ++ take ct (from_key key (entries node)),
      )
  unfolding scan
  scan-take node ret room s =
      ground (arith, scan_loop-take node.next ct 0 ret node.pairs (omega arith) room s)
