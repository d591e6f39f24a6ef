-- ===== src/Compute/PutLoss.antt =====
-- `put14` writes the right half of a split with the size of a `LinkedNode10`, and types it `Type12`.
use di_store.Base.{ℕ, ◌+◌, ◌≤◌, ◌≡◌, ◌≢◌, false, List, arith, Bytes, ◌==◌, leb, length, get_or}
use di_store.DataLayer.{Kv, no_pair, type10, type12}
use di_store.Compute.{Outside}
use di_store.Compute.Put.{Winner, gather, try_put_to_existing_node, put14}
use di_store.Compute.SplitPut.{Places, result-beyond}
use di_store.Compute.PutGet.{IsFull, refused, try_put-full, all, all-Gathered, all-CanSplit}

module _ (city : Bytes → ℕ) (checksum : List Kv → ℕ) (out : Outside) (key value : Bytes)
    (w : Winner) (p : Places out) where
  -- `put14` on a full node, when the write completes and 19 records are gathered, as four requests with
  -- new keys give: the right node has 11 records in remote memory, and its last pair is not one of
  -- them: it is what the memory had there before.
  pub put14_loses :
      IsFull city 14 key value w
      → (gather city key value w (try_put_to_existing_node city out key value 14 w)).real.next ≡ 19
      → out.right ≢ w.backward
      → (let m = (put14 city checksum out key value w).memory in
          ((m out.right).next ≡ 11)
          × (get_or (m out.right).pairs 10 no_pair ≡ get_or (w.memory out.right).pairs 10 no_pair))
  unfolding put14
  put14_loses f count clear =
      let small : 14 ≤ 16 = omega arith in
      let e = try_put-full city checksum out key value w p 14 f small in
      let g = all-Gathered city checksum out key value w p 14 f small in
      let total : (all city checksum out key value w p 14 f small).next ≡ 19 = rw e at count in
      let n : ℕ = length w.serving.requests + 1 in
      let many : 5 ≤ n = omega (arith, g.fewer, f.full, total) in
      let t : (n == 0) ≡ false = ground arith in
      let u : leb n 2 ≡ false = ground arith in
      let (count_right, lost) =
        result-beyond city checksum out key value w
          (refused city checksum out key value w p 14 f small) 8 type10 type12 10 10 p
          (all-CanSplit city checksum out key value w p 14 f small 8 (omega arith) (omega arith))
          (omega arith) clear 10 (omega arith) in
      rw (e, t, u) (omega (arith, count_right, total), lost)
