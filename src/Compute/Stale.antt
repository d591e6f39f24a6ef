-- ===== src/Compute/Stale.antt =====
-- Two writes of the compute node that miss: a put into a node with room leaves the old checksum, and
-- an update writes back the other buffer.
use di_store.Base.{
  ℕ, ◌≡◌, ◌≢◌, refl, sym, ap, ◌∙◌, true, none, List, [], ◌∷◌, Bytes, Bool-cases, Option-cases, inl,
  inr,
}
use di_store.DataLayer.{Kv, LinkedNode, crc_validate, store, find, update, write_slot, available}
use di_store.Compute.{SkipListNode, Remote, Outside, capacity, write_node}
use di_store.Compute.Requests.{Request, Reply, help_others, help_loop}
use di_store.Compute.WriteBack.{write_back_current}
use di_store.Compute.Memory.{write_node_self}
use di_store.Compute.Put.{Winner, try_put_to_existing_node}
use di_store.Compute.Read.{update_others, get, update_won}
use di_store.Compute.Get.{get-stuck}

store-crc :
    (city : Bytes → ℕ) (cap : ℕ) (key value : Bytes) (node : LinkedNode)
    → (store city cap key value node).0.crc ≡ node.crc
unfolding store write_slot
store-crc city cap key value node = elim (Bool-cases (available cap node)) [
  | inr full ↦ simp full
  | inl free ↦ elim (Option-cases (find city node key)) [
    | inl absent ↦ simp (free, absent)
    | inr (v, present) ↦ simp (free, present)
  ]
]

update-type :
    (city : Bytes → ℕ) (key value : Bytes) (node : LinkedNode)
    → (update city key value node).0.type ≡ node.type
unfolding update
update-type city key value node = refl

update_others-type :
    (city : Bytes → ℕ) (rs : List Request) (done : List Reply) (buffer : LinkedNode)
    → (update_others city buffer rs done).0.type ≡ buffer.type
unfolding update_others
update_others-type city [] done buffer = refl
update_others-type city (req ∷ rs) done buffer =
    update_others-type city rs _ (update city req.tag req.content buffer).0
    ∙ update-type city req.tag req.content buffer

module _ (city : Bytes → ℕ) (checksum : List Kv → ℕ) (out : Outside) where
  try_put-alone :
      (cap : ℕ) (key value : Bytes) (w : Winner)
      → out.completed ≡ true
      → w.serving.requests ≡ []
      → (store city cap key value w.serving.real).1 ≡ true
      → (let a = try_put_to_existing_node city out key value cap w in
          (a.done ≡ true)
          × (a.pendings ≡ 0)
          × (a.memory
              ≡ write_node w.memory w.node.data_node cap
                  (store city cap key value w.serving.real).0))
  unfolding try_put_to_existing_node help_others help_loop write_back_current
  try_put-alone cap key value w done alone stored = simp (stored, alone, done) (refl, refl, refl)

  -- A put that fits, with no other thread waiting, when the write completes: it is acknowledged, and
  -- the node in remote memory has the checksum of before. If that is not the checksum of the pairs that
  -- are there now, `get` at this node goes back to `retry` whatever its fuel, as long as the memory
  -- stays.
  pub try_put-stale :
      (cap : ℕ) (key value : Bytes) (w : Winner)
      → out.completed ≡ true
      → w.serving.requests ≡ []
      → (store city cap key value w.serving.real).1 ≡ true
      → (let m = (try_put_to_existing_node city out key value cap w).memory in
          crc_validate checksum (m w.node.data_node) w.node.type ≢ w.serving.real.crc)
      → (let a = try_put_to_existing_node city out key value cap w in
          (a.done ≡ true)
          × (a.pendings ≡ 0)
          × ((j : Bytes) (pending : ℕ → List Request) (fuel : ℕ)
              → (get city checksum j
                  (λ i. record { pending = pending i; node = w.node; memory = a.memory })
                  fuel).result
                ≡ none))
  try_put-stale cap key value w done alone stored differs =
      let a = try_put_to_existing_node city out key value cap w in
      let (x, y, z) = try_put-alone cap key value w done alone stored in
      let old : (a.memory w.node.data_node).crc ≡ w.serving.real.crc =
        ap (λ (m : Remote). (m w.node.data_node).crc) z
        ∙ ap (λ (n : LinkedNode). n.crc) (write_node_self w.memory w.node.data_node cap _)
        ∙ store-crc city cap key value w.serving.real in
      (x, y, λ j pending fuel. get-stuck city checksum j _ fuel (λ i fits. differs (fits ∙ old)))

  update_won-type :
      (key value : Bytes) (node : SkipListNode) (second : LinkedNode) (rs : List Request)
      (m : Remote)
      → (update_won city checksum out key value node second rs m).memory
        ≡ (write_back_current out node.data_node (capacity (m node.data_node).type) second m).0
  unfolding update_won
  update_won-type key value node second rs m = rw (update_others-type, update-type) refl

  -- Whatever the value, `update` leaves the same remote memory. It writes the
  -- second buffer back, and the value is in the first.
  pub update_won-memory :
      (key value other : Bytes) (node : SkipListNode) (second : LinkedNode) (rs : List Request)
      (m : Remote)
      → (update_won city checksum out key value node second rs m).memory
        ≡ (update_won city checksum out key other node second rs m).memory
  update_won-memory key value other node second rs m =
      update_won-type key value node second rs m ∙ sym (update_won-type key other node second rs m)
