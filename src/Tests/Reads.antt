-- ===== src/Tests/Reads.antt =====
-- The theorems on serving requests, on `get` and on `update`, at concrete nodes.
use di_store.Base.{
  ℕ, ◌<◌, ◌≡◌, refl, true, none, some, List, [], map, arith, Bytes, ltb, if◌then◌else◌, zero, suc,
}
use di_store.DataLayer.{type10, type12, type16, crc_validate}
use di_store.DataLayer.Find.{lookup, entries, IsWellFormed}
use di_store.Compute.Requests.{Request, Serving, help_others}
use di_store.Compute.Served.{Served, help_others-Served}
use di_store.Compute.Told.{Told}
use di_store.Compute.Put.{try_put_to_existing_node}
use di_store.Compute.Read.{Pass, fetched, get, update_won}
use di_store.Compute.Get.{IsValid, told_to_retry, met_by, get-lookup}
use di_store.Compute.Stale.{try_put-stale, update_won-memory}
use di_store.Tests.Data.{
  city, checksum, key_at, value_at, filled, filled-IsWellFormed, blank, winner, outside, program,
  requests_from, requests_from-AllSized,
}

abbrev busy : Serving
busy = (winner 12 type12 10 3).serving

help_others-Served_example :
    Served city 12
      (key_at 41)
      busy.pred
      busy.real
      busy.requests
      (help_others city 12 (key_at 41) busy)
    × Told (key_at 41) busy.pred busy.real [] (help_others city 12 (key_at 41) busy)
unfolding program
help_others-Served_example =
    help_others-Served city 12 (key_at 41) busy (filled-IsWellFormed 10 type10 3 (omega arith))
      (filled-IsWellFormed 12 type12 10 (omega arith)) (requests_from-AllSized 3 40) refl

-- The node that is read, with its checksum from the third pass on.
abbrev passes : ℕ → Pass
passes i = record {
  pending = requests_from 1 i;
  node = record { anchor = key_at 0; data_node = 2000; type = type12 };
  memory = λ p.
      let node = filled 12 type12 5 in
      if ltb i 2 then node else record node { crc = crc_validate checksum node type12 };
}

early_passes_fail : (j : ℕ) → j < 2 → ¬ IsValid checksum (passes j)
unfolding program
early_passes_fail zero h e = absurd (omega arith)
early_passes_fail (suc zero) h e = absurd (omega arith)
early_passes_fail (suc (suc j)) h e = absurd (omega arith)

pass_2-IsWellFormed : IsWellFormed city 12 (fetched (passes 2))
pass_2-IsWellFormed =
    let w = filled-IsWellFormed 12 type12 5 (omega arith) in
    record {
      room = w.room;
      has_fingerprints = w.has_fingerprints;
      has_pairs = w.has_pairs;
      sized = w.sized;
      fingered = w.fingered;
      unique = w.unique;
    }

get-lookup_example : get city checksum (key_at 3) passes 5 ≡ record {
  replies = map told_to_retry (met_by passes 3 0);
  result = some (lookup (key_at 3) (entries (fetched (passes 2))));
}
get-lookup_example =
    get-lookup city checksum (key_at 3) passes 2 5 12 (omega arith) early_passes_fail
      (unfold program in refl) pass_2-IsWellFormed (omega arith)

try_put-stale_example :
    (let a =
        try_put_to_existing_node city outside (key_at 30) (value_at 30) 12 (winner 12 type12 5 0) in
      (a.done ≡ true)
      × (a.pendings ≡ 0)
      × ((j : Bytes) (pending : ℕ → List Request) (fuel : ℕ)
          → (get city checksum j
              (λ i. record {
                pending = pending i;
                node = (winner 12 type12 5 0).node;
                memory = a.memory;
              })
              fuel).result
            ≡ none))
try_put-stale_example =
    try_put-stale city checksum outside 12 (key_at 30) (value_at 30) (winner 12 type12 5 0) refl
      refl (unfold program in refl) (unfold program in λ e. absurd (omega arith))

update_won-memory_example :
    (update_won city checksum outside
      (key_at 3)
      (value_at 31)
      (winner 12 type12 5 0).node
      (blank type16)
      []
      (λ p. filled 12 type12 5)).memory
    ≡ (update_won city checksum outside
        (key_at 3)
        (value_at 32)
        (winner 12 type12 5 0).node
        (blank type16)
        []
        (λ p. filled 12 type12 5)).memory
update_won-memory_example =
    update_won-memory city checksum outside (key_at 3) (value_at 31) (value_at 32)
      (winner 12 type12 5 0).node (blank type16) [] (λ p. filled 12 type12 5)
