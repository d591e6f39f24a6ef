-- ===== src/Compute/Get.antt =====
-- `ComputeNode::get`: when it returns and what, after the puts of Compute/Put.antt too.
use di_store.Base.{
  ℕ, zero, suc, ◌+◌, ◌≤◌, ◌<◌, ◌≡◌, inl, inr, refl, sym, ap, ◌∙◌, true, false, map, ◌∷◌, length,
  none, some, List, [], ◌++◌, arith, Bytes, ◌==◌, ==_iff, Bool-cases,
}
use mathlib.Core.List.{append-nil, append_assoc, map-append}
use di_store.DataLayer.{Kv, keylen, crc_validate, find}
use di_store.DataLayer.Find.{lookup, entries, IsWellFormed, find-lookup}
use di_store.Compute.Requests.{Request, Reply, drain_pending}
use di_store.Compute.Read.{Pass, fetched, Got, get_loop, get}

abbrev pub IsValid : (List Kv → ℕ) → Pass → Type 0
IsValid checksum pass = crc_validate checksum (fetched pass) pass.node.type ≡ (fetched pass).crc

-- What a drained request is told.
abbrev pub told_to_retry : Request → Reply
told_to_retry req = record { request = req; succeed = false; retry = true }

-- The requests that the passes i, …, i + n - 1 meet.
abbrev pub met_by : (ℕ → Pass) → ℕ → ℕ → List Request
met_by passes zero i = []
met_by passes (suc n) i = (passes i).pending ++ met_by passes n (suc i)

drain_pending-map : (rs : List Request) → drain_pending rs ≡ map told_to_retry rs
unfolding drain_pending
drain_pending-map [] = refl
drain_pending-map (r ∷ rs) = ap (λ (t : List Reply). told_to_retry r ∷ t) (drain_pending-map rs)

-- What the passes i, …, i + n - 1 drain.
abbrev pub drained_by : (ℕ → Pass) → ℕ → ℕ → List Reply
drained_by passes zero i = []
drained_by passes (suc n) i = drain_pending (passes i).pending ++ drained_by passes n (suc i)

drained_by-met_by :
    (passes : ℕ → Pass) (n i : ℕ) → drained_by passes n i ≡ map told_to_retry (met_by passes n i)
drained_by-met_by passes zero i = refl
drained_by-met_by passes (suc n) i =
    rw (drain_pending-map (passes i).pending, drained_by-met_by passes n (suc i))
      (sym (map-append told_to_retry (passes i).pending (met_by passes n (suc i))))

module _ (city : Bytes → ℕ) (checksum : List Kv → ℕ) (key : Bytes) (passes : ℕ → Pass) where
  get_loop-valid :
      (fuel i : ℕ) (replies : List Reply)
      → IsValid checksum (passes i)
      → get_loop city checksum key passes (suc fuel) i replies ≡ record {
        replies = replies ++ drained_by passes 1 i;
        result = some (find city (fetched (passes i)) key);
      }
  unfolding get_loop
  get_loop-valid fuel i replies good =
      let t : (crc_validate checksum (fetched (passes i)) (passes i).node.type
            == (fetched (passes i)).crc)
          ≡ true =
        (==_iff _ _).1 good in
      simp (t, append-nil)

  get_loop-again :
      (fuel i : ℕ) (replies : List Reply)
      → ¬ IsValid checksum (passes i)
      → get_loop city checksum key passes (suc fuel) i replies
        ≡ get_loop city checksum key passes fuel
            (suc i)
            (replies ++ drain_pending (passes i).pending)
  unfolding get_loop
  get_loop-again fuel i replies bad =
      elim (Bool-cases (
        crc_validate checksum (fetched (passes i)) (passes i).node.type
        == (fetched (passes i)).crc)) [
          | inl ok ↦ absurd (bad ((==_iff _ _).0 ok))
          | inr wrong ↦ simp wrong
        ]

  get_loop-first :
      (n fuel i k : ℕ) (replies : List Reply)
      → n < fuel
      → k ≡ i + n
      → ((j : ℕ) → i ≤ j → j < k → ¬ IsValid checksum (passes j))
      → IsValid checksum (passes k)
      → get_loop city checksum key passes fuel i replies ≡ record {
        replies = replies ++ drained_by passes (suc n) i;
        result = some (find city (fetched (passes k)) key);
      }
  get_loop-first n zero i k replies h e bad good = absurd (omega arith)
  get_loop-first zero (suc fuel) i k replies h e bad good =
      let same : k ≡ i = omega arith in rw same (get_loop-valid fuel i replies (rw same at good))
  get_loop-first (suc n) (suc fuel) i k replies h e bad good =
      get_loop-again fuel i replies (bad i (omega arith) (omega arith))
      ∙ get_loop-first n fuel (suc i) k (replies ++ drain_pending (passes i).pending) (omega arith)
          (omega arith) (λ j a b. bad j (omega arith) b) good
      ∙ simp append_assoc

  pub get-first :
      (k fuel : ℕ)
      → k < fuel
      → ((j : ℕ) → j < k → ¬ IsValid checksum (passes j))
      → IsValid checksum (passes k)
      → get city checksum key passes fuel ≡ record {
        replies = drained_by passes (suc k) 0;
        result = some (find city (fetched (passes k)) key);
      }
  unfolding get
  get-first k fuel h bad good = get_loop-first k fuel 0 k [] h (omega arith) (λ j a b. bad j b) good

  -- With fuel for more than k passes and a key of 16 bytes: when what the k-th pass fetched is well formed
  -- and the first that its checksum fits, `get` returns the value of the key among its entries, or none
  -- if it is not there, and every request that a pass up to the k-th met in the queue has been told, in
  -- order, that it did not succeed and has to retry.
  pub get-lookup :
      (k fuel cap : ℕ)
      → k < fuel
      → ((j : ℕ) → j < k → ¬ IsValid checksum (passes j))
      → IsValid checksum (passes k)
      → IsWellFormed city cap (fetched (passes k))
      → length key ≡ keylen
      → get city checksum key passes fuel ≡ record {
        replies = map told_to_retry (met_by passes (suc k) 0);
        result = some (lookup key (entries (fetched (passes k))));
      }
  get-lookup k fuel cap h bad good w hk =
      rw
        (
          sym (drained_by-met_by passes (suc k) 0),
          sym (find-lookup city cap (fetched (passes k)) key w hk),
        )
        (get-first k fuel h bad good)

  get_loop-stuck :
      (fuel i : ℕ) (replies : List Reply)
      → ((j : ℕ) → ¬ IsValid checksum (passes j))
      → (get_loop city checksum key passes fuel i replies).result ≡ none
  unfolding get_loop
  get_loop-stuck zero i replies bad = refl
  get_loop-stuck (suc fuel) i replies bad =
      ap (λ (g : Got). g.result) (get_loop-again fuel i replies (bad i))
      ∙ get_loop-stuck fuel (suc i) _ bad

  pub get-stuck :
      (fuel : ℕ)
      → ((j : ℕ) → ¬ IsValid checksum (passes j))
      → (get city checksum key passes fuel).result ≡ none
  unfolding get
  get-stuck fuel bad = get_loop-stuck fuel 0 [] bad
