-- ===== src/Tests/Puts.antt =====
-- The theorems on puts, splits and reads after them, at concrete nodes.
use di_store.Base.{ℕ, ◌≡◌, refl, some, get_or, arith}
use di_store.DataLayer.{LinkedNode, no_pair, type10, type12, type14, type16}
use di_store.Compute.Put.{Winner, gather, try_put_to_existing_node, put12, put14, put16}
use di_store.Compute.PutGet.{IsFull, ReadsBack, put12-ReadsBack, put16-ReadsBack}
use di_store.Compute.PutLoss.{put14_loses}
use di_store.DataLayer.Find.{entries, lookup}
use di_store.Split.{split_records}
use di_store.Split.Records.{IsSplit, split_records-IsSplit}
use di_store.Compute.Put.{Attempt}
use di_store.Compute.PutGet.{refused, refused-CanGather, all-CanSplit}
use di_store.Compute.Gather.{CanGather, Gathered, gather-Gathered}
use di_store.Compute.SplitPut.{CanSplit}
use di_store.Compute.Read.{get}
use di_store.Compute.ReadBack.{owner, after_split, get-put_splitted}
use di_store.Compute.MorphGet.{put12_morphs-ReadsBack, put14_morphs-ReadsBack}
use di_store.Tests.Data.{
  city, checksum, key_at, value_at, filled, filled-IsWellFormed, blank, winner, outside,
  outside-Places, program, requests_from, requests_from-AllSized, Sized-replicate, blank-IsTarget,
}

winner12-IsFull : (k : ℕ) → IsFull city 12 (key_at 30) (value_at 30) (winner 12 type12 12 k)
unfolding program
winner12-IsFull k = record {
  real = filled-IsWellFormed 12 type12 12 (omega arith);
  full = refl;
  real_room = record {
    has_fingerprints = omega arith;
    has_pairs = omega arith;
    sized = (filled-IsWellFormed 12 type12 12 (omega arith)).sized;
  };
  third_room = blank-IsTarget;
  pred = filled-IsWellFormed 10 type10 3 (omega arith);
  stack_sized = Sized-replicate 5;
  stack_room = omega arith;
  key_size = refl;
  value_size = refl;
  requests_sized = requests_from-AllSized k 40;
  unreplied = refl;
}

winner14-IsFull : (k : ℕ) → IsFull city 14 (key_at 30) (value_at 30) (winner 14 type14 14 k)
unfolding program
winner14-IsFull k = record {
  real = filled-IsWellFormed 14 type14 14 (omega arith);
  full = refl;
  real_room = record {
    has_fingerprints = omega arith;
    has_pairs = omega arith;
    sized = (filled-IsWellFormed 14 type14 14 (omega arith)).sized;
  };
  third_room = blank-IsTarget;
  pred = filled-IsWellFormed 10 type10 3 (omega arith);
  stack_sized = Sized-replicate 5;
  stack_room = omega arith;
  key_size = refl;
  value_size = refl;
  requests_sized = requests_from-AllSized k 40;
  unreplied = refl;
}

winner16-IsFull : (k : ℕ) → IsFull city 16 (key_at 30) (value_at 30) (winner 16 type16 16 k)
unfolding program
winner16-IsFull k = record {
  real = filled-IsWellFormed 16 type16 16 (omega arith);
  full = refl;
  real_room = record {
    has_fingerprints = omega arith;
    has_pairs = omega arith;
    sized = (filled-IsWellFormed 16 type16 16 (omega arith)).sized;
  };
  third_room = blank-IsTarget;
  pred = filled-IsWellFormed 10 type10 3 (omega arith);
  stack_sized = Sized-replicate 5;
  stack_room = omega arith;
  key_size = refl;
  value_size = refl;
  requests_sized = requests_from-AllSized k 40;
  unreplied = refl;
}

put16-ReadsBack_example :
    ReadsBack city checksum
      (key_at 30)
      (filled 16 type16 16)
      (put16 city checksum outside (key_at 30) (value_at 30) (winner 16 type16 16 3))
put16-ReadsBack_example =
    put16-ReadsBack city checksum outside (key_at 30) (value_at 30) (winner 16 type16 16 3)
      outside-Places (winner16-IsFull 3)

put12-ReadsBack_example :
    ReadsBack city checksum
      (key_at 30)
      (filled 12 type12 12)
      (put12 city checksum outside (key_at 30) (value_at 30) (winner 12 type12 12 5))
put12-ReadsBack_example =
    put12-ReadsBack city checksum outside (key_at 30) (value_at 30) (winner 12 type12 12 5)
      outside-Places (winner12-IsFull 5) (omega arith) (omega arith)

gathers_19 :
    (gather city (key_at 30) (value_at 30) (winner 14 type14 14 4) (
      try_put_to_existing_node city outside
        (key_at 30)
        (value_at 30)
        14
        (winner 14 type14 14 4))).real.next
    ≡ 19
unfolding program
gathers_19 = refl

put14_loses_example :
    (let m =
        (put14 city checksum outside (key_at 30) (value_at 30) (winner 14 type14 14 4)).memory in
      ((m 4000).next ≡ 11)
      × (get_or (m 4000).pairs 10 no_pair ≡ get_or (blank type16).pairs 10 no_pair))
put14_loses_example =
    put14_loses city checksum outside (key_at 30) (value_at 30) (winner 14 type14 14 4)
      outside-Places (winner14-IsFull 4) gathers_19 (λ e. absurd (omega arith))

abbrev waiting : Winner
waiting = winner 16 type16 16 3

-- The attempt of that winner, which the full node refuses.
abbrev attempt : Attempt
attempt =
    refused city checksum outside (key_at 30) (value_at 30) waiting outside-Places 16
      (winner16-IsFull 3) (omega arith)

abbrev twenty : LinkedNode
twenty = (gather city (key_at 30) (value_at 30) waiting attempt).real

attempt-CanGather : CanGather city 16 (key_at 30) (value_at 30) waiting attempt
attempt-CanGather =
    refused-CanGather city checksum outside (key_at 30) (value_at 30) waiting outside-Places 16
      (winner16-IsFull 3) (omega arith)

twenty-CanSplit : CanSplit city 9 waiting attempt twenty
twenty-CanSplit =
    all-CanSplit city checksum outside (key_at 30) (value_at 30) waiting outside-Places 16
      (winner16-IsFull 3) (omega arith) 9 (omega arith) (omega arith)

twenty_records : twenty.next ≡ 20
unfolding program
twenty_records = refl

gather-Gathered_example :
    Gathered city
      (key_at 30)
      (value_at 30)
      waiting
      attempt
      (gather city (key_at 30) (value_at 30) waiting attempt)
gather-Gathered_example =
    gather-Gathered city 16 (key_at 30) (value_at 30) waiting attempt attempt-CanGather

split_records-IsSplit_example :
    (let r = split_records twenty 9 attempt.serving.real waiting.third in
      IsSplit city twenty 9 r.0 r.1 r.2)
split_records-IsSplit_example =
    split_records-IsSplit city twenty 9 attempt.serving.real waiting.third twenty-CanSplit.sound
      twenty-CanSplit.more twenty-CanSplit.left_room twenty-CanSplit.right_room
      twenty-CanSplit.left_target twenty-CanSplit.right_target

get-put_splitted_example :
    (get city checksum
      (key_at 41)
      (λ i. record {
        pending = requests_from i 50;
        node =
            owner city checksum outside
              (key_at 30)
              (value_at 30)
              waiting
              attempt
              9
              type10
              type12
              10
              12
              outside-Places
              (key_at 41);
        memory =
            after_split city checksum outside
              (key_at 30)
              (value_at 30)
              waiting
              attempt
              9
              type10
              type12
              10
              12
              outside-Places;
      })
      1).result
    ≡ some (lookup (key_at 41) (entries twenty))
get-put_splitted_example =
    get-put_splitted city checksum outside (key_at 30) (value_at 30) waiting attempt 9 type10 type12
      10 12 outside-Places twenty-CanSplit (omega arith) (omega arith) (omega arith)
      (omega (arith, twenty_records)) (omega arith) (omega arith) (key_at 41)
      (λ i. requests_from i 50) 1 refl (omega arith)

put12_morphs-ReadsBack_example :
    ReadsBack city checksum
      (key_at 30)
      (filled 12 type12 12)
      (put12 city checksum outside (key_at 30) (value_at 30) (winner 12 type12 12 2))
put12_morphs-ReadsBack_example =
    put12_morphs-ReadsBack city checksum outside (key_at 30) (value_at 30) (winner 12 type12 12 2)
      outside-Places (winner12-IsFull 2) (omega arith) refl

put14_morphs-ReadsBack_example :
    ReadsBack city checksum
      (key_at 30)
      (filled 14 type14 14)
      (put14 city checksum outside (key_at 30) (value_at 30) (winner 14 type14 14 1))
put14_morphs-ReadsBack_example =
    put14_morphs-ReadsBack city checksum outside (key_at 30) (value_at 30) (winner 14 type14 14 1)
      outside-Places (winner14-IsFull 1) (omega arith) refl
