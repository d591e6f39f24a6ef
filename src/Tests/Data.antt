-- ===== src/Tests/Data.antt =====
-- The concrete nodes and queues of the tests. `CityHash64` is the last byte plus one, and the checksum
-- the sum of the last bytes of keys and values.
use di_store.Base.{
  ℕ, zero, suc, ◌+◌, ◌≤◌, refl, true, List, [], ◌∷◌, ◌++◌, arith, Bytes, get_or, replicate, str_eq,
  str_lt, memcpy,
}
use di_store.DataLayer.{
  Kv, LinkedNode, LinkedNodeType, type10, type16, store, find_loop, find, write_slot, available,
  key_matches, update_loop, update, scan_loop, scan, crc_validate,
}
use di_store.DataLayer.Find.{Sized, lookup, occurrences, IsWellFormed}
use di_store.DataLayer.Store.{store-Stores}
use di_store.DataLayer.Scan.{from_key}
use di_store.Split.{
  first_unpicked, min_scan, select_min, pick_rounds, construct_reorder_map, push_record, share_out,
  split_records,
}
use di_store.Split.Records.{IsTarget}
use di_store.Compute.{Outside, write_node}
use di_store.Compute.Requests.{
  Request, drain_pending, help_pred, help_loop, help_others, serve_loop,
}
use di_store.Compute.WriteBack.{
  count_fingerprints, morph_type, morph_node, write_back_current, write_back_morphed,
  write_back_splitted,
}
use di_store.Compute.Read.{update_others, get_loop, get, update_won}
use di_store.Compute.Serve.{AllSized}
use di_store.Compute.Put.{
  Winner, gather, out_of_place_split_node, try_put_to_existing_node, put_morphed, eager_morph,
  put_splitted, put10, put12, put14, put16,
}
use di_store.Compute.SplitPut.{Places}

abbrev pub city : Bytes → ℕ
city key = get_or key 15 0 + 1

abbrev pub checksum : List Kv → ℕ
checksum [] = 0
checksum (p ∷ ps) = get_or p.key 15 0 + get_or p.value 15 0 + checksum ps

abbrev pub key_at : ℕ → Bytes
key_at n = replicate 15 97 ++ n ∷ []

abbrev pub value_at : ℕ → Bytes
value_at n = replicate 15 118 ++ n ∷ []

abbrev pub blank_pair : Kv
blank_pair = record { key = replicate 16 0; value = replicate 16 0 }

abbrev pub blank : LinkedNodeType → LinkedNode
blank t = record {
  llink = 0;
  rlink = 0;
  crc = 0;
  type = t;
  next = 0;
  fingerprints = replicate 16 0;
  pairs = replicate 16 blank_pair;
}

-- A node after n puts at capacity `cap`.
abbrev pub filled : ℕ → LinkedNodeType → ℕ → LinkedNode
filled cap t zero = blank t
filled cap t (suc n) = (store city cap (key_at n) (value_at n) (filled cap t n)).0

pub Sized-replicate : (n : ℕ) → Sized (replicate n blank_pair)
Sized-replicate zero = tt
Sized-replicate (suc n) = (refl, refl, Sized-replicate n)

pub filled-IsWellFormed :
    (cap : ℕ) (t : LinkedNodeType) (n : ℕ) → cap ≤ 16 → IsWellFormed city cap (filled cap t n)
unfolding occurrences
filled-IsWellFormed cap t zero h = record {
  room = omega arith;
  has_fingerprints = h;
  has_pairs = h;
  sized = Sized-replicate 16;
  fingered = tt;
  unique = λ j. omega arith;
}
filled-IsWellFormed cap t (suc n) h =
    (store-Stores city cap (filled cap t n) (filled-IsWellFormed cap t n h) (key_at n) (value_at n)
      refl refl).well_formed

-- Every name that a run needs unfolded.
unfoldable pub program : Unit {0}
unfolding str_eq str_lt memcpy find_loop find write_slot store available key_matches update_loop
    update scan_loop scan crc_validate help_pred help_loop help_others serve_loop drain_pending
    first_unpicked min_scan select_min pick_rounds construct_reorder_map push_record share_out
    split_records count_fingerprints morph_type morph_node write_back_current write_back_morphed
    write_back_splitted write_node gather out_of_place_split_node try_put_to_existing_node
    put_morphed eager_morph put_splitted put10 put12 put14 put16 update_others get_loop get
    update_won lookup occurrences from_key
program = tt

abbrev pub request_at : ℕ → Request
request_at n = record { tag = key_at n; content = value_at n }

abbrev pub requests_from : ℕ → ℕ → List Request
requests_from zero n = []
requests_from (suc k) n = request_at n ∷ requests_from k (suc n)

pub requests_from-AllSized : (k n : ℕ) → AllSized (requests_from k n)
requests_from-AllSized zero n = tt
requests_from-AllSized (suc k) n = (refl, refl, requests_from-AllSized k (suc n))

-- The winner of a node of n records at capacity `cap`, with k requests waiting. The predecessor is at
-- 1000, the node at 2000.
abbrev pub winner : ℕ → LinkedNodeType → ℕ → ℕ → Winner
winner cap t n k = record {
  serving = record {
    pred = filled 10 type10 3;
    real = filled cap t n;
    requests = requests_from k 40;
    replies = [];
  };
  third = blank type16;
  stack_pairs = replicate 5 blank_pair;
  node = record { anchor = key_at 0; data_node = 2000; type = t };
  backward = 1000;
  memory = λ p. blank type16;
}

abbrev pub outside : Outside
outside = record { left = 3000; right = 4000; completed = true; broken = λ p. blank type16 }

pub outside-Places : Places outside
outside-Places = record { completed = refl; there = refl; apart = λ e. absurd (omega arith) }

pub blank-IsTarget : IsTarget city (blank type16)
blank-IsTarget = record {
  has_fingerprints = omega arith;
  has_pairs = omega arith;
  sized = Sized-replicate 16;
}
