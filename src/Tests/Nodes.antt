-- ===== src/Tests/Nodes.antt =====
-- The theorems on one node and on its split, at concrete nodes.
use di_store.Base.{
  ◌<◌, ◌≡◌, ◌&&◌, refl, false, none, some, List, [], ◌∷◌, ◌++◌, arith, Bytes, str_eq, ltb, length,
  get_or, set, take, replicate, if◌then◌else◌,
}
use di_store.DataLayer.{LinkedNode, type10, type12, find, store, update, scan}
use di_store.DataLayer.Find.{entries, or_else, IsWellFormed}
use di_store.DataLayer.Store.{Stores, store-Stores, find-store}
use di_store.DataLayer.Update.{is_some, find-update}
use di_store.DataLayer.Scan.{from_key, scan-take}
use di_store.Split.{select_min, construct_reorder_map}
use di_store.Split.Rounds.{IsCut, construct_reorder_map-IsCut}
use di_store.Compute.Morph.{NonZero, zeros}
use di_store.Tests.Data.{city, key_at, value_at, filled, filled-IsWellFormed, program}

abbrev ten : LinkedNode
ten = filled 12 type12 10

ten-IsWellFormed : IsWellFormed city 12 ten
ten-IsWellFormed = filled-IsWellFormed 12 type12 10 (omega arith)

reads_third : find city ten (key_at 3) ≡ some (value_at 3)
unfolding program
reads_third = refl

store-Stores_example :
    Stores city 12 ten ten-IsWellFormed
      (key_at 30)
      (value_at 31)
      refl
      refl
      (store city 12 (key_at 30) (value_at 31) ten)
store-Stores_example = store-Stores city 12 ten ten-IsWellFormed (key_at 30) (value_at 31) refl refl

find-store_example :
    find city (store city 12 (key_at 30) (value_at 31) ten).0 (key_at 30)
    ≡ or_else
        (find city ten (key_at 30))
        (if ltb ten.next 12 && str_eq (key_at 30) (key_at 30) then some (value_at 31) else none)
find-store_example =
    find-store city 12 ten ten-IsWellFormed (key_at 30) (value_at 31) refl refl (key_at 30) refl

find-update_example :
    ((update city (key_at 3) (value_at 31) ten).1 ≡ is_some (find city ten (key_at 3)))
    × (find city (update city (key_at 3) (value_at 31) ten).0 (key_at 4) ≡ (
        if str_eq (key_at 4) (key_at 3) && is_some (find city ten (key_at 3))
        then some (value_at 31)
        else find city ten (key_at 4)))
find-update_example =
    find-update city (key_at 3) (value_at 31) refl refl 12 ten ten-IsWellFormed (key_at 4) refl

scan-take_example : scan (key_at 4) 3 [] ten ≡ (
  length (take 3 (from_key (key_at 4) (entries ten))),
  [] ++ take 3 (from_key (key_at 4) (entries ten)),
)
scan-take_example =
    scan-take (key_at 4) refl 3 (omega arith) ten [] (unfold program in omega arith)
      ten-IsWellFormed.sized

scans_three : scan (key_at 4) 3 [] ten ≡ (3, value_at 4 ∷ value_at 5 ∷ value_at 6 ∷ [])
unfolding program
scans_three = refl

abbrev some_keys : List Bytes
some_keys = key_at 5 ∷ key_at 2 ∷ key_at 9 ∷ key_at 4 ∷ []

picks_second : select_min some_keys 0 (replicate 32 false) ≡ 1
unfolding program
picks_second = refl

construct_reorder_map-IsCut_example :
    (let r = construct_reorder_map some_keys 2 (replicate 32 false) (replicate 32 0) in
      let a = get_or r.reorder_map 2 0 in
      (a ≡ r.target) × IsCut some_keys 2 a (set r.picked a false))
construct_reorder_map-IsCut_example =
    construct_reorder_map-IsCut some_keys 2 32 (omega arith) (omega arith)

abbrev three : LinkedNode
three = filled 10 type10 3

three_nonzero : NonZero three.next three.fingerprints
unfolding program
three_nonzero =
    (λ e. absurd (omega arith), (λ e. absurd (omega arith), (λ e. absurd (omega arith), tt)))

-- The last byte 255 has the fingerprint zero.
abbrev eleven : LinkedNode
eleven = (store city 12 (key_at 255) (value_at 31) ten).0

eleven_zeros : 0 < zeros eleven.next eleven.fingerprints
unfolding program
eleven_zeros = omega arith
