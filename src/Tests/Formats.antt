-- ===== src/Tests/Formats.antt =====
-- DiStoreString and the workloads at concrete strings and numbers.
use di_store.Base.{
  ◌≡◌, refl, true, false, [], ◌∷◌, ◌++◌, arith, Bytes, length, str_eq, str_lt, memcpy,
}
use di_store.DiStoreString.{
  DiStoreString, make_string, equals, differs, less, less_eq, greater, greater_eq, eq_loop,
  less_loop, greater_loop, inplace_update, equal, compare_with, strncmp, int_sign,
}
use di_store.DiStoreString.Order.{operators-to_string}
use di_store.Workload.{digits, pad_key, choose, next, next_recorded, get_all}

abbrev text : Bytes → DiStoreString
text bytes = record { valid = true; length = length bytes; content = bytes ++ 7 ∷ [] }

formats_program : Unit {0}
unfolding str_eq str_lt memcpy make_string equals differs less less_eq greater greater_eq eq_loop
    less_loop greater_loop inplace_update compare_with strncmp int_sign digits pad_key choose next
    next_recorded get_all
formats_program = tt

operators-to_string_example :
    (equals (text (1 ∷ 2 ∷ [])) (text (1 ∷ [])) ≡ false)
    × (differs (text (1 ∷ 2 ∷ [])) (text (1 ∷ [])) ≡ true)
    × (less (text (1 ∷ 2 ∷ [])) (text (1 ∷ [])) ≡ false)
    × (less_eq (text (1 ∷ 2 ∷ [])) (text (1 ∷ [])) ≡ false)
    × (greater (text (1 ∷ 2 ∷ [])) (text (1 ∷ [])) ≡ true)
    × (greater_eq (text (1 ∷ 2 ∷ [])) (text (1 ∷ [])) ≡ true)
unfolding formats_program
operators-to_string_example =
    operators-to_string (text (1 ∷ 2 ∷ [])) (text (1 ∷ [])) (omega arith) (omega arith)

abbrev three : DiStoreString
three = text (1 ∷ 2 ∷ 3 ∷ [])

-- behind a zero byte nothing is compared
compare_zero :
    (compare_with (text (1 ∷ 0 ∷ 2 ∷ [])) (1 ∷ 0 ∷ 3 ∷ []) 3 ≡ equal)
    × (equals (text (1 ∷ 0 ∷ 2 ∷ [])) (text (1 ∷ 0 ∷ 3 ∷ [])) ≡ false)
unfolding formats_program
compare_zero = (refl, refl)

-- `get_all` keeps one more result than it was short of, and that one twice
get_all_run : (get_all 5 (record { num_ops = 3; workload = 1 ∷ [] })).workload ≡ 1 ∷ 5 ∷ 5 ∷ []
unfolding formats_program
get_all_run = refl
