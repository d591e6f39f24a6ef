-- ===== src/Workload.antt =====
-- src/components/workload/workload.hpp: the operations of the YCSB workloads.
--
-- What the two generators return is an argument: the Zipf generator is another project's, and the uniform
-- one is the standard library's.
pub mod Keys
use mathlib.Core.Option
use di_store.Base.{
  ℕ, zero, suc, ◌+◌, ◌-◌, ◌*◌, ◌/◌, ◌%◌, ◌^◌, Option, none, some, List, [], ◌∷◌, ◌++◌, Bytes, ltb,
  leb, if◌then◌else◌, length, replicate,
}

-- `Constants::KEY_SIZE`
abbrev pub key_size : ℕ
key_size = 16

pub data YcsbWorkloadType : Type 0 where
  ycsb_a ycsb_b ycsb_c ycsb_d ycsb_e ycsb_l ycsb_r : YcsbWorkloadType

pub data YcsbOperation : Type 0 where
  op_insert op_update op_search op_scan : YcsbOperation

-- `std::to_string` of a number below 10 ^ suc `fuel`: a `uint64_t` has at most 20 digits.
unfoldable pub digits : ℕ → ℕ → Bytes
digits zero n = (48 + n % 10) ∷ []
digits (suc fuel) n =
    let rest = digits fuel (n / 10) in
    if ltb n 10 then (48 + n) ∷ [] else rest ++ (48 + n % 10) ∷ []

-- `k.insert(0, KEY_SIZE - k.size(), '0')`: the count is a `size_t`, and one that wraps around throws.
unfoldable pub pad_key : Bytes → Option Bytes
pad_key k = if leb (length k) key_size then some (replicate (key_size - length k) 48 ++ k) else none

-- The switch of `YCSBWorkload::next`.
unfoldable pub choose : YcsbWorkloadType → ℕ → YcsbOperation
choose ycsb_a op = if ltb op 49 then op_update else op_search
choose ycsb_b op = if ltb op 4 then op_update else op_search
choose ycsb_c op = op_search
choose ycsb_d op = if ltb op 4 then op_insert else op_search
choose ycsb_e op = if ltb op 4 then op_insert else op_scan
choose ycsb_l op = op_insert
choose ycsb_r op = op_scan

-- `YCSBWorkload::next`, of what `load_generator` and `op_generator` return; nothing if it throws
unfoldable pub next : YcsbWorkloadType → ℕ → ℕ → Option (YcsbOperation × Bytes)
next type load op = Option.map (λ k. (choose type op, k)) (pad_key (digits 19 load))

-- `BenchmarkWorkload`
pub record BenchmarkWorkload : Type 0 where
  pub num_ops : ℕ
  pub workload : List ℕ

-- `BenchmarkWorkload::next`, of what the generator returns
unfoldable pub next_recorded : ℕ → BenchmarkWorkload → ℕ × BenchmarkWorkload
next_recorded r b = (r, record b { workload = b.workload ++ r ∷ [] })

-- `BenchmarkWorkload::get_all`, whose generator is called once at most
unfoldable pub get_all : ℕ → BenchmarkWorkload → BenchmarkWorkload
get_all r b =
    let (v, after) = next_recorded r b in
    if ltb (length b.workload) b.num_ops
    then record after { workload = after.workload ++ v ∷ [] }
    else b
