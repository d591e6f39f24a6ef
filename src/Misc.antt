-- ===== src/Misc.antt =====
-- src/components/misc: `send_all` and `recv_all`, which call `write` and `read` until all bytes are moved.
--
-- What the calls return is an argument. The bytes sent are on the wire in order, and the bytes read are
-- taken from it in order. `sent` and `got` are below 2 ^ 63, and the value returned is their last 32 bits.
pub mod Transfer
use di_store.Base.{
  ℕ, zero, suc, ◌-◌, ◌%◌, ◌^◌, Bool, min, List, [], ◌∷◌, ◌++◌, Bytes, ◌==◌, if◌then◌else◌, length,
  take, drop,
}

-- A call that fails, or moves at most this many of the bytes that it is asked for.
pub data Call : Type 0 where
  fails : Call
  moves : ℕ → Call

-- The int that is returned, as a word of 32 bits, or the calls given are over and the loop is not.
pub data Outcome : Type 0 where
  returns : ℕ → Outcome
  unfinished : Outcome

-- The conversion of a count, an ssize_t, to int
abbrev pub moved : ℕ → Outcome
moved n = returns (n % 2 ^ 32)

-- The -1 of a first call that failed
abbrev pub failed : Outcome
failed = returns (2 ^ 32 - 1)

pub record Transferred : Type 0 where
  pub outcome : Outcome
  pub bytes : Bytes

-- What is returned when a call fails after `bytes`.
abbrev pub broken_off : Bytes → Transferred
broken_off bytes = record {
  outcome = if length bytes == 0 then failed else moved (length bytes);
  bytes = bytes;
}

-- The loop of `send_all` with `rest` to write, after `sent`
unfoldable pub send_loop : Bytes → Bytes → List Call → Transferred
send_loop rest sent [] = record { outcome = unfinished; bytes = sent }
send_loop rest sent (fails ∷ calls) = broken_off sent
send_loop rest sent (moves n ∷ calls) =
    let sent' = sent ++ take n rest in
    let more = send_loop (drop n rest) sent' calls in
    if length (drop n rest) == 0
    then record { outcome = moved (length sent'); bytes = sent' }
    else more

unfoldable pub send_all : Bytes → List Call → Transferred
unfolding send_loop
send_all buf calls = send_loop buf [] calls

-- The loop of `recv_all` with `count` bytes to read from the wire, after `got`
unfoldable pub recv_loop : ℕ → Bytes → Bytes → List Call → Transferred
recv_loop count wire got [] = record { outcome = unfinished; bytes = got }
recv_loop count wire got (fails ∷ calls) = broken_off got
recv_loop count wire got (moves n ∷ calls) =
    let chunk = take (min n count) wire in
    let got' = got ++ chunk in
    let more = recv_loop (count - length chunk) (drop (min n count) wire) got' calls in
    if count - length chunk == 0
    then record { outcome = moved (length got'); bytes = got' }
    else more

unfoldable pub recv_all : ℕ → Bytes → List Call → Transferred
unfolding recv_loop
recv_all count wire calls = recv_loop count wire [] calls
