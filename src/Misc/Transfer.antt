-- ===== src/Misc/Transfer.antt =====
-- All bytes are moved, however the calls cut them.
use mathlib.Core.List.{append_assoc, append-nil}
use di_store.Base.{
  ℕ, zero, suc, ◌-◌, ◌%◌, ◌^◌, ◌≤◌, ◌<◌, ◌≡◌, refl, sym, ap, ◌∙◌, true, false, min, List, [], ◌∷◌,
  ◌++◌, Bytes, arith, ◌==◌, inl, inr, Bool-cases, length, take, drop, length-take, length-drop,
}
use di_store.Misc.{
  Call, fails, moves, moved, returns, unfinished, Transferred, send_loop, send_all, recv_loop,
  recv_all,
}

-- No call fails, and each moves a byte at least.
abbrev pub AreSteady : List Call → Type 0
AreSteady [] = Unit
AreSteady (fails ∷ calls) = ⊥
AreSteady (moves n ∷ calls) = (1 ≤ n) × AreSteady calls

take-drop : (n : ℕ) (xs : Bytes) → take n xs ++ drop n xs ≡ xs
take-drop zero xs = refl
take-drop (suc n) [] = refl
take-drop (suc n) (x ∷ xs) = ap (λ (t : Bytes). x ∷ t) (take-drop n xs)

-- What is moved and what is left make up the whole.
parts_join : (n : ℕ) (done rest : Bytes) → (done ++ take n rest) ++ drop n rest ≡ done ++ rest
parts_join n done rest =
    append_assoc done (take n rest) (drop n rest) ∙ ap (λ (t : Bytes). done ++ t) (take-drop n rest)

nil_of_length : (xs : Bytes) → (length xs == 0) ≡ true → xs ≡ []
nil_of_length [] h = refl
nil_of_length (x ∷ xs) h = absurd (ground arith)

rest_moved :
    (n : ℕ) (done rest : Bytes)
    → (length (drop n rest) == 0) ≡ true
    → done ++ take n rest ≡ done ++ rest
rest_moved n done rest h =
    let none_left = nil_of_length (drop n rest) h in
    sym (append-nil (done ++ take n rest)) ∙ (rw none_left at (parts_join n done rest))

some_left : (xs : Bytes) → (length xs == 0) ≡ false → 1 ≤ length xs
some_left [] h = absurd (cc)
some_left (x ∷ xs) h = omega arith

abbrev whole : Bytes → Transferred
whole bytes = record { outcome = moved (length bytes); bytes = bytes }

send_loop-whole :
    (calls : List Call) (rest sent : Bytes)
    → AreSteady calls
    → 1 ≤ length calls
    → length rest ≤ length calls
    → send_loop rest sent calls ≡ whole (sent ++ rest)
unfolding send_loop
send_loop-whole [] rest sent h one enough = absurd (omega arith)
send_loop-whole (fails ∷ calls) rest sent h one enough = absurd h
send_loop-whole (moves n ∷ calls) rest sent (pos, h) one enough =
    elim (Bool-cases (length (drop n rest) == 0)) [
      | inl all ↦ rw all (ap whole (rest_moved n sent rest all))
      | inr left ↦
          let l = length-drop n rest in
          let more = some_left (drop n rest) left in
          rw left (
            send_loop-whole calls (drop n rest) (sent ++ take n rest) h (omega arith) (omega arith)
            ∙ ap whole (parts_join n sent rest))
    ]

take-min : (n : ℕ) (xs ys : Bytes) → take (min n (length xs)) (xs ++ ys) ≡ take n xs
take-min zero xs ys = let e : min 0 (length xs) ≡ 0 = omega arith in rw e refl
take-min (suc n) [] ys = let e : min (suc n) 0 ≡ 0 = omega arith in rw e refl
take-min (suc n) (x ∷ xs) ys =
    let e : min (suc n) (suc (length xs)) ≡ suc (min n (length xs)) = omega arith in
    rw e (ap (λ (t : Bytes). x ∷ t) (take-min n xs ys))

drop-min : (n : ℕ) (xs ys : Bytes) → drop (min n (length xs)) (xs ++ ys) ≡ drop n xs ++ ys
drop-min zero xs ys = let e : min 0 (length xs) ≡ 0 = omega arith in rw e refl
drop-min (suc n) [] ys = let e : min (suc n) 0 ≡ 0 = omega arith in rw e refl
drop-min (suc n) (x ∷ xs) ys =
    let e : min (suc n) (suc (length xs)) ≡ suc (min n (length xs)) = omega arith in
    rw e (drop-min n xs ys)

recv_loop-whole :
    (calls : List Call) (rest wire got : Bytes)
    → AreSteady calls
    → 1 ≤ length calls
    → length rest ≤ length calls
    → recv_loop (length rest) (rest ++ wire) got calls ≡ whole (got ++ rest)
unfolding recv_loop
recv_loop-whole [] rest wire got h one enough = absurd (omega arith)
recv_loop-whole (fails ∷ calls) rest wire got h one enough = absurd h
recv_loop-whole (moves n ∷ calls) rest wire got (pos, h) one enough =
    let l = length-drop n rest in
    let t = length-take n rest in
    let count : length rest - length (take n rest) ≡ length (drop n rest) = omega arith in
    rw (take-min n rest wire, drop-min n rest wire, count)
      (elim (Bool-cases (length (drop n rest) == 0)) [
        | inl all ↦ rw all (ap whole (rest_moved n got rest all))
        | inr left ↦
            let more = some_left (drop n rest) left in
            rw left (
              recv_loop-whole calls (drop n rest) wire (got ++ take n rest) h (omega arith)
                (omega arith)
              ∙ ap whole (parts_join n got rest))
      ])

-- A buffer of at least one and fewer than 2 ^ 31 bytes, sent and received by calls that move a byte each at least, with as many calls
-- as it has bytes on either side: `send_all` and `recv_all` return its length, and the bytes received are
-- the buffer's, whatever the calls cut it into.
pub recv_all-send_all :
    (buf : Bytes) (sending receiving : List Call)
    → 1 ≤ length buf
    → length buf < 2 ^ 31
    → AreSteady sending
    → AreSteady receiving
    → length buf ≤ length sending
    → length buf ≤ length receiving
    → ((send_all buf sending).outcome ≡ returns (length buf))
      × (recv_all (length buf) (send_all buf sending).bytes receiving
          ≡ record { outcome = returns (length buf); bytes = buf })
unfolding send_all recv_all
recv_all-send_all buf sending receiving some small s r long_s long_r =
    let same : length buf % 2 ^ 32 ≡ length buf = omega arith in
    let sent = send_loop-whole sending buf [] s (omega arith) long_s in
    let received = recv_loop-whole receiving buf [] [] r (omega arith) long_r in
    rw sent (ap returns same, rw (append-nil, same) at received)

-- Reads from a peer that sent `wire`, less than what is asked for, and closed the connection.
recv_loop-closed :
    (calls : List Call) (count : ℕ) (wire got : Bytes)
    → AreSteady calls
    → length wire < count
    → ((recv_loop count wire got calls).outcome ≡ unfinished)
      × (length wire ≤ length calls → (recv_loop count wire got calls).bytes ≡ got ++ wire)
unfolding recv_loop
recv_loop-closed [] count wire got h short = (
  refl,
  λ over.
      let none_left : wire ≡ [] = nil_of_length wire (ground arith) in
      rw none_left (sym (append-nil got)),
)
recv_loop-closed (fails ∷ calls) count wire got h short = absurd h
recv_loop-closed (moves n ∷ calls) count wire got (pos, h) short =
    let k = min n count in
    let t = length-take k wire in
    let d = length-drop k wire in
    let go_on : (count - length (take k wire) == 0) ≡ false = ground arith in
    let (open_end, all) =
      recv_loop-closed calls (count - length (take k wire)) (drop k wire) (got ++ take k wire) h
        (omega arith) in
    rw go_on (open_end, λ over. all (omega arith) ∙ parts_join k got wire)

-- A peer that sends fewer bytes than `recv_all` is asked for, and then closes the connection, so that
-- `read` returns zero bytes once those are taken: however the calls cut what was sent, and however many
-- calls are made, the loop does not end. With as many calls as bytes it has them all by then.
pub recv_all-closed :
    (sent : Bytes) (count : ℕ) (calls : List Call)
    → length sent < count
    → AreSteady calls
    → ((recv_all count sent calls).outcome ≡ unfinished)
      × (length sent ≤ length calls → (recv_all count sent calls).bytes ≡ sent)
unfolding recv_all
recv_all-closed sent count calls short h = recv_loop-closed calls count sent [] h short
