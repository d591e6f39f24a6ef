-- ===== src/Rdma/Wire.antt =====
-- Certificates over the wire.
use mathlib.Core.List.{append_assoc, append-nil}
use di_store.Base.{
  ℕ, zero, suc, ◌+◌, ◌*◌, ◌/◌, ◌%◌, ◌^◌, ◌<◌, ◌≡◌, refl, sym, ap, ◌∙◌, Bool, true, false, Option,
  none, some, [], ◌∷◌, ◌++◌, Bytes, arith, length, length-append, All, All-append,
}
use di_store.Rdma.{
  Certificate, ok, to_bytes, of_bytes, backwards, swap_bytes, to_wire, from_wire,
  exchange_certificate,
}

backwards-append : (xs ys : Bytes) → backwards (xs ++ ys) ≡ backwards ys ++ backwards xs
unfolding backwards
backwards-append [] ys = sym (append-nil (backwards ys))
backwards-append (x ∷ xs) ys =
    rw (backwards-append xs ys) (append_assoc (backwards ys) (backwards xs) (x ∷ []))

backwards_twice : (xs : Bytes) → backwards (backwards xs) ≡ xs
unfolding backwards
backwards_twice [] = refl
backwards_twice (x ∷ xs) =
    backwards-append (backwards xs) (x ∷ []) ∙ ap (λ (t : Bytes). x ∷ t) (backwards_twice xs)

length-backwards : (xs : Bytes) → length (backwards xs) ≡ length xs
unfolding backwards
length-backwards [] = refl
length-backwards (x ∷ xs) =
    omega (arith, length-append (backwards xs) (x ∷ []), length-backwards xs)

abbrev AreBytes : Bytes → Type 0
AreBytes bs = All (λ b. b < 256) bs

backwards-AreBytes : (xs : Bytes) → AreBytes xs → AreBytes (backwards xs)
unfolding backwards
backwards-AreBytes [] a = tt
backwards-AreBytes (x ∷ xs) a =
    All-append (λ b. b < 256) (backwards xs) (x ∷ []) (backwards-AreBytes xs a.1) (a.0, tt)

to_bytes-AreBytes : (n x : ℕ) → AreBytes (to_bytes n x)
unfolding to_bytes
to_bytes-AreBytes zero x = tt
to_bytes-AreBytes (suc n) x = (omega arith, to_bytes-AreBytes n (x / 256))

length-to_bytes : (n x : ℕ) → length (to_bytes n x) ≡ n
unfolding to_bytes
length-to_bytes zero x = refl
length-to_bytes (suc n) x = ap suc (length-to_bytes n (x / 256))

to_bytes-of_bytes : (bs : Bytes) → AreBytes bs → to_bytes (length bs) (of_bytes bs) ≡ bs
unfolding to_bytes of_bytes
to_bytes-of_bytes [] a = refl
to_bytes-of_bytes (b ∷ bs) a =
    let lt = a.0 in
    let low : (b + 256 * of_bytes bs) % 256 ≡ b = omega arith in
    let high : (b + 256 * of_bytes bs) / 256 ≡ of_bytes bs = omega arith in
    rw (low, high, to_bytes-of_bytes bs a.1) refl

abbrev pub words : ℕ → ℕ
words zero = 1
words (suc n) = 256 * words n

of_bytes-to_bytes : (n x : ℕ) → x < words n → of_bytes (to_bytes n x) ≡ x
unfolding to_bytes of_bytes
of_bytes-to_bytes zero x lt = omega arith
of_bytes-to_bytes (suc n) x lt = let ih = of_bytes-to_bytes n (x / 256) (omega arith) in omega arith

swap_twice : (n x : ℕ) → x < words n → swap_bytes n (swap_bytes n x) ≡ x
swap_twice n x lt =
    let bs = backwards (to_bytes n x) in
    let size : length bs ≡ n = length-backwards (to_bytes n x) ∙ length-to_bytes n x in
    let back : to_bytes n (of_bytes bs) ≡ bs =
      rw size at
        (to_bytes-of_bytes bs (backwards-AreBytes (to_bytes n x) (to_bytes-AreBytes n x))) in
    rw (back, backwards_twice (to_bytes n x)) (of_bytes-to_bytes n x lt)

-- The fields fit their words.
abbrev pub IsCertificate : Certificate → Type 0
IsCertificate c = (c.addr < 2 ^ 64) × (c.rkey < 2 ^ 32) × (c.qp_num < 2 ^ 32) × (c.lid < 2 ^ 16)

-- The number that bytes are with the highest first, the order of the network.
abbrev pub network_value : ℕ → Bytes → ℕ
network_value high [] = high
network_value high (b ∷ bs) = network_value (256 * high + b) bs

network_value-append :
    (high : ℕ) (bs : Bytes) (b : ℕ)
    → network_value high (bs ++ b ∷ []) ≡ 256 * network_value high bs + b
network_value-append high [] b = refl
network_value-append high (c ∷ bs) b = network_value-append (256 * high + c) bs b

network_value-backwards : (bs : Bytes) → network_value 0 (backwards bs) ≡ of_bytes bs
unfolding backwards of_bytes
network_value-backwards [] = refl
network_value-backwards (b ∷ bs) =
    network_value-append 0 (backwards bs) b ∙ (let ih = network_value-backwards bs in omega arith)

-- A word with its bytes swapped has in memory the bytes of the word, the highest first.
network_value-swap_bytes :
    (n x : ℕ) → x < words n → network_value 0 (to_bytes n (swap_bytes n x)) ≡ x
network_value-swap_bytes n x lt =
    let bs = backwards (to_bytes n x) in
    let size : length bs ≡ n = length-backwards (to_bytes n x) ∙ length-to_bytes n x in
    let back : to_bytes n (of_bytes bs) ≡ bs =
      rw size at
        (to_bytes-of_bytes bs (backwards-AreBytes (to_bytes n x) (to_bytes-AreBytes n x))) in
    rw back (network_value-backwards (to_bytes n x) ∙ of_bytes-to_bytes n x lt)

-- The bytes of `sent` in memory are those of `c` in the order of the network.
pub record InNetworkOrder (c sent : Certificate) : Type 0 where
  pub addr : network_value 0 (to_bytes 8 sent.addr) ≡ c.addr
  pub rkey : network_value 0 (to_bytes 4 sent.rkey) ≡ c.rkey
  pub qp_num : network_value 0 (to_bytes 4 sent.qp_num) ≡ c.qp_num
  pub lid : network_value 0 (to_bytes 2 sent.lid) ≡ c.lid
  pub gid : sent.gid ≡ c.gid

to_wire-InNetworkOrder : (c : Certificate) → IsCertificate c → InNetworkOrder c (to_wire c)
to_wire-InNetworkOrder c (c0, c1, c2, c3) = record {
  addr = network_value-swap_bytes 8 c.addr c0;
  rkey = network_value-swap_bytes 4 c.rkey c1;
  qp_num = network_value-swap_bytes 4 c.qp_num c2;
  lid = network_value-swap_bytes 2 c.lid c3;
  gid = refl;
}

from_wire-to_wire : (c : Certificate) → IsCertificate c → from_wire (to_wire c) ≡ c
from_wire-to_wire c (c0, c1, c2, c3) =
    rw
      (
        swap_twice 8 c.addr c0,
        swap_twice 4 c.rkey c1,
        swap_twice 4 c.qp_num c2,
        swap_twice 2 c.lid c3,
      )
      refl

written-to_wire :
    (a remote : Certificate) (wrote : Bool) (tmp : Option Certificate)
    → (exchange_certificate a remote wrote tmp).written ≡ some (to_wire a)
unfolding exchange_certificate
written-to_wire a remote false tmp = refl
written-to_wire a remote true none = refl
written-to_wire a remote true (some tmp) = refl

written-InNetworkOrder :
    (a remote : Certificate) (wrote : Bool) (tmp : Option Certificate)
    → IsCertificate a
    → (sent : Certificate) × ((exchange_certificate a remote wrote tmp).written ≡ some sent)
      × InNetworkOrder a sent
written-InNetworkOrder a remote wrote tmp h =
    (to_wire a, written-to_wire a remote wrote tmp, to_wire-InNetworkOrder a h)

-- What a context writes has the bytes of its own certificate in the order of the network, whatever the
-- calls return. When each of two contexts writes all and reads what the other gave to `write`, both return
-- ok, each has the other's certificate as its `remote`, whatever that was before, and keeps its own.
pub exchange_certificate-written :
    (a b before_a before_b : Certificate) (wrote : Bool) (tmp : Option Certificate)
    → IsCertificate a
    → IsCertificate b
    → ((sent : Certificate) × ((exchange_certificate a before_a wrote tmp).written ≡ some sent)
        × InNetworkOrder a sent)
      × (let from_a = (exchange_certificate a before_a wrote tmp).written in
          let at_b = exchange_certificate b before_b true from_a in
          let at_a = exchange_certificate a before_a true at_b.written in
          (at_b.status ≡ ok)
          × (at_b.remote ≡ a)
          × (at_b.local ≡ b)
          × (at_a.status ≡ ok)
          × (at_a.remote ≡ b)
          × (at_a.local ≡ a)
          × (at_a.written ≡ from_a))
unfolding exchange_certificate
exchange_certificate-written a b before_a before_b wrote tmp ha hb = (
  written-InNetworkOrder a before_a wrote tmp ha,
  (let from_a : (exchange_certificate a before_a wrote tmp).written ≡ some (to_wire a) =
        written-to_wire a before_a wrote tmp in
      rw from_a (refl, from_wire-to_wire a ha, refl, refl, from_wire-to_wire b hb, refl, refl)),
)
