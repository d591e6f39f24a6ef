-- ===== src/Cluster/Dotted.antt =====
-- Addresses: printing and reading them.
use di_store.Base.{ℕ, ◌%◌, ◌^◌, ◌<◌, ◌≡◌, refl, some, [], ◌∷◌, ◌++◌, arith}
use mathlib.Core.List.{append-nil}
use di_store.Cluster.{
  Ipv4Addr, octet, point, finish, make_ipv4_addr, dotted, decimal_string, to_string,
}
use di_store.Cluster.Octets.{octet-decimal, atoi-decimal}

-- Of four numbers below 1000 with points between them, `make_ipv4_addr` makes an address whose bytes are the
-- numbers modulo 256: numbers from 256 on are not refused.
pub make_ipv4_addr-dotted :
    (a b c d : ℕ)
    → a < 1000
    → b < 1000
    → c < 1000
    → d < 1000
    → make_ipv4_addr (dotted a b c d)
      ≡ some (record {
        content_0 = a % 2 ^ 8;
        content_1 = b % 2 ^ 8;
        content_2 = c % 2 ^ 8;
        content_3 = d % 2 ^ 8;
      })
unfolding make_ipv4_addr point finish
make_ipv4_addr-dotted a b c d la lb lc ld =
    let rest_d : octet (decimal_string d) ≡ some (decimal_string d, []) =
      rw (append-nil (decimal_string d)) at (octet-decimal d [] ld tt) in
    let rest_c = octet-decimal c (46 ∷ decimal_string d) lc refl in
    let rest_b = octet-decimal b (46 ∷ (decimal_string c ++ (46 ∷ decimal_string d))) lb refl in
    let rest_a =
      octet-decimal a
        (46 ∷ (decimal_string b ++ (46 ∷ (decimal_string c ++ (46 ∷ decimal_string d))))) la refl in
    rw
      (
        rest_a,
        rest_b,
        rest_c,
        rest_d,
        atoi-decimal a la,
        atoi-decimal b lb,
        atoi-decimal c lc,
        atoi-decimal d ld,
      )
      refl

-- The string that `to_string` makes of an address of four bytes is read as that address.
pub make_ipv4_addr-to_string :
    (x : Ipv4Addr)
    → x.content_0 < 2 ^ 8
    → x.content_1 < 2 ^ 8
    → x.content_2 < 2 ^ 8
    → x.content_3 < 2 ^ 8
    → make_ipv4_addr (to_string x) ≡ some x
unfolding to_string
make_ipv4_addr-to_string x p0 p1 p2 p3 =
    let read =
      make_ipv4_addr-dotted x.content_0 x.content_1 x.content_2 x.content_3 (omega arith)
        (omega arith) (omega arith) (omega arith) in
    let e0 : x.content_0 % 2 ^ 8 ≡ x.content_0 = omega arith in
    let e1 : x.content_1 % 2 ^ 8 ≡ x.content_1 = omega arith in
    let e2 : x.content_2 % 2 ^ 8 ≡ x.content_2 = omega arith in
    let e3 : x.content_3 % 2 ^ 8 ≡ x.content_3 = omega arith in rw (e0, e1, e2, e3) at read
