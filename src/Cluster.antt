-- ===== src/Cluster.antt =====
-- src/components/node: addresses and descriptions of nodes.
--
-- `make_ipv4_addr` matches the whole string against four groups of one to three digits with points between
-- them; as a point is no digit, a group is the longest run of digits. What std::regex finds in a line of a
-- configuration file is an argument of `initialize`.
pub mod Octets
pub mod Dotted
pub mod Config
use di_store.Base.{
  ℕ, ◌+◌, ◌-◌, ◌*◌, ◌%◌, ◌^◌, Bool, true, false, ◌&&◌, Option, none, some, List, [], ◌∷◌, ◌++◌,
  Bytes, ltb, leb, ◌==◌, if◌then◌else◌, length,
}
use di_store.Workload.{digits}

infixl 5 ◌>>=◌
abbrev pub ◌>>=◌ {ℓ κ} : {A : Type ℓ} {B : Type κ} → Option A → (A → Option B) → Option B
none >>= f = none
some a >>= f = f a

pub record Ipv4Addr : Type 0 where
  pub content_0 : ℕ
  pub content_1 : ℕ
  pub content_2 : ℕ
  pub content_3 : ℕ

-- `\d`
abbrev pub is_digit : ℕ → Bool
is_digit c = leb 48 c && leb c 57

-- `\d*`, and what follows
unfoldable pub span_digits : Bytes → Bytes × Bytes
span_digits [] = ([], [])
span_digits (c ∷ cs) =
    let (ds, rest) = span_digits cs in if is_digit c then (c ∷ ds, rest) else ([], c ∷ cs)

-- `(\d{1,3})`, where no digit follows
unfoldable pub octet : Bytes → Option (Bytes × Bytes)
octet s =
    let (ds, rest) = span_digits s in
    if leb 1 (length ds) && leb (length ds) 3 then some (ds, rest) else none

-- `\.`
unfoldable pub point : Bytes → Option Bytes
point [] = none
point (c ∷ cs) = if c == 46 then some cs else none

-- The end of the string, which regex_match asks for.
unfoldable pub finish : Bytes → Option (Unit {0})
finish [] = some tt
finish (c ∷ cs) = none

-- `atoi` of a string of digits
abbrev pub atoi_from : ℕ → Bytes → ℕ
atoi_from n [] = n
atoi_from n (c ∷ cs) = atoi_from (10 * n + (c - 48)) cs

abbrev pub atoi : Bytes → ℕ
atoi s = atoi_from 0 s

-- A `uint8_t` takes the number that `atoi` returns.
unfoldable pub make_ipv4_addr : Bytes → Option Ipv4Addr
make_ipv4_addr s0 = do
  (a, s1) ← octet s0
  s2 ← point s1
  (b, s3) ← octet s2
  s4 ← point s3
  (c, s5) ← octet s4
  s6 ← point s5
  (d, s7) ← octet s6
  u ← finish s7
  some (record {
    content_0 = atoi a % 2 ^ 8;
    content_1 = atoi b % 2 ^ 8;
    content_2 = atoi c % 2 ^ 8;
    content_3 = atoi d % 2 ^ 8;
  })

-- `std::to_string` of a number with at most three digits
abbrev pub decimal_string : ℕ → Bytes
decimal_string n = digits 2 n

-- Four numbers with points between them.
abbrev pub dotted : ℕ → ℕ → ℕ → ℕ → Bytes
dotted a b c d =
    decimal_string a
    ++ (46 ∷ (decimal_string b ++ (46 ∷ (decimal_string c ++ (46 ∷ decimal_string d)))))

unfoldable pub to_string : Ipv4Addr → Bytes
to_string x = dotted x.content_0 x.content_1 x.content_2 x.content_3

-- The port is an `int` that is not negative.
unfoldable pub to_uri : Ipv4Addr → ℕ → Bytes
unfolding to_string
to_uri x port = to_string x ++ 58 ∷ digits 9 port
