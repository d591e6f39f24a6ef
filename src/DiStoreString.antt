-- ===== src/DiStoreString.antt =====
-- src/components/kv/kv.hpp: DiStoreString.
--
-- `content` is the memory from `content[0]` on, of which the first `length` bytes are the string. Loops
-- over two strings walk both memories together.
pub mod Order
pub mod Update
use di_store.Base.{
  ℕ, zero, suc, ◌+◌, ◌-◌, ◌*◌, ◌%◌, ◌^◌, min, Bool, true, false, not, List, [], ◌∷◌, Bytes, memcpy,
  ltb, leb, ◌==◌, if◌then◌else◌, take,
}

-- `DiStoreStringHeader`, with its bits as fields, and the content
pub record DiStoreString : Type 0 where
  pub valid : Bool
  pub length : ℕ
  pub content : Bytes

-- A write to the 15 bits of `length`.
abbrev pub to_length : ℕ → ℕ
to_length size = size % 2 ^ 15

-- `make_string` on the memory `chunk`
unfoldable pub make_string : Bytes → Bytes → ℕ → DiStoreString
make_string chunk bytes size = record {
  valid = true;
  length = to_length size;
  content = memcpy chunk (take size bytes);
}

-- `to_string`
abbrev pub to_string : DiStoreString → Bytes
to_string s = take s.length s.content

-- `operator==`
unfoldable pub eq_loop : ℕ → Bytes → Bytes → Bool
eq_loop zero xs ys = true
eq_loop (suc n) (x ∷ xs) (y ∷ ys) = let rest = eq_loop n xs ys in if x == y then rest else false
eq_loop (suc n) _ _ = false

unfoldable pub equals : DiStoreString → DiStoreString → Bool
equals a b = if a.length == b.length then eq_loop a.length a.content b.content else false

-- `operator!=`
unfoldable pub differs : DiStoreString → DiStoreString → Bool
differs a b = not (equals a b)

-- The loop of `operator<` and `operator<=`; `last` is what they return after it.
unfoldable pub less_loop : ℕ → Bytes → Bytes → Bool → Bool
less_loop zero xs ys last = last
less_loop (suc n) (x ∷ xs) (y ∷ ys) last =
    let rest = less_loop n xs ys last in if ltb y x then false else if ltb x y then true else rest
less_loop (suc n) _ _ last = false

-- The loop of `operator>` and `operator>=`.
unfoldable pub greater_loop : ℕ → Bytes → Bytes → Bool → Bool
greater_loop zero xs ys last = last
greater_loop (suc n) (x ∷ xs) (y ∷ ys) last =
    let rest = greater_loop n xs ys last in
    if ltb y x then true else if ltb x y then false else rest
greater_loop (suc n) _ _ last = false

unfoldable pub less : DiStoreString → DiStoreString → Bool
less a b = less_loop (min a.length b.length) a.content b.content (ltb a.length b.length)

unfoldable pub less_eq : DiStoreString → DiStoreString → Bool
less_eq a b = less_loop (min a.length b.length) a.content b.content (leb a.length b.length)

unfoldable pub greater : DiStoreString → DiStoreString → Bool
greater a b = greater_loop (min a.length b.length) a.content b.content (ltb b.length a.length)

unfoldable pub greater_eq : DiStoreString → DiStoreString → Bool
greater_eq a b = greater_loop (min a.length b.length) a.content b.content (leb b.length a.length)

-- The sign of an `int`.
pub data Sign : Type 0 where
  negative equal positive : Sign

-- The sign of a `size_t` converted to an `int` of 32 bits.
unfoldable pub int_sign : ℕ → Sign
int_sign n =
    let low = n % 2 ^ 32 in
    if low == 0 then equal else if ltb low (2 ^ 31) then positive else negative

-- `strncmp`: up to `n` bytes, and none after a zero byte
unfoldable pub strncmp : ℕ → Bytes → Bytes → Sign
strncmp zero xs ys = equal
strncmp (suc n) (x ∷ xs) (y ∷ ys) =
    let rest = strncmp n xs ys in
    if ltb x y then negative else if ltb y x then positive else if x == 0 then equal else rest
strncmp (suc n) _ _ = equal

-- `if (ret != 0) return ret; else return other;`
abbrev pub or_else : Sign → Sign → Sign
or_else equal other = other
or_else negative other = negative
or_else positive other = positive

-- `compare`; `size() - r_sz` is a `size_t`
unfoldable pub compare_with : DiStoreString → Bytes → ℕ → Sign
compare_with s rhs r_sz =
    or_else (strncmp (min s.length r_sz) s.content rhs)
      (int_sign ((s.length + 2 ^ 64 - r_sz) % 2 ^ 64))

-- `inplace_update`
unfoldable pub inplace_update : Bytes → ℕ → DiStoreString → DiStoreString × Bool
inplace_update bytes size s =
    if ltb s.length size
    then (s, false)
    else (record s { content = memcpy s.content (take size bytes); length = to_length size }, true)
