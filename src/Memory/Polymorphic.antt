-- ===== src/Memory/Polymorphic.antt =====
-- src/components/memory/remote_memory/remote_memory.hpp, `PolymorphicPointer`: the union of a RemotePointer
-- and a local pointer, which is the 64-bit number that both are.
use di_store.Base.{
  ℕ, ◌+◌, ◌*◌, ◌/◌, ◌%◌, ◌^◌, ◌<◌, ◌≡◌, refl, Bool, true, false, not, arith, ◌==◌, if◌then◌else◌,
}
use di_store.Compute.{is_nullptr}
use di_store.Memory.Pointer.{make_remote_pointer, is_remote_pointer, get_as}

-- `make_polymorphic_pointer`, the constructors and the assignments, from either
abbrev pub of_local : ℕ → ℕ
of_local lo = lo

abbrev pub of_remote : ℕ → ℕ
of_remote re = re

abbrev pub of_null : ℕ
of_null = 0

-- `operator==` and `operator!=`
abbrev pub poly_equals : ℕ → ℕ → Bool
poly_equals a b = a == b

abbrev pub poly_differs : ℕ → ℕ → Bool
poly_differs a b = not (a == b)

-- The same with nullptr
abbrev pub equals_null : ℕ → Bool
equals_null p = is_nullptr p

abbrev pub differs_null : ℕ → Bool
differs_null p = not (is_nullptr p)

unfoldable pub is_remote : ℕ → Bool
unfolding is_remote_pointer
is_remote p = is_remote_pointer p

unfoldable pub is_local : ℕ → Bool
unfolding is_remote_pointer
is_local p = not (is_remote_pointer p)

-- `PolymorphicPointer::get_as`
unfoldable pub poly_get_as : ℕ → ℕ
unfolding is_local get_as
poly_get_as p = if is_local p then p else get_as p

-- A pointer made from a local address below 2 ^ 63 is local and gives the address back; one made from a
-- remote pointer to an address below 2 ^ 48 on any node is remote, gives that address, and compares as null
-- exactly when the address is 0.
pub poly_get_as-made :
    (node local address : ℕ)
    → local < 2 ^ 63
    → address < 2 ^ 48
    → ((is_local (of_local local) ≡ true) × (poly_get_as (of_local local) ≡ local))
      × ((is_remote (of_remote (make_remote_pointer node address)) ≡ true)
          × (poly_get_as (of_remote (make_remote_pointer node address)) ≡ address))
      × (equals_null (of_remote (make_remote_pointer node address)) ≡ (address == 0))
unfolding is_local is_remote poly_get_as is_remote_pointer make_remote_pointer get_as
poly_get_as-made node local address l a =
    let low : (local / 2 ^ 62 == 2) ≡ false = ground arith in
    let p : ℕ = (2 * 2 ^ 6 + node % 2 ^ 6) * 2 ^ 56 + address % 2 ^ 48 in
    let mark : p / 2 ^ 62 ≡ 2 = omega arith in
    let back : p / 2 ^ 48 % 2 ^ 8 * 2 ^ 56 + p % 2 ^ 56 ≡ address = omega arith in
    let low_bits : p % 2 ^ 48 ≡ address = omega arith in
    ((rw low refl, rw low refl), (rw mark refl, rw mark back), rw low_bits refl)
