-- ===== src/Memory/Pointer.antt =====
-- src/components/memory/remote_memory/remote_memory.hpp, `RemotePointer`: a 64-bit number, with the mark
-- 0b10 in its upper two bits, the node's number in the six bits below and an address in the lower 48.
-- Masks and shifts are written as division and remainder.
use di_store.Base.{ℕ, ◌+◌, ◌-◌, ◌*◌, ◌/◌, ◌%◌, ◌^◌, ◌≤◌, ◌<◌, ◌≡◌, Bool, true, arith, ◌==◌}
use di_store.Memory.Page.{memory_page_size}

-- `make_remote_pointer`
unfoldable pub make_remote_pointer : ℕ → ℕ → ℕ
make_remote_pointer node address =
    let value = address % 2 ^ 48 in let meta = 2 * 2 ^ 6 + node % 2 ^ 6 in meta * 2 ^ 56 + value

unfoldable pub is_remote_pointer : ℕ → Bool
is_remote_pointer p = p / 2 ^ 62 == 2

unfoldable pub get_node : ℕ → ℕ
get_node p = p / 2 ^ 56 % 2 ^ 6

-- `get_as`: byte 7 becomes byte 6.
unfoldable pub get_as : ℕ → ℕ
get_as p = p / 2 ^ 48 % 2 ^ 8 * 2 ^ 56 + p % 2 ^ 56

unfoldable pub offset_by : ℕ → ℕ → ℕ
offset_by p off = (p + off) % 2 ^ 64

unfoldable pub page : ℕ → ℕ
page p = p - p % memory_page_size

-- A pointer made from a node number and an address, moved by an offset that stays below 2^48: it is still
-- marked as remote, gives back the node's number in six bits, and the address with the offset.
pub offset_by-make_remote_pointer :
    (node address off : ℕ)
    → address + off < 2 ^ 48
    → (let p = offset_by (make_remote_pointer node address) off in
        (is_remote_pointer p ≡ true) × (get_node p ≡ node % 2 ^ 6) × (get_as p ≡ address + off))
unfolding offset_by make_remote_pointer is_remote_pointer get_node get_as
offset_by-make_remote_pointer node address off h = (ground arith, omega arith, omega arith)

-- The page of such a pointer is a multiple of the page size, at most a page below it, on the same node.
pub page-make_remote_pointer :
    (node address : ℕ)
    → (let p = make_remote_pointer node address in
        (page p % memory_page_size ≡ 0)
        × (page p ≤ p)
        × (p < page p + memory_page_size)
        × (get_node (page p) ≡ node % 2 ^ 6))
unfolding page make_remote_pointer get_node
page-make_remote_pointer node address = (omega arith, omega arith, omega arith, omega arith)
