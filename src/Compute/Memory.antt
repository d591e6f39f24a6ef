-- ===== src/Compute/Memory.antt =====
-- Reads of `Remote` after a write.
use di_store.Base.{
  ℕ, zero, suc, ◌≤◌, ◌≡◌, ◌≢◌, refl, List, [], ◌∷◌, ◌++◌, arith, length, get_or, take, drop,
  drop_all, take-take_append,
}
use di_store.DataLayer.{Kv, LinkedNode, no_pair}
use di_store.DataLayer.Find.{entries}
use di_store.Compute.{Remote, overwrite, write_node}

pub write_node_self :
    (m : Remote) (a cap : ℕ) (node : LinkedNode)
    → write_node m a cap node a ≡ overwrite cap (m a) node
unfolding write_node
write_node_self m a cap node = ground arith

pub write_node_ne :
    (m : Remote) (a b cap : ℕ) (node : LinkedNode) → b ≢ a → write_node m a cap node b ≡ m b
unfolding write_node
write_node_ne m a b cap node h = ground arith

-- A write that covers the records in use keeps them all.
pub entries-overwrite :
    (cap : ℕ) (old new : LinkedNode)
    → new.next ≤ cap
    → cap ≤ length new.pairs
    → entries (overwrite cap old new) ≡ entries new
entries-overwrite cap old new h k = take-take_append new.next cap new.pairs _ h k

get_or-take-drop :
    (cap i : ℕ) (xs ys : List Kv)
    → cap ≤ i
    → cap ≤ length xs
    → get_or (take cap xs ++ drop cap ys) i no_pair ≡ get_or ys i no_pair
get_or-take-drop zero i xs ys h k = refl
get_or-take-drop (suc cap) i [] ys h k = absurd (omega arith)
get_or-take-drop (suc cap) zero (x ∷ xs) ys h k = absurd (omega arith)
get_or-take-drop (suc cap) (suc i) (x ∷ xs) [] h k =
    let e : drop {A = Kv} cap [] ≡ [] = drop_all cap [] (omega arith) in
    rw e at (get_or-take-drop cap i xs [] (omega arith) (omega arith))
get_or-take-drop (suc cap) (suc i) (x ∷ xs) (y ∷ ys) h k =
    get_or-take-drop cap i xs ys (omega arith) (omega arith)

-- A pair behind the bytes that a write covers is what the memory had.
pub overwrite_beyond :
    (cap i : ℕ) (old new : LinkedNode)
    → cap ≤ i
    → cap ≤ length new.pairs
    → get_or (overwrite cap old new).pairs i no_pair ≡ get_or old.pairs i no_pair
overwrite_beyond cap i old new h k = get_or-take-drop cap i new.pairs old.pairs h k
