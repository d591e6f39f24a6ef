-- ===== src/Search/Towers.antt =====
-- src/components/search_layer/search_layer.hpp: `SkipListNode`, `SkipList`, and reads and writes of towers.
use di_store.Base.{
  ℕ, ◌≡◌, Option, none, some, List, [], Bytes, ◌==◌, if◌then◌else◌, set, get_elem?, replicate,
}
use di_store.DataLayer.{LinkedNodeType, type_head}
use di_store.Compute.{SkipListNode}

pub data Run {ℓ} (A : Type ℓ) : Type ℓ where
  returned : A → Run A
  undefined_behaviour : Run A
  -- a loop has run out of fuel
  unfinished : Run A

infixl 5 ◌>>=◌
abbrev pub ◌>>=◌ {ℓ κ} : {A : Type ℓ} {B : Type κ} → Run A → (A → Run B) → Run B
returned a >>= f = f a
undefined_behaviour >>= f = undefined_behaviour
unfinished >>= f = unfinished

pub returned-inj {ℓ} : {A : Type ℓ} {a b : A} → returned a ≡ returned b → a ≡ b
returned-inj e = cc

-- `SkipListNode`: the part that the data path uses too, and the pointers.
pub record Tower : Type 0 where
  pub node : SkipListNode
  pub backward : Option ℕ
  pub forwards : List (Option ℕ)

abbrev pub Nodes : Type 0
Nodes = ℕ → Tower

-- `SkipList`, with the memory its nodes stand in
pub record SkipList : Type 0 where
  pub current_level : ℕ
  pub head : ℕ
  pub nodes : Nodes

-- `Constants::MAX_LEVEL`
abbrev pub max_level : ℕ
max_level = 16

abbrev pub anchor_of : Nodes → ℕ → Bytes
anchor_of h p = (h p).node.anchor

-- `SkipListNode::make_skip_node` with the default `n` and `b`
unfoldable pub make_skip_node : ℕ → Bytes → ℕ → LinkedNodeType → Tower
make_skip_node level k r t = record {
  node = record { anchor = k; data_node = r; type = t };
  backward = none;
  forwards = replicate level none;
}

abbrev pub put : Nodes → ℕ → Tower → Nodes
put h p tower q = if q == p then tower else h q

-- `p->forwards[i]`
unfoldable pub forward : Nodes → ℕ → ℕ → Run (Option ℕ)
forward h p i = elim (get_elem? (h p).forwards i) [
  | some next ↦ returned next
  | none ↦ undefined_behaviour
]

abbrev pub with_forward : Nodes → ℕ → ℕ → Option ℕ → Nodes
with_forward h p i next = put h p (record (h p) { forwards = set (h p).forwards i next })

-- `p->forwards[i] = next`
unfoldable pub set_forward : Nodes → ℕ → ℕ → Option ℕ → Run Nodes
set_forward h p i next = elim (get_elem? (h p).forwards i) [
  | some _ ↦ returned (with_forward h p i next)
  | none ↦ undefined_behaviour
]

-- `p->backward = b`
unfoldable pub set_backward : Nodes → ℕ → Option ℕ → Nodes
set_backward h p b = put h p (record (h p) { backward = b })

-- A use of a pointer that must not be null.
unfoldable pub deref : Option ℕ → Run ℕ
deref (some p) = returned p
deref none = undefined_behaviour

-- `SkipList::SkipList()`, the head at the address `at`
unfoldable pub make_skiplist : Nodes → ℕ → SkipList
make_skiplist h at = record {
  current_level = 1;
  head = at;
  nodes = put h at (make_skip_node max_level [] 0 type_head);
}

-- `SkipList::fake_head`
unfoldable pub fake_head : ℕ → SkipList → SkipList
fake_head valid s = record s {
  nodes =
      put s.nodes s.head
        (record (s.nodes s.head) { node = record ((s.nodes s.head).node) { data_node = valid } });
}
