-- ===== src/Search/Update.antt =====
-- search_layer.cpp, `insert`, `calibrate` and `remove`, and compute_node.cpp, `async_update`.
use di_store.Base.{
  ℕ, zero, suc, ◌+◌, ◌-◌, ◌/◌, ◌^◌, Bool, true, false, ◌&&◌, Option, none, some, List, [], ◌∷◌,
  Bytes, str_eq, ltb, leb, ◌==◌, if◌then◌else◌,
}
use di_store.DataLayer.{LinkedNodeType}
use di_store.Search.{
  Run, returned, ◌>>=◌, Nodes, SkipList, max_level, anchor_of, make_skip_node, put, forward,
  set_forward, set_backward, deref, start, descend,
}

-- `SkipList::random_level`: what `random()` returns, call by call, up to the last one looked at.
-- The threshold is 0.25 * RAND_MAX, for RAND_MAX = 2 ^ 31 - 1.
abbrev pub threshold : ℕ
threshold = (2 ^ 31 - 1) / 4

unfoldable pub count_low : List ℕ → ℕ
count_low [] = 0
count_low (r ∷ rs) = let rest = count_low rs in if ltb r threshold then suc rest else 0

unfoldable pub random_level : List ℕ → ℕ
random_level rs = let level = suc (count_low rs) in if ltb level max_level then level else max_level

-- `if (level > current_level)`: `update[i] = head` for the levels above, and the new `current_level`
unfoldable pub raise_update : ℕ → SkipList → (ℕ → Option ℕ) → ℕ → Option ℕ
raise_update level s update i =
    if leb s.current_level i && ltb i level then some s.head else update i

abbrev pub raise_level : ℕ → ℕ → ℕ
raise_level level current = if ltb current level then level else current

-- `for (int i = lowest; i < lowest + count; i++)`:
-- `node->forwards[i] = update[i]->forwards[i]; update[i]->forwards[i] = node;`
unfoldable pub link_levels : (ℕ → Option ℕ) → ℕ → ℕ → ℕ → Nodes → Run Nodes
link_levels update node lowest zero h = returned h
link_levels update node lowest (suc count) h = do
  before ← link_levels update node lowest count h
  p ← deref (update (lowest + count))
  next ← forward before p (lowest + count)
  linked ← set_forward before node (lowest + count) next
  set_forward linked p (lowest + count) (some node)

-- `new_node->backward = b; if (new_node->forwards[0]) new_node->forwards[0]->backward = new_node;`
abbrev pub set_backwards : Nodes → ℕ → Option ℕ → Option ℕ → Nodes
set_backwards h new_node b none = set_backward h new_node b
set_backwards h new_node b (some q) = set_backward (set_backward h new_node b) q (some new_node)

-- `insert` once the levels are linked; `b` is `update[0]`
unfoldable pub finish_insert : ℕ → Option ℕ → ℕ → SkipList → Nodes → Run (SkipList × Bool)
finish_insert new_node b level s h = do
  next ← forward (set_backward h new_node b) new_node 0
  returned (
    record s {
      current_level = raise_level level s.current_level;
      nodes = set_backwards h new_node b next;
    },
    true,
  )

-- `SkipList::insert`; `new_node` and `level` are what `make_new_node` returns
unfoldable pub insert : ℕ → ℕ → ℕ → Bytes → ℕ → LinkedNodeType → SkipList → Run (SkipList × Bool)
insert fuel new_node level anchor r t s = do
  d ← descend s.nodes anchor fuel 0 s.current_level (start s)
  h ←
      link_levels (raise_update level s d.update) new_node 0 level
        (put s.nodes new_node (make_skip_node level anchor r t))
  finish_insert new_node (raise_update level s d.update 0) level s h

-- `CalibrateContext`
pub record CalibrateContext : Type 0 where
  pub new_node : ℕ
  pub level : ℕ

-- `ComputeNode::async_update`: the list after it, and what it pushes on `update_queue`
unfoldable pub async_update :
    ℕ → ℕ → ℕ → Bytes → LinkedNodeType → ℕ → SkipList → Run (SkipList × Option CalibrateContext)
async_update data_node new_node level anchor t r s = do
  next ← forward (put s.nodes new_node (make_skip_node level anchor r t)) data_node 0
  linked ← set_forward (put s.nodes new_node (make_skip_node level anchor r t)) new_node 0 next
  h ← set_forward linked data_node 0 (some new_node)
  returned (
    record s { nodes = set_backward h new_node (some data_node) },
    if level == 1 then none else some (record { new_node = new_node; level = level }),
  )

-- `SkipList::calibrate`
unfoldable pub calibrate : ℕ → CalibrateContext → SkipList → Run SkipList
calibrate fuel req s = do
  d ← descend s.nodes (anchor_of s.nodes req.new_node) fuel 1 (s.current_level - 1) (start s)
  h ← link_levels (raise_update req.level s d.update) req.new_node 1 (req.level - 1) s.nodes
  returned (record s { current_level = raise_level req.level s.current_level; nodes = h })

-- The thread that `ComputeNode::initialize` starts, once it has looked at `update_queue`.
unfoldable pub calibrate_popped : ℕ → Option CalibrateContext → SkipList → Run SkipList
calibrate_popped fuel none s = returned s
calibrate_popped fuel (some cal) s = calibrate fuel cal s

-- `for (int i = ...; i < current_level; i++)` of `remove`, with its `break`
unfoldable pub unlink_levels : (ℕ → Option ℕ) → ℕ → ℕ → ℕ → Nodes → Run Nodes
unlink_levels update walker i zero h = returned h
unlink_levels update walker i (suc count) h = do
  p ← deref (update i)
  next ← forward h p i
  elim next [
    | none ↦ returned h
    | some q ↦
        let rest = forward h walker i >>= λ after. set_forward h p i after >>= λ unlinked.
        unlink_levels update walker (suc i) count unlinked in
        if q == walker then rest else returned h
  ]

-- `while (current_level > 0 && head->forwards[current_level - 1] == nullptr) --current_level;`
unfoldable pub lower_level : Nodes → ℕ → ℕ → Run ℕ
lower_level h head zero = returned zero
lower_level h head (suc level) = do
  next ← forward h head level
  elim next [ none ↦ lower_level h head level | some q ↦ returned (suc level) ]

-- `remove` once `walker` is the node to take out; what `delete` frees is not written over
unfoldable pub take_out : (ℕ → Option ℕ) → ℕ → SkipList → Run (SkipList × Bool)
take_out update walker s = do
  h ← unlink_levels update walker 0 s.current_level s.nodes
  after ← forward h walker 0
  linked ← returned (elim after [ none ↦ h | some q ↦ set_backward h q (h walker).backward ])
  level ← lower_level linked s.head s.current_level
  returned (record s { current_level = level; nodes = linked }, true)

-- `SkipList::remove`
unfoldable pub remove : ℕ → Bytes → SkipList → Run (SkipList × Bool)
remove fuel anchor s = do
  d ← descend s.nodes anchor fuel 0 s.current_level (start s)
  next ← forward s.nodes d.walker 0
  walker ← deref next
  if str_eq (anchor_of s.nodes walker) anchor
      then take_out d.update walker s
      else returned (s, false)
