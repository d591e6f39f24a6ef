-- ===== src/Search/Walk.antt =====
-- search_layer.cpp: the walk down the levels, and the searches.
use di_store.Base.{
  ℕ, zero, suc, ◌+◌, Bool, true, false, ◌&&◌, Option, none, some, Bytes, str_lt, str_le, str_eq,
  ◌==◌, if◌then◌else◌,
}
use di_store.DataLayer.{LinkedNodeType}
use di_store.Search.Towers.{
  Run, returned, unfinished, ◌>>=◌, Nodes, SkipList, anchor_of, put, forward,
}

-- `while (walker->forwards[i] && walker->forwards[i]->anchor < key) walker = walker->forwards[i];`
unfoldable pub walk : Nodes → Bytes → ℕ → ℕ → ℕ → Run ℕ
walk h key i zero walker = unfinished
walk h key i (suc fuel) walker = do
  next ← forward h walker i
  elim next [
    | none ↦ returned walker
    | some p ↦
        let rest = walk h key i fuel p in
        if str_lt (anchor_of h p) key then rest else returned walker
  ]

-- `update[]` and `walker`
pub record Descent : Type 0 where
  pub update : ℕ → Option ℕ
  pub walker : ℕ

abbrev pub with_update : ℕ → ℕ → (ℕ → Option ℕ) → ℕ → Option ℕ
with_update i p update j = if j == i then some p else update j

-- `for (int i = lowest + count - 1; i >= lowest; i--)` around that loop, with `update[i] = walker` after it
-- (the searches do not keep `update`)
unfoldable pub descend : Nodes → Bytes → ℕ → ℕ → ℕ → Descent → Run Descent
descend h key fuel lowest zero d = returned d
descend h key fuel lowest (suc count) d = do
  w ← walk h key (lowest + count) fuel d.walker
  descend h key fuel lowest count
      (record { update = with_update (lowest + count) w d.update; walker = w })

abbrev pub start : SkipList → Descent
start s = record { update = λ j. none; walker = s.head }

-- `SkipList::search_node`, which `SkipList::search` returns; `none` is null
unfoldable pub search_node : ℕ → Bytes → SkipList → Run (Option ℕ)
search_node fuel anchor s = do
  d ← descend s.nodes anchor fuel 0 s.current_level (start s)
  next ← forward s.nodes d.walker 0
  returned (elim next [
    | none ↦ none
    | some p ↦ if str_eq (anchor_of s.nodes p) anchor then some p else none
  ])

-- `SkipList::fuzzy_search`
unfoldable pub fuzzy_search : ℕ → Bytes → SkipList → Run (Option ℕ)
fuzzy_search fuel member s = do
  d ← descend s.nodes member fuel 0 s.current_level (start s)
  next ← forward s.nodes d.walker 0
  returned (elim next [
    | none ↦ some d.walker
    | some p ↦
        if str_eq (anchor_of s.nodes p) member
        then some p
        else (if str_lt member (anchor_of s.nodes p) && str_le (anchor_of s.nodes d.walker) member
            then some d.walker
            else none)
  ])

-- `SkipList::update`
unfoldable pub update_entry : ℕ → Bytes → ℕ → LinkedNodeType → SkipList → Run (SkipList × Bool)
update_entry fuel anchor r t s = do
  found ← search_node fuel anchor s
  returned (elim found [
    | none ↦ (s, false)
    | some p ↦ (
      record s {
        nodes =
            put s.nodes p
              (record (s.nodes p) { node = record ((s.nodes p).node) { data_node = r; type = t } });
      },
      true,
    )
  ])
