-- ===== src/Tests/Index.antt =====
-- The theorems on the skip list at a list of two nodes, and runs from the empty one.
use di_store.Base.{
  ℕ, zero, suc, ◌≡◌, refl, Bool, true, false, none, some, Option, List, [], ◌∷◌, ◌++◌, arith, Bytes,
  replicate, ◌<◌, if◌then◌else◌, ◌==◌, str_lt, str_eq, get_elem?-replicate,
}
use di_store.DataLayer.{type10, type12, type_head}
use di_store.Search.{
  Run, returned, undefined_behaviour, unfinished, ◌>>=◌, Tower, Nodes, SkipList, make_skiplist,
  make_skip_node, forward, set_forward, set_backward, deref, walk, descend, search_node,
  fuzzy_search, max_level,
}
use di_store.Search.Update.{
  count_low, random_level, raise_update, link_levels, finish_insert, insert, CalibrateContext,
  async_update, calibrate, calibrate_popped, unlink_levels, lower_level, take_out, remove,
}
use di_store.Search.Level.{Chain, at_level}
use di_store.Search.Descend.{IsSkipList, Backward, at_level-top}
use di_store.Search.Enter.{CanEnter, with_height}
use di_store.Search.Floor.{fuzzy_search-floor}
use di_store.Search.Insert.{Inserted, insert-Inserted}
use di_store.Search.Async.{async_update-calibrate_popped, async_update-backward}
use di_store.Search.Reach.{HasRoom, Reached, made, inserted, taken, Reached-IsSkipList}
use di_store.Search.TakeOut.{remove-IsSkipList}
use di_store.Search.Remove.{remove-removed_absent}
use di_store.Scan.{scan_nodes}
use di_store.Scan.Short.{scan_nodes-short_scan}
use di_store.Search.{anchor_of}
use di_store.Tests.Data.{key_at, filled, blank}

abbrev tower_of : Bytes → Option ℕ → List (Option ℕ) → Tower
tower_of anchor b forwards = record {
  node = record { anchor = anchor; data_node = 100; type = type10 };
  backward = b;
  forwards = forwards;
}

-- the head at 0, the key 10 at 1 with one level, the key 20 at 2 with two
abbrev two_nodes : Nodes
two_nodes zero = record {
  node = record { anchor = []; data_node = 0; type = type_head };
  backward = none;
  forwards = some 1 ∷ some 2 ∷ replicate 14 none;
}
two_nodes (suc zero) = tower_of (key_at 10) (some 0) (some 2 ∷ [])
two_nodes (suc (suc p)) = tower_of (key_at 20) (some 1) (none ∷ none ∷ [])

abbrev two : SkipList
two = record { current_level = 2; head = 0; nodes = two_nodes }

abbrev two_heights : ℕ → ℕ
two_heights q = if q == 1 then 1 else 2

search_program : Unit {0}
unfolding str_lt str_eq make_skiplist make_skip_node forward set_forward set_backward deref walk
    descend search_node fuzzy_search count_low random_level raise_update link_levels finish_insert
    insert async_update calibrate calibrate_popped unlink_levels lower_level take_out remove
search_program = tt

two-Chain :
    (j : ℕ) → j < max_level → Chain two.nodes j two.head (at_level two_heights j (1 ∷ 2 ∷ []))
two-Chain zero lt = (refl, (refl, refl))
two-Chain (suc zero) lt = (refl, refl)
two-Chain (suc (suc j)) lt =
    rw (at_level-top two_heights (suc (suc j)) (1 ∷ 2 ∷ []) (omega arith, (omega arith, tt)))
      (get_elem?-replicate 14 j none (omega arith))

two-IsSkipList : IsSkipList two_heights (1 ∷ 2 ∷ []) two
unfolding search_program
two-IsSkipList = record {
  chains = two-Chain;
  ascends = ((refl, (refl, tt)), ((refl, tt), (tt, tt)));
  heights = ((omega arith, omega arith), ((omega arith, omega arith), tt));
  levels = omega arith;
  first = refl;
}

-- a key between the two
two-CanEnter : CanEnter two_heights (1 ∷ []) (2 ∷ []) two 3 (key_at 15)
unfolding search_program
two-CanEnter = record {
  list = two-IsSkipList;
  fresh = (λ e. omega arith, (λ e. omega arith, (λ e. omega arith, tt)));
  below = (refl, tt);
  above = (refl, tt);
  not_empty = refl;
}

fuzzy_search-floor_example : fuzzy_search 3 (key_at 15) two ≡ returned (some 1)
unfolding search_program
fuzzy_search-floor_example =
    fuzzy_search-floor two_heights (1 ∷ 2 ∷ []) two two-IsSkipList (key_at 15) 3 (omega arith)

insert-Inserted_example :
    (s' : SkipList) × (insert 3 3 3 (key_at 15) 700 type12 two ≡ returned (s', true))
    × Inserted two_heights
        (1 ∷ [])
        (2 ∷ [])
        two
        3
        3
        (record { anchor = key_at 15; data_node = 700; type = type12 })
        s'
insert-Inserted_example =
    insert-Inserted two_heights (1 ∷ []) (2 ∷ []) two 3 3 3 (key_at 15) 700 type12 (omega arith)
      two-CanEnter (omega arith) (omega arith) (refl, (refl, tt))

-- the same insertion, run: the new node is found at its three levels
abbrev seen : SkipList × Bool → Run (List (Option ℕ))
seen (s, ok) =
    returned
      (some s.current_level ∷ (s.nodes 2).backward ∷ (s.nodes 3).forwards ++ (s.nodes 1).forwards)

insert_run :
    (insert 3 3 3 (key_at 15) 700 type12 two >>= seen)
    ≡ returned (some 3 ∷ some 3 ∷ some 2 ∷ some 2 ∷ none ∷ some 3 ∷ [])
unfolding search_program
insert_run = refl

async_update-calibrate_popped_example :
    (s' : SkipList) × (req : Option CalibrateContext) × (s'' : SkipList) × (async_update 1 3 3
        (key_at 15)
        type12
        700
        two
      ≡ returned (s', req))
    × (calibrate_popped 4 req s' ≡ returned s'')
    × IsSkipList (with_height two_heights 3 1) (1 ∷ 3 ∷ 2 ∷ []) s'
    × IsSkipList (with_height two_heights 3 3) (1 ∷ 3 ∷ 2 ∷ []) s''
async_update-calibrate_popped_example =
    async_update-calibrate_popped two_heights (1 ∷ []) (2 ∷ []) two 4 3 3 (key_at 15) 700 type12
      (omega arith) two-CanEnter (omega arith) (omega arith) (omega arith)

async_update-backward_example :
    (s' : SkipList) × (req : Option CalibrateContext) × (async_update 1 3 3
        (key_at 15)
        type12
        700
        two
      ≡ returned (s', req))
    × ((s'.nodes 3).backward ≡ some 1)
    × ((s'.nodes 2).backward ≡ some 1)
    × ¬ Backward s'.nodes 0 (1 ∷ 3 ∷ 2 ∷ [])
async_update-backward_example =
    async_update-backward two_heights (1 ∷ []) (2 ∷ []) two 4 3 3 (key_at 15) 700 type12
      (omega arith) two-CanEnter (omega arith) (omega arith) 2 [] refl (refl, (refl, tt))

remove-removed_absent_example : remove 3 (key_at 30) two ≡ undefined_behaviour
unfolding search_program
remove-removed_absent_example =
    remove-removed_absent two_heights (1 ∷ 2 ∷ []) [] two 3 (key_at 30) (omega arith) two-IsSkipList
      (refl, (refl, tt)) tt

at_most_15 : str_lt (key_at 15) (key_at 10) ≡ false
unfolding search_program
at_most_15 = refl

above_15 : str_lt (key_at 15) (key_at 20) ≡ true
unfolding search_program
above_15 = refl

-- one node above the key
scan_nodes-short_scan_example :
    scan_nodes
      (λ p. filled 12 type12 5)
      two
      (key_at 15)
      3
      3
      (record { first = blank type12; second = blank type12 })
    ≡ undefined_behaviour
scan_nodes-short_scan_example =
    scan_nodes-short_scan two_heights (1 ∷ []) (2 ∷ []) two (λ p. filled 12 type12 5) (key_at 15) 3
      2 (record { first = blank type12; second = blank type12 }) two-IsSkipList (at_most_15, tt)
      (above_15, tt) (omega arith) (omega arith)

-- the empty list, and a first key inserted into it
abbrev none_yet : SkipList
none_yet = make_skiplist two_nodes 0

one_HasRoom : HasRoom [] [] none_yet 1 2 (key_at 10)
unfolding search_program
one_HasRoom = record {
  fresh = (λ e. omega arith, tt);
  below = tt;
  above = tt;
  not_empty = refl;
  one = omega arith;
  most = omega arith;
}

-- what the insertion gives
one_run : SkipList
unfolding search_program
one_run = elim (insert 1 1 2 (key_at 10) 500 type12 none_yet) [
  | returned r ↦ r.0
  | undefined_behaviour ↦ none_yet
  | unfinished ↦ none_yet
]

one_insert : insert 1 1 2 (key_at 10) 500 type12 none_yet ≡ returned (one_run, true)
unfolding one_run
one_insert = refl

one_Reached : Reached (with_height (λ q. 0) 1 2) (1 ∷ []) one_run
one_Reached =
    inserted {xs = []} {ys = []} 1 1 2 500 (key_at 10) type12 (made two_nodes 0) one_HasRoom
      (omega arith) one_insert

-- and removed from it again
taken_run : SkipList
unfolding search_program one_run
taken_run = elim (remove 2 (anchor_of one_run.nodes 1) one_run) [
  | returned r ↦ r.0
  | undefined_behaviour ↦ none_yet
  | unfinished ↦ none_yet
]

one_remove : remove 2 (anchor_of one_run.nodes 1) one_run ≡ returned (taken_run, true)
unfolding taken_run
one_remove = refl

taken_level : taken_run.current_level ≡ 0
unfolding taken_run
taken_level = refl

Reached-IsSkipList_example : IsSkipList (with_height (λ q. 0) 1 2) [] taken_run
Reached-IsSkipList_example =
    Reached-IsSkipList (taken [] [] 2 1 one_Reached (omega arith) one_remove)

remove-IsSkipList_example :
    (s' : SkipList) × (remove 3 (key_at 10) two ≡ returned (s', true))
    × IsSkipList two_heights (2 ∷ []) s'
    × ((q : ℕ) → (s'.nodes q).node ≡ (two.nodes q).node)
remove-IsSkipList_example =
    remove-IsSkipList two_heights [] (2 ∷ []) 1 two two-IsSkipList 3 (omega arith)
