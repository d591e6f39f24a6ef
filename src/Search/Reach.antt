-- ===== src/Search/Reach.antt =====
-- The skip lists that the compute node gets to, from `SkipList::SkipList()` by `insert` and `async_update`.
use di_store.Base.{
  ℕ, ◌≤◌, ◌<◌, ◌≡◌, ◌≢◌, sym, ap, ◌∙◌, subst, str_lt, Bool, true, Option, none, List, [], ◌∷◌, ◌++◌,
  Bytes, arith, length, All, get_elem?-replicate,
}
use di_store.DataLayer.{LinkedNodeType, type_head}
use di_store.Search.{
  returned, returned-inj, Tower, Nodes, SkipList, max_level, make_skip_node, make_skiplist,
  anchor_of,
}
use di_store.Search.Level.{last_of, Below}
use di_store.Search.Descend.{IsSkipList}
use di_store.Search.Splice.{put_self}
use di_store.Search.Update.{CalibrateContext, insert, async_update, calibrate_popped, remove}
use di_store.Search.Enter.{with_height, CanEnter}
use di_store.Search.Insert.{insert-IsSkipList}
use di_store.Search.Async.{async_update-calibrate_popped}
use di_store.Search.TakeOut.{remove-IsSkipList}

pub make_skiplist-IsSkipList :
    (ht : ℕ → ℕ) (h : Nodes) (at : ℕ) → IsSkipList ht [] (make_skiplist h at)
unfolding make_skiplist make_skip_node
make_skiplist-IsSkipList ht h at =
    let tower = make_skip_node max_level [] 0 type_head in
    record {
      chains = λ j lt. rw (put_self h at tower) (get_elem?-replicate 16 j none lt);
      ascends = (tt, tt);
      heights = tt;
      levels = omega arith;
      first = ap (λ (x : Tower). x.node.anchor) (put_self h at tower);
    }

-- What `CanEnter` asks, but for the list to be well-formed.
pub record HasRoom (xs ys : List ℕ) (s : SkipList) (node level : ℕ) (key : Bytes) : Type 0 where
  pub fresh : All (λ q. q ≢ node) (s.head ∷ (xs ++ ys))
  pub below : Below s.nodes key xs
  pub above : All (λ m. str_lt key (anchor_of s.nodes m) ≡ true) ys
  pub not_empty : str_lt [] key ≡ true
  pub one : 1 ≤ level
  pub most : level ≤ max_level

-- The lists reached, with their nodes in order and the levels of each. A calibration is popped before the list
-- changes again.
pub data Reached : (ℕ → ℕ) → List ℕ → SkipList → Type 0 where
  made : {ht : ℕ → ℕ} (h : Nodes) (at : ℕ) → Reached ht [] (make_skiplist h at)
  inserted :
      {ht : ℕ → ℕ} {xs ys : List ℕ} {s s' : SkipList} {ok : Bool} (fuel node level r : ℕ)
      (key : Bytes) (t : LinkedNodeType)
      → Reached ht (xs ++ ys) s
      → HasRoom xs ys s node level key
      → length (xs ++ ys) < fuel
      → insert fuel node level key r t s ≡ returned (s', ok)
      → Reached (with_height ht node level) (xs ++ node ∷ ys) s'
  split :
      {ht : ℕ → ℕ} {xs ys : List ℕ} {s s' s'' : SkipList} {req : Option CalibrateContext}
      (fuel node level r : ℕ) (key : Bytes) (t : LinkedNodeType)
      → Reached ht (xs ++ ys) s
      → HasRoom xs ys s node level key
      → 1 ≤ s.current_level
      → length (xs ++ node ∷ ys) < fuel
      → async_update (last_of s.head xs) node level key t r s ≡ returned (s', req)
      → calibrate_popped fuel req s' ≡ returned s''
      → Reached (with_height ht node level) (xs ++ node ∷ ys) s''
  taken :
      {ht : ℕ → ℕ} {s s' : SkipList} {ok : Bool} (xs ys : List ℕ) (fuel node : ℕ)
      → Reached ht (xs ++ node ∷ ys) s
      → length (xs ++ node ∷ ys) < fuel
      → remove fuel (anchor_of s.nodes node) s ≡ returned (s', ok)
      → Reached ht (xs ++ ys) s'

enter :
    (ht : ℕ → ℕ) (xs ys : List ℕ) (s : SkipList) (node level : ℕ) (key : Bytes)
    → IsSkipList ht (xs ++ ys) s
    → HasRoom xs ys s node level key
    → CanEnter ht xs ys s node key
enter ht xs ys s node level key g c = record {
  list = g;
  fresh = c.fresh;
  below = c.below;
  above = c.above;
  not_empty = c.not_empty;
}

-- Every list that is reached from the empty one by insertions of new keys, by the updates after splits, each
-- with its calibration, and by removals of anchors that are there, is well-formed.
pub Reached-IsSkipList :
    {ht : ℕ → ℕ} {ns : List ℕ} {s : SkipList} → Reached ht ns s → IsSkipList ht ns s
Reached-IsSkipList {ht} (made h at) = make_skiplist-IsSkipList ht h at
Reached-IsSkipList
      (inserted {ht} {xs} {ys} {s} {s'} {ok} fuel node level r key t before c enough run) =
    let g = Reached-IsSkipList before in
    let (s1, run1, i) =
      insert-IsSkipList ht xs ys s fuel node level key r t enough
        (enter ht xs ys s node level key g c) c.one c.most in
    let same : s1 ≡ s' = ap (λ (p : SkipList × Bool). p.0) (returned-inj (sym run1 ∙ run)) in
    subst (IsSkipList (with_height ht node level) (xs ++ node ∷ ys)) same i
Reached-IsSkipList
      (split {ht} {xs} {ys} {s} {s'} {s''} {req} fuel node level r key t before c some_level enough
        run popped) =
    let g = Reached-IsSkipList before in
    let (s1, req1, s2, run1, popped1, g1, g2) =
      async_update-calibrate_popped ht xs ys s fuel node level key r t enough
        (enter ht xs ys s node level key g c) c.one c.most some_level in
    let both : (s1, req1) ≡ (s', req) = returned-inj (sym run1 ∙ run) in
    let popped2 : calibrate_popped fuel req s' ≡ returned s2 =
      ap (λ (p : SkipList × Option CalibrateContext). calibrate_popped fuel p.1 p.0) (sym both)
      ∙ popped1 in
    let same : s2 ≡ s'' = returned-inj (sym popped2 ∙ popped) in
    subst (IsSkipList (with_height ht node level) (xs ++ node ∷ ys)) same g2
Reached-IsSkipList (taken {ht} {s} {s'} {ok} xs ys fuel node before enough run) =
    let g = Reached-IsSkipList before in
    let (s1, run1, list, entries) = remove-IsSkipList ht xs ys node s g fuel enough in
    let same : s1 ≡ s' = ap (λ (p : SkipList × Bool). p.0) (returned-inj (sym run1 ∙ run)) in
    subst (IsSkipList ht (xs ++ ys)) same list
