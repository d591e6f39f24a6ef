-- ===== src/Search/Insert.antt =====
-- `insert` keeps a skip list well-formed.
use di_store.Base.{
  ℕ, ◌≤◌, ◌<◌, ◌≡◌, ◌≢◌, refl, ap, ◌∙◌, inr, true, some, List, ◌∷◌, ◌++◌, Bytes, arith, length, All,
  All-imp, All-both, All-append_left, All-append_right, get_elem?,
}
use di_store.Compute.{SkipListNode}
use di_store.DataLayer.{LinkedNodeType}
use di_store.Search.{
  returned, Tower, Nodes, SkipList, max_level, make_skip_node, put, set_backward, forward,
}
use di_store.Search.Level.{at_level, last_of, forward-slot}
use di_store.Search.Descend.{IsSkipList, Backward, at_level-bottom}
use di_store.Search.Order.{bottoms, descend_head}
use di_store.Search.Update.{raise_update, raise_level, set_backwards, finish_insert, insert}
use di_store.Search.Link.{Linked, link_levels-Linked}
use di_store.Search.Enter.{with_height, CanEnter, entered-IsSkipList, Ascends-Distinct}
use di_store.Search.Backward.{
  set_backward-same, backward-IsSkipList, Backward-frame, Backward-join, Backward-append_right,
}
use di_store.Search.Ready.{
  first_of, Chain-slot, absent-Parted, raise_level-bounds, placed, target, parted, kept, named,
  Chain-placed, linkable,
}
use di_store.Search.Entry.{
  set_backwards-same, set_backwards-Backward, set_backwards-ne, Distinct-apart,
}

-- A new node after the insertion, and what stays of the others.
pub record Inserted (ht : ℕ → ℕ) (xs ys : List ℕ) (s : SkipList) (node level : ℕ)
    (content : SkipListNode) (s' : SkipList) : Type 0 where
  pub list : IsSkipList (with_height ht node level) (xs ++ node ∷ ys) s'
  pub backward : Backward s'.nodes s'.head (xs ++ node ∷ ys)
  pub entry : (s'.nodes node).node ≡ content
  pub others : (q : ℕ) → q ≢ node → (s'.nodes q).node ≡ (s.nodes q).node

module _ (ht : ℕ → ℕ) (xs ys : List ℕ) (s : SkipList) (fuel node level : ℕ) (key : Bytes) (r : ℕ)
    (t : LinkedNodeType) (enough : length (xs ++ ys) < fuel) (c : CanEnter ht xs ys s node key)
    (one : 1 ≤ level) (most : level ≤ max_level) where
  abbrev at : ℕ
  at = last_of s.head xs

  bottom : (at_level ht 0 xs ≡ xs) × (at_level ht 0 ys ≡ ys)
  bottom =
      let ones =
        bottoms ht (xs ++ ys) s c.list key fuel enough
          (absent-Parted s.nodes key xs ys c.below c.above) in
      (
        at_level-bottom ht xs (All-append_left _ xs ys ones),
        at_level-bottom ht ys (All-append_right _ xs ys ones),
      )

  abbrev before : Nodes
  before = placed ht xs ys s fuel node level key r t enough c one most

  abbrev goal : ℕ → ℕ
  goal = target ht xs ys s fuel node level key r t enough c one most

  module _ (h : Nodes) (l : Linked before h goal node 0 level) where
    abbrev after : Nodes
    after = set_backwards h node (some at) (first_of ys)

    next_read : forward (set_backward h node (some at)) node 0 ≡ returned (first_of ys)
    next_read = forward-slot (set_backward h node (some at)) node 0 (first_of ys) (
        ap (λ f. get_elem? f 0) (set_backward-same h node (some at) node).1
        ∙ (l.spliced 0 (omega arith) one).at_node
        ∙ Chain-slot before 0 (goal 0) (at_level ht 0 ys)
            (Chain-placed ht xs ys s fuel node level key r t enough c one most 0 (omega arith))
        ∙ ap (λ ns. some (first_of ns)) bottom.1)

    finish_run :
        finish_insert node (some at) level s h
        ≡ returned
            (record s { current_level = raise_level level s.current_level; nodes = after }, true)
    unfolding finish_insert
    finish_run = rw next_read refl

    list_linked :
        IsSkipList
          (with_height ht node level)
          (xs ++ node ∷ ys)
          (record s { current_level = raise_level level s.current_level; nodes = h })
    list_linked =
        let (a, b, top) = raise_level-bounds level s.current_level most c.list.levels in
        entered-IsSkipList ht xs ys s node key c before
          (kept ht xs ys s fuel node level key r t enough c one most)
          (ap (λ (n : SkipListNode). n.anchor)
            (named ht xs ys s fuel node level key r t enough c one most))
          h level (raise_level level s.current_level)
          (record {
            same = λ q. ap (λ (n : SkipListNode). n.anchor) (l.same q).0;
            spliced = λ j lt. l.spliced j (omega arith) lt;
            outside = λ q j le. l.outside q j (inr le);
          })
          one a b top

    list_after :
        IsSkipList
          (with_height ht node level)
          (xs ++ node ∷ ys)
          (record s { current_level = raise_level level s.current_level; nodes = after })
    list_after =
        backward-IsSkipList (with_height ht node level) (xs ++ node ∷ ys)
          (record s { current_level = raise_level level s.current_level; nodes = h }) after
          (set_backwards-same h node (some at) (first_of ys)) list_linked

    after-Inserted :
        Backward s.nodes s.head (xs ++ ys)
        → Inserted ht xs ys s node level
            (record { anchor = key; data_node = r; type = t })
            (record s { current_level = raise_level level s.current_level; nodes = after })
    after-Inserted back =
        let apart = Ascends-Distinct s.nodes (s.head ∷ (xs ++ ys)) c.list.ascends in
        let (each, distinct) = Distinct-apart xs ys apart.1 in
        let fresh = c.fresh.1 in
        let k = kept ht xs ys s fuel node level key r t enough c one most in
        let same : (q : ℕ) → q ≢ node → (h q).backward ≡ (s.nodes q).backward =
          λ q ne. (l.same q).1 ∙ ap (λ (x : Tower). x.backward) (k q ne) in
        record {
          list = list_after;
          backward =
              Backward-join s.nodes after s.head xs ys (node ∷ ys)
                (All-imp (λ q. (q ≢ node) × All (λ y. q ≢ y) ys) _
                  (λ q p. set_backwards-ne h node (some at) ys q p.0 p.1 ∙ same q p.0) xs
                  (All-both _ _ xs (All-append_left _ xs ys fresh) each))
                back
                (set_backwards-Backward h node at ys distinct (All-append_right _ xs ys fresh) (
                  Backward-frame s.nodes h at ys
                    (All-imp _ _ (λ q ne. same q ne) ys (All-append_right _ xs ys fresh))
                    (Backward-append_right s.nodes s.head xs ys back)));
          entry =
              (set_backwards-same h node (some at) (first_of ys) node).0
              ∙ (l.same node).0
              ∙ named ht xs ys s fuel node level key r t enough c one most;
          others = λ q ne.
              (set_backwards-same h node (some at) (first_of ys) q).0
              ∙ (l.same q).0
              ∙ ap (λ (x : Tower). x.node) (k q ne);
        }

  insert_run :
      (h : Nodes) × Linked before h goal node 0 level
      × (insert fuel node level key r t s
          ≡ returned (
            record s {
              current_level = raise_level level s.current_level;
              nodes = set_backwards h node (some at) (first_of ys);
            },
            true,
          ))
  unfolding insert
  insert_run =
      let p = parted ht xs ys s fuel node level key r t enough c one most in
      let (d, run, f) =
        descend_head ht (xs ++ ys) s c.list key fuel enough p 0 s.current_level (omega arith) in
      let u : (j : ℕ) → j < s.current_level → d.update j ≡ some (goal j) =
        λ j lt. f.update j (omega arith) lt in
      let can = linkable ht xs ys s fuel node level key r t enough c one most d.update u in
      let h = put s.nodes node (make_skip_node level key r t) in
      let (h', link, l) =
        link_levels-Linked h (raise_update level s d.update)
          (target ht xs ys s fuel node level key r t enough c one most) node 0 level level
          (omega arith) can in
      let b : raise_update level s d.update 0 ≡ some at =
        can.known 0 (omega arith) one ∙ ap (λ ns. some (last_of s.head ns)) bottom.0 in
      (h', l, rw (run, link, b) (finish_run h' l))

  -- Whatever the `backward` pointers are, the list stays well-formed.
  pub insert-IsSkipList :
      (s' : SkipList) × (insert fuel node level key r t s ≡ returned (s', true))
      × IsSkipList (with_height ht node level) (xs ++ node ∷ ys) s'
  insert-IsSkipList =
      let (h, l, run) = insert_run in
      (
        record s {
          current_level = raise_level level s.current_level;
          nodes = set_backwards h node (some at) (first_of ys);
        },
        run,
        list_after h l,
      )

  -- For a node that is not in the list, a level from 1 to 16, a key that is not empty and that no node
  -- has, and fuel for all nodes, `insert` returns true, without a read past a tower: the new node, with the
  -- key and the pointer given, is between the smaller and the larger anchors at its levels, the list stays
  -- well-formed, `backward` leads to the node before for each node, and the others keep what they hold.
  pub insert-Inserted :
      Backward s.nodes s.head (xs ++ ys)
      → (s' : SkipList) × (insert fuel node level key r t s ≡ returned (s', true))
        × Inserted ht xs ys s node level (record { anchor = key; data_node = r; type = t }) s'
  insert-Inserted back =
      let (h, l, run) = insert_run in
      (
        record s {
          current_level = raise_level level s.current_level;
          nodes = set_backwards h node (some at) (first_of ys);
        },
        run,
        after-Inserted h l back,
      )
