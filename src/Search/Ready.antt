-- ===== src/Search/Ready.antt =====
-- A key that is absent: where it would stand, and that a new node can be linked in there.
use di_store.Base.{
  ℕ, ◌≤◌, ◌<◌, ◌≡◌, ◌≢◌, refl, sym, ap, ◌∙◌, inl, inr, true, Option, none, some, List, [], ◌∷◌,
  ◌++◌, Bytes, str_lt, str_lt_asymm, leb, Bool-cases, arith, length, All, All-imp, All-append_left,
  get_elem?-replicate,
}
use di_store.Compute.{SkipListNode}
use di_store.DataLayer.{LinkedNodeType}
use di_store.Search.{Tower, Nodes, SkipList, anchor_of, max_level, make_skip_node, put}
use di_store.Search.Level.{at_level, last_of, slot, Chain, Below, All-at_level}
use di_store.Search.Descend.{at_level-top}
use di_store.Search.Order.{Parted, last_of-All, Chain-append, tops_before}
use di_store.Search.Update.{raise_update, raise_level}
use di_store.Search.Splice.{put-ne, put_self}
use di_store.Search.Link.{CanLink}
use di_store.Search.Enter.{CanEnter, Chain-before}

abbrev pub first_of : List ℕ → Option ℕ
first_of [] = none
first_of (n ∷ ns) = some n

pub Chain-slot :
    (h : Nodes) (j w : ℕ) (ns : List ℕ) → Chain h j w ns → slot h w j ≡ some (first_of ns)
Chain-slot h j w [] c = c
Chain-slot h j w (n ∷ ns) c = c.0

-- The parting of a list at a key that it does not hold.
abbrev pub absent-Parted :
    (h : Nodes) (key : Bytes) (xs ys : List ℕ)
    → Below h key xs
    → All (λ m. str_lt key (anchor_of h m) ≡ true) ys
    → Parted h key (xs ++ ys)
absent-Parted h key xs ys b a = record {
  before = xs;
  rest = ys;
  joined = refl;
  below = b;
  not_below = All-imp _ _ (λ m. str_lt_asymm key (anchor_of h m)) ys a;
}

pub raise_update-above :
    (level : ℕ) (s : SkipList) (u : ℕ → Option ℕ) (j : ℕ)
    → s.current_level ≤ j
    → j < level
    → raise_update level s u j ≡ some s.head
unfolding raise_update
raise_update-above level s u j a b = ground arith

pub raise_update-under :
    (level : ℕ) (s : SkipList) (u : ℕ → Option ℕ) (j : ℕ)
    → j < s.current_level
    → raise_update level s u j ≡ u j
unfolding raise_update
raise_update-under level s u j a = ground arith

pub raise_level-bounds :
    (level current : ℕ)
    → level ≤ max_level
    → current ≤ max_level
    → (level ≤ raise_level level current)
      × (current ≤ raise_level level current)
      × (raise_level level current ≤ max_level)
raise_level-bounds level current a b = ground arith

module _ (ht : ℕ → ℕ) (xs ys : List ℕ) (s : SkipList) (fuel node level : ℕ) (key : Bytes) (r : ℕ)
    (t : LinkedNodeType) (enough : length (xs ++ ys) < fuel) (c : CanEnter ht xs ys s node key)
    (one : 1 ≤ level) (most : level ≤ max_level) where
  abbrev tower : Tower
  tower = make_skip_node level key r t

  abbrev pub placed : Nodes
  placed = put s.nodes node tower

  abbrev pub target : ℕ → ℕ
  target j = last_of s.head (at_level ht j xs)

  abbrev pub parted : Parted s.nodes key (xs ++ ys)
  parted = absent-Parted s.nodes key xs ys c.below c.above

  pub kept : (q : ℕ) → q ≢ node → placed q ≡ s.nodes q
  kept q ne = put-ne s.nodes node q tower ne

  pub named : (placed node).node ≡ record { anchor = key; data_node = r; type = t }
  unfolding make_skip_node
  named = ap (λ (x : Tower). x.node) (put_self s.nodes node tower)

  pub Chain-placed : (j : ℕ) → j < max_level → Chain placed j (target j) (at_level ht j ys)
  Chain-placed j lt = Chain-append placed j s.head (at_level ht j xs) (at_level ht j ys) (
      Chain-before ht xs ys s node key c placed kept (ap (λ (n : SkipListNode). n.anchor) named) j
        lt)

  pub tall : (j : ℕ) → j < level → slot placed node j ≡ some none
  unfolding make_skip_node
  tall j lt = rw (put_self s.nodes node tower) (get_elem?-replicate level j none lt)

  module _ (u : ℕ → Option ℕ) (f : (j : ℕ) → j < s.current_level → u j ≡ some (target j)) where
    known : (j : ℕ) → j < level → raise_update level s u j ≡ some (target j)
    known j lt = elim (Bool-cases (leb s.current_level j)) [
      | inl high ↦
          let over : s.current_level ≤ j = ground arith in
          let none_so_high : at_level ht j xs ≡ [] = at_level-top ht j xs (
            All-imp _ _ (λ q le. omega (arith, le)) xs
              (tops_before ht (xs ++ ys) s c.list key fuel enough parted)) in
          raise_update-above level s u j over lt
          ∙ ap (λ l. some (last_of s.head l)) (sym none_so_high)
      | inr low ↦
          let under : j < s.current_level = ground arith in
          raise_update-under level s u j under ∙ f j under
    ]

    pub linkable : CanLink placed (raise_update level s u) target node 0 level
    linkable = record {
      known = λ j p q. known j q;
      apart = λ j p q.
          last_of-All (λ m. m ≢ node) s.head (at_level ht j xs) c.fresh.0
            (All-at_level _ ht j xs (All-append_left _ xs ys c.fresh.1));
      read = λ j p q. (
        first_of (at_level ht j ys),
        Chain-slot placed j (target j) (at_level ht j ys) (Chain-placed j (omega (arith, most))),
      );
      tall = λ j p q. (none, tall j q);
    }
