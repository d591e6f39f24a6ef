-- ===== src/Search/Enter.antt =====
-- A new node in a well-formed skip list: what stays well-formed once its levels are linked.
use di_store.Base.{
  ℕ, ◌≤◌, ◌<◌, ◌≡◌, ◌≢◌, refl, sym, ap, ◌∙◌, subst, inl, inr, true, List, [], ◌∷◌, ◌++◌, Bytes,
  str_lt, str_lt_irrefl, ltb, ◌==◌, if◌then◌else◌, Bool-cases, ltb→lt, ltb→ge, get_elem?, arith,
  All, All-of, All-imp, All-both, All-append, All-append_left, All-append_right,
}
use di_store.Search.{Tower, Nodes, SkipList, anchor_of, max_level}
use di_store.Search.Level.{at_level, last_of, slot, Chain, at_level-append, All-at_level, Below}
use di_store.Search.Descend.{Ascends, IsSkipList}
use di_store.Search.Splice.{Distinct, Spliced, Chain-frame, Chain-splice}

-- `ht`, once `node` is linked at `level` levels
abbrev pub with_height : (ℕ → ℕ) → ℕ → ℕ → ℕ → ℕ
with_height ht node level q = if q == node then level else ht q

pub with_height_self : (ht : ℕ → ℕ) (node level : ℕ) → with_height ht node level node ≡ level
with_height_self ht node level = ground arith

pub with_height-ne : (ht : ℕ → ℕ) (node level q : ℕ) → q ≢ node → with_height ht node level q ≡ ht q
with_height-ne ht node level q ne = ground arith

pub at_level-same :
    (ht ht' : ℕ → ℕ) (j : ℕ) (ns : List ℕ)
    → All (λ q. ht' q ≡ ht q) ns
    → at_level ht' j ns ≡ at_level ht j ns
at_level-same ht ht' j [] a = refl
at_level-same ht ht' j (n ∷ ns) a = rw (a.0, at_level-same ht ht' j ns a.1) refl

pub Distinct-at_level :
    (ht : ℕ → ℕ) (j : ℕ) (ns : List ℕ) → Distinct ns → Distinct (at_level ht j ns)
Distinct-at_level ht j [] d = tt
Distinct-at_level ht j (n ∷ ns) d = elim (Bool-cases (ltb j (ht n))) [
  | inl tall ↦ rw tall (All-at_level _ ht j ns d.0, Distinct-at_level ht j ns d.1)
  | inr low ↦ rw low (Distinct-at_level ht j ns d.1)
]

-- Anchors that ascend are at different addresses.
pub Ascends-Distinct : (h : Nodes) (ns : List ℕ) → Ascends h ns → Distinct ns
Ascends-Distinct h [] a = tt
Ascends-Distinct h (n ∷ ns) a = (
  All-imp _ _
      (λ m less e.
        let self = str_lt_irrefl (anchor_of h n) in let less' = rw (sym e) at (less) in cc)
      ns a.0,
  Ascends-Distinct h ns a.1,
)

pub Ascends-frame :
    (h h' : Nodes) (ns : List ℕ)
    → All (λ q. anchor_of h' q ≡ anchor_of h q) ns
    → Ascends h ns
    → Ascends h' ns
Ascends-frame h h' [] e a = tt
Ascends-frame h h' (n ∷ ns) e a = (
  All-imp _ _ (λ m p. rw (e.0, p.1) p.0) ns (All-both _ _ ns a.0 e.1),
  Ascends-frame h h' ns e.1 a.1,
)

pub Ascends-insert :
    (h : Nodes) (node : ℕ) (xs ys : List ℕ)
    → Ascends h (xs ++ ys)
    → Below h (anchor_of h node) xs
    → All (λ m. str_lt (anchor_of h node) (anchor_of h m) ≡ true) ys
    → Ascends h (xs ++ node ∷ ys)
Ascends-insert h node [] ys a b c = (c, a)
Ascends-insert h node (x ∷ xs) ys a b c = (
  All-append _ xs (node ∷ ys) (All-append_left _ xs ys a.0) (b.0, All-append_right _ xs ys a.0),
  Ascends-insert h node xs ys a.1 b.1 c,
)

-- `node` is not in the skip list, and its anchor, the key, comes after the nodes `xs` and before `ys`.
pub record CanEnter (ht : ℕ → ℕ) (xs ys : List ℕ) (s : SkipList) (node : ℕ) (key : Bytes)
    : Type 0 where
  pub list : IsSkipList ht (xs ++ ys) s
  pub fresh : All (λ q. q ≢ node) (s.head ∷ (xs ++ ys))
  pub below : Below s.nodes key xs
  pub above : All (λ m. str_lt key (anchor_of s.nodes m) ≡ true) ys
  pub not_empty : str_lt [] key ≡ true

-- The memory `h'` after the node is linked at its `n` lowest levels.
pub record Entered (ht : ℕ → ℕ) (xs : List ℕ) (head : ℕ) (h h' : Nodes) (node n : ℕ) : Type 0 where
  pub same : (q : ℕ) → anchor_of h' q ≡ anchor_of h q
  pub spliced : (j : ℕ) → j < n → Spliced h h' j (last_of head (at_level ht j xs)) node
  pub outside : (q j : ℕ) → n ≤ j → slot h' q j ≡ slot h q j

module _ (ht : ℕ → ℕ) (xs ys : List ℕ) (s : SkipList) (node : ℕ) (key : Bytes)
    (c : CanEnter ht xs ys s node key) (h : Nodes) (kept : (q : ℕ) → q ≢ node → h q ≡ s.nodes q)
    (named : anchor_of h node ≡ key) where
  distinct : Distinct (s.head ∷ (xs ++ ys))
  distinct = Ascends-Distinct s.nodes (s.head ∷ (xs ++ ys)) c.list.ascends

  pub levels_of : (j : ℕ) → at_level ht j (xs ++ ys) ≡ at_level ht j xs ++ at_level ht j ys
  levels_of j = at_level-append ht j xs ys

  pub Chain-before :
      (j : ℕ) → j < max_level → Chain h j s.head (at_level ht j xs ++ at_level ht j ys)
  Chain-before j lt = subst (Chain h j s.head) (levels_of j) (
      Chain-frame s.nodes h j s.head (at_level ht j (xs ++ ys))
        (All-imp (λ q. q ≢ node) _ (λ q ne. ap (λ (t : Tower). get_elem? t.forwards j) (kept q ne))
          (s.head ∷ at_level ht j (xs ++ ys)) (c.fresh.0, All-at_level _ ht j (xs ++ ys) c.fresh.1))
        (c.list.chains j lt))

  Ascends-before : Ascends h (s.head ∷ (xs ++ ys))
  Ascends-before =
      Ascends-frame s.nodes h (s.head ∷ (xs ++ ys))
        (All-imp (λ q. q ≢ node) _ (λ q ne. ap (λ (t : Tower). t.node.anchor) (kept q ne))
          (s.head ∷ (xs ++ ys)) c.fresh)
        c.list.ascends

  Ascends-entered : Ascends h (s.head ∷ (xs ++ node ∷ ys))
  Ascends-entered =
      let moved : (q : ℕ) → q ≢ node → anchor_of h q ≡ anchor_of s.nodes q =
        λ q ne. ap (λ (t : Tower). t.node.anchor) (kept q ne) in
      Ascends-insert h node (s.head ∷ xs) ys Ascends-before
        (
          rw (named, moved s.head c.fresh.0, c.list.first) c.not_empty,
          All-imp (λ q. (str_lt (anchor_of s.nodes q) key ≡ true) × (q ≢ node)) _
              (λ q p. rw (named, moved q p.1) p.0) xs
              (All-both _ _ xs c.below (All-append_left _ xs ys c.fresh.1)),
        )
        (All-imp (λ q. (str_lt key (anchor_of s.nodes q) ≡ true) × (q ≢ node)) _
          (λ q p. rw (named, moved q p.1) p.0) ys
          (All-both _ _ ys c.above (All-append_right _ xs ys c.fresh.1)))

  module _ (h' : Nodes) (n current : ℕ) (e : Entered ht xs s.head h h' node n) (one : 1 ≤ n)
      (within : n ≤ current) (higher : s.current_level ≤ current) (top : current ≤ max_level) where
    same_heights : All (λ q. with_height ht node n q ≡ ht q) (xs ++ ys)
    same_heights = All-imp _ _ (λ q ne. with_height-ne ht node n q ne) (xs ++ ys) c.fresh.1

    chains_entered :
        (j : ℕ)
        → j < max_level
        → Chain h' j s.head (at_level (with_height ht node n) j (xs ++ node ∷ ys))
    chains_entered j lt =
        rw
          (
            at_level-append (with_height ht node n) j xs (node ∷ ys),
            at_level-same ht (with_height ht node n) j xs (All-append_left _ xs ys same_heights),
            at_level-same ht (with_height ht node n) j ys (All-append_right _ xs ys same_heights),
            with_height_self ht node n,
          )
          (elim (Bool-cases (ltb j n)) [
            | inl low ↦ rw low (
                Chain-splice h h' j node s.head (at_level ht j xs) (at_level ht j ys)
                  (e.spliced j (ltb→lt j n low))
                  (subst (λ l. Distinct (s.head ∷ l)) (levels_of j)
                    (
                      All-at_level _ ht j (xs ++ ys) distinct.0,
                      Distinct-at_level ht j (xs ++ ys) distinct.1,
                    ))
                  (subst (λ l. All (λ q. q ≢ node) (s.head ∷ l)) (levels_of j)
                    (c.fresh.0, All-at_level _ ht j (xs ++ ys) c.fresh.1))
                  (Chain-before j lt))
            | inr high ↦ rw high (
                Chain-frame h h' j s.head (at_level ht j xs ++ at_level ht j ys)
                  (All-of _ (λ q. e.outside q j (ltb→ge j n high))
                    (s.head ∷ (at_level ht j xs ++ at_level ht j ys)))
                  (Chain-before j lt))
          ])

    fits :
        (q : ℕ)
        → (1 ≤ ht q) × (ht q ≤ s.current_level)
        → (with_height ht node n q ≡ ht q)
        → (1 ≤ with_height ht node n q) × (with_height ht node n q ≤ current)
    fits q b same = rw same (b.0, omega (arith, b.1, higher))

    pub entered-IsSkipList :
        IsSkipList
          (with_height ht node n)
          (xs ++ node ∷ ys)
          (record s { current_level = current; nodes = h' })
    entered-IsSkipList =
        let hs =
          All-imp _ (λ q. (1 ≤ with_height ht node n q) × (with_height ht node n q ≤ current))
            (λ q p. fits q p.0 p.1) (xs ++ ys)
            (All-both _ _ (xs ++ ys) c.list.heights same_heights) in
        record {
          chains = chains_entered;
          ascends =
              Ascends-frame h h' (s.head ∷ (xs ++ node ∷ ys))
                (All-of _ e.same (s.head ∷ (xs ++ node ∷ ys))) Ascends-entered;
          heights =
              All-append _ xs (node ∷ ys) (All-append_left _ xs ys hs)
                (rw (with_height_self ht node n) (one, within), All-append_right _ xs ys hs);
          levels = top;
          first =
              e.same s.head
              ∙ ap (λ (t : Tower). t.node.anchor) (kept s.head c.fresh.0)
              ∙ c.list.first;
        }
