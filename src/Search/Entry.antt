-- ===== src/Search/Entry.antt =====
-- The `backward` pointers that `insert` sets.
use di_store.Base.{
  ℕ, ◌≡◌, ◌≢◌, sym, ◌∙◌, Option, none, some, List, [], ◌∷◌, ◌++◌, All, All-imp, All-both,
  All-append_right,
}
use di_store.Search.{Nodes, set_backward}
use di_store.Search.Descend.{Backward}
use di_store.Search.Update.{set_backwards}
use di_store.Search.Splice.{Distinct}
use di_store.Search.Ready.{first_of}
use di_store.Search.Backward.{set_backward-same, set_backward_self, set_backward-ne, Backward-frame}

pub set_backwards-same :
    (h : Nodes) (node : ℕ) (b : Option ℕ) (next : Option ℕ) (q : ℕ)
    → ((set_backwards h node b next q).node ≡ (h q).node)
      × ((set_backwards h node b next q).forwards ≡ (h q).forwards)
set_backwards-same h node b none q = set_backward-same h node b q
set_backwards-same h node b (some y) q =
    let first = set_backward-same h node b q in
    let second = set_backward-same (set_backward h node b) y (some node) q in
    (second.0 ∙ first.0, second.1 ∙ first.1)

pub set_backwards-Backward :
    (h : Nodes) (node w : ℕ) (ys : List ℕ)
    → Distinct ys
    → All (λ q. q ≢ node) ys
    → Backward h w ys
    → Backward (set_backwards h node (some w) (first_of ys)) w (node ∷ ys)
set_backwards-Backward h node w [] d a b = (set_backward_self h node (some w), tt)
set_backwards-Backward h node w (y ∷ ys) d a b =
    let g = set_backward h node (some w) in
    (
      set_backward-ne g y (some node) node (λ e. a.0 (sym e)) ∙ set_backward_self h node (some w),
      (
        set_backward_self g y (some node),
        Backward-frame h (set_backward g y (some node)) y ys
            (All-imp (λ q. (y ≢ q) × (q ≢ node)) _
              (λ q p.
                set_backward-ne g y (some node) q (λ e. p.0 (sym e))
                ∙ set_backward-ne h node (some w) q p.1)
              ys (All-both _ _ ys d.0 a.1))
            b.1,
      ),
    )

pub set_backwards-ne :
    (h : Nodes) (node : ℕ) (b : Option ℕ) (ys : List ℕ) (q : ℕ)
    → q ≢ node
    → All (λ y. q ≢ y) ys
    → (set_backwards h node b (first_of ys) q).backward ≡ (h q).backward
set_backwards-ne h node b [] q ne a = set_backward-ne h node b q ne
set_backwards-ne h node b (y ∷ ys) q ne a =
    set_backward-ne (set_backward h node b) y (some node) q a.0 ∙ set_backward-ne h node b q ne

pub Distinct-apart :
    (xs ys : List ℕ) → Distinct (xs ++ ys) → All (λ x. All (λ y. x ≢ y) ys) xs × Distinct ys
Distinct-apart [] ys d = (tt, d)
Distinct-apart (x ∷ xs) ys d =
    let (rest, right) = Distinct-apart xs ys d.1 in ((All-append_right _ xs ys d.0, rest), right)
