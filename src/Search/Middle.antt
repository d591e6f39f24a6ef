-- ===== src/Search/Middle.antt =====
-- A node in the middle of a list whose anchors ascend.
use di_store.Base.{
  ℕ, ◌≢◌, refl, sym, List, [], ◌∷◌, ◌++◌, str_lt_asymm, str_lt_irrefl, All, All-imp, All-append,
  All-append_left, All-append_right,
}
use di_store.Search.{Nodes, anchor_of}
use di_store.Search.Level.{Below}
use di_store.Search.Descend.{Ascends}
use di_store.Search.Order.{Parted, Ascends-append_right}
use di_store.Search.Splice.{Distinct}

pub Distinct-middle :
    (n : ℕ) (xs ys : List ℕ)
    → Distinct (xs ++ n ∷ ys)
    → All (λ q. q ≢ n) xs × All (λ q. q ≢ n) ys × Distinct (xs ++ ys)
Distinct-middle n [] ys d = (tt, All-imp _ _ (λ q ne e. ne (sym e)) ys d.0, d.1)
Distinct-middle n (x ∷ xs) ys d =
    let (left, right, both) = Distinct-middle n xs ys d.1 in
    let rest = All-append_right _ xs (n ∷ ys) d.0 in
    ((rest.0, left), right, (All-append _ xs ys (All-append_left _ xs (n ∷ ys) d.0) rest.1, both))

pub Ascends-Below :
    (h : Nodes) (n : ℕ) (xs ys : List ℕ) → Ascends h (xs ++ n ∷ ys) → Below h (anchor_of h n) xs
Ascends-Below h n [] ys a = tt
Ascends-Below h n (x ∷ xs) ys a =
    ((All-append_right _ xs (n ∷ ys) a.0).0, Ascends-Below h n xs ys a.1)

-- The parting of a list at the anchor of one of its nodes.
abbrev pub node-Parted :
    (h : Nodes) (n : ℕ) (xs ys : List ℕ)
    → Ascends h (xs ++ n ∷ ys)
    → Parted h (anchor_of h n) (xs ++ n ∷ ys)
node-Parted h n xs ys a = record {
  before = xs;
  rest = n ∷ ys;
  joined = refl;
  below = Ascends-Below h n xs ys a;
  not_below = (
    str_lt_irrefl (anchor_of h n),
    All-imp _ _ (λ m. str_lt_asymm (anchor_of h n) (anchor_of h m)) ys
        (Ascends-append_right h xs (n ∷ ys) a).0,
  );
}
