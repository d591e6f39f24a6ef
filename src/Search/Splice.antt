-- ===== src/Search/Splice.antt =====
-- One level of a skip list while a node is linked in: what the two writes do, and the chain after them.
use di_store.Base.{
  ℕ, ◌≡◌, ◌≢◌, refl, sym, ◌∙◌, inl, inr, Option, some, List, [], ◌∷◌, ◌++◌, ◌==◌, Bool-cases, arith,
  All, All-imp, All-both, All-append_left, get_elem?-set_self, get_elem?-set_ne,
}
use di_store.Search.{Nodes, Tower, put, with_forward}
use di_store.Search.Level.{last_of, slot, Chain}
use di_store.Search.Order.{last_of-All}

abbrev pub Distinct : List ℕ → Type 0
Distinct [] = Unit
Distinct (n ∷ ns) = All (λ m. n ≢ m) ns × Distinct ns

pub put-ne : (h : Nodes) (p q : ℕ) (t : Tower) → q ≢ p → put h p t q ≡ h q
put-ne h p q t ne = ground arith

pub put_self : (h : Nodes) (p : ℕ) (t : Tower) → put h p t p ≡ t
put_self h p t = ground arith

pub slot-with_forward_self :
    (h : Nodes) (p j : ℕ) (old new : Option ℕ)
    → slot h p j ≡ some old
    → slot (with_forward h p j new) p j ≡ some new
slot-with_forward_self h p j old new e =
    rw (put_self h p _) (get_elem?-set_self (h p).forwards j new old e)

pub slot-with_forward_ne :
    (h : Nodes) (p q i j : ℕ) (new : Option ℕ)
    → q ≢ p
    → slot (with_forward h p j new) q i ≡ slot h q i
slot-with_forward_ne h p q i j new ne = rw (put-ne h p q _ ne) refl

pub slot-with_forward_level :
    (h : Nodes) (p q i j : ℕ) (new : Option ℕ)
    → j ≢ i
    → slot (with_forward h p j new) q i ≡ slot h q i
slot-with_forward_level h p q i j new ne = elim (Bool-cases (q == p)) [
  | inl here ↦
      let e : q ≡ p = ground arith in rw (here, e) (get_elem?-set_ne (h p).forwards j i new ne)
  | inr there ↦ rw there refl
]

-- Only pointers change.
abbrev pub SameNodes : Nodes → Nodes → Type 0
SameNodes h h' = (q : ℕ) → ((h' q).node ≡ (h q).node) × ((h' q).backward ≡ (h q).backward)

pub with_forward-SameNodes :
    (h : Nodes) (p j : ℕ) (new : Option ℕ) → SameNodes h (with_forward h p j new)
with_forward-SameNodes h p j new q = elim (Bool-cases (q == p)) [
  | inl here ↦ let e : q ≡ p = ground arith in rw (here, e) (refl, refl)
  | inr there ↦ rw there (refl, refl)
]

-- A chain may begin at another node whose pointer is the same.
pub Chain-restart :
    (h h' : Nodes) (j w v : ℕ) (ns : List ℕ)
    → slot h' v j ≡ slot h w j
    → All (λ q. slot h' q j ≡ slot h q j) ns
    → Chain h j w ns
    → Chain h' j v ns
Chain-restart h h' j w v [] e a c = e ∙ c
Chain-restart h h' j w v (n ∷ ns) e a c = (e ∙ c.0, Chain-restart h h' j n n ns a.0 a.1 c.1)

pub Chain-frame :
    (h h' : Nodes) (j w : ℕ) (ns : List ℕ)
    → All (λ q. slot h' q j ≡ slot h q j) (w ∷ ns)
    → Chain h j w ns
    → Chain h' j w ns
Chain-frame h h' j w ns a c = Chain-restart h h' j w w ns a.0 a.1 c

-- `node` follows `p` at the level `j`, before what followed `p`.
pub record Spliced (h h' : Nodes) (j p node : ℕ) : Type 0 where
  pub at_before : slot h' p j ≡ some (some node)
  pub at_node : slot h' node j ≡ slot h p j
  pub elsewhere : (q : ℕ) → q ≢ p → q ≢ node → slot h' q j ≡ slot h q j

pub Chain-splice :
    (h h' : Nodes) (j node w : ℕ) (xs ys : List ℕ)
    → Spliced h h' j (last_of w xs) node
    → Distinct (w ∷ (xs ++ ys))
    → All (λ q. q ≢ node) (w ∷ (xs ++ ys))
    → Chain h j w (xs ++ ys)
    → Chain h' j w (xs ++ node ∷ ys)
Chain-splice h h' j node w [] ys s d a c = (
  s.at_before,
  Chain-restart h h' j w node ys s.at_node
      (All-imp _ _ (λ q p. s.elsewhere q (λ e. p.0 (sym e)) p.1) ys (All-both _ _ ys d.0 a.1)) c,
)
Chain-splice h h' j node w (x ∷ xs) ys s d a c =
    let apart : w ≢ last_of x xs =
      last_of-All (λ m. w ≢ m) x xs d.0.0 (All-append_left _ xs ys d.0.1) in
    (s.elsewhere w apart a.0 ∙ c.0, Chain-splice h h' j node x xs ys s d.1 a.1 c.1)
