-- ===== src/Compute/Exclusive.antt =====
-- No two threads hold the same node of the search layer.
use di_store.Base.{
  ℕ, ◌≡◌, ◌≢◌, ◌⊎◌, inl, inr, refl, sym, ap, ◌∙◌, true, false, Option, none, some, arith, ◌==◌,
  ==_iff, Bool-cases, Option-cases,
}
use di_store.Compute.Lock.{
  Phase, outside, between, inserting, updating, leaving, Locks, assign, exchange, Intent, insert,
  update, move, act, Reach, start, later,
}

-- The nodes that a thread holds.
abbrev pub Holds : Phase → ℕ → Type 0
Holds outside n = ⊥
Holds (between r l) n = n ≡ r
Holds (inserting r l) n = (n ≡ r) ⊎ (n ≡ l)
Holds (updating r) n = n ≡ r
Holds (leaving l) n = n ≡ l

abbrev Apart : Phase → Type 0
Apart (inserting r l) = r ≢ l
Apart _ = Unit

record IsGuarded (s : Locks) : Type 0 where
  holds : (t n : ℕ) → Holds (s.phase t) n → s.ctx n ≡ some t
  apart : (t : ℕ) → Apart (s.phase t)

-- A change of a thread's phase, and of nodes that were free or its own.
moved-IsGuarded :
    (s : Locks) (t : ℕ) (p : Phase) (ctx : ℕ → Option ℕ)
    → IsGuarded s
    → ((n : ℕ) → (ctx n ≡ s.ctx n) ⊎ (s.ctx n ≡ none) ⊎ (s.ctx n ≡ some t))
    → ((n : ℕ) → Holds p n → ctx n ≡ some t)
    → Apart p
    → IsGuarded (record { ctx = ctx; phase = assign s.phase t p })
moved-IsGuarded s t p ctx g change held apart = record {
  holds = λ u n h. elim (Bool-cases (u == t)) [
    | inl same ↦
        let e : u ≡ t = (==_iff u t).0 same in
        held n (rw same at h) ∙ ap (λ (x : ℕ). some x) (sym e)
    | inr other ↦
        let before = g.holds u n (rw other at h) in
        elim (change n) [
          | inl kept ↦ kept ∙ before
          | inr (inl free) ↦ absurd (cc)
          | inr (inr own) ↦
              let e : some u ≡ some t = sym before ∙ own in
              let ne : u ≢ t = ground arith in let eq : u ≡ t = cc in absurd (ne eq)
        ]
  ];
  apart = λ u. elim (Bool-cases (u == t)) [
    | inl same ↦ rw same apart
    | inr other ↦ rw other (g.apart u)
  ];
}

assign_self : (f : ℕ → Option ℕ) (n : ℕ) (v : Option ℕ) → assign f n v n ≡ v
assign_self f n v = ground arith

assign_ne : (f : ℕ → Option ℕ) (n : ℕ) (v : Option ℕ) (k : ℕ) → k ≢ n → assign f n v k ≡ f k
assign_ne f n v k h = ground arith

changes :
    (ctx : ℕ → Option ℕ) (t r : ℕ) (v : Option ℕ)
    → (ctx r ≡ none) ⊎ (ctx r ≡ some t)
    → (n : ℕ) → (assign ctx r v n ≡ ctx n) ⊎ (ctx n ≡ none) ⊎ (ctx n ≡ some t)
changes ctx t r v h n = elim (Bool-cases (n == r)) [
  | inr other ↦ inl (rw other refl)
  | inl same ↦
      let e : n ≡ r = (==_iff n r).0 same in
      elim h [ inl free ↦ inr (inl (rw e free)) | inr own ↦ inr (inr (rw e own)) ]
]

unchanged : (ctx : ℕ → Option ℕ) (t n : ℕ) → (ctx n ≡ ctx n) ⊎ (ctx n ≡ none) ⊎ (ctx n ≡ some t)
unchanged ctx t n = inl refl

exchange-cases :
    (ctx : ℕ → Option ℕ) (n t : ℕ)
    → ((ctx n ≡ none) × (exchange ctx n t ≡ (assign ctx n (some t), true)))
      ⊎ ((u : ℕ) × (ctx n ≡ some u) × (exchange ctx n t ≡ (ctx, false)))
unfolding exchange
exchange-cases ctx n t = elim (Option-cases (ctx n)) [
  | inl free ↦ inl (free, rw (exchange, free) refl)
  | inr (u, taken) ↦ inr (u, taken, rw (exchange, taken) refl)
]

abbrev after : (ℕ → ℕ) → Locks → ℕ → Intent → Phase → Locks
after backward s t i p = record {
  ctx = (move backward t i p s.ctx).0;
  phase = assign s.phase t (move backward t i p s.ctx).1;
}

move-IsGuarded :
    (backward : ℕ → ℕ) (s : Locks) (t : ℕ) (i : Intent) (p : Phase)
    → s.phase t ≡ p
    → IsGuarded s
    → IsGuarded (after backward s t i p)
unfolding move
move-IsGuarded backward s t (insert r) outside e g = elim (exchange-cases s.ctx r t) [
  | inl (free, x) ↦ rw x (
      moved-IsGuarded s t (between r (backward r)) (assign s.ctx r (some t)) g
        (changes s.ctx t r (some t) (inl free)) (λ n h. rw h (assign_self s.ctx r (some t))) tt)
  | inr (u, taken, x) ↦
      rw x (moved-IsGuarded s t outside s.ctx g (unchanged s.ctx t) (λ n h. absurd h) tt)
]
move-IsGuarded backward s t (update r) outside e g = elim (exchange-cases s.ctx r t) [
  | inl (free, x) ↦ rw x (
      moved-IsGuarded s t (updating r) (assign s.ctx r (some t)) g
        (changes s.ctx t r (some t) (inl free)) (λ n h. rw h (assign_self s.ctx r (some t))) tt)
  | inr (u, taken, x) ↦
      rw x (moved-IsGuarded s t outside s.ctx g (unchanged s.ctx t) (λ n h. absurd h) tt)
]
move-IsGuarded backward s t i (between r l) e g =
    let own : s.ctx r ≡ some t = g.holds t r (rw e refl) in
    elim (exchange-cases s.ctx l t) [
      | inl (free, x) ↦
          let ne : r ≢ l = λ q.
            let own_l : s.ctx l ≡ some t = rw q at own in
            let clash : none ≡ some t = sym free ∙ own_l in absurd (cc) in
          rw x (
            moved-IsGuarded s t (inserting r l) (assign s.ctx l (some t)) g
              (changes s.ctx t l (some t) (inl free))
              (λ n h. elim h [
                | inl a ↦ rw a (assign_ne s.ctx l (some t) r ne ∙ own)
                | inr b ↦ rw b (assign_self s.ctx l (some t))
              ])
              ne)
      | inr (u, taken, x) ↦ rw x (
          moved-IsGuarded s t outside (assign s.ctx r none) g (changes s.ctx t r none (inr own))
            (λ n h. absurd h) tt)
    ]
move-IsGuarded backward s t i (inserting r l) e g =
    let own : s.ctx r ≡ some t = g.holds t r (rw e (inl refl)) in
    let own_l : s.ctx l ≡ some t = g.holds t l (rw e (inr refl)) in
    let ne : r ≢ l = rw e at (g.apart t) in
    moved-IsGuarded s t (leaving l) (assign s.ctx r none) g (changes s.ctx t r none (inr own))
      (λ n h. rw h (assign_ne s.ctx r none l (λ q. ne (sym q)) ∙ own_l)) tt
move-IsGuarded backward s t i (updating r) e g =
    let own : s.ctx r ≡ some t = g.holds t r (rw e refl) in
    moved-IsGuarded s t outside (assign s.ctx r none) g (changes s.ctx t r none (inr own))
      (λ n h. absurd h) tt
move-IsGuarded backward s t i (leaving l) e g =
    let own : s.ctx l ≡ some t = g.holds t l (rw e refl) in
    moved-IsGuarded s t outside (assign s.ctx l none) g (changes s.ctx t l none (inr own))
      (λ n h. absurd h) tt

Reach-IsGuarded : {backward : ℕ → ℕ} {s : Locks} → Reach backward s → IsGuarded s
Reach-IsGuarded start = record { holds = λ t n h. absurd h; apart = λ t. tt }
Reach-IsGuarded {backward = backward} (later {s = s} r (act t i)) =
    move-IsGuarded backward s t i (s.phase t) refl (Reach-IsGuarded r)

-- In every state that the threads reach, with inserts and updates that win, lose and leave in any order, a
-- node of the search layer is held by one thread at most, whether it is its own node or the predecessor.
pub Reach-exclusive :
    (backward : ℕ → ℕ) (s : Locks) (t u n : ℕ)
    → Reach backward s
    → Holds (s.phase t) n
    → Holds (s.phase u) n
    → t ≡ u
Reach-exclusive backward s t u n r h k =
    let g = Reach-IsGuarded r in let e : some t ≡ some u = sym (g.holds t n h) ∙ g.holds u n k in cc
