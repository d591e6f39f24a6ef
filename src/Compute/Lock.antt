-- ===== src/Compute/Lock.antt =====
-- compute_node.hpp, `try_win_for_insert` and `try_win_for_update`, and the end of `put10` to `put16` and
-- of `update` in compute_node.cpp: which thread holds which node of the search layer.
--
-- `ctx` is the field of each node, with the thread in place of the address of its ConcurrencyContext. A
-- step is one atomic operation of a thread: a compare-and-exchange or a store.
use di_store.Base.{ℕ, Bool, true, false, Option, none, some, ◌==◌, if◌then◌else◌}

-- Where a thread is: outside, between the two exchanges of an insert, the winner of an insert, the winner
-- of an update, between the two stores that release an insert.
pub data Phase : Type 0 where
  outside : Phase
  between : ℕ → ℕ → Phase
  inserting : ℕ → ℕ → Phase
  updating : ℕ → Phase
  leaving : ℕ → Phase

pub record Locks : Type 0 where
  pub ctx : ℕ → Option ℕ
  pub phase : ℕ → Phase

abbrev pub assign {ℓ} : {A : Type ℓ} → (ℕ → A) → ℕ → A → ℕ → A
assign f n v p = if p == n then v else f p

-- `compare_exchange_strong(expect, shared_ctx)` with `expect` null
unfoldable pub exchange : (ℕ → Option ℕ) → ℕ → ℕ → (ℕ → Option ℕ) × Bool
exchange ctx n t = elim (ctx n) [ none ↦ (assign ctx n (some t), true) | some u ↦ (ctx, false) ]

-- What a thread that is outside does.
pub data Intent : Type 0 where
  insert update : ℕ → Intent

-- One atomic operation of thread t. The predecessor of a node, `backward`, is the same when it is locked
-- and when it is released.
unfoldable pub move : (ℕ → ℕ) → ℕ → Intent → Phase → (ℕ → Option ℕ) → (ℕ → Option ℕ) × Phase
move backward t (insert r) outside ctx =
    let (ctx', win) = exchange ctx r t in (ctx', if win then between r (backward r) else outside)
move backward t (update r) outside ctx =
    let (ctx', win) = exchange ctx r t in (ctx', if win then updating r else outside)
move backward t i (between r l) ctx =
    let (ctx', win) = exchange ctx l t in
    if win then (ctx', inserting r l) else (assign ctx r none, outside)
move backward t i (inserting r l) ctx = (assign ctx r none, leaving l)
move backward t i (updating r) ctx = (assign ctx r none, outside)
move backward t i (leaving l) ctx = (assign ctx l none, outside)

pub data Step (backward : ℕ → ℕ) (s : Locks) : Locks → Type 0 where
  act :
      (t : ℕ) (i : Intent)
      → Step backward s (record {
        ctx = (move backward t i (s.phase t) s.ctx).0;
        phase = assign s.phase t (move backward t i (s.phase t) s.ctx).1;
      })

abbrev pub unlocked : Locks
unlocked = record { ctx = λ n. none; phase = λ t. outside }

pub data Reach (backward : ℕ → ℕ) : Locks → Type 0 where
  start : Reach backward unlocked
  later : {s s' : Locks} → Reach backward s → Step backward s s' → Reach backward s'
