-- ===== src/Tests/Locking.antt =====
-- The theorems on the competition for nodes and on the local nodes, at concrete inputs.
use di_store.Base.{
  ℕ, ◌-◌, ◌≡◌, ◌≢◌, inl, refl, str_lt, List, [], ◌∷◌, ◌++◌, map, some, true, false, arith,
}
use di_store.Compute.Lock.{
  Locks, insert, assign, exchange, move, act, unlocked, Reach, start, later,
}
use di_store.Compute.Exclusive.{Holds, Reach-exclusive}
use di_store.Compute.Gate
use di_store.Compute.Gate.{
  Gates, DataNodes, Choice, advance, compete, pop_request, take_reply, fresh, awaiting, stored,
}
use di_store.Compute.Gate.Admission.{Loser, admitted, admitted-four}
use di_store.Compute.Gate.Kept.{requests_of}
use di_store.Compute.Gate.Held.{held}
use di_store.Compute.Gate.Queued.{requests_of-owed}
use di_store.Compute.Gate.Elsewhere.{home, Reach-elsewhere}
use di_store.Compute.Local.{Local}
use di_store.Compute.LocalGet.{IsOrdered}
use di_store.DataLayer.{type10}
use di_store.Tests.Data.{key_at, filled}

-- The predecessor of a node is the one before it.
abbrev before : ℕ → ℕ
before n = n - 1

abbrev first_move : Locks
first_move = record {
  ctx = (move before 1 (insert 5) (unlocked.phase 1) unlocked.ctx).0;
  phase = assign unlocked.phase 1 (move before 1 (insert 5) (unlocked.phase 1) unlocked.ctx).1;
}

first_reached : Reach before first_move
first_reached = later start (act 1 (insert 5))

first-Holds : Holds (first_move.phase 1) 5
unfolding move exchange
first-Holds = refl

abbrev thread : ℕ
thread = 1

Reach-exclusive_example : thread ≡ thread
Reach-exclusive_example =
    Reach-exclusive before first_move thread thread 5 first_reached first-Holds first-Holds

abbrev two_nodes : Local
two_nodes = record {
  node_0 = filled 10 type10 3;
  node_1 = filled 10 type10 5;
  anchor_0 = key_at 0;
  anchor_1 = key_at 4;
}

two_nodes-IsOrdered : IsOrdered two_nodes
unfolding str_lt
two_nodes-IsOrdered = record { filled = λ e. absurd (cc); above = λ e. refl }

-- Thread 0 wins node 2, thread 1 loses it and pushes its request once node 2 is released.
abbrev moves : List ℕ
moves = 0 ∷ 0 ∷ 0 ∷ 0 ∷ 0 ∷ 0 ∷ 0 ∷ 1 ∷ 1 ∷ 1 ∷ 1 ∷ 0 ∷ 0 ∷ 0 ∷ 0 ∷ 0 ∷ 1 ∷ 1 ∷ 1 ∷ []

abbrev node_2 : Choice
node_2 = record { node = 2; key = key_at 2; fits = true; back = true; more = false }

abbrev nodes : DataNodes
nodes = record { backward = before; anchor = key_at }

unfoldable run : List ℕ → Gates → Gates
run [] s = s
run (t ∷ ts) s = run ts (advance nodes t node_2 (s.phase t) s)

run-Reach : (ts : List ℕ) (s : Gates) → Gate.Reach nodes s → Gate.Reach nodes (run ts s)
unfolding run
run-Reach [] s r = r
run-Reach (t ∷ ts) s r = run-Reach ts _ (Gate.Reach.later r (Gate.Step.act t node_2))

run_awaits : (run moves fresh).phase 1 ≡ awaiting 2 0
unfolding run advance compete pop_request take_reply
run_awaits = refl

requests_of-owed_example :
    requests_of 1 2 (held ((run moves fresh).phase 0) ++ (run moves fresh).requests 0) ≡ 1
unfolding run advance compete pop_request take_reply
requests_of-owed_example =
    requests_of-owed nodes (run moves fresh) 1 2 0 (run-Reach moves fresh Gate.Reach.start)

abbrev losers : List Loser
losers = map (λ t. record { thread = t; node = 2 }) (1 ∷ 2 ∷ 3 ∷ 4 ∷ 5 ∷ 6 ∷ [])

admitted-four_example : admitted nodes 0 losers fresh ≡ 4
admitted-four_example = admitted-four nodes 0 losers fresh (omega arith) (inl refl)

key_2-above : str_lt (key_at 2) (key_at 2) ≡ false
unfolding str_lt
key_2-above = refl

Reach-elsewhere_example :
    (s : Gates) × Gate.Reach nodes s
    × (s.phase 1 ≡ awaiting 2 0)
    × (s.key 1 ≡ key_at 2)
    × (s.replies 1 ≡ some (stored (home nodes (key_at 2) 7)))
    × (home nodes (key_at 2) 7 ≢ 2)
Reach-elsewhere_example =
    Reach-elsewhere nodes 2 7 (key_at 2) (omega arith) (omega arith) (omega arith) (omega arith)
      key_2-above

home_7 : home nodes (key_at 2) 7 ≡ 6
unfolding str_lt
home_7 = refl
