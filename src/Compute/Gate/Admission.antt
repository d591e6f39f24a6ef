-- ===== src/Compute/Gate/Admission.antt =====
-- How many of the threads that come to the `fetch_sub` of `failed_write` may push a request.
use di_store.Base.{
  ℕ, ◌+◌, ◌^◌, ◌≤◌, ◌<◌, min, ◌≡◌, ◌⊎◌, inl, inr, refl, List, [], ◌∷◌, arith, ◌==◌, ==_iff,
  if◌then◌else◌, length, true, false, zero, suc,
}
use di_store.Compute.Gate.{
  Gates, DataNodes, Phase, draining, pushing, subtracting, Choice, advance, minus_one, is_positive,
  less_one,
}
use di_store.Compute.Lock.{assign}

-- A thread at its fetch_sub, and the node that it puts into.
pub record Loser : Type 0 where
  pub thread : ℕ
  pub node : ℕ

abbrev is_pushing : Phase → ℕ
is_pushing (pushing r w) = 1
is_pushing _ = 0

abbrev no_choice : Choice
no_choice = record { node = 0; key = []; fits = true; back = false; more = false }

-- The state after the fetch_sub of each of these threads on the context w, one after the other, and how
-- many of them go on to push.
unfoldable pub admitted : DataNodes → ℕ → List Loser → Gates → ℕ
admitted nodes w [] s = 0
admitted nodes w (l ∷ ls) s =
    let s' = advance nodes l.thread no_choice (subtracting l.node w) s in
    is_pushing (s'.phase l.thread) + admitted nodes w ls s'

assign_self {ℓ} : {A : Type ℓ} (f : ℕ → A) (n : ℕ) (v : A) → assign f n v n ≡ v
assign_self f n v = rw ((==_iff n n).1 refl) refl

is_pushing-if :
    (d r w : ℕ)
    → is_pushing (if is_positive d then pushing r w else draining r)
      ≡ (if is_positive d then 1 else 0)
is_pushing-if d r w = ground arith

admitted-nil : (nodes : DataNodes) (w : ℕ) (s : Gates) → admitted nodes w [] s ≡ 0
unfolding admitted
admitted-nil nodes w s = refl

-- One thread: it is admitted when the depth is positive, and takes one off.
admitted-cons :
    (nodes : DataNodes) (w : ℕ) (l : Loser) (ls : List Loser) (s : Gates)
    → let s' = advance nodes l.thread no_choice (subtracting l.node w) s in
      (admitted nodes w (l ∷ ls) s
        ≡ (if is_positive (s.max_depth w) then 1 else 0) + admitted nodes w ls s')
      × (s'.max_depth w ≡ less_one (s.max_depth w))
unfolding admitted advance
admitted-cons nodes w l ls s = (
  rw
      (
        assign_self s.phase l.thread
            (if is_positive (s.max_depth w) then pushing l.node w else draining l.node),
        is_pushing-if (s.max_depth w) l.node w,
      )
      refl,
  assign_self s.max_depth w (less_one (s.max_depth w)),
)

module _ (nodes : DataNodes) (w : ℕ) where
  abbrev after : Loser → Gates → Gates
  after l s = advance nodes l.thread no_choice (subtracting l.node w) s

  -- A negative depth stays negative.
  admitted-negative :
      (ls : List Loser) (s : Gates)
      → 2 ^ 31 + length ls ≤ s.max_depth w
      → s.max_depth w < 2 ^ 32
      → admitted nodes w ls s ≡ 0
  admitted-negative [] s low small = admitted-nil nodes w s
  admitted-negative (l ∷ ls) s low small =
      let (e, d) = admitted-cons nodes w l ls s in
      let ih : admitted nodes w ls (after l s) ≡ 0 =
        admitted-negative ls (after l s) (omega arith) (omega arith) in
      ground arith

  -- From 0 the depth becomes negative.
  admitted-zero :
      (ls : List Loser) (s : Gates)
      → length ls ≤ 2 ^ 31
      → s.max_depth w ≡ 0
      → admitted nodes w ls s ≡ 0
  admitted-zero [] s few d0 = admitted-nil nodes w s
  admitted-zero (l ∷ ls) s few d0 =
      let (e, d) = admitted-cons nodes w l ls s in
      let ih : admitted nodes w ls (after l s) ≡ 0 =
        admitted-negative ls (after l s) (omega arith) (omega arith) in
      ground arith

  admitted-min :
      (ls : List Loser) (s : Gates) (k : ℕ)
      → length ls ≤ 2 ^ 31
      → k < 2 ^ 31
      → s.max_depth w ≡ k
      → admitted nodes w ls s ≡ min (length ls) k
  admitted-min ls s zero few small dk = rw (admitted-zero ls s few dk) (omega arith)
  admitted-min [] s (suc k) few small dk = rw (admitted-nil nodes w s) (omega arith)
  admitted-min (l ∷ ls) s (suc k) few small dk =
      let (e, d) = admitted-cons nodes w l ls s in
      let ih : admitted nodes w ls (after l s) ≡ min (length ls) k =
        admitted-min ls (after l s) k (omega arith) (omega arith) (omega arith) in
      ground arith

  -- Of the threads that come to the fetch_sub of a context one after the other, fewer than 2 ^ 31 of them,
  -- the first four go on to push a request if `max_depth` was 4, and none if it was 0 or -1; all others
  -- start their put again.
  pub admitted-four :
      (ls : List Loser) (s : Gates)
      → length ls < 2 ^ 31
      → (s.max_depth w ≡ 4) ⊎ (s.max_depth w ≡ 0) ⊎ (s.max_depth w ≡ minus_one)
      → admitted nodes w ls s ≡ min (length ls) (if s.max_depth w == 4 then 4 else 0)
  admitted-four ls s few (inl open4) =
      rw (open4) (admitted-min ls s 4 (omega arith) (omega arith) open4)
  admitted-four ls s few (inr (inl shut)) =
      rw (shut, admitted-zero ls s (omega arith) shut) (omega arith)
  admitted-four ls s few (inr (inr shut)) =
      rw (shut, admitted-negative ls s (omega arith) (omega arith)) (omega arith)
