-- ===== src/Compute/Gate/Elsewhere.antt =====
-- A run in which a request reaches its winner after the winner has turned to another node.
use di_store.Base.{
  ℕ, ◌≡◌, ◌≢◌, inl, inr, refl, subst, true, false, none, some, arith, Bytes, str_lt, Bool-cases,
  if◌then◌else◌,
}
use di_store.Compute.Gate.{
  Gates, DataNodes, Waiting, stored, Phase, outside, draining, closing, trying, between, opening,
  fetching, serving, answering, served, leaving, leaving_pred, reopening, spinning, subtracting,
  pushing, awaiting, Choice, go, set_ctx, compete, pop_request, reply_to, answer_of, serve_request,
  advance, act, fresh, Reach, start, later,
}

-- A put of a key into a node, in which every store succeeds
abbrev put_key : Bytes → ℕ → Choice
put_key k n = record { node = n; key = k; fits = true; back = true; more = false }

module _ (nodes : DataNodes) where
  abbrev put : ℕ → Choice
  put n = put_key (nodes.anchor n) n

  step :
      {s : Gates}
      → Reach nodes s
      → (t : ℕ) (c : Choice) (p : Phase) → s.phase t ≡ p
      → Reach nodes (advance nodes t c p s)
  step {s} reach t c p e =
      subst (λ q. Reach nodes (advance nodes t c q s)) e (later reach (act t c))

  -- The exchange on the node finds it free.
  win_node :
      {s : Gates}
      → Reach nodes s
      → (t r : ℕ) → s.phase t ≡ trying r
      → s.ctx r ≡ none
      → Reach nodes (set_ctx s r (some t) t (between r (nodes.backward r)))
  unfolding advance compete
  win_node {s} reach t r e free =
      let reached = step reach t (put r) (trying r) e in rw (free, compete) at reached

  -- So does the exchange on the predecessor.
  win_pred :
      {s : Gates}
      → Reach nodes s
      → (t r l : ℕ) → s.phase t ≡ between r l
      → s.ctx l ≡ none
      → Reach nodes (set_ctx s l (some t) t (opening r l))
  unfolding advance compete
  win_pred {s} reach t r l e free =
      let reached = step reach t (put r) (between r l) e in rw (free, compete) at reached

  -- The exchange finds the context of w.
  lose_node :
      {s : Gates}
      → Reach nodes s
      → (t r w : ℕ) → s.phase t ≡ trying r
      → s.ctx r ≡ some w
      → Reach nodes (go s t (spinning r w))
  unfolding advance compete
  lose_node {s} reach t r w e taken =
      let reached = step reach t (put r) (trying r) e in rw (taken, compete) at reached

  -- Where the winner of m stores a key: in its predecessor when the key is below its anchor.
  abbrev pub home : Bytes → ℕ → ℕ
  home k m = if str_lt k (nodes.anchor m) then nodes.backward m else m

  answer_of-home :
      (k : Bytes) (m : ℕ)
      → answer_of nodes (put m) k m (nodes.backward m) ≡ some (stored (home k m))
  unfolding answer_of
  answer_of-home k m = elim (Bool-cases (str_lt k (nodes.anchor m))) [
    | inl below ↦ rw below refl
    | inr above ↦ rw above refl
  ]

  -- The winner answers a request that it has popped.
  answer :
      {s : Gates}
      → Reach nodes s
      → (t m : ℕ) (q : Waiting) (k : Bytes) → s.phase t ≡ answering m (nodes.backward m) q
      → s.key q.waiter ≡ k
      → Reach nodes (reply_to s t q (stored (home k m)) (serving m (nodes.backward m)))
  unfolding advance serve_request
  answer {s} reach t m q k e own =
      let reached = step reach t (put m) (answering m (nodes.backward m) q) e in
      rw (own, answer_of-home k m, serve_request) at reached

  -- Two nodes n and m whose predecessors are other nodes, and n is not the predecessor of m; thread 1 puts
  -- a key that is not below the anchor of n into n, and thread 0 puts the anchor of n into n and then that
  -- of m into m. There is an order of their steps after which thread 1, still waiting for the winner of n,
  -- has the reply that its request is stored, and it is stored in a node other than n: in m, or in the
  -- predecessor of m if the key is below the anchor of m.
  pub Reach-elsewhere :
      (n m : ℕ) (k : Bytes)
      → n ≢ m
      → nodes.backward n ≢ n
      → nodes.backward m ≢ m
      → nodes.backward m ≢ n
      → str_lt k (nodes.anchor n) ≡ false
      → (s : Gates) × Reach nodes s
        × (s.phase 1 ≡ awaiting n 0)
        × (s.key 1 ≡ k)
        × (s.replies 1 ≡ some (stored (home k m)))
        × (home k m ≢ n)
  unfolding advance pop_request reply_to
  Reach-elsewhere n m k other pred_n pred_m behind owns =
      let a0 : Reach nodes fresh = start in
      -- thread 0 wins n and its predecessor
      let a1 = step a0 0 (put n) outside refl in
      let a2 = step a1 0 (put n) (draining n) refl in
      let a3 = step a2 0 (put n) (closing n) refl in
      let a4 = win_node a3 0 n refl refl in
      let a5 = win_pred a4 0 n (nodes.backward n) refl (ground arith) in
      let a6 = step a5 0 (put n) (opening n (nodes.backward n)) refl in
      let a7 = step a6 0 (put n) (fetching n (nodes.backward n)) refl in
      -- thread 1 loses n
      let b1 = step a7 1 (put_key k n) outside refl in
      let b2 = step b1 1 (put_key k n) (draining n) refl in
      let b3 = step b2 1 (put_key k n) (closing n) refl in
      let b4 = lose_node b3 1 n 0 refl (ground arith) in
      -- thread 0 serves nobody and releases n
      let c1 = step b4 0 (put n) (serving n (nodes.backward n)) refl in
      let c1b = step c1 0 (put n) (served n (nodes.backward n)) refl in
      let c2 = step c1b 0 (put n) (leaving n (nodes.backward n)) refl in
      let c3 = step c2 0 (put n) (leaving_pred n (nodes.backward n)) refl in
      let c4 = step c3 0 (put n) reopening refl in
      -- thread 1 is admitted by the 4 that thread 0 left, and thread 0 turns to m
      let d1 = step c4 1 (put_key k n) (spinning n 0) refl in
      let d2 = step d1 1 (put_key k n) (subtracting n 0) refl in
      let d3 = step d2 0 (put m) outside refl in
      let d4 = step d3 0 (put m) (draining m) refl in
      let d5 = step d4 1 (put_key k n) (pushing n 0) refl in
      -- thread 0 wins m and serves the request about n
      let e1 = step d5 0 (put m) (closing m) refl in
      let e2 = win_node e1 0 m refl (ground arith) in
      let e3 = win_pred e2 0 m (nodes.backward m) refl (ground arith) in
      let e4 = step e3 0 (put m) (opening m (nodes.backward m)) refl in
      let e5 = step e4 0 (put m) (fetching m (nodes.backward m)) refl in
      let e6 = step e5 0 (put m) (serving m (nodes.backward m)) refl in
      let e7 = answer e6 0 m (record { waiter = 1; target = n }) k refl refl in
      (_, e7, refl, refl, refl, ground arith)
