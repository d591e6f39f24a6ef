-- ===== src/Compute/LocalGet.antt =====
-- Which of the two local nodes `quick_put`, `get` and `update` go to.
use di_store.Base.{
  ℕ, ◌≡◌, ◌⊎◌, inl, inr, refl, true, false, Bytes, str_lt, str_lt_irrefl, str_lt_asymm,
  str_lt_total, str_le_trans, Bool-cases,
}
use di_store.DataLayer.{find, update}
use di_store.Compute.Local.{
  Local, is_empty, quick_put_pick_node, get_picks, update_picks, local_get, local_update,
}

-- The second anchor is set after the first, and not below it.
pub record IsOrdered (s : Local) : Type 0 where
  pub filled : is_empty s.anchor_0 ≡ true → is_empty s.anchor_1 ≡ true
  pub above : is_empty s.anchor_1 ≡ false → str_lt s.anchor_1 s.anchor_0 ≡ false

below_both :
    (key : Bytes) (s : Local)
    → str_lt key s.anchor_0 ≡ true
    → str_lt s.anchor_1 s.anchor_0 ≡ false
    → str_lt key s.anchor_1 ≡ true
below_both key s below order = elim (Bool-cases (str_lt key s.anchor_1)) [
  | inl less ↦ less
  | inr not_less ↦ let above = str_le_trans s.anchor_0 s.anchor_1 key order not_less in absurd (cc)
]

-- For a key that is not empty and ordered anchors, `quick_put_pick_node` leaves ordered anchors and picks
-- the node that `get` looks at for the key, unless the key is the second anchor itself.
pub quick_put_pick_node-get_picks :
    (key : Bytes) (s : Local)
    → is_empty key ≡ false
    → IsOrdered s
    → (let (s', second) = quick_put_pick_node key s in
        IsOrdered s' × ((get_picks key s' ≡ second) ⊎ (key ≡ s'.anchor_1)))
unfolding quick_put_pick_node get_picks
quick_put_pick_node-get_picks key s full h = elim (Bool-cases (is_empty s.anchor_0)) [
  | inl first ↦
      let none_yet = h.filled first in
      rw first (record { filled = λ e. none_yet; above = λ e. absurd (cc) }, inl (rw none_yet refl))
  | inr started ↦ elim (Bool-cases (str_lt key s.anchor_0)) [
    | inl below ↦ elim (Bool-cases (is_empty s.anchor_1)) [
      | inl single ↦
          rw (started, below, single)
            (
              record { filled = λ e. absurd (cc); above = λ e. str_lt_asymm key s.anchor_0 below },
              inl rw (started, below) refl,
            )
      | inr both ↦
          rw (started, below, both)
            (
              record {
                filled = λ e. absurd (cc);
                above = λ e. str_lt_asymm key s.anchor_1 (below_both key s below (h.above both));
              },
              inl rw (both, below_both key s below (h.above both)) refl,
            )
    ]
    | inr above ↦ elim (Bool-cases (is_empty s.anchor_1)) [
      | inl single ↦
          rw (started, above, single)
            (
              record { filled = λ e. absurd (cc); above = λ e. above },
              inl rw (full, str_lt_irrefl) refl,
            )
      | inr both ↦
          rw (started, above, both)
            (
              h,
              elim (Bool-cases (str_lt s.anchor_1 key)) [
                | inl beyond ↦ inl (rw (both, beyond, str_lt_asymm s.anchor_1 key beyond) refl)
                | inr within ↦ elim (Bool-cases (str_lt key s.anchor_1)) [
                  | inl less ↦ inl (rw (both, within, less) refl)
                  | inr not_less ↦ inr (str_lt_total key s.anchor_1 not_less within)
                ]
              ],
            )
    ]
  ]
]

-- `update` of the key that is the second anchor looks at the first node, where `get` looks at the second.
pub local_update-anchor :
    (city : Bytes → ℕ) (value : Bytes) (s : Local)
    → is_empty s.anchor_1 ≡ false
    → (local_get city s.anchor_1 s ≡ find city s.node_1 s.anchor_1)
      × (local_update city s.anchor_1 value s ≡ (
        record s { node_0 = (update city s.anchor_1 value s.node_0).0 },
        (update city s.anchor_1 value s.node_0).1,
      ))
unfolding local_get local_update get_picks update_picks
local_update-anchor city value s full = simp (full, str_lt_irrefl) (refl, refl)
