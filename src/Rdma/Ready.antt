-- ===== src/Rdma/Ready.antt =====
-- `default_get_qp_ready` and `default_connect`: the queue pair goes to Init, to RTR and to RTS.
use di_store.Base.{
  ℕ, ◌≡◌, inl, inr, refl, Bool, true, false, ◌&&◌, Option, none, some, List, [], ◌∷◌, Bytes, ◌==◌,
  Bool-cases, if◌then◌else◌,
}
use di_store.Rdma.{Status, ok, cannot_init_qp, Certificate, exchange_certificate}

pub data QpState : Type 0 where
  qps_init qps_rtr qps_rts : QpState

-- `ibv_qp_attr`, as far as the defaults set it; `grh` is the gid and its index of a global route.
pub record QpAttr : Type 0 where
  pub qp_state : QpState
  pub port_num : ℕ
  pub dest_qp_num : ℕ
  pub dlid : ℕ
  pub grh : Option (Bytes × ℕ)
  pub min_rnr_timer : ℕ
  pub timeout : ℕ
  pub retry_cnt : ℕ
  pub max_rd_atomic : ℕ
  pub max_dest_rd_atomic : ℕ

abbrev pub cleared_attr : QpState → QpAttr
cleared_attr state = record {
  qp_state = state;
  port_num = 0;
  dest_qp_num = 0;
  dlid = 0;
  grh = none;
  min_rnr_timer = 0;
  timeout = 0;
  retry_cnt = 0;
  max_rd_atomic = 0;
  max_dest_rd_atomic = 0;
}

abbrev pub init_state_attr : ℕ → QpAttr
init_state_attr ib_port = record (cleared_attr qps_init) { port_num = ib_port }

-- A gid index that is not negative makes the route global, on port 1.
abbrev pub rtr_attr : Certificate → ℕ → Option ℕ → QpAttr
rtr_attr remote ib_port none = record (cleared_attr qps_rtr) {
  dest_qp_num = remote.qp_num;
  max_dest_rd_atomic = 1;
  min_rnr_timer = 18;
  dlid = remote.lid;
  port_num = ib_port;
}
rtr_attr remote ib_port (some sgid_idx) = record (cleared_attr qps_rtr) {
  dest_qp_num = remote.qp_num;
  max_dest_rd_atomic = 1;
  min_rnr_timer = 18;
  dlid = remote.lid;
  port_num = 1;
  grh = some (remote.gid, sgid_idx);
}

abbrev pub rts_attr : QpAttr
rts_attr = record (cleared_attr qps_rts) { timeout = 18; retry_cnt = 6; max_rd_atomic = 1 }

-- `modify_qp`, of what `ibv_modify_qp` returns
unfoldable pub modify_qp : ℕ → Status × ℕ
modify_qp ret = if ret == 0 then (ok, ret) else (cannot_init_qp, ret)

abbrev pub is_ok : Status → Bool
is_ok ok = true
is_ok _ = false

module _ (ibv_modify_qp : QpAttr → ℕ) where
  -- `default_get_qp_ready`: the changes that were asked for, and what is returned
  unfoldable pub default_get_qp_ready : Certificate → ℕ → Option ℕ → List QpAttr × ℕ
  unfolding modify_qp
  default_get_qp_ready remote ib_port gid_idx =
      let first = init_state_attr 1 in
      let second = rtr_attr remote ib_port gid_idx in
      let (s1, e1) = modify_qp (ibv_modify_qp first) in
      let (s2, e2) = modify_qp (ibv_modify_qp second) in
      let (s3, e3) = modify_qp (ibv_modify_qp rts_attr) in
      if is_ok s1
      then (if is_ok s2
          then (if is_ok s3
              then (first ∷ second ∷ rts_attr ∷ [], 0)
              else (first ∷ second ∷ rts_attr ∷ [], e3))
          else (first ∷ second ∷ [], e2))
      else (first ∷ [], e1)

  -- `default_connect`: nothing stands for -1.
  unfoldable pub default_connect :
      Certificate
      → Certificate
      → Bool
      → Option Certificate
      → ℕ
      → Option ℕ
      → Option (List QpAttr × ℕ)
  unfolding default_get_qp_ready exchange_certificate
  default_connect local remote wrote tmp ib_port gid_idx =
      let x = exchange_certificate local remote wrote tmp in
      if is_ok x.status then some (default_get_qp_ready x.remote ib_port gid_idx) else none

  -- `default_get_qp_ready` returns 0 exactly when the changes to Init, RTR and RTS all succeed. The change
  -- to Init names port 1, whichever port the device was opened for.
  pub default_get_qp_ready-zero :
      (remote : Certificate) (ib_port : ℕ) (gid_idx : Option ℕ)
      → let r = default_get_qp_ready remote ib_port gid_idx in
        ((r.1 == 0) ≡ (
          ibv_modify_qp (init_state_attr 1) == 0
          && ibv_modify_qp (rtr_attr remote ib_port gid_idx) == 0
          && ibv_modify_qp rts_attr == 0))
  unfolding default_get_qp_ready modify_qp
  default_get_qp_ready-zero remote ib_port gid_idx =
      elim (Bool-cases (ibv_modify_qp (init_state_attr 1) == 0)) [
        | inr no_init ↦ rw (no_init) no_init
        | inl init ↦ elim (Bool-cases (ibv_modify_qp (rtr_attr remote ib_port gid_idx) == 0)) [
          | inr no_rtr ↦ rw (init, no_rtr) no_rtr
          | inl rtr ↦ elim (Bool-cases (ibv_modify_qp rts_attr == 0)) [
            | inr no_rts ↦ rw (init, rtr, no_rts) no_rts
            | inl rts ↦ rw (init, rtr, rts) refl
          ]
        ]
      ]
