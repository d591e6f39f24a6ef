-- ===== src/Rdma/Opening.antt =====
-- Opening a device: which status is returned, and that nothing made is left behind.
use di_store.Base.{
  ℕ, ◌≡◌, ◌≢◌, refl, Bool, true, false, ◌||◌, Option, none, some, List, [], ◌∷◌, Bytes, ◌==◌, arith,
  if◌then◌else◌,
}
use di_store.Rdma.{
  Status, no_gid, cannot_alloc_pd, cannot_create_cq, cannot_reg_mr, cannot_create_qp,
  cannot_query_port, Resource, pd, in_cq, out_cq, mr, qp, destroy, Verbs, Opened, opened, refused,
  query, query_all, open_device,
}

-- The calls in the order of the code: the status that stands for their failure, and what they make.
abbrev pub Attempt : Type 0
Attempt = Status × Option (Option Resource)

abbrev made_by : (ℕ → Resource) → Option ℕ → Option (Option Resource)
made_by kind none = none
made_by kind (some r) = some (some (kind r))

abbrev asked {ℓ} : {A : Type ℓ} → Option A → Option (Option Resource)
asked none = none
asked (some a) = some none

abbrev pub attempts : Bool → Verbs → List Attempt
attempts has_gid v =
    (cannot_alloc_pd, made_by pd v.alloc_pd)
    ∷ (cannot_create_cq, made_by in_cq v.create_in_cq)
    ∷ (cannot_create_cq, made_by out_cq v.create_out_cq)
    ∷ (cannot_reg_mr, made_by mr v.reg_mr)
    ∷ (cannot_create_qp, made_by qp v.create_qp)
    ∷ (no_gid, if has_gid then asked v.query_gid else some none)
    ∷ (cannot_query_port, asked v.query_port)
    ∷ []

-- What the calls before the first that fails make, the latest first, and the status of that one.
abbrev pub made : List Resource → List Attempt → List Resource × Option Status
made rs [] = (rs, none)
made rs ((st, none) ∷ calls) = (rs, some st)
made rs ((st, some none) ∷ calls) = made rs calls
made rs ((st, some (some r)) ∷ calls) = made (r ∷ rs) calls

-- What is destroyed at once or with the context that is returned, and the status of a failure.
abbrev pub outcome : Opened → List Resource × Option Status
outcome (opened c) = (destroy c, none)
outcome (refused st rs) = (rs, some st)

abbrev verbs :
    Option ℕ → Option ℕ → Option ℕ → Option ℕ → Option ℕ → Option Bytes → Option ℕ → ℕ → ℕ → Verbs
verbs p i o m q g l rkey qp_num = record {
  alloc_pd = p;
  create_in_cq = i;
  create_out_cq = o;
  reg_mr = m;
  create_qp = q;
  query_gid = g;
  query_port = l;
  rkey = rkey;
  qp_num = qp_num;
}

module _ (membuf cqe rkey qp_num : ℕ) (valid : (membuf == 0 || cqe == 0) ≡ false) where
  abbrev Agrees : Bool → Verbs → Type 0
  Agrees has_gid v = outcome (open_device membuf cqe has_gid v) ≡ made [] (attempts has_gid v)

  queries :
      (has_gid : Bool) (p i o m q : ℕ) (g : Option Bytes) (l : Option ℕ)
      → Agrees has_gid (verbs (some p) (some i) (some o) (some m) (some q) g l rkey qp_num)
  unfolding open_device query_all query destroy
  queries false p i o m q g none = rw valid refl
  queries false p i o m q g (some l) = rw valid refl
  queries true p i o m q none l = rw valid refl
  queries true p i o m q (some g) none = rw valid refl
  queries true p i o m q (some g) (some l) = rw valid refl

  agrees :
      (has_gid : Bool) (p i o m q : Option ℕ) (g : Option Bytes) (l : Option ℕ)
      → Agrees has_gid (verbs p i o m q g l rkey qp_num)
  unfolding open_device destroy
  agrees has_gid none i o m q g l = rw valid refl
  agrees has_gid (some p) none o m q g l = rw valid refl
  agrees has_gid (some p) (some i) none m q g l = rw valid refl
  agrees has_gid (some p) (some i) (some o) none q g l = rw valid refl
  agrees has_gid (some p) (some i) (some o) (some m) none g l = rw valid refl
  agrees has_gid (some p) (some i) (some o) (some m) (some q) g l = queries has_gid p i o m q g l

-- `open` with a buffer and completion queues of some length: its status is that of the first call that
-- fails, and then everything that the calls before made is destroyed, the latest first; when none fails, the
-- context that it returns destroys all of it in that order at its end.
pub open_device-made :
    (membuf cqe : ℕ) (has_gid : Bool) (v : Verbs)
    → membuf ≢ 0
    → cqe ≢ 0
    → outcome (open_device membuf cqe has_gid v) ≡ made [] (attempts has_gid v)
open_device-made membuf cqe has_gid v m c =
    agrees membuf cqe v.rkey v.qp_num (ground arith) has_gid v.alloc_pd v.create_in_cq
      v.create_out_cq v.reg_mr v.create_qp v.query_gid v.query_port
