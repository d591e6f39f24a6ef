-- ===== src/Rdma.antt =====
-- src/components/rdma_util: RDMADevice and RDMAContext, over what the calls of libibverbs return.
--
-- A resource of libibverbs is a number, and a call that returns null or an error is nothing or the error's
-- number. The host is little endian, so that `htonl` and its like reverse the bytes of a word.
pub mod Wire
pub mod Opening
pub mod Posting
pub mod Ready
use di_store.Base.{
  ℕ, zero, suc, ◌+◌, ◌-◌, ◌*◌, ◌/◌, ◌%◌, ◌^◌, Bool, true, false, ◌||◌, Option, none, some, List, [],
  ◌∷◌, ◌++◌, Bytes, str_eq, ◌==◌, if◌then◌else◌, replicate,
}

pub data Status : Type 0 where
  ok no_rdma_device_list device_not_found device_not_opened no_gid cannot_open_device
        cannot_alloc_pd cannot_create_cq cannot_reg_mr cannot_create_qp cannot_query_port
        invalid_gid_idx invalid_ib_port invalid_arguments cannot_init_qp qp_rtr_failed qp_rts_failed
        read_error write_error post_failed recv_failed :
      Status

-- `connection_certificate`
pub record Certificate : Type 0 where
  pub addr : ℕ
  pub rkey : ℕ
  pub qp_num : ℕ
  pub lid : ℕ
  pub gid : Bytes

-- The bytes of a word, the lowest first, and the word of such bytes.
unfoldable pub to_bytes : ℕ → ℕ → Bytes
to_bytes zero x = []
to_bytes (suc n) x = (x % 256) ∷ to_bytes n (x / 256)

unfoldable pub of_bytes : Bytes → ℕ
of_bytes [] = 0
of_bytes (b ∷ bs) = b + 256 * of_bytes bs

unfoldable pub backwards : Bytes → Bytes
backwards [] = []
backwards (b ∷ bs) = backwards bs ++ b ∷ []

-- `bswap_64`, and `htonl` and its like, of a word with n bytes
abbrev pub swap_bytes : ℕ → ℕ → ℕ
swap_bytes n x = of_bytes (backwards (to_bytes n x))

-- The certificate that is written, by `htonll`, `htonl` and `htons`
abbrev pub to_wire : Certificate → Certificate
to_wire c = record {
  addr = swap_bytes 8 c.addr;
  rkey = swap_bytes 4 c.rkey;
  qp_num = swap_bytes 4 c.qp_num;
  lid = swap_bytes 2 c.lid;
  gid = c.gid;
}

-- What is kept of a certificate that was read, by `ntohll`, `ntohl` and `ntohs`
abbrev pub from_wire : Certificate → Certificate
from_wire c = record {
  addr = swap_bytes 8 c.addr;
  rkey = swap_bytes 4 c.rkey;
  qp_num = swap_bytes 4 c.qp_num;
  lid = swap_bytes 2 c.lid;
  gid = c.gid;
}

-- The two certificates of an RDMAContext, what was given to `write` and what is returned.
pub record Exchange : Type 0 where
  pub local : Certificate
  pub remote : Certificate
  pub written : Option Certificate
  pub status : Status

-- `exchange_certificate`, of whether `write` took all and of what `read` filled `tmp` with
unfoldable pub exchange_certificate :
    Certificate → Certificate → Bool → Option Certificate → Exchange
exchange_certificate local remote false tmp = record {
  local = local;
  remote = remote;
  written = some (to_wire local);
  status = write_error;
}
exchange_certificate local remote true none = record {
  local = local;
  remote = remote;
  written = some (to_wire local);
  status = read_error;
}
exchange_certificate local remote true (some tmp) = record {
  local = local;
  remote = from_wire tmp;
  written = some (to_wire local);
  status = ok;
}

-- What an open device has made.
pub data Resource : Type 0 where
  pd in_cq out_cq mr qp : ℕ → Resource

-- `RDMAContext`, with null pointers where nothing has been made
pub record Context : Type 0 where
  pub pd_of : Option ℕ
  pub in_cq_of : Option ℕ
  pub out_cq_of : Option ℕ
  pub mr_of : Option ℕ
  pub qp_of : Option ℕ
  pub local : Certificate
  pub buf : ℕ

-- `make_rdma_context`
abbrev pub zeroed : Context
zeroed = record {
  pd_of = none;
  in_cq_of = none;
  out_cq_of = none;
  mr_of = none;
  qp_of = none;
  local = record { addr = 0; rkey = 0; qp_num = 0; lid = 0; gid = replicate 16 0 };
  buf = 0;
}

abbrev pub release : (ℕ → Resource) → Option ℕ → List Resource → List Resource
release kind none rest = rest
release kind (some r) rest = kind r ∷ rest

-- `~RDMAContext`: what is destroyed, in order
unfoldable pub destroy : Context → List Resource
destroy c = release qp c.qp_of (
    release mr c.mr_of
      (release out_cq c.out_cq_of (release in_cq c.in_cq_of (release pd c.pd_of []))))

-- What the calls in `open` return.
pub record Verbs : Type 0 where
  pub alloc_pd : Option ℕ
  pub create_in_cq : Option ℕ
  pub create_out_cq : Option ℕ
  pub reg_mr : Option ℕ
  pub create_qp : Option ℕ
  pub query_gid : Option Bytes
  pub query_port : Option ℕ
  -- `mr->rkey` and `qp->qp_num`
  pub rkey : ℕ
  pub qp_num : ℕ

-- The context, or the status and what its destructor destroys.
pub data Opened : Type 0 where
  opened : Context → Opened
  refused : Status → List Resource → Opened

unfoldable pub query : ℕ → Verbs → Context → Opened
query membuf v c =
    let local : Certificate = record (c.local) {
      addr = membuf;
      rkey = v.rkey;
      qp_num = v.qp_num;
    } in
    let named : Context = record c { local = local } in
    elim (v.query_port) [
      | none ↦ refused cannot_query_port (destroy named)
      | some lid ↦ opened (record named { local = record local { lid = lid }; buf = membuf })
    ]

-- The gid is asked for when the index of the device is not negative.
unfoldable pub query_all : ℕ → Bool → Verbs → Context → Opened
unfolding query
query_all membuf false v c = query membuf v c
query_all membuf true v c = elim (v.query_gid) [
  | none ↦ refused no_gid (destroy c)
  | some gid ↦ query membuf v (record c { local = record (c.local) { gid = gid } })
]

-- `RDMADevice::open`
unfoldable pub open_device : ℕ → ℕ → Bool → Verbs → Opened
unfolding query_all destroy
open_device membuf cqe has_gid v =
    let c0 = zeroed in
    let body : Opened = elim (v.alloc_pd) [
      | none ↦ refused cannot_alloc_pd (destroy c0)
      | some p ↦
          let c1 = record c0 { pd_of = some p } in
          elim (v.create_in_cq) [
            | none ↦ refused cannot_create_cq (destroy c1)
            | some i ↦
                let c2 = record c1 { in_cq_of = some i } in
                elim (v.create_out_cq) [
                  | none ↦ refused cannot_create_cq (destroy c2)
                  | some o ↦
                      let c3 = record c2 { out_cq_of = some o } in
                      elim (v.reg_mr) [
                        | none ↦ refused cannot_reg_mr (destroy c3)
                        | some m ↦
                            let c4 = record c3 { mr_of = some m } in
                            elim (v.create_qp) [
                              | none ↦ refused cannot_create_qp (destroy c4)
                              | some q ↦ query_all membuf has_gid v (record c4 { qp_of = some q })
                            ]
                      ]
                ]
          ]
    ] in
    if membuf == 0 || cqe == 0 then refused invalid_arguments (destroy c0) else body

-- The loop of `make_rdma`, over the devices: their names, and what opening them returns
unfoldable pub find_device : Bytes → List (Bytes × Option ℕ) → Option ℕ
find_device dev_name [] = none
find_device dev_name ((name, none) ∷ devices) = find_device dev_name devices
find_device dev_name ((name, some ctx) ∷ devices) =
    let rest = find_device dev_name devices in if str_eq dev_name name then some ctx else rest

unfoldable pub make_rdma : Bytes → Option (List (Bytes × Option ℕ)) → Option ℕ × Status
unfolding find_device
make_rdma dev_name none = (none, no_rdma_device_list)
make_rdma dev_name (some devices) = elim (find_device dev_name devices) [
  | none ↦ (none, device_not_found)
  | some ctx ↦ (some ctx, ok)
]
