-- ===== src/Tests/Network.antt =====
-- Addresses of nodes, the command line and sockets at concrete inputs.
use di_store.Base.{
  ◌≡◌, ◌≤◌, true, false, Option, none, some, List, [], ◌∷◌, arith, Bytes, ◌==◌, if◌then◌else◌,
}
use di_store.Workload.{digits}
use di_store.Base.{ℕ, str_eq, refl}
use di_store.Base.Maps.{lookup_key, insert_new}
use di_store.CmdParser.{
  Parser, no_options, add_switch, add_switch_default, insert_plain, get_plain, get_as_bool, got,
  parse, joined, is_false,
}
use di_store.CmdParser.Built.{Built, fresh, with_switch_default}
use di_store.CmdParser.Parse.{get_plain-parse}
use di_store.Rdma.{
  Certificate, ok, exchange_certificate, Verbs, open_device, pd, in_cq, out_cq, cannot_reg_mr,
}
use di_store.Rdma.Wire.{InNetworkOrder, exchange_certificate-written}
use di_store.Rdma.Opening.{outcome, open_device-made}
use di_store.Misc.{Call, moves, returns, unfinished, send_all, recv_all}
use di_store.Misc.Transfer.{recv_all-send_all, recv_all-closed}
use di_store.Cluster.{Ipv4Addr, dotted}
use di_store.Cluster.Dotted.{make_ipv4_addr-dotted}
use di_store.Cluster.Config.{NodeInfo, Uri}
use di_store.Cluster.Config.LastLine.{IsUri}
use di_store.Base.{◌≡◌, true, some, [], ◌∷◌, arith, Bytes}

abbrev host : Ipv4Addr
host = record { content_0 = 192; content_1 = 168; content_2 = 0; content_3 = 7 }

-- A line of the letter n has the number 3, a line of the letter u three addresses.
abbrev find_three : Bytes → Option Bytes
find_three [] = none
find_three (c ∷ cs) = if c == b'n' then some (51 ∷ []) else none

abbrev host_uri : Uri
host_uri = (dotted 192 168 0 7, digits 3 3001)

abbrev find_hosts : Bytes → List Uri
find_hosts [] = []
find_hosts (c ∷ cs) = if c == b'u' then host_uri ∷ host_uri ∷ host_uri ∷ [] else []

abbrev config_lines : List Bytes
config_lines = (b'n' ∷ []) ∷ [] ∷ (b'u' ∷ []) ∷ []

abbrev config_node : NodeInfo
config_node = record {
  node_id = some 3;
  tcp = some (host, 3001);
  roce = some (host, 3001);
  erpc = some (host, 3001);
}

host_uri-IsUri : IsUri host_uri
unfolding digits
host_uri-IsUri = (
  (host, make_ipv4_addr-dotted 192 168 0 7 (omega arith) (omega arith) (omega arith) (omega arith)),
  omega arith,
)

-- A search that looks at the first letter only: what stands two behind it is the group.
abbrev find_word : Bytes → Bytes → Option Bytes
find_word [] pattern = none
find_word (a ∷ []) pattern = none
find_word (a ∷ b ∷ []) pattern = none
find_word (a ∷ b ∷ c ∷ text) [] = none
find_word (a ∷ b ∷ c ∷ text) (d ∷ pattern) = if a == d then some (c ∷ []) else none

abbrev no_number : Bytes → Option ℕ
no_number s = none

abbrev verbose : Bytes
verbose = b'v' ∷ []

abbrev switched : Parser ℕ
switched = (add_switch_default verbose (b'w' ∷ []) true no_options).0

switched-Built : Built find_word no_number switched
switched-Built = with_switch_default verbose (b'w' ∷ []) true fresh

abbrev arguments : List Bytes
arguments = (b'v' ∷ b'=' ∷ b'0' ∷ []) ∷ []

get_plain-parse_example : get_plain verbose (parse find_word arguments switched) ≡ some (b'0' ∷ [])
unfolding add_switch_default add_switch insert_plain insert_new lookup_key str_eq get_plain parse
    joined
get_plain-parse_example = get_plain-parse find_word arguments switched verbose (refl, tt)

no_options_empty : lookup_key {V = Bytes × Bytes} verbose [] ≡ none
unfolding lookup_key
no_options_empty = refl

switched_on : (get_as_bool verbose switched).1 ≡ got (some true)
unfolding add_switch_default add_switch insert_plain insert_new lookup_key str_eq get_as_bool
    is_false
switched_on = refl

abbrev message : Bytes
message = 104 ∷ 105 ∷ 33 ∷ []

abbrev in_two : List Call
in_two = moves 2 ∷ moves 2 ∷ moves 2 ∷ []

abbrev in_four : List Call
in_four = moves 1 ∷ moves 1 ∷ moves 1 ∷ moves 9 ∷ []

recv_all-send_all_example :
    ((send_all message in_two).outcome ≡ returns 3)
    × (recv_all 3 (send_all message in_two).bytes in_four
        ≡ record { outcome = returns 3; bytes = message })
recv_all-send_all_example =
    recv_all-send_all message in_two in_four (omega arith) (omega arith) (omega arith) (omega arith)
      (omega arith) (omega arith)

recv_all-closed_example :
    ((recv_all 8 message in_four).outcome ≡ unfinished)
    × (3 ≤ 4 → (recv_all 8 message in_four).bytes ≡ message)
recv_all-closed_example = recv_all-closed message 8 in_four (omega arith) (omega arith)

abbrev certificate_a : Certificate
certificate_a = record { addr = 0x7f0012345678; rkey = 77; qp_num = 258; lid = 1; gid = 1 ∷ 2 ∷ [] }

abbrev certificate_b : Certificate
certificate_b = record { addr = 4096; rkey = 78; qp_num = 513; lid = 2; gid = 3 ∷ 4 ∷ [] }

exchange_certificate-written_example :
    ((sent : Certificate) × ((exchange_certificate certificate_a certificate_b false none).written
        ≡ some sent)
      × InNetworkOrder certificate_a sent)
    × (let from_a = (exchange_certificate certificate_a certificate_b false none).written in
        let at_b = exchange_certificate certificate_b certificate_b true from_a in
        let at_a = exchange_certificate certificate_a certificate_b true at_b.written in
        (at_b.status ≡ ok)
        × (at_b.remote ≡ certificate_a)
        × (at_b.local ≡ certificate_b)
        × (at_a.status ≡ ok)
        × (at_a.remote ≡ certificate_b)
        × (at_a.local ≡ certificate_a)
        × (at_a.written ≡ from_a))
exchange_certificate-written_example =
    exchange_certificate-written certificate_a certificate_b certificate_b certificate_b false none
      (omega arith) (omega arith)

-- The memory region cannot be registered.
abbrev no_region : Verbs
no_region = record {
  alloc_pd = some 1;
  create_in_cq = some 2;
  create_out_cq = some 3;
  reg_mr = none;
  create_qp = some 5;
  query_gid = none;
  query_port = some 6;
  rkey = 7;
  qp_num = 8;
}

open_device-made_example :
    outcome (open_device 4096 5 true no_region)
    ≡ (out_cq 3 ∷ in_cq 2 ∷ pd 1 ∷ [], some cannot_reg_mr)
open_device-made_example = open_device-made 4096 5 true no_region (omega arith) (omega arith)
