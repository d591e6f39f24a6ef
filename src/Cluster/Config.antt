-- ===== src/Cluster/Config.antt =====
-- node.cpp, `NodeInfo::initialize`, and memory/compute_node/compute_node.cpp, `parse_config_file`, over the
-- lines of the file. What the two regular expressions find in a
-- line is an argument: the digits behind `node`, and the addresses with their ports, in order.
pub mod LastLine
use di_store.Base.{
  ℕ, ◌^◌, Bool, true, false, ◌&&◌, Option, none, some, List, [], ◌∷◌, Bytes, ltb, if◌then◌else◌,
}
use di_store.Base.Maps.{is_set}
use di_store.Cluster.{Ipv4Addr, make_ipv4_addr, atoi}

-- `NodeInfo`; nothing stands for a port or number of -1, with the address that belongs to it.
pub record NodeInfo : Type 0 where
  pub node_id : Option ℕ
  pub tcp : Option (Ipv4Addr × ℕ)
  pub roce : Option (Ipv4Addr × ℕ)
  pub erpc : Option (Ipv4Addr × ℕ)

-- `value()` of nothing throws; an iterator is read past its end, or a number does not fit an `int`.
pub data Reading {ℓ} (A : Type ℓ) : Type ℓ where
  read : A → Reading A
  bad_optional_access : Reading A
  undefined_behaviour : Reading A

infixl 5 ◌>>=◌
abbrev pub ◌>>=◌ {ℓ κ} : {A : Type ℓ} {B : Type κ} → Reading A → (A → Reading B) → Reading B
read a >>= f = f a
bad_optional_access >>= f = bad_optional_access
undefined_behaviour >>= f = undefined_behaviour

abbrev pub Uri : Type 0
Uri = Bytes × Bytes

-- `value()`
abbrev pub value : Option Ipv4Addr → Reading Ipv4Addr
value none = bad_optional_access
value (some a) = read a

-- `atoi` into an `int`
unfoldable pub int_of : Bytes → Reading ℕ
int_of s = if ltb (atoi s) (2 ^ 31) then read (atoi s) else undefined_behaviour

unfoldable pub read_uri : Uri → Reading (Ipv4Addr × ℕ)
read_uri u = do a ← value (make_ipv4_addr u.0); p ← int_of u.1; read (a, p)

-- The three matches that `iter` goes through.
unfoldable pub read_uris : NodeInfo → List Uri → Reading NodeInfo
read_uris node [] = read node
read_uris node (u ∷ []) = read_uri u >>= λ t. undefined_behaviour
read_uris node (u ∷ v ∷ []) = read_uri u >>= λ t. read_uri v >>= λ r. undefined_behaviour
read_uris node (u ∷ v ∷ w ∷ us) = read_uri u >>= λ t. read_uri v >>= λ r.
    read_uri w >>= λ e. read (record node { tcp = some t; roce = some r; erpc = some e })

unfoldable pub read_matches : NodeInfo → List Uri → Reading NodeInfo
unfolding read_uris
read_matches node [] = undefined_behaviour
read_matches node (u ∷ us) = read_uris node (u ∷ us)

unfoldable pub read_id : NodeInfo → Option Bytes → Reading NodeInfo
read_id node none = read node
read_id node (some s) = int_of s >>= λ n. read (record node { node_id = some n })

abbrev pub unread : NodeInfo
unread = record { node_id = none; tcp = none; roce = none; erpc = none }

-- The tests at the end.
abbrev pub is_complete : NodeInfo → Bool
is_complete n = is_set n.node_id && is_set n.tcp && is_set n.roce && is_set n.erpc

module _ (find_id : Bytes → Option Bytes) (find_uris : Bytes → List Uri) where
  unfoldable pub read_line : NodeInfo → Bytes → Reading NodeInfo
  read_line node line = read_id node (find_id line) >>= λ n. read_uris n (find_uris line)

  unfoldable pub read_lines : NodeInfo → List Bytes → Reading NodeInfo
  read_lines node [] = read node
  read_lines node (line ∷ lines) = read_line node line >>= λ n. read_lines n lines

  unfoldable pub initialize : List Bytes → Reading (NodeInfo × Bool)
  initialize lines = read_lines unread lines >>= λ n. read (n, is_complete n)

  -- `RemoteMemoryManager::parse_config_file`, one memory node to a line: the first match is read without a
  -- test. A number that a line does not have is not initialised, which nothing stands for.
  unfoldable pub parse_node : Bytes → Reading NodeInfo
  unfolding read_matches
  parse_node line = read_id unread (find_id line) >>= λ n. read_matches n (find_uris line)

  unfoldable pub parse_config_file : List Bytes → Reading (List NodeInfo)
  parse_config_file [] = read []
  parse_config_file (line ∷ lines) =
      parse_node line >>= λ n. parse_config_file lines >>= λ ns. read (n ∷ ns)
