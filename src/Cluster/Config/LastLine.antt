-- ===== src/Cluster/Config/LastLine.antt =====
-- What `NodeInfo::initialize` makes of a file: the last number and the last line of addresses count.
use di_store.Base.{
  map, ℕ, zero, suc, ◌^◌, ◌<◌, ◌≡◌, refl, Option, none, some, List, [], ◌∷◌, Bytes, lt→ltb,
}
use di_store.Base.Maps.{prefer}
use di_store.Cluster.{Ipv4Addr, make_ipv4_addr, atoi}
use di_store.Cluster.Config.{
  NodeInfo, read, Uri, int_of, read_uri, read_uris, read_id, unread, is_complete, read_line,
  read_lines, initialize, read_matches, parse_node, parse_config_file,
}

-- An address that `make_ipv4_addr` takes, with a port that fits an `int`.
abbrev pub IsUri : Uri → Type 0
IsUri u = ((a : Ipv4Addr) × (make_ipv4_addr u.0 ≡ some a)) × (atoi u.1 < 2 ^ 31)

-- A line has no address, or three at least.
abbrev pub AreUris : List Uri → Type 0
AreUris [] = Unit
AreUris (u ∷ v ∷ w ∷ us) = IsUri u × IsUri v × IsUri w
AreUris _ = ⊥

abbrev pub IsNumber : Option Bytes → Type 0
IsNumber none = Unit
IsNumber (some s) = atoi s < 2 ^ 31

abbrev pub endpoint : Uri → Option (Ipv4Addr × ℕ)
endpoint u = elim (make_ipv4_addr u.0) [ none ↦ none | some a ↦ some (a, atoi u.1) ]

abbrev pub nth_endpoint : ℕ → List Uri → Option (Ipv4Addr × ℕ)
nth_endpoint k [] = none
nth_endpoint zero (u ∷ us) = endpoint u
nth_endpoint (suc k) (u ∷ us) = nth_endpoint k us

abbrev pub number : Option Bytes → Option ℕ
number none = none
number (some s) = some (atoi s)

-- What the last line that has one has, and `first` if none has.
abbrev pub last_of {ℓ} : {A : Type ℓ} → (Bytes → Option A) → Option A → List Bytes → Option A
last_of f first [] = first
last_of f first (line ∷ lines) = last_of f (prefer (f line) first) lines

read_uri-IsUri :
    (u : Uri) → IsUri u → (e : Ipv4Addr × ℕ) × (read_uri u ≡ read e) × (endpoint u ≡ some e)
unfolding read_uri int_of
read_uri-IsUri u ((a, good), fits) =
    ((a, atoi u.1), rw (good, lt→ltb (atoi u.1) (2 ^ 31) fits) refl, rw (good, endpoint) refl)

module _ (find_id : Bytes → Option Bytes) (find_uris : Bytes → List Uri) where
  abbrev pub IsLine : Bytes → Type 0
  IsLine line = IsNumber (find_id line) × AreUris (find_uris line)

  abbrev pub AreLines : List Bytes → Type 0
  AreLines [] = Unit
  AreLines (line ∷ lines) = IsLine line × AreLines lines

  -- The description that the last lines give.
  abbrev pub described : NodeInfo → List Bytes → NodeInfo
  described node lines = record {
    node_id = last_of (λ l. number (find_id l)) node.node_id lines;
    tcp = last_of (λ l. nth_endpoint 0 (find_uris l)) node.tcp lines;
    roce = last_of (λ l. nth_endpoint 1 (find_uris l)) node.roce lines;
    erpc = last_of (λ l. nth_endpoint 2 (find_uris l)) node.erpc lines;
  }

read_id-number :
    (node : NodeInfo) (o : Option Bytes)
    → IsNumber o
    → read_id node o ≡ read (record node { node_id = prefer (number o) node.node_id })
unfolding read_id int_of
read_id-number node none h = refl
read_id-number node (some s) h = rw (lt→ltb (atoi s) (2 ^ 31) h) refl

read_uris-endpoints :
    (node : NodeInfo) (us : List Uri)
    → AreUris us
    → read_uris node us
      ≡ read (record node {
        tcp = prefer (nth_endpoint 0 us) node.tcp;
        roce = prefer (nth_endpoint 1 us) node.roce;
        erpc = prefer (nth_endpoint 2 us) node.erpc;
      })
unfolding read_uris
read_uris-endpoints node [] h = refl
read_uris-endpoints node (u ∷ []) h = absurd h
read_uris-endpoints node (u ∷ v ∷ []) h = absurd h
read_uris-endpoints node (u ∷ v ∷ w ∷ us) (hu, hv, hw) =
    let (t, ru, eu) = read_uri-IsUri u hu in
    let (r, rv, ev) = read_uri-IsUri v hv in
    let (e, rx, ex) = read_uri-IsUri w hw in rw (ru, rv, rx, eu, ev, ex) refl

module _ (find_id : Bytes → Option Bytes) (find_uris : Bytes → List Uri) where
  read_lines-described :
      (lines : List Bytes) (node : NodeInfo)
      → AreLines find_id find_uris lines
      → read_lines find_id find_uris node lines ≡ read (described find_id find_uris node lines)
  unfolding read_lines read_line
  read_lines-described [] node h = refl
  read_lines-described (line ∷ lines) node ((hn, hu), hs) =
      let named : NodeInfo = record node {
        node_id = prefer (number (find_id line)) node.node_id;
      } in
      rw (read_id-number node (find_id line) hn, read_uris-endpoints named (find_uris line) hu)
        (read_lines-described lines _ hs)

  -- Of a file whose lines have no address or three with ports, numbers and ports that fit an `int`:
  -- `initialize` returns the number of the last line that has one and the three addresses of the last line
  -- that has some, and says whether all four are set.
  pub initialize-described :
      (lines : List Bytes)
      → AreLines find_id find_uris lines
      → (let n = described find_id find_uris unread lines in
          initialize find_id find_uris lines ≡ read (n, is_complete n))
  unfolding initialize
  initialize-described lines h = rw (read_lines-described lines unread h) refl

  -- The lines of memory nodes, each with three addresses at least.
  abbrev pub HasUris : List Uri → Type 0
  HasUris [] = ⊥
  HasUris (u ∷ us) = AreUris (u ∷ us)

  abbrev pub AreNodes : List Bytes → Type 0
  AreNodes [] = Unit
  AreNodes (line ∷ lines) = IsNumber (find_id line) × HasUris (find_uris line) × AreNodes lines

  read_matches-HasUris :
      (node : NodeInfo) (us : List Uri) → HasUris us → read_matches node us ≡ read_uris node us
  unfolding read_matches
  read_matches-HasUris node [] h = absurd h
  read_matches-HasUris node (u ∷ us) h = refl

  AreUris-HasUris : (us : List Uri) → HasUris us → AreUris us
  AreUris-HasUris [] h = tt
  AreUris-HasUris (u ∷ us) h = h

  -- Of such a file `parse_config_file` makes one node for each line, with the number and the addresses of
  -- that line alone.
  pub parse_config_file-map :
      (lines : List Bytes)
      → AreNodes lines
      → parse_config_file find_id find_uris lines
        ≡ read (map (λ line. described find_id find_uris unread (line ∷ [])) lines)
  unfolding parse_config_file parse_node
  parse_config_file-map [] h = refl
  parse_config_file-map (line ∷ lines) (hn, hu, hs) =
      let named : NodeInfo = record unread { node_id = prefer (number (find_id line)) none } in
      rw
        (
          read_id-number unread (find_id line) hn,
          read_matches-HasUris named (find_uris line) hu,
          read_uris-endpoints named (find_uris line) (AreUris-HasUris (find_uris line) hu),
          parse_config_file-map lines hs,
        )
        refl
