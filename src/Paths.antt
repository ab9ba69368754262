-- ===== src/Paths.antt =====
-- internal/node/disco.go: the choice of a path to every peer. A peer is a shared object that two maps
-- point to, so the peers stand in a store and the maps hold references.
pub mod Peers
pub mod Search
pub mod Choice
pub mod Kept
pub mod Bounds
pub mod Answers
pub mod Actions
pub mod Index
pub mod Messages
pub mod Confirmed
pub mod Exchange
pub mod Mentioned
use zeropentime.Crypto.{Primitives}
use zeropentime.Disco.{Msg, type_ping, type_pong, type_join, type_join_reply, seal, open_packet}
use zeropentime.Netip.{
  Addr, AddrPort, no_addr_port, Prefix, contains, is_loopback, is_valid, ◌=addr◌,
}
use zeropentime.Sock.Endpoint.{is_relay, relay_endpoint}
use zeropentime.Prelude.Assoc.{lookup, insert, erase}
use zeropentime.Prelude.{
  ℕ, ◌+◌, ◌-◌, ◌*◌, ◌^◌, Bool, true, false, not, ◌&&◌, ◌||◌, List, [], ◌∷◌, ◌++◌, Option, none,
  some, ltb, leb, ◌==◌, ◌=text◌, if◌then◌else◌, length, take, drop, get_elem?, set, replicate, map,
  ℕ_discrete, Bytes_discrete,
}

abbrev pub second : ℕ
second = 10 ^ 9

abbrev pub disco_recheck : ℕ
disco_recheck = 20 * second

abbrev pub disco_stale : ℕ
disco_stale = 60 * second

abbrev pub disco_search : ℕ
disco_search = 2 * second

abbrev pub disco_ping_ttl : ℕ
disco_ping_ttl = 5 * second

abbrev pub disco_eager_direct : ℕ
disco_eager_direct = 60 * second

abbrev pub max_candidates : ℕ
max_candidates = 12

abbrev pub max_pending_pings : ℕ
max_pending_pings = 64

pub record DiscoPath : Type 0 where
  pub addr : AddrPort
  pub rtt : ℕ
  pub at : ℕ

-- The zero `discoPath`.
abbrev pub no_path : DiscoPath
no_path = record { addr = no_addr_port; rtt = 0; at = 0 }

pub record SentPing : Type 0 where
  pub to : AddrPort
  pub at : ℕ

pub record DiscoPeer : Type 0 where
  pub node_id : List ℕ
  pub key : List ℕ
  pub candidates : List AddrPort
  pub learned : List AddrPort
  pub hints : List AddrPort
  pub gossip : List AddrPort
  pub best : DiscoPath
  pub last_ping : ℕ
  pub since : ℕ
  pub sent : List (List ℕ × SentPing)

-- A peer that is new.
abbrev pub blank : ℕ → List ℕ → List ℕ → DiscoPeer
blank now id key = record {
  node_id = id;
  key = key;
  candidates = [];
  learned = [];
  hints = [];
  gossip = [];
  best = no_path;
  last_ping = 0;
  since = now;
  sent = [];
}

-- What a controller tells about a peer (`api.Peer`).
pub record Peer : Type 0 where
  pub public_ip : Addr
  pub udp_port : ℕ
  pub locals : List AddrPort
  pub reflexive : List AddrPort
  pub port_map : AddrPort
  pub disco_key : List ℕ
  pub relay : List ℕ

-- `peers` and `by_key` point into the store.
pub record DiscoMgr : Type 0 where
  pub store : List DiscoPeer
  pub peers : List (List ℕ × ℕ)
  pub by_key : List (List ℕ × ℕ)
  pub by_ctrl : List (List ℕ × List (List ℕ))

pub record Outgoing : Type 0 where
  pub pkt : List ℕ
  pub to : AddrPort

-- What one message draws at random.
pub record Draw : Type 0 where
  pub tx : List ℕ
  pub nonce : List ℕ
  pub seed : List ℕ
  pub tag : List ℕ

-- The own keys, and what the node asks the system for: its local networks.
pub record Self : Type 0 where
  pub priv : List ℕ
  pub public_key : List ℕ
  pub lan : List Prefix

-- `newDiscoMgr`.
abbrev pub new_disco_mgr : DiscoMgr
new_disco_mgr = record { store = []; peers = []; by_key = []; by_ctrl = [] }

unfoldable pub update_at : Option ℕ → (DiscoPeer → DiscoPeer) → List DiscoPeer → List DiscoPeer
update_at none change store = store
update_at (some i) change store = elim (get_elem? store i) [
  | none ↦ store
  | some dp ↦ set store i (change dp)
]

unfoldable pub peer_of : List ℕ → List (List ℕ × ℕ) → List DiscoPeer → Option DiscoPeer
peer_of id index store = elim (lookup Bytes_discrete id index) [
  | none ↦ none
  | some i ↦ get_elem? store i
]

unfoldable pub is_stale : ℕ → DiscoPath → Bool
is_stale now path = not (is_valid path.addr.addr) || leb disco_stale (now - path.at)

-- `endpoint`, with `none` for the fallback.
unfoldable pub endpoint : ℕ → List ℕ → DiscoMgr → Option AddrPort
endpoint now id d = elim (peer_of id d.peers d.store) [
  | none ↦ none
  | some dp ↦ if is_stale now dp.best then none else some dp.best.addr
]
