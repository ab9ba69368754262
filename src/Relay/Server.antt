-- ===== src/Relay/Server.antt =====
-- internal/relay/server.go: the sessions and the forwarding. A session is a shared object that two
-- maps point to, so the sessions stand in a store and the maps hold references.
pub mod Permission
pub mod Forwarding
pub mod Answers
pub mod Sessions
pub mod Registry
use zeropentime.Crypto.{Primitives}
use zeropentime.Netip.{AddrPort}
use zeropentime.Relay.Frame.{
  Session, Inner, seal, session_id, open_frame, type_send, type_recv, type_ping, node_id_len,
}
use zeropentime.Relay.Handshake.{is_hello, open_hello, welcome}
use zeropentime.Prelude.Assoc.{lookup, insert, erase}
use zeropentime.Prelude.{
  ℕ, ◌+◌, ◌-◌, ◌*◌, ◌^◌, Bool, not, ◌&&◌, List, [], ◌∷◌, Option, none, some, ltb, leb, ◌==◌,
  if◌then◌else◌, length, replicate, ℕ_discrete, Bytes_discrete,
}

-- A second, in nanoseconds.
abbrev pub second : ℕ
second = 1000000000

abbrev pub minute : ℕ
minute = 60 * second

abbrev pub session_idle : ℕ
session_idle = 2 * minute

abbrev pub max_pps : ℕ
max_pps = 20000

pub record ServerSession : Type 0 where
  pub session : Session
  pub node_id : List ℕ
  pub raw : List ℕ
  pub addr : AddrPort
  pub last : ℕ
  pub window : ℕ
  pub packets : ℕ

pub record PermEntry : Type 0 where
  pub ok : Bool
  pub at : ℕ

-- `Authorizer`, as it answers at one time.
pub record Authorizer : Type 0 where
  pub node : List ℕ → Option (List ℕ)
  pub can_send : List ℕ → List ℕ → Bool

-- `NodeIDBytes` and `NodeIDString`, over encoding/base32.
pub record NodeIds : Type 0 where
  pub node_id_bytes : List ℕ → Option (List ℕ)
  pub node_id_string : List ℕ → List ℕ

-- What one call draws at random.
pub record Fresh : Type 0 where
  pub session : Session
  pub nonce : List ℕ
  pub tag : List ℕ

-- `store` and `next` stand for the heap, the rest are the fields of the source.
pub record Server : Type 0 where
  pub priv : List ℕ
  pub pub_key : List ℕ
  pub store : List (ℕ × ServerSession)
  pub next : ℕ
  pub by_id : List (List ℕ × ℕ)
  pub by_node : List (List ℕ × ℕ)
  pub perm : List ((List ℕ × List ℕ) × PermEntry)

-- `Out`: a datagram to send.
pub record Out : Type 0 where
  pub packet : List ℕ
  pub to : AddrPort

unfoldable pub Pair_discrete : Discrete (List ℕ × List ℕ)
Pair_discrete = hlevel Bytes_discrete

abbrev pub new_server : List ℕ → List ℕ → Server
new_server priv pub_key = record {
  priv = priv;
  pub_key = pub_key;
  store = [];
  next = 0;
  by_id = [];
  by_node = [];
  perm = [];
}

-- The session of an ID, and of a node.
abbrev pub deref : Server → Option ℕ → Option (ℕ × ServerSession)
deref s none = none
deref s (some r) = elim (lookup ℕ_discrete r s.store) [ none ↦ none | some e ↦ some (r, e) ]

unfoldable pub session_of_id : Server → List ℕ → Option (ℕ × ServerSession)
session_of_id s id = deref s (lookup Bytes_discrete id s.by_id)

unfoldable pub session_of_node : Server → List ℕ → Option (ℕ × ServerSession)
session_of_node s node = deref s (lookup Bytes_discrete node s.by_node)

-- A write through a reference.
unfoldable pub store_at : ℕ → ServerSession → Server → Server
store_at r e s = record s { store = insert ℕ_discrete r e s.store }

-- `allowed`: the answer, cached for a minute.
unfoldable pub remember : Authorizer → ℕ → List ℕ → List ℕ → Server → Bool × Server
remember a now src dst s =
    let answer = a.can_send src dst in
    (
      answer,
      record s { perm = insert Pair_discrete (src, dst) (record { ok = answer; at = now }) s.perm },
    )

unfoldable pub allowed : Authorizer → ℕ → List ℕ → List ℕ → Server → Bool × Server
allowed a now src dst s = elim (lookup Pair_discrete (src, dst) s.perm) [
  | none ↦ remember a now src dst s
  | some e ↦ if ltb (now - e.at) minute then (e.ok, s) else remember a now src dst s
]

-- The count of a session's packets in the second that runs.
unfoldable pub count : ℕ → ServerSession → ServerSession
count now e =
    if leb second (now - e.window)
    then record e { window = now; packets = 1 }
    else record e { packets = e.packets + 1 }

unfoldable pub reply : AddrPort → Option (List ℕ) → List Out
reply to none = []
reply to (some f) = record { packet = f; to = to } ∷ []

unfoldable pub without : Option (ℕ × ServerSession) → List (List ℕ × ℕ) → List (List ℕ × ℕ)
without none by_id = by_id
without (some (r, old)) by_id = erase Bytes_discrete old.session.id by_id

-- The session registered for a node: the one it had is no longer reached by its ID.
unfoldable pub register : ServerSession → Server → Server
register e s = record s {
  store = insert ℕ_discrete s.next e s.store;
  next = s.next + 1;
  by_id = insert Bytes_discrete e.session.id s.next (without (session_of_node s e.node_id) s.by_id);
  by_node = insert Bytes_discrete e.node_id s.next s.by_node;
}

module _ (c : Primitives) (ids : NodeIds) where
  unfoldable pub welcome_node :
      Fresh → ℕ → AddrPort → List ℕ → List ℕ → List ℕ → Server → List Out × Server
  welcome_node f now from key node_id raw s =
      let e : ServerSession = record {
        session = f.session;
        node_id = node_id;
        raw = raw;
        addr = from;
        last = now;
        window = 0;
        packets = 0;
      } in
      (
        record { packet = welcome c f.session s.priv key f.nonce f.tag; to = from } ∷ [],
        register e s,
      )

  unfoldable pub hello_of_node :
      Fresh → ℕ → AddrPort → List ℕ → Option (List ℕ) → Server → List Out × Server
  hello_of_node f now from key none s = ([], s)
  hello_of_node f now from key (some node_id) s = elim (ids.node_id_bytes node_id) [
    | none ↦ ([], s)
    | some raw ↦ welcome_node f now from key node_id raw s
  ]

  -- `hello`.
  unfoldable pub handle_hello :
      Authorizer → Fresh → ℕ → List ℕ → AddrPort → Server → List Out × Server
  handle_hello a f now pkt from s = elim (open_hello c pkt s.priv s.pub_key) [
    | none ↦ ([], s)
    | some key ↦ hello_of_node f now from key (a.node key) s
  ]

  -- A payload for another node.
  unfoldable pub forward :
      Authorizer → Fresh → ℕ → ServerSession → List ℕ → List ℕ → Server → List Out × Server
  forward a f now src node payload s =
      let dst_id = ids.node_id_string node in
      let (ok, s') = allowed a now src.node_id dst_id s in
      if not ok then ([], s') else elim (session_of_node s' dst_id) [
        | none ↦ ([], s')
        | some (r, dst) ↦ (
          reply dst.addr (seal c dst.session s.pub_key type_recv src.raw payload f.tag f.nonce),
          s',
        )
      ]

  unfoldable pub dispatch :
      Authorizer → Fresh → ℕ → AddrPort → ServerSession → Inner → Server → List Out × Server
  dispatch a f now from src i s =
      if i.typ == type_ping
      then (
        reply from
            (seal c src.session s.pub_key type_ping (replicate node_id_len 0) [] f.tag f.nonce),
        s,
      )
      else if i.typ == type_send
      then forward a f now src i.node i.payload s
      else ([], s)

  -- A frame of a session, at its reference.
  unfoldable pub handle_frame :
      Authorizer → Fresh → ℕ → List ℕ → AddrPort → ℕ → ServerSession → Server → List Out × Server
  handle_frame a f now pkt from r e s =
      let counted = count now e in
      let seen : ServerSession = record counted { addr = from; last = now } in
      if ltb max_pps counted.packets
      then ([], store_at r counted s)
      else elim (open_frame c e.session pkt) [
        | none ↦ ([], store_at r counted s)
        | some i ↦ dispatch a f now from seen i (store_at r seen s)
      ]

  -- `Handle`.
  unfoldable pub handle : Authorizer → Fresh → ℕ → List ℕ → AddrPort → Server → List Out × Server
  handle a f now pkt from s =
      if is_hello c pkt s.pub_key
      then handle_hello a f now pkt from s
      else elim (session_id c pkt s.pub_key) [
        | none ↦ ([], s)
        | some id ↦ elim (session_of_id s id) [
          | none ↦ ([], s)
          | some (r, e) ↦ handle_frame a f now pkt from r e s
        ]
      ]
