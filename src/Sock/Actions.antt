-- ===== src/Sock/Actions.antt =====
-- Every operation keeps the rooms in order.
use zeropentime.Netip.{◌=addr◌, AddrPort, unmap}
use zeropentime.Sock.Endpoint.{relay_endpoint}
use zeropentime.Sock.Delivery.{dispatch-IsForeign}
use zeropentime.Sock.Rooms.{
  IsOrderly, IsShort, bind_end-IsOrderly, queued-IsShort, drained-IsShort, set_queue-IsOrderly,
  close_all-IsOrderly, without_room-IsOrderly, replaced-IsOrderly,
}
use zeropentime.Sock.{
  Packet, RoomBind, Conn, set_relay, set_disco, close, Heard, nothing, bind, unbind, open_room,
  close_room, receive, handle_stun, begin_stun, end_stun, dispatch, read_direct, read,
  receive_relayed, room_of, has_room, deliver,
}
use zeropentime.Stun.{is_stun}
use zeropentime.Prelude.{
  ℕ, ◌≡◌, inl, inr, refl, sym, subst, Bool, true, false, List, [], ◌∷◌, Option, none, some, arith,
  if◌then◌else◌, Bool-cases, Option-cases, drop, ◌=text◌,
}

-- What happens to a socket.
pub data Action : Type 0 where
  binds unbinds opens closes : List ℕ → Action
  reads : List ℕ → AddrPort → Action
  gets_relayed : List ℕ → List ℕ → Action
  takes : ℕ → List ℕ → Action
  asks : List ℕ → AddrPort → Action
  gives_up : List ℕ → Action
  relays : Option AddrPort → Action
  hears : List ℕ → Action
  shuts : Action

-- An operation that fails changes nothing.
abbrev pub or_same : Conn → Option Conn → Conn
or_same c none = c
or_same c (some c') = c'

abbrev pub after_receive : Conn → Option (List Packet × Conn) → Conn
after_receive c none = c
after_receive c (some (pkts, c')) = c'

branch-IsOrderly :
    (t : Bool) (x y : Conn × Heard)
    → IsOrderly x.0.rooms
    → IsOrderly y.0.rooms
    → IsOrderly (if t then x else y).0.rooms
branch-IsOrderly true x y h k = h
branch-IsOrderly false x y h k = k

module _ (aes : List ℕ → List ℕ → List ℕ) where
  abbrev pub step : Conn → Action → Conn
  step c (binds key) = or_same c (bind key c)
  step c (unbinds key) = unbind key c
  step c (opens key) = or_same c (open_room key c)
  step c (closes key) = close_room key c
  step c (reads pkt addr) = (read aes pkt addr c).0
  step c (gets_relayed pkt node) = (receive_relayed aes pkt node c).0
  step c (takes n key) = after_receive c (receive n key c)
  step c (asks id server) = begin_stun id server c
  step c (gives_up id) = end_stun id c
  step c (relays hook) = set_relay hook c
  step c (hears key) = set_disco key c
  step c shuts = close c

  pub run : Conn → List Action → Conn
  run c [] = c
  run c (a ∷ actions) = run (step c a) actions

  dispatch-IsOrderly :
      (pkt : List ℕ) (from : AddrPort) (c : Conn)
      → IsOrderly c.rooms
      → IsOrderly (dispatch aes pkt from c).0.rooms
  unfolding deliver
  dispatch-IsOrderly pkt from c g = elim (dispatch-IsForeign aes pkt from c) [
    | inl (foreign, same) ↦ rw same g
    | inr (before, b, after, split, foreign, own, e) ↦
        rw e
          (replaced-IsOrderly before after b _ refl (queued-IsShort _ b.queue)
            (subst IsOrderly split g)).0
  ]

  handle_stun_rooms :
      (pkt : List ℕ) (from : AddrPort) (c : Conn) → (handle_stun pkt from c).rooms ≡ c.rooms
  unfolding handle_stun
  handle_stun_rooms pkt from c = ground arith

  bind-IsOrderly :
      (key : List ℕ) (c : Conn) → IsOrderly c.rooms → IsOrderly (or_same c (bind key c)).rooms
  unfolding bind
  bind-IsOrderly key c g = elim (Bool-cases (has_room key c.rooms)) [
    | inl bound ↦ rw (bound, bind) g
    | inr fresh ↦ rw (fresh, bind) (bind_end-IsOrderly key c.rooms fresh g).0
  ]

  open_room-IsOrderly :
      (key : List ℕ) (c : Conn) → IsOrderly c.rooms → IsOrderly (or_same c (open_room key c)).rooms
  unfolding open_room
  open_room-IsOrderly key c g = elim (Option-cases (room_of key c.rooms)) [
    | inl e ↦ rw (e, open_room) g
    | inr (b, e) ↦ elim (Option-cases b.queue) [
      | inr (q, e') ↦ rw (e, e', open_room) g
      | inl e' ↦ elim (Bool-cases c.is_closed) [
        | inl over ↦ rw (e, e', over, open_room) g
        | inr going ↦
            rw (e, e', going, open_room)
              (set_queue-IsOrderly key (some []) c.rooms (omega arith) g).0
      ]
    ]
  ]

  room_of-IsShort :
      (key : List ℕ) (rooms : List RoomBind) (b : RoomBind)
      → IsOrderly rooms
      → room_of key rooms ≡ some b
      → IsShort b.queue
  unfolding room_of
  room_of-IsShort key [] b g e = cc
  room_of-IsShort key (a ∷ rooms) b (one, own, rest) e = elim (Bool-cases (a.key =text key)) [
    | inl this ↦
        let same : a ≡ b = ground (arith, e, this) in
        subst (λ (d : RoomBind). IsShort d.queue) same own
    | inr other ↦ room_of-IsShort key rooms b rest (ground (arith, e, other))
  ]

  receive-IsOrderly :
      (n : ℕ) (key : List ℕ) (c : Conn)
      → IsOrderly c.rooms
      → IsOrderly (after_receive c (receive n key c)).rooms
  unfolding receive
  receive-IsOrderly n key c g = elim (Option-cases (room_of key c.rooms)) [
    | inl e ↦ rw (e, receive) g
    | inr (b, e) ↦ elim (Option-cases b.queue) [
      | inl e' ↦ rw (e, e', receive) g
      | inr (q, e') ↦
          rw (e, e', receive)
            (set_queue-IsOrderly key (some (drop n q)) c.rooms
              (drained-IsShort n q (subst IsShort e' (room_of-IsShort key c.rooms b g e))) g).0
    ]
  ]

  read_direct-IsOrderly :
      (pkt : List ℕ) (from : AddrPort) (c : Conn)
      → IsOrderly c.rooms
      → IsOrderly (read_direct aes pkt from c).0.rooms
  unfolding read_direct
  read_direct-IsOrderly pkt from c g =
      branch-IsOrderly c.drop_direct (c, nothing) (dispatch aes pkt from c) g
        (dispatch-IsOrderly pkt from c g)

  read-IsOrderly :
      (pkt : List ℕ) (addr : AddrPort) (c : Conn)
      → IsOrderly c.rooms
      → IsOrderly (read aes pkt addr c).0.rooms
  unfolding read
  read-IsOrderly pkt addr c g =
      let from : AddrPort = record { addr = unmap addr.addr; port = addr.port } in
      elim (Bool-cases (is_stun pkt)) [
        | inl stun ↦ rw (stun, read) (subst IsOrderly (sym (handle_stun_rooms pkt from c)) g)
        | inr other ↦ elim (Option-cases c.relay) [
          | inl e ↦ rw (other, e, read) (read_direct-IsOrderly pkt from c g)
          | inr (hook, e) ↦ elim (Bool-cases (from =addr hook)) [
            | inl his ↦ rw (other, e, his, read) g
            | inr else_where ↦ rw (other, e, else_where, read) (read_direct-IsOrderly pkt from c g)
          ]
        ]
      ]

  step-IsOrderly : (c : Conn) (a : Action) → IsOrderly c.rooms → IsOrderly (step c a).rooms
  unfolding unbind close_room receive_relayed begin_stun end_stun set_relay set_disco close
  step-IsOrderly c (binds key) g = bind-IsOrderly key c g
  step-IsOrderly c (unbinds key) g = (without_room-IsOrderly key c.rooms g).0
  step-IsOrderly c (opens key) g = open_room-IsOrderly key c g
  step-IsOrderly c (closes key) g = (set_queue-IsOrderly key none c.rooms tt g).0
  step-IsOrderly c (reads pkt addr) g = read-IsOrderly pkt addr c g
  step-IsOrderly c (gets_relayed pkt node) g = dispatch-IsOrderly pkt (relay_endpoint node) c g
  step-IsOrderly c (takes n key) g = receive-IsOrderly n key c g
  step-IsOrderly c (asks id server) g = g
  step-IsOrderly c (gives_up id) g = g
  step-IsOrderly c (relays hook) g = g
  step-IsOrderly c (hears key) g = g
  step-IsOrderly c shuts g = (close_all-IsOrderly c.rooms g).0

  -- Whatever happens to a socket, each room stays bound once and each queue within 1024 packets.
  pub run-IsOrderly :
      (c : Conn) (actions : List Action) → IsOrderly c.rooms → IsOrderly (run c actions).rooms
  unfolding run
  run-IsOrderly c [] g = g
  run-IsOrderly c (a ∷ actions) g = run-IsOrderly (step c a) actions (step-IsOrderly c a g)
