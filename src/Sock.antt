-- ===== src/Sock.antt =====
-- internal/magicsock/magicsock.go: one socket for all rooms of a node. The tag of a room is checked
-- with AES under its key, the argument `aes`.
pub mod Endpoint
pub mod Rooms
pub mod Delivery
pub mod Actions
pub mod Answers
use zeropentime.Netip.{AddrPort, unmap, ◌=addr◌}
use zeropentime.Obfs.Tagger.{put, match, tag_len}
use zeropentime.Sock.Endpoint.{relay_node, relay_endpoint}
use zeropentime.Stun.{is_stun, parse_response}
use zeropentime.Prelude.Assoc.{lookup, insert, erase}
use zeropentime.Prelude.{
  ℕ, ◌+◌, Bool, true, false, not, ◌&&◌, List, [], ◌∷◌, ◌++◌, Option, none, some, ltb, leb, ◌==◌,
  ◌=text◌, if◌then◌else◌, length, take, drop, Bytes_discrete,
}

abbrev pub queue_len : ℕ
queue_len = 1024

abbrev pub max_packet : ℕ
max_packet = 65535

-- A packet in the queue of a room, with its endpoint.
pub record Packet : Type 0 where
  pub payload : List ℕ
  pub from : AddrPort

-- `roomBind`: its queue while it is open.
pub record RoomBind : Type 0 where
  pub key : List ℕ
  pub queue : Option (List Packet)

-- `stunWait`: the server, and the channel of its answer, which holds one.
pub record StunWait : Type 0 where
  pub server : AddrPort
  pub reply : Option AddrPort

-- `disco` is the key of its handler's tag, `relay` the address of the relay hook.
pub record Conn : Type 0 where
  pub rooms : List RoomBind
  pub stun_pending : List (List ℕ × StunWait)
  pub disco : Option (List ℕ)
  pub relay : Option AddrPort
  pub drop_direct : Bool
  pub drop_relay_udp : Bool
  pub is_closed : Bool

unfoldable pub has_room : List ℕ → List RoomBind → Bool
has_room key [] = false
has_room key (b ∷ rooms) = if b.key =text key then true else has_room key rooms

-- `Bind`, `none` if the room is bound.
unfoldable pub bind : List ℕ → Conn → Option Conn
bind key c =
    if has_room key c.rooms
    then none
    else some (record c { rooms = c.rooms ++ (record { key = key; queue = none } ∷ []) })

unfoldable pub without_room : List ℕ → List RoomBind → List RoomBind
without_room key [] = []
without_room key (b ∷ rooms) =
    let rest = without_room key rooms in if b.key =text key then rest else b ∷ rest

unfoldable pub unbind : List ℕ → Conn → Conn
unbind key c = record c { rooms = without_room key c.rooms }

-- The queue of a room, where there is the room.
unfoldable pub set_queue : List ℕ → Option (List Packet) → List RoomBind → List RoomBind
set_queue key q [] = []
set_queue key q (b ∷ rooms) =
    let rest = set_queue key q rooms in
    if b.key =text key then record b { queue = q } ∷ rooms else b ∷ rest

unfoldable pub room_of : List ℕ → List RoomBind → Option RoomBind
room_of key [] = none
room_of key (b ∷ rooms) = if b.key =text key then some b else room_of key rooms

-- `roomBind.Open`: `none` if it is open, or the socket closed.
unfoldable pub open_room : List ℕ → Conn → Option Conn
open_room key c = elim (room_of key c.rooms) [
  | none ↦ none
  | some b ↦ elim b.queue [
    | some q ↦ none
    | none ↦
        if c.is_closed then none else some (record c { rooms = set_queue key (some []) c.rooms })
  ]
]

-- `roomBind.Close`.
unfoldable pub close_room : List ℕ → Conn → Conn
close_room key c = record c { rooms = set_queue key none c.rooms }

unfoldable pub queued : Packet → Option (List Packet) → Option (List Packet)
queued p none = none
queued p (some q) = if ltb (length q) queue_len then some (q ++ (p ∷ [])) else some q

-- `deliver`: a closed room has no queue, and a full queue drops the packet.
unfoldable pub deliver : List ℕ → AddrPort → RoomBind → RoomBind
deliver payload from b = record b {
  queue = queued (record { payload = take max_packet payload; from = from }) b.queue;
}

-- The function that `Open` returns: at most `n` packets from the front of the queue; none of an empty
-- queue stands for waiting.
unfoldable pub receive : ℕ → List ℕ → Conn → Option (List Packet × Conn)
receive n key c = elim (room_of key c.rooms) [
  | none ↦ none
  | some b ↦ elim b.queue [
    | none ↦ none
    | some q ↦ some (take n q, record c { rooms = set_queue key (some (drop n q)) c.rooms })
  ]
]

-- What the socket hands to others: the disco handler, the relay's handler.
pub data Heard : Type 0 where
  nothing : Heard
  by_disco : List ℕ → AddrPort → Heard
  by_relay : List ℕ → Heard

-- What is written: on the socket, through the relay, or not at all.
pub data Sent : Type 0 where
  direct : List ℕ → AddrPort → Sent
  relayed : List ℕ → List ℕ → Sent
  no_relay : Sent

-- `write`.
unfoldable pub write : List ℕ → AddrPort → Conn → Sent
write b to c = elim (relay_node to) [
  | none ↦ direct b to
  | some node ↦ elim c.relay [ none ↦ no_relay | some hook ↦ relayed node b ]
]

-- `handleSTUN`: an answer counts for the request with its transaction ID, from the server asked.
unfoldable pub handle_stun : List ℕ → AddrPort → Conn → Conn
handle_stun pkt from c = elim (parse_response pkt) [
  | none ↦ c
  | some (id, mapped) ↦ elim (lookup Bytes_discrete id c.stun_pending) [
    | none ↦ c
    | some w ↦ elim w.reply [
      | some earlier ↦ c
      | none ↦
          if w.server =addr from
          then record c {
            stun_pending =
                insert Bytes_discrete id (record w { reply = some mapped }) c.stun_pending;
          }
          else c
    ]
  ]
]

-- `STUN`: a request begins, and ends.
unfoldable pub begin_stun : List ℕ → AddrPort → Conn → Conn
begin_stun id server c =
    let asked : AddrPort = record { addr = unmap server.addr; port = server.port } in
    record c {
      stun_pending =
          insert Bytes_discrete id (record { server = asked; reply = none }) c.stun_pending;
    }

unfoldable pub end_stun : List ℕ → Conn → Conn
end_stun id c = record c { stun_pending = erase Bytes_discrete id c.stun_pending }

-- `SetRelay`, `SetDisco`, and the two switches of the tests.
unfoldable pub set_relay : Option AddrPort → Conn → Conn
set_relay hook c = record c { relay = hook }

unfoldable pub set_disco : List ℕ → Conn → Conn
set_disco key c = record c { disco = some key }

unfoldable pub drop_direct_for_tests : Bool → Conn → Conn
drop_direct_for_tests v c = record c { drop_direct = v }

unfoldable pub drop_relay_udp_for_tests : Bool → Conn → Conn
drop_relay_udp_for_tests v c = record c { drop_relay_udp = v }

unfoldable pub close_all : List RoomBind → List RoomBind
close_all [] = []
close_all (b ∷ rooms) = record b { queue = none } ∷ close_all rooms

-- `Conn.Close`.
unfoldable pub close : Conn → Conn
close c = record c { rooms = close_all c.rooms; is_closed = true }

module _ (aes : List ℕ → List ℕ → List ℕ) where
  -- The first room whose tag the packet has; `none` if there is none.
  unfoldable pub dispatch_rooms : List ℕ → AddrPort → List RoomBind → Option (List RoomBind)
  dispatch_rooms pkt from [] = none
  dispatch_rooms pkt from (b ∷ rooms) = elim (match (aes b.key) pkt) [
    | true ↦ some (deliver (drop tag_len pkt) from b ∷ rooms)
    | false ↦ elim (dispatch_rooms pkt from rooms) [ none ↦ none | some rest ↦ some (b ∷ rest) ]
  ]

  unfoldable pub for_disco : List ℕ → AddrPort → Option (List ℕ) → Heard
  for_disco pkt from none = nothing
  for_disco pkt from (some key) = if match (aes key) pkt then by_disco pkt from else nothing

  -- `dispatch`.
  unfoldable pub dispatch : List ℕ → AddrPort → Conn → Conn × Heard
  dispatch pkt from c = elim (dispatch_rooms pkt from c.rooms) [
    | some rooms ↦ (record c { rooms = rooms }, nothing)
    | none ↦ (c, for_disco pkt from c.disco)
  ]

  -- A datagram that is not from the relay.
  unfoldable pub read_direct : List ℕ → AddrPort → Conn → Conn × Heard
  read_direct pkt from c = if c.drop_direct then (c, nothing) else dispatch pkt from c

  -- `readLoop`, one datagram.
  unfoldable pub read : List ℕ → AddrPort → Conn → Conn × Heard
  read pkt addr c =
      let from : AddrPort = record { addr = unmap addr.addr; port = addr.port } in
      if is_stun pkt then (handle_stun pkt from c, nothing) else elim c.relay [
        | none ↦ read_direct pkt from c
        | some hook ↦
            if from =addr hook
            then (c, if c.drop_relay_udp then nothing else by_relay pkt)
            else read_direct pkt from c
      ]

  -- `Receive`: a packet that came through the relay.
  unfoldable pub receive_relayed : List ℕ → List ℕ → Conn → Conn × Heard
  receive_relayed pkt node c = dispatch pkt (relay_endpoint node) c

  -- The loop of `Send`, with a fresh nonce for each packet: what is written, and whether all is.
  unfoldable pub send_packets : List ℕ → AddrPort → Conn → List (List ℕ × List ℕ) → List Sent × Bool
  send_packets key to c [] = ([], true)
  send_packets key to c ((fresh, pkt) ∷ more) =
      let (rest, ok) = send_packets key to c more in
      if ltb max_packet (length pkt + tag_len)
      then ([], false)
      else elim (write (put (aes key) fresh ++ pkt) to c) [
        | no_relay ↦ ([], false)
        | sent ↦ (sent ∷ rest, ok)
      ]

  unfoldable pub send : List ℕ → AddrPort → Conn → List (List ℕ × List ℕ) → List Sent × Bool
  send key to c pkts = elim (room_of key c.rooms) [
    | none ↦ ([], false)
    | some b ↦ elim b.queue [ none ↦ ([], false) | some q ↦ send_packets key to c pkts ]
  ]
