-- ===== src/Tests/Sock.antt =====
-- A socket with two rooms, a datagram for the second, and a STUN answer.
use zeropentime.Netip.{◌=addr◌, AddrPort, v4, unmap, addr_from_slice, Addr_discrete}
use zeropentime.Obfs.Tagger.{match, put}
use zeropentime.Sock.{
  RoomBind, Conn, StunWait, nothing, dispatch, handle_stun, begin_stun, deliver, has_room,
}
use zeropentime.Sock.Rooms.{IsOrderly}
use zeropentime.Sock.Delivery.{IsForeign, dispatch-IsForeign}
use zeropentime.Sock.Actions.{binds, opens, reads, takes, closes, shuts, run, run-IsOrderly}
use zeropentime.Sock.Answers.{handle_stun_answer}
use zeropentime.Stun.{
  is_stun, header, attribute, xor_ip, attributes, read_attribute, parse_addr, family_len, response,
  parse_response,
}
use zeropentime.Prelude.Assoc.{lookup, insert}
use zeropentime.Prelude.{
  ℕ, ◌≡◌, ◌⊎◌, refl, true, false, List, [], ◌∷◌, ◌++◌, none, some, drop, arith, replicate,
  ℕ_discrete, Bytes_discrete,
}
use zeropentime.Tests.Boxes.{plain_box}

abbrev first_key : List ℕ
first_key = replicate 16 1

abbrev second_key : List ℕ
second_key = replicate 16 2

abbrev frame : List ℕ
frame = put (plain_box.aes second_key) (replicate 4 9) ++ (5 ∷ 6 ∷ [])

abbrev asked_tx : List ℕ
asked_tx = replicate 12 7

abbrev peer : AddrPort
peer = record { addr = v4 0xcb007104; port = 4790 }

abbrev server : AddrPort
server = record { addr = v4 0xcb007105; port = 3478 }

abbrev mapped : AddrPort
mapped = record { addr = v4 0xcb007107; port = 40112 }

abbrev first_room : RoomBind
first_room = record { key = first_key; queue = some [] }

abbrev second_room : RoomBind
second_room = record { key = second_key; queue = some [] }

abbrev asleep : Conn
asleep = record {
  rooms = first_room ∷ second_room ∷ [];
  stun_pending = [];
  disco = none;
  relay = none;
  drop_direct = false;
  drop_relay_udp = false;
  is_closed = false;
}

abbrev asking : Conn
asking = begin_stun asked_tx server asleep

asleep-IsOrderly : IsOrderly asleep.rooms
unfolding has_room Bytes_discrete ℕ_discrete
asleep-IsOrderly = (refl, omega arith, (refl, omega arith, tt))

dispatch-IsForeign_example :
    (IsForeign plain_box.aes frame peer asleep.rooms
      × ((dispatch plain_box.aes frame peer asleep).0 ≡ asleep))
    ⊎ ((before : List RoomBind) × (b : RoomBind) × (after : List RoomBind) × (asleep.rooms
          ≡ before ++ (b ∷ after))
        × IsForeign plain_box.aes frame peer before
        × (match (plain_box.aes b.key) frame ≡ true)
        × (dispatch plain_box.aes frame peer asleep ≡ (
          record asleep { rooms = before ++ (deliver (drop 8 frame) peer b ∷ after) },
          nothing,
        )))
dispatch-IsForeign_example = dispatch-IsForeign plain_box.aes frame peer asleep

run-IsOrderly_example :
    IsOrderly
      (run plain_box.aes asleep (
        binds (replicate 16 3)
        ∷ binds first_key
        ∷ opens (replicate 16 3)
        ∷ reads frame peer
        ∷ takes 1 second_key
        ∷ closes first_key
        ∷ shuts
        ∷ [])).rooms
run-IsOrderly_example =
    run-IsOrderly plain_box.aes asleep
      (binds (replicate 16 3)
        ∷ binds first_key
        ∷ opens (replicate 16 3)
        ∷ reads frame peer
        ∷ takes 1 second_key
        ∷ closes first_key
        ∷ shuts
        ∷ [])
      asleep-IsOrderly

answered :
    lookup Bytes_discrete asked_tx
      (handle_stun (response asked_tx mapped) server asking).stun_pending
    ≡ some (record { server = server; reply = some mapped })
unfolding handle_stun begin_stun response parse_response lookup is_stun header attribute unmap
    xor_ip attributes read_attribute parse_addr family_len addr_from_slice insert Bytes_discrete
    ℕ_discrete Addr_discrete
answered = refl

handle_stun_answer_example :
    (lookup Bytes_discrete asked_tx asking.stun_pending
      ≡ some (record { server = server; reply = some mapped }))
    ⊎ ((w : StunWait) × (m : AddrPort) × (lookup Bytes_discrete asked_tx asking.stun_pending
          ≡ some w)
        × (parse_response (response asked_tx mapped) ≡ some (asked_tx, m))
        × ((w.server =addr server) ≡ true)
        × (w.reply ≡ none)
        × (record { server = server; reply = some mapped } ≡ record w { reply = some m }))
handle_stun_answer_example =
    handle_stun_answer (response asked_tx mapped) server asking asked_tx
      (record { server = server; reply = some mapped }) answered
