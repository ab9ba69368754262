-- ===== src/Tests/Relay.antt =====
-- A relay with two nodes, over boxes that only add their overhead.
use zeropentime.Tests.Boxes.{zeros, plain_box, plain_box-IsLawful}
use zeropentime.Relay.Expiry.{expire}
use zeropentime.Relay.Expiry.Idle.{expire_fresh}
use zeropentime.Netip.{v4, AddrPort}
use zeropentime.Prelude.Assoc.{lookup, insert}
use zeropentime.Prelude.{
  ℕ, ◌+◌, ◌-◌, ◌*◌, ◌≤◌, ◌≡◌, refl, ap, true, false, List, [], ◌∷◌, ◌++◌, Option, none, some, arith,
  codes, drop, take, map, length-take, length-drop, length, replicate, length-append,
  length-replicate, drop-append_exact, ℕ_discrete, Bytes_discrete,
}
use zeropentime.Relay.Frame.{Session, seal, session_id, open_frame, type_send}
use zeropentime.Relay.Frame.RoundTrip.{open_frame-seal}
use zeropentime.Relay.Handshake.{hello, is_hello, open_hello, welcome, is_welcome, open_welcome}
use zeropentime.Relay.Handshake.Welcomed.{open_hello-hello}
use zeropentime.Relay.Server.{
  session_idle, session_of_id, Server, ServerSession, Authorizer, NodeIds, Out, Fresh, new_server,
  register, handle, Pair_discrete, second, minute,
}
use zeropentime.Relay.Server.Permission.{IsJustified}
use zeropentime.Relay.Server.Forwarding.{AtMostOne}
use zeropentime.Relay.Server.Answers.{IsHandled, handle-AtMostOne}
use zeropentime.Relay.Server.Sessions.{IsRegistered, new_server-IsRegistered, register-IsRegistered}
use zeropentime.Relay.Server.Registry.{handle-IsRegistered}

abbrev session : Session
session = record { id = 1 ∷ 2 ∷ 3 ∷ 4 ∷ 5 ∷ 6 ∷ 7 ∷ 8 ∷ []; key = replicate 32 9 }

open_frame-seal_example :
    (frame : List ℕ) × (seal plain_box session
        (zeros 32)
        type_send
        (replicate 10 7)
        (codes "hi")
        (zeros 4)
        (zeros 24)
      ≡ some frame)
    × (session_id plain_box frame (zeros 32) ≡ some session.id)
    × (open_frame plain_box session frame
        ≡ some (record { typ = type_send; node = replicate 10 7; payload = codes "hi" }))
open_frame-seal_example =
    open_frame-seal plain_box plain_box-IsLawful session (zeros 32) type_send (replicate 10 7)
      (codes "hi") (zeros 4) (zeros 24) (omega arith) refl refl refl refl

open_hello-hello_example :
    let pkt =
      hello plain_box (replicate 32 1) (zeros 32) (zeros 32) (zeros 24) (zeros 8) [] (zeros 4) in
    (is_hello plain_box pkt (zeros 32) ≡ true)
    × (open_hello plain_box pkt (replicate 32 2) (zeros 32) ≡ some (zeros 32))
open_hello-hello_example =
    open_hello-hello plain_box plain_box-IsLawful (replicate 32 1) (replicate 32 2) (zeros 24)
      (zeros 8) [] (zeros 4) refl refl refl

abbrev ids : NodeIds
ids = record { node_id_bytes = λ t. some t; node_id_string = λ b. b }

-- The controller that permits everything.
abbrev whole_room : ℕ → Authorizer
whole_room t = record { node = λ k. some (replicate 10 7); can_send = λ a b. true }

abbrev fresh : Fresh
fresh = record { session = session; nonce = zeros 24; tag = zeros 4 }

abbrev home : AddrPort
home = record { addr = v4 0xcb007107; port = 4790 }

abbrev anna : ServerSession
anna = record {
  session = session;
  node_id = replicate 10 7;
  raw = replicate 10 7;
  addr = home;
  last = 0;
  window = 0;
  packets = 0;
}

abbrev relay : Server
relay = register anna (new_server (replicate 32 2) (zeros 32))

-- A frame of anna's to herself.
frame : List ℕ
unfolding seal
frame =
    elim (seal plain_box session (zeros 32) type_send (replicate 10 7) (codes "hi") (zeros 4)
      (zeros 24)) [ none ↦ [] | some x ↦ x ]

-- It comes back to her.
echoed :
    map
      (λ (o : Out). o.to)
      (handle plain_box ids (whole_room second) fresh second frame home relay).0
    ≡ home ∷ []
unfolding handle is_hello zeropentime.Obfs.Tagger.match frame zeropentime.Relay.Frame.tag_of
    zeropentime.Obfs.Tagger.put zeropentime.Obfs.Tagger.mac zeropentime.Relay.Frame.tag_key
    zeropentime.Prelude.Xor.xor_with zeropentime.Relay.Frame.mask Bytes_discrete
    zeropentime.Relay.Handshake.hello_tag_key ℕ_discrete session_id
    zeropentime.Relay.Server.session_of_id lookup register zeropentime.Prelude.Assoc.erase insert
    zeropentime.Relay.Frame.inner_of open_frame seal Pair_discrete zeropentime.Relay.Server.allowed
    zeropentime.Relay.Server.count zeropentime.Relay.Server.dispatch
    zeropentime.Relay.Server.forward zeropentime.Relay.Server.handle_frame
    zeropentime.Relay.Server.remember zeropentime.Relay.Server.reply
    zeropentime.Relay.Server.session_of_node zeropentime.Relay.Server.store_at
    zeropentime.Relay.Server.without
echoed = refl

nothing_cached : IsJustified whole_room relay
unfolding IsJustified register lookup
nothing_cached src dst e h = cc

handle-AtMostOne_example :
    AtMostOne
      (IsHandled plain_box ids whole_room fresh second frame home relay
        (handle plain_box ids (whole_room second) fresh second frame home relay).1)
      (handle plain_box ids (whole_room second) fresh second frame home relay).0
handle-AtMostOne_example =
    handle-AtMostOne plain_box ids whole_room fresh second frame home relay nothing_cached

handle-IsRegistered_example :
    IsRegistered (handle plain_box ids (whole_room second) fresh second frame home relay).1
handle-IsRegistered_example =
    handle-IsRegistered plain_box ids (whole_room second) fresh second frame home relay (
      register-IsRegistered anna (new_server (replicate 32 2) (zeros 32))
        (new_server-IsRegistered (replicate 32 2) (zeros 32)))

-- Within two minutes the session is still there.
found : session_of_id (expire second relay) session.id ≡ some (0, anna)
unfolding expire zeropentime.Relay.Expiry.expire_sessions zeropentime.Relay.Expiry.expire_one
    session_of_id register lookup insert Bytes_discrete ℕ_discrete
    zeropentime.Relay.Server.session_of_node zeropentime.Relay.Server.without
found = refl

expire_fresh_example : second - anna.last ≤ session_idle
expire_fresh_example = expire_fresh second relay session.id 0 anna found
