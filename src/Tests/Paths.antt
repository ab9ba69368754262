-- ===== src/Tests/Paths.antt =====
-- A node that is told_peer about a peer, pings it, and hears its pong.
use zeropentime.Disco.{
  Msg, type_pong, seal, open_packet, opened, authenticated, decode_payload, decode_ping,
  decode_join, encode_payload, source_of, tag_key,
}
use zeropentime.Netip.{
  Prefix, has_addr, unmap, contains, is_loopback, Addr_discrete, AddrPort, v4, invalid,
  no_addr_port,
}
use zeropentime.Paths.{
  DiscoPath, DiscoPeer, DiscoMgr, Outgoing, Peer, Draw, Self, new_disco_mgr, blank, endpoint,
  is_stale, disco_stale, peer_of, update_at,
}
use zeropentime.Paths.Actions.{Action, tells, ticks, handles, run, run-IsLimited}
use zeropentime.Paths.Answers.{IsFrom, IsModest, IsHandedOn, handle-IsModest}
use zeropentime.Paths.Bounds.{IsLimited}
use zeropentime.Paths.Confirmed.{Confirms, past_of, endpoint-IsConfirmed}
use zeropentime.Paths.Exchange.{holder, ping_of, handle-handle}
use zeropentime.Paths.Mentioned.{set_peers-mentioned}
use zeropentime.Paths.Peers.{
  mentioned, set_peers, forget_peers, set_each, set_peer, peer_for, new_peer, forget_one, has_id,
  paths_to, candidates_of, add_candidates, add_candidate,
}
use zeropentime.Paths.Search.{
  better, handle, sealed, tick, tick_peers, tick_peer, aged, without_old, targets_of, drawn, pings,
  handle_known, handle_msg, handle_ping, handle_pong, confirm, learn, is_lost, is_lan,
}
use zeropentime.Sock.Endpoint.{is_relay}
use zeropentime.Obfs.Tagger.{put, mac}
use zeropentime.Prelude.Assoc.{lookup, insert, erase}
use zeropentime.Prelude.{
  ℕ, ◌+◌, ◌-◌, ◌*◌, ◌^◌, ◌<◌, ◌≡◌, ◌⊎◌, refl, true, List, [], ◌∷◌, none, some, All, Any, arith,
  get_elem?, replicate, ℕ_discrete, Bytes_discrete,
}
use zeropentime.Tests.Boxes.{zeros, plain_box, plain_box-IsLawful}

abbrev here : AddrPort
here = record { addr = v4 0xcb007104; port = 4790 }

abbrev there : AddrPort
there = record { addr = v4 0xcb007105; port = 4790 }

abbrev node : Self
node = record { priv = zeros 32; public_key = replicate 32 1; lan = [] }

abbrev other : Self
other = record { priv = zeros 32; public_key = replicate 32 2; lan = [] }

abbrev draw : Draw
draw = record { tx = replicate 12 7; nonce = zeros 24; seed = []; tag = zeros 4 }

abbrev start : ℕ
start = 1000 * 10 ^ 9

abbrev told_peer : Peer
told_peer = record {
  public_ip = invalid;
  udp_port = 0;
  locals = there ∷ [];
  reflexive = [];
  port_map = no_addr_port;
  disco_key = replicate 32 2;
  relay = [];
}

abbrev peer_id : List ℕ
peer_id = 65 ∷ []

abbrev pong_packet : List ℕ
pong_packet =
    sealed plain_box other (record { typ = type_pong; tx = replicate 12 7; src = here; body = [] })
      (replicate 32 1) draw

abbrev story : List Action
story =
    tells start [] (67 ∷ []) ((peer_id, told_peer) ∷ []) (λ id. true)
    ∷ ticks (start + 1) (λ i k. draw)
    ∷ handles (start + 2) draw draw pong_packet there
    ∷ []

abbrev told_once : DiscoMgr
told_once =
    set_peers (λ id. none) start [] (67 ∷ []) ((peer_id, told_peer) ∷ []) (λ id. true) new_disco_mgr

abbrev at_end : DiscoMgr
at_end = run plain_box node (λ id. none) new_disco_mgr story

run-IsLimited_example : All IsLimited at_end.store
run-IsLimited_example = run-IsLimited plain_box node (λ id. none) new_disco_mgr story tt

found_there : endpoint (start + 3) peer_id at_end ≡ some there
unfolding endpoint peer_of is_stale set_peers lookup forget_peers set_each set_peer peer_for
    new_peer insert erase forget_one mentioned has_id update_at paths_to candidates_of
    add_candidates add_candidate has_addr tick tick_peers tick_peer aged without_old targets_of
    drawn pings sealed seal handle handle_known handle_msg handle_ping handle_pong confirm better
    learn is_lost open_packet opened authenticated decode_payload decode_ping decode_join
    encode_payload source_of unmap put mac tag_key contains is_relay is_lan Addr_discrete
    Bytes_discrete ℕ_discrete
found_there = refl

known_once : lookup Bytes_discrete peer_id told_once.peers ≡ some 0
unfolding set_peers lookup forget_peers set_each set_peer Bytes_discrete ℕ_discrete peer_for
    new_peer insert forget_one mentioned has_id
known_once = refl

endpoint-IsConfirmed_example :
    (dp : DiscoPeer) × (peer_of peer_id at_end.peers at_end.store ≡ some dp)
    × (there ≡ dp.best.addr)
    × (start + 3 - dp.best.at < disco_stale)
    × Any (Confirms plain_box node dp.key dp.best) (past_of plain_box node (λ id. none) [] story)
endpoint-IsConfirmed_example =
    endpoint-IsConfirmed plain_box node (λ id. none) story (start + 3) peer_id there found_there

set_peers-mentioned_example : mentioned told_once.by_ctrl peer_id ≡ true
set_peers-mentioned_example =
    set_peers-mentioned (λ id. none) start [] (67 ∷ []) ((peer_id, told_peer) ∷ []) (λ id. true)
      new_disco_mgr peer_id 0 known_once

handle-IsModest_example :
    let heard = handle plain_box node (start + 4) draw draw pong_packet there at_end in
    IsHandedOn plain_box node (start + 4) draw draw there pong_packet heard.join
    × (((heard.mgr ≡ at_end) × (heard.out ≡ []))
        ⊎ ((sender : List ℕ) × (m : Msg) × (i : ℕ) × (dp : DiscoPeer) × IsFrom plain_box node
              (start + 4)
              draw
              draw
              there
              at_end
              pong_packet
              sender
              m
              i
              dp
            × IsModest there heard.out))
handle-IsModest_example =
    handle-IsModest plain_box node (start + 4) draw draw there pong_packet at_end

abbrev path_of : ℕ → ℕ → DiscoPath
path_of port rtt = record {
  addr = record { addr = v4 0xcb007105; port = port };
  rtt = rtt;
  at = start;
}

-- The same peer by a path in the local network that is slower than the one through the internet.
abbrev lan_path : DiscoPath
lan_path = record (path_of 1 900) { addr = record { addr = v4 0xc0a80105; port = 4790 } }

abbrev home : List Prefix
home = record { ip = v4 0xc0a80100; bits_plus_one = 25 } ∷ []

lan_better : better home start lan_path (path_of 2 100) ≡ true
unfolding better is_stale Addr_discrete ℕ_discrete is_relay contains is_lan is_loopback
lan_better = refl

-- Each node with the other as its only peer, whose key is the same in these boxes.
abbrev asked_peer : DiscoPeer
asked_peer = record (blank 0 [] (zeros 32)) {
  sent = (replicate 12 7, record { to = there; at = start }) ∷ [];
}

abbrev mgr_of : DiscoPeer → DiscoMgr
mgr_of dp = record { store = dp ∷ []; peers = []; by_key = (zeros 32, 0) ∷ []; by_ctrl = [] }

indexed : lookup Bytes_discrete (zeros 32) (mgr_of asked_peer).by_key ≡ some 0
unfolding lookup Bytes_discrete ℕ_discrete
indexed = refl

pending :
    lookup Bytes_discrete (replicate 12 7) asked_peer.sent
    ≡ some (record { to = there; at = start })
unfolding lookup Bytes_discrete ℕ_discrete
pending = refl

lost : is_stale (start + 5) asked_peer.best ≡ true
unfolding is_stale
lost = refl

handle-handle_example :
    let ping =
      sealed plain_box (holder plain_box [] []) (ping_of (replicate 12 7)) (zeros 32) draw in
    (pong : List ℕ) × (rest : List Outgoing) × ((handle plain_box
        (holder plain_box [] [])
        start
        draw
        draw
        ping
        here
        (mgr_of (blank 0 [] (zeros 32)))).out
      ≡ record { pkt = pong; to = here } ∷ rest)
    × ((found : DiscoPeer) × (get_elem?
            (handle plain_box
              (holder plain_box [] [])
              (start + 5)
              draw
              draw
              pong
              there
              (mgr_of asked_peer)).mgr.store
            0
          ≡ some found)
        × (found.best ≡ record { addr = there; rtt = start + 5 - start; at = start + 5 }))
unfolding Addr_discrete ℕ_discrete
handle-handle_example =
    handle-handle plain_box [] [] [] [] draw draw draw draw draw here there start (start + 5)
      (mgr_of asked_peer) (mgr_of (blank 0 [] (zeros 32))) 0 0 (blank 0 [] (zeros 32)) asked_peer
      (record { to = there; at = start }) plain_box-IsLawful (refl, refl) (refl, refl) refl
      (omega arith) (omega arith) indexed refl refl indexed refl pending refl lost
