-- ===== src/Paths/Peers.antt =====
-- internal/node/disco.go: what controllers, the DHT and gossip tell about the peers.
use zeropentime.Netip.{has_addr, AddrPort, is_valid}
use zeropentime.Paths.{DiscoMgr, Peer, max_candidates, blank, update_at}
use zeropentime.Sock.Endpoint.{relay_endpoint}
use zeropentime.Prelude.Assoc.{lookup, insert, erase}
use zeropentime.Prelude.{
  ℕ, Bool, true, false, not, ◌&&◌, ◌||◌, List, [], ◌∷◌, ◌++◌, Option, none, some, ltb, ◌==◌,
  ◌=text◌, if◌then◌else◌, length, get_elem?, replicate, Bytes_discrete,
}

-- `add` of `candidates`.
unfoldable pub add_candidate : List AddrPort → AddrPort → List AddrPort
add_candidate out a =
    if is_valid a.addr
      && not (a.port == 0)
      && not (has_addr out a)
      && ltb (length out) max_candidates
    then out ++ (a ∷ [])
    else out

unfoldable pub add_candidates : List AddrPort → List AddrPort → List AddrPort
add_candidates out [] = out
add_candidates out (a ∷ addrs) = add_candidates (add_candidate out a) addrs

-- `candidates`.
unfoldable pub candidates_of : Peer → List AddrPort
candidates_of p =
    let known =
      add_candidates (add_candidate (add_candidates [] p.locals) p.port_map) p.reflexive in
    if is_valid p.public_ip
    then add_candidate known (record { addr = p.public_ip; port = p.udp_port })
    else known

-- The loop of `addHints` and of `addGossipHints`.
unfoldable pub take_hints : List AddrPort → List AddrPort → List AddrPort → List AddrPort
take_hints known out [] = out
take_hints known out (a ∷ addrs) =
    take_hints known
      (if ltb (length out) max_candidates && not (has_addr known a) then out ++ (a ∷ []) else out)
      addrs

-- `addHints`.
unfoldable pub add_hints : List (List ℕ) → List AddrPort → DiscoMgr → DiscoMgr
add_hints [] addrs d = d
add_hints (id ∷ ids) addrs d = add_hints ids addrs (record d {
  store =
      update_at (lookup Bytes_discrete id d.peers)
        (λ dp. record dp { hints = take_hints dp.candidates [] addrs }) d.store;
})

-- `addGossipHints`.
unfoldable pub add_gossip_hints : List ℕ → List AddrPort → DiscoMgr → DiscoMgr
add_gossip_hints id addrs d = record d {
  store =
      update_at (lookup Bytes_discrete id d.peers)
        (λ dp. record dp { gossip = take_hints dp.candidates [] addrs }) d.store;
}

-- The set `still` of `setPeers`.
unfoldable pub has_id : List (List ℕ) → List ℕ → Bool
has_id [] id = false
has_id (j ∷ ids) id = if j =text id then true else has_id ids id

unfoldable pub mentioned : List (List ℕ × List (List ℕ)) → List ℕ → Bool
mentioned [] id = false
mentioned ((ctrl, ids) ∷ by_ctrl) id = if has_id ids id then true else mentioned by_ctrl id

-- The peer with an ID and a key, or a new one: its reference, and the manager with it.
unfoldable pub new_peer : ℕ → List ℕ → List ℕ → DiscoMgr → ℕ × DiscoMgr
new_peer now id key d =
    let i = length d.store in
    (
      i,
      record d {
        store = d.store ++ (blank now id key ∷ []);
        peers = insert Bytes_discrete id i d.peers;
        by_key = insert Bytes_discrete key i d.by_key;
      },
    )

unfoldable pub peer_for : ℕ → List ℕ → List ℕ → DiscoMgr → ℕ × DiscoMgr
peer_for now id key d = elim (lookup Bytes_discrete id d.peers) [
  | none ↦ new_peer now id key d
  | some i ↦ elim (get_elem? d.store i) [
    | none ↦ (i, d)
    | some dp ↦
        if dp.key =text key
        then (i, d)
        else new_peer now id key (record d { by_key = erase Bytes_discrete dp.key d.by_key })
  ]
]

-- The loop that forgets peers.
unfoldable pub forget_one : List ℕ → ℕ → DiscoMgr → DiscoMgr
forget_one id i d = if mentioned d.by_ctrl id then d else record d {
  peers = erase Bytes_discrete id d.peers;
  by_key = elim (get_elem? d.store i) [
    | none ↦ d.by_key
    | some dp ↦ erase Bytes_discrete dp.key d.by_key
  ];
}

unfoldable pub forget_peers : List (List ℕ × ℕ) → DiscoMgr → DiscoMgr
forget_peers [] d = d
forget_peers ((id, i) ∷ peers) d = forget_peers peers (forget_one id i d)

-- The base32 of node IDs is the argument `node_id_bytes`.
module _ (node_id_bytes : List ℕ → Option (List ℕ)) where
  -- The candidates of a peer, with the relay if both nodes use the same one.
  unfoldable pub paths_to : List ℕ → List ℕ → Peer → List AddrPort
  paths_to our_relay id p =
      let direct = candidates_of p in
      if not (our_relay =text []) && p.relay =text our_relay
      then elim (node_id_bytes id) [
        | none ↦ direct
        | some raw ↦ direct ++ (relay_endpoint raw ∷ [])
      ]
      else direct

  -- The body of the loop of `setPeers`: the IDs collected, and the manager.
  unfoldable pub set_peer :
      ℕ
      → List ℕ
      → (List ℕ → Bool)
      → List ℕ
      → Peer
      → List (List ℕ) × DiscoMgr
      → List (List ℕ) × DiscoMgr
  set_peer now our_relay active id p (ids, d) =
      if not (active id) || p.disco_key =text replicate 32 0
      then (ids, d)
      else let (i, d') = peer_for now id p.disco_key d in
        (
          ids ++ (id ∷ []),
          record d' {
            store =
                update_at (some i) (λ dp. record dp { candidates = paths_to our_relay id p })
                  d'.store;
          },
        )

  unfoldable pub set_each :
      ℕ
      → List ℕ
      → (List ℕ → Bool)
      → List (List ℕ × Peer)
      → List (List ℕ) × DiscoMgr
      → List (List ℕ) × DiscoMgr
  set_each now our_relay active [] s = s
  set_each now our_relay active ((id, p) ∷ peers) s =
      set_each now our_relay active peers (set_peer now our_relay active id p s)

  -- `setPeers`.
  unfoldable pub set_peers :
      ℕ → List ℕ → List ℕ → List (List ℕ × Peer) → (List ℕ → Bool) → DiscoMgr → DiscoMgr
  set_peers now our_relay ctrl peers active d =
      let (ids, d') = set_each now our_relay active peers ([], d) in
      forget_peers d'.peers (record d' { by_ctrl = insert Bytes_discrete ctrl ids d'.by_ctrl })
