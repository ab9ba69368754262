-- ===== src/Paths/Search.antt =====
-- internal/node/disco.go: which path is better, the pings of each tick, and the answers to them.
use zeropentime.Crypto.{Primitives}
use zeropentime.Disco.{Msg, type_ping, type_pong, type_join, type_join_reply, seal, open_packet}
use zeropentime.Netip.{
  has_addr, AddrPort, no_addr_port, Prefix, contains, is_loopback, is_valid, ◌=addr◌,
}
use zeropentime.Paths.{
  DiscoPath, no_path, SentPing, DiscoPeer, DiscoMgr, Outgoing, Draw, Self, disco_recheck,
  disco_stale, disco_search, disco_ping_ttl, disco_eager_direct, max_candidates, max_pending_pings,
  is_stale,
}
use zeropentime.Sock.Endpoint.{is_relay}
use zeropentime.Prelude.Assoc.{lookup, insert, erase}
use zeropentime.Prelude.{
  ℕ, suc, ◌-◌, ◌*◌, Bool, true, false, not, ◌&&◌, ◌||◌, List, [], ◌∷◌, ◌++◌, Option, none, some,
  ltb, leb, ◌==◌, if◌then◌else◌, length, get_elem?, set, Bytes_discrete,
}

-- `isLAN`.
unfoldable pub is_lan : List Prefix → AddrPort → Bool
is_lan [] a = false
is_lan (p ∷ lan) a = if contains p a.addr && not (is_loopback a.addr) then true else is_lan lan a

abbrev pub differ : Bool → Bool → Bool
differ a b = if a then not b else b

-- `better`.
unfoldable pub better : List Prefix → ℕ → DiscoPath → DiscoPath → Bool
better lan now p cur =
    if is_stale now cur
    then true
    else if p.addr =addr cur.addr
    then false
    else if differ (is_relay p.addr) (is_relay cur.addr)
    then is_relay cur.addr
    else if differ (is_lan lan p.addr) (is_lan lan cur.addr)
    then is_lan lan p.addr
    else ltb (p.rtt * 10) (cur.rtt * 7)

unfoldable pub without_old : ℕ → List (List ℕ × SentPing) → List (List ℕ × SentPing)
without_old now [] = []
without_old now ((tx, s) ∷ sent) =
    let rest = without_old now sent in
    if ltb disco_ping_ttl (now - s.at) then rest else (tx, s) ∷ rest

-- The first part of `tick` for a peer: old pings and a stale path are forgotten.
unfoldable pub aged : ℕ → DiscoPeer → DiscoPeer
aged now dp = record dp {
  sent = without_old now dp.sent;
  best =
      if is_valid dp.best.addr.addr && leb disco_stale (now - dp.best.at) then no_path else dp.best;
}

unfoldable pub is_lost : ℕ → DiscoPeer → Bool
is_lost now dp = is_valid dp.best.addr.addr && leb disco_stale (now - dp.best.at)

-- The switch of `tick`: how often a peer is pinged, and where.
unfoldable pub targets_of : ℕ → DiscoPeer → ℕ × List AddrPort
targets_of now dp =
    let everywhere = dp.candidates ++ dp.learned ++ dp.hints ++ dp.gossip in
    if not (is_valid dp.best.addr.addr)
    then (disco_search, everywhere)
    else if is_relay dp.best.addr
    then (
      if leb disco_eager_direct (now - dp.since) then disco_recheck else disco_search,
      everywhere,
    )
    else (disco_recheck, dp.best.addr ∷ [])

-- The targets with a draw each.
unfoldable pub drawn : (ℕ → Draw) → ℕ → List AddrPort → List (AddrPort × Draw)
drawn draws k [] = []
drawn draws k (a ∷ targets) = (a, draws k) ∷ drawn draws (suc k) targets

-- What `handle` does: `join` is a join message and its sender, which others handle.
pub record Handled : Type 0 where
  pub mgr : DiscoMgr
  pub out : List Outgoing
  pub changed : Bool
  pub join : Option (List ℕ × Msg)

abbrev pub unheard : DiscoMgr → Handled
unheard d = record { mgr = d; out = []; changed = false; join = none }

unfoldable pub learn : AddrPort → DiscoPeer → DiscoPeer
learn from dp =
    if not (has_addr dp.candidates from)
      && not (has_addr dp.learned from)
      && ltb (length dp.learned) max_candidates
    then record dp { learned = dp.learned ++ (from ∷ []) }
    else dp

module _ (c : Primitives) (self : Self) where
  -- `disco.Seal` with the own keys.
  unfoldable pub sealed : Msg → List ℕ → Draw → List ℕ
  sealed m to f = seal c m self.priv self.public_key to f.nonce f.seed f.tag

  -- `pingsLocked`, with a draw for each ping.
  unfoldable pub pings : ℕ → List (AddrPort × Draw) → DiscoPeer → DiscoPeer × List Outgoing
  pings now [] dp = (dp, [])
  pings now ((to, f) ∷ targets) dp =
      let one : Outgoing = record {
        pkt =
            sealed (record { typ = type_ping; tx = f.tx; src = no_addr_port; body = [] }) dp.key f;
        to = to;
      } in
      let after = record dp {
        sent = insert Bytes_discrete f.tx (record { to = to; at = now }) dp.sent;
      } in
      let (dp', out) = pings now targets after in
      if leb max_pending_pings (length dp.sent) then (dp, []) else (dp', one ∷ out)

  -- `tick`, one peer.
  unfoldable pub tick_peer : ℕ → (ℕ → Draw) → DiscoPeer → DiscoPeer × List Outgoing
  tick_peer now draws dp =
      let young = aged now dp in
      let (interval, targets) = targets_of now young in
      if ltb (now - young.last_ping) interval
      then (young, [])
      else pings now (drawn draws 0 targets) (record young { last_ping = now })

  -- `tick`: the manager, the pings, and whether a path is lost. A peer draws by its reference.
  unfoldable pub tick_peers :
      ℕ
      → (ℕ → ℕ → Draw)
      → List (List ℕ × ℕ)
      → List DiscoPeer
      → List DiscoPeer × List Outgoing × Bool
  tick_peers now draws [] store = (store, [], false)
  tick_peers now draws ((id, i) ∷ peers) store = elim (get_elem? store i) [
    | none ↦ tick_peers now draws peers store
    | some dp ↦
        let (dp', out) = tick_peer now (draws i) dp in
        let (store', rest, lost) = tick_peers now draws peers (set store i dp') in
        (store', out ++ rest, is_lost now dp || lost)
  ]

  unfoldable pub tick : ℕ → (ℕ → ℕ → Draw) → DiscoMgr → DiscoMgr × List Outgoing × Bool
  tick now draws d =
      let (store, out, lost) = tick_peers now draws d.peers d.store in
      (record d { store = store }, out, lost)

  -- A ping of a peer: the answer goes to where it came from, and so does a ping while there is no path.
  unfoldable pub handle_ping :
      ℕ → Draw → Draw → Msg → AddrPort → DiscoPeer → DiscoPeer × List Outgoing
  handle_ping now f g m from dp =
      let pong : Outgoing = record {
        pkt = sealed (record { typ = type_pong; tx = m.tx; src = from; body = [] }) dp.key f;
        to = from;
      } in
      let seen = learn from dp in
      let (pinged, out) = pings now ((from, g) ∷ []) seen in
      if is_valid dp.best.addr.addr then (seen, pong ∷ []) else (pinged, pong ∷ out)

  -- A pong of a peer: the peer, and whether its path has changed.
  unfoldable pub confirm : ℕ → DiscoPath → DiscoPeer → DiscoPeer × Bool
  confirm now path dp =
      if better self.lan now path dp.best
      then (record dp { best = path }, not (path.addr =addr dp.best.addr))
      else if path.addr =addr dp.best.addr
      then (record dp { best = record dp.best { at = now; rtt = path.rtt } }, false)
      else (dp, false)

  unfoldable pub handle_pong : ℕ → Msg → AddrPort → DiscoPeer → DiscoPeer × Bool
  handle_pong now m from dp = elim (lookup Bytes_discrete m.tx dp.sent) [
    | none ↦ (dp, false)
    | some s ↦
        if not (s.to =addr from)
        then (dp, false)
        else confirm now (record { addr = from; rtt = now - s.at; at = now })
            (record dp { sent = erase Bytes_discrete m.tx dp.sent })
  ]

  -- What a message of a known peer does to it: the datagrams, and whether its path has changed.
  unfoldable pub handle_msg :
      ℕ → Draw → Draw → Msg → AddrPort → DiscoPeer → DiscoPeer × List Outgoing × Bool
  handle_msg now f g m from dp =
      let (pinged, out) = handle_ping now f g m from dp in
      let (ponged, changed) = handle_pong now m from dp in
      if m.typ == type_ping
      then (pinged, out, false)
      else if m.typ == type_pong
      then (ponged, [], changed)
      else (dp, [], false)

  unfoldable pub handle_known : ℕ → Draw → Draw → List ℕ → Msg → AddrPort → DiscoMgr → Handled
  handle_known now f g sender m from d = elim (lookup Bytes_discrete sender d.by_key) [
    | none ↦ unheard d
    | some i ↦ elim (get_elem? d.store i) [
      | none ↦ unheard d
      | some dp ↦
          let (dp', out, changed) = handle_msg now f g m from dp in
          record {
            mgr = record d { store = set d.store i dp' };
            out = out;
            changed = changed;
            join = none;
          }
    ]
  ]

  -- `handle`.
  unfoldable pub handle : ℕ → Draw → Draw → List ℕ → AddrPort → DiscoMgr → Handled
  handle now f g pkt from d = elim (open_packet c pkt self.priv self.public_key) [
    | none ↦ unheard d
    | some (sender, m) ↦
        if m.typ == type_join || m.typ == type_join_reply
        then record (unheard d) { join = some (sender, m) }
        else handle_known now f g sender m from d
  ]

-- `stats`: the direct and the relayed paths.
unfoldable pub count_paths : ℕ → List (List ℕ × ℕ) → List DiscoPeer → ℕ × ℕ
count_paths now [] store = (0, 0)
count_paths now ((id, i) ∷ peers) store =
    let (direct, relayed) = count_paths now peers store in
    elim (get_elem? store i) [
      | none ↦ (direct, relayed)
      | some dp ↦
          if is_stale now dp.best
          then (direct, relayed)
          else if is_relay dp.best.addr
          then (direct, suc relayed)
          else (suc direct, relayed)
    ]

unfoldable pub stats : ℕ → DiscoMgr → ℕ × ℕ
stats now d = count_paths now d.peers d.store
