-- ===== src/Paths/Confirmed.antt =====
-- Every path was confirmed by a pong that the peer sealed, and that came from the path's address.
use zeropentime.Crypto.{Primitives}
use zeropentime.Disco.{Msg, type_pong, open_packet}
use zeropentime.Netip.{AddrPort, is_valid, ◌=addr◌}
use zeropentime.Paths.{
  DiscoPath, DiscoPeer, DiscoMgr, Draw, Self, new_disco_mgr, endpoint, peer_of, is_stale,
  disco_stale,
}
use zeropentime.Paths.Actions.{Action, tells, hints, gossips, ticks, handles, step, run, tick-All}
use zeropentime.Paths.Answers.{Outcome, handle-Outcome}
use zeropentime.Paths.Index.{IsIndexed, HasKey, step-IsIndexed}
use zeropentime.Paths.Kept.{IsTold, add_hints-All, add_gossip_hints-All, set_peers-All}
use zeropentime.Paths.Messages.{tick_peer_same, IsAsked, handle_msg-IsAsked}
use zeropentime.Paths.Search.{tick_peer, handle_msg}
use zeropentime.Prelude.Assoc.{lookup}
use zeropentime.Prelude.{
  ℕ, ◌-◌, ◌<◌, ◌≡◌, sym, ◌∙◌, ap, subst, inl, inr, true, List, [], ◌∷◌, Option, some, arith, Any,
  All, All-set, All-get_elem?, All-weaken, get_elem?, Option-cases, Bytes_discrete,
}

module _ (c : Primitives) (self : Self) where
  -- The action is the arrival of a pong that the holder of the key sealed for this node, from the
  -- address of the path, at the time of the path.
  unfoldable pub Confirms : List ℕ → DiscoPath → Action → Type 0
  Confirms key path (handles now f g pkt from) =
      (m : Msg) × (open_packet c pkt self.priv self.public_key ≡ some (key, m))
      × (m.typ ≡ type_pong)
      × ((from =addr path.addr) ≡ true)
      × (path.at ≡ now)
  Confirms key path _ = ⊥

  -- Some earlier action confirmed the path of the peer, if it has one.
  unfoldable pub IsConfirmed : List Action → DiscoPeer → Type 0
  IsConfirmed past dp = is_valid dp.best.addr.addr ≡ true → Any (Confirms dp.key dp.best) past

  told-IsConfirmed : (past : List Action) → IsTold (IsConfirmed past)
  unfolding IsConfirmed
  told-IsConfirmed past = record {
    at_first = λ now id key h. cc;
    with_candidates = λ dp l few h. h;
    with_hints = λ dp l few h. h;
    with_gossip = λ dp l few h. h;
  }

  -- With the key and the path of another peer.
  same-IsConfirmed :
      (past : List Action) (dp dp' : DiscoPeer)
      → dp'.key ≡ dp.key
      → dp'.best ≡ dp.best
      → IsConfirmed past dp
      → IsConfirmed past dp'
  unfolding IsConfirmed
  same-IsConfirmed past dp dp' key best h valid =
      subst (λ (k : List ℕ). Any (Confirms k dp'.best) past) (sym key)
        (subst (λ (b : DiscoPath). Any (Confirms dp.key b) past) (sym best)
          (h (ap (λ (b : DiscoPath). is_valid b.addr.addr) (sym best) ∙ valid)))

  tick_peer-IsConfirmed :
      (past : List Action) (now : ℕ) (draws : ℕ → Draw) (dp : DiscoPeer)
      → IsConfirmed past dp
      → IsConfirmed past (tick_peer c self now draws dp).0
  tick_peer-IsConfirmed past now draws dp h =
      let (key, best) = tick_peer_same c self now draws dp in
      elim best [
        | inl e ↦ same-IsConfirmed past dp _ key e h
        | inr e ↦
            unfold IsConfirmed in (λ valid. cc (ap (λ (b : DiscoPath). is_valid b.addr.addr) e))
      ]

  older :
      (past : List Action) (a : Action) (dp : DiscoPeer)
      → IsConfirmed past dp
      → IsConfirmed (a ∷ past) dp
  unfolding IsConfirmed
  older past a dp h valid = inr (h valid)

  All-older :
      (past : List Action) (a : Action) (store : List DiscoPeer)
      → All (IsConfirmed past) store
      → All (IsConfirmed (a ∷ past)) store
  All-older past a = All-weaken (IsConfirmed past) (IsConfirmed (a ∷ past)) (older past a)

  handled-IsConfirmed :
      (past : List Action) (now : ℕ) (f g : Draw) (pkt : List ℕ) (from : AddrPort) (sender : List ℕ)
      (m : Msg) (dp : DiscoPeer)
      → open_packet c pkt self.priv self.public_key ≡ some (sender, m)
      → dp.key ≡ sender
      → IsConfirmed past dp
      → IsConfirmed (handles now f g pkt from ∷ past) (handle_msg c self now f g m from dp).0
  unfolding IsAsked
  handled-IsConfirmed past now f g pkt from sender m dp authentic own h =
      let (key, asked) = handle_msg-IsAsked c self now f g m from dp in
      elim asked [
        | inl same ↦ same-IsConfirmed _ dp _ key same (older past _ dp h)
        | inr (there, at_now, pong, sent) ↦
            unfold IsConfirmed Confirms in
            (λ valid. inl (
              m,
              subst (λ (k : List ℕ). open_packet c pkt self.priv self.public_key ≡ some (k, m))
                  (sym (key ∙ own)) authentic,
              pong,
              there,
              at_now,
            ))
      ]

  module _ (node_id_bytes : List ℕ → Option (List ℕ)) where
    step-IsConfirmed :
        (past : List Action) (d : DiscoMgr) (a : Action)
        → IsIndexed d
        → All (IsConfirmed past) d.store
        → All (IsConfirmed (a ∷ past)) (step c self node_id_bytes d a).store
    unfolding Outcome HasKey
    step-IsConfirmed past d (tells now ours ctrl peers active) keys h = All-older past _ _ (
        set_peers-All (IsConfirmed past) (told-IsConfirmed past) node_id_bytes now ours ctrl peers
          active d h)
    step-IsConfirmed past d (hints ids addrs) keys h =
        All-older past _ _ (add_hints-All (IsConfirmed past) (told-IsConfirmed past) ids addrs d h)
    step-IsConfirmed past d (gossips id addrs) keys h =
        All-older past _ _
          (add_gossip_hints-All (IsConfirmed past) (told-IsConfirmed past) id addrs d h)
    step-IsConfirmed past d (ticks now draws) keys h = All-older past _ _ (
        tick-All c self (IsConfirmed past) now draws (λ i. tick_peer-IsConfirmed past now (draws i))
          d h)
    step-IsConfirmed past d (handles now f g pkt from) keys h =
        elim (handle-Outcome c self now f g from pkt d) [
          | inl (same, quiet) ↦ rw same (All-older past _ d.store h)
          | inr (sender, m, i, dp, known, after, out) ↦
              let (p, e, own) = keys sender i known.indexed in
              let same_key : dp.key ≡ sender = ground (arith, e, own, known.stored) in
              rw after (
                All-set (IsConfirmed (handles now f g pkt from ∷ past)) d.store i _
                  (All-older past _ d.store h)
                  (handled-IsConfirmed past now f g pkt from sender m dp known.authentic same_key
                    (All-get_elem? (IsConfirmed past) d.store i dp h known.stored)))
        ]

    -- The actions, the latest first.
    unfoldable pub past_of : List Action → List Action → List Action
    past_of past [] = past
    past_of past (a ∷ actions) = past_of (a ∷ past) actions

    run-IsConfirmed :
        (past : List Action) (d : DiscoMgr) (actions : List Action)
        → IsIndexed d
        → All (IsConfirmed past) d.store
        → All (IsConfirmed (past_of past actions)) (run c self node_id_bytes d actions).store
    unfolding past_of
    run-IsConfirmed past d [] keys h = h
    run-IsConfirmed past d (a ∷ actions) keys h =
        run-IsConfirmed (a ∷ past) (step c self node_id_bytes d a) actions
          (step-IsIndexed c self node_id_bytes d a keys) (step-IsConfirmed past d a keys h)

    endpoint_peer :
        (now : ℕ) (id : List ℕ) (d : DiscoMgr) (to : AddrPort)
        → endpoint now id d ≡ some to
        → (i : ℕ) × (dp : DiscoPeer) × (get_elem? d.store i ≡ some dp)
          × (peer_of id d.peers d.store ≡ some dp)
          × (to ≡ dp.best.addr)
          × (is_valid dp.best.addr.addr ≡ true)
          × (now - dp.best.at < disco_stale)
    unfolding endpoint peer_of is_stale
    endpoint_peer now id d to h = elim (Option-cases (lookup Bytes_discrete id d.peers)) [
      | inl e ↦ absurd (ground (arith, e, h))
      | inr (i, e) ↦ elim (Option-cases (get_elem? d.store i)) [
        | inl e' ↦ absurd (ground (arith, e, e', h))
        | inr (dp, e') ↦
            let (same, valid, fresh) : (to ≡ dp.best.addr)
                × (is_valid dp.best.addr.addr ≡ true)
                × (now - dp.best.at < disco_stale) =
              ground (arith, e, e', h) in
            (i, dp, e', ground (arith, e, e'), same, valid, fresh)
      ]
    ]

    -- An address that `endpoint` gives was confirmed: among the actions since the start there is the
    -- arrival, less than a minute before, of a pong that the holder of the peer's key sealed for this
    -- node, from that address.
    pub endpoint-IsConfirmed :
        (actions : List Action) (now : ℕ) (id : List ℕ) (to : AddrPort)
        → endpoint now id (run c self node_id_bytes new_disco_mgr actions) ≡ some to
        → let d = run c self node_id_bytes new_disco_mgr actions in
          (dp : DiscoPeer) × (peer_of id d.peers d.store ≡ some dp)
          × (to ≡ dp.best.addr)
          × (now - dp.best.at < disco_stale)
          × Any (Confirms dp.key dp.best) (past_of [] actions)
    unfolding IsConfirmed
    endpoint-IsConfirmed actions now id to h =
        let (i, dp, e, known, same, valid, fresh) = endpoint_peer now id _ to h in
        let all =
          run-IsConfirmed [] new_disco_mgr actions (λ k j e'. absurd (unfold lookup in cc)) tt in
        (
          dp,
          known,
          same,
          fresh,
          All-get_elem? (IsConfirmed (past_of [] actions)) _ i dp all e valid,
        )
