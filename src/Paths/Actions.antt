-- ===== src/Paths/Actions.antt =====
-- Whatever happens, every peer stays within its limits.
use zeropentime.Crypto.{Primitives}
use zeropentime.Netip.{AddrPort}
use zeropentime.Paths.{DiscoPeer, DiscoMgr, Draw, Self, Peer}
use zeropentime.Paths.Answers.{Outcome, handle-Outcome}
use zeropentime.Paths.Bounds.{IsLimited, told-IsLimited, tick_peer-IsLimited, handle_msg-IsLimited}
use zeropentime.Paths.Kept.{add_hints-All, add_gossip_hints-All, set_peers-All}
use zeropentime.Paths.Peers.{add_hints, add_gossip_hints, set_peers}
use zeropentime.Paths.Search.{tick_peer, tick_peers, tick, handle}
use zeropentime.Prelude.{
  ℕ, inl, inr, Bool, List, [], ◌∷◌, Option, All, All-set, All-get_elem?, get_elem?, Option-cases,
}

-- What happens to the manager, at a time each.
pub data Action : Type 0 where
  tells : ℕ → List ℕ → List ℕ → List (List ℕ × Peer) → (List ℕ → Bool) → Action
  hints : List (List ℕ) → List AddrPort → Action
  gossips : List ℕ → List AddrPort → Action
  ticks : ℕ → (ℕ → ℕ → Draw) → Action
  handles : ℕ → Draw → Draw → List ℕ → AddrPort → Action

module _ (c : Primitives) (self : Self) where
  tick_peers-All :
      (P : DiscoPeer → Type 0) (now : ℕ) (draws : ℕ → ℕ → Draw)
      → ((i : ℕ) (dp : DiscoPeer) → P dp → P (tick_peer c self now (draws i) dp).0)
      → (peers : List (List ℕ × ℕ)) (store : List DiscoPeer) → All P store
      → All P (tick_peers c self now draws peers store).0
  unfolding tick_peers
  tick_peers-All P now draws keeps [] store h = h
  tick_peers-All P now draws keeps ((id, i) ∷ peers) store h =
      elim (Option-cases (get_elem? store i)) [
        | inl e ↦ rw (e, tick_peers) (tick_peers-All P now draws keeps peers store h)
        | inr (dp, e) ↦
            rw (e, tick_peers)
              (tick_peers-All P now draws keeps peers _
                (All-set P store i _ h (keeps i dp (All-get_elem? P store i dp h e))))
      ]

  pub tick-All :
      (P : DiscoPeer → Type 0) (now : ℕ) (draws : ℕ → ℕ → Draw)
      → ((i : ℕ) (dp : DiscoPeer) → P dp → P (tick_peer c self now (draws i) dp).0)
      → (d : DiscoMgr) → All P d.store
      → All P (tick c self now draws d).0.store
  unfolding tick
  tick-All P now draws keeps d h = tick_peers-All P now draws keeps d.peers d.store h

  module _ (node_id_bytes : List ℕ → Option (List ℕ)) where
    abbrev pub step : DiscoMgr → Action → DiscoMgr
    step d (tells now ours ctrl peers active) = set_peers node_id_bytes now ours ctrl peers active d
    step d (hints ids addrs) = add_hints ids addrs d
    step d (gossips id addrs) = add_gossip_hints id addrs d
    step d (ticks now draws) = (tick c self now draws d).0
    step d (handles now f g pkt from) = (handle c self now f g pkt from d).mgr

    abbrev pub run : DiscoMgr → List Action → DiscoMgr
    run d [] = d
    run d (a ∷ actions) = run (step d a) actions

    step-IsLimited :
        (d : DiscoMgr) (a : Action) → All IsLimited d.store → All IsLimited (step d a).store
    unfolding Outcome
    step-IsLimited d (tells now ours ctrl peers active) h =
        set_peers-All IsLimited told-IsLimited node_id_bytes now ours ctrl peers active d h
    step-IsLimited d (hints ids addrs) h = add_hints-All IsLimited told-IsLimited ids addrs d h
    step-IsLimited d (gossips id addrs) h =
        add_gossip_hints-All IsLimited told-IsLimited id addrs d h
    step-IsLimited d (ticks now draws) h =
        tick-All IsLimited now draws (λ i dp. tick_peer-IsLimited c self now (draws i) dp) d h
    step-IsLimited d (handles now f g pkt from) h =
        elim (handle-Outcome c self now f g from pkt d) [
          | inl (same, quiet) ↦ rw same h
          | inr (sender, m, i, dp, known, after, out) ↦ rw after (
              All-set IsLimited d.store i _ h (
                handle_msg-IsLimited c self now f g m from dp
                  (All-get_elem? IsLimited d.store i dp h known.stored)))
        ]

    -- Whatever controllers, hints and packets come, each peer has at most 13 candidates, twelve learned,
    -- hinted and gossiped addresses, and 64 pending pings.
    pub run-IsLimited :
        (d : DiscoMgr) (actions : List Action)
        → All IsLimited d.store
        → All IsLimited (run d actions).store
    run-IsLimited d [] h = h
    run-IsLimited d (a ∷ actions) h = run-IsLimited (step d a) actions (step-IsLimited d a h)
