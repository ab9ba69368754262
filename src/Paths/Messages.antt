-- ===== src/Paths/Messages.antt =====
-- What a tick and a message leave of a peer: its key, and the path that it has.
use zeropentime.Crypto.{Primitives}
use zeropentime.Disco.{Msg, type_ping, type_pong}
use zeropentime.Netip.{AddrPort, is_valid, ◌=addr◌}
use zeropentime.Paths.{DiscoPath, no_path, SentPing, DiscoPeer, Draw, Self, max_pending_pings}
use zeropentime.Paths.Search.{
  better, pings, aged, targets_of, drawn, tick_peer, learn, handle_ping, confirm, handle_pong,
  handle_msg,
}
use zeropentime.Prelude.Assoc.{lookup, erase}
use zeropentime.Prelude.{
  ℕ, ◌-◌, ◌≡◌, ◌⊎◌, refl, ◌∙◌, inl, inr, true, List, [], ◌∷◌, some, arith, length, Bool-cases,
  Option-cases, Bytes_discrete, ◌==◌, ltb, leb,
}

module _ (c : Primitives) (self : Self) (now : ℕ) where
  pings_same :
      (targets : List (AddrPort × Draw)) (dp : DiscoPeer)
      → ((pings c self now targets dp).0.key ≡ dp.key)
        × ((pings c self now targets dp).0.best ≡ dp.best)
  unfolding pings
  pings_same [] dp = (refl, refl)
  pings_same ((to, f) ∷ targets) dp = elim (Bool-cases (leb max_pending_pings (length dp.sent))) [
    | inl full ↦ rw full (refl, refl)
    | inr room ↦ rw room (pings_same targets _)
  ]

  -- A tick keeps the key, and the path or no path.
  pub tick_peer_same :
      (draws : ℕ → Draw) (dp : DiscoPeer)
      → ((tick_peer c self now draws dp).0.key ≡ dp.key)
        × (((tick_peer c self now draws dp).0.best ≡ dp.best)
            ⊎ ((tick_peer c self now draws dp).0.best ≡ no_path))
  unfolding tick_peer aged
  tick_peer_same draws dp =
      let due : DiscoPeer = record (aged now dp) { last_ping = now } in
      let (key, best) = pings_same (drawn draws 0 (targets_of now (aged now dp)).1) due in
      let kept : ((aged now dp).best ≡ dp.best) ⊎ ((aged now dp).best ≡ no_path) = ground arith in
      elim (Bool-cases (ltb (now - (aged now dp).last_ping) (targets_of now (aged now dp)).0)) [
        | inl early ↦ rw early (refl, kept)
        | inr late ↦ rw late (key, elim kept [ inl e ↦ inl (best ∙ e) | inr e ↦ inr (best ∙ e) ])
      ]

  learn_same :
      (from : AddrPort) (dp : DiscoPeer)
      → ((learn from dp).key ≡ dp.key) × ((learn from dp).best ≡ dp.best)
  unfolding learn
  learn_same from dp = (ground arith, ground arith)

  handle_ping_same :
      (f g : Draw) (m : Msg) (from : AddrPort) (dp : DiscoPeer)
      → ((handle_ping c self now f g m from dp).0.key ≡ dp.key)
        × ((handle_ping c self now f g m from dp).0.best ≡ dp.best)
  unfolding handle_ping
  handle_ping_same f g m from dp =
      let (key, best) = learn_same from dp in
      let (key', best') = pings_same ((from, g) ∷ []) (learn from dp) in
      elim (Bool-cases (is_valid dp.best.addr.addr)) [
        | inl has ↦ rw has (key, best)
        | inr lacks ↦ rw lacks (key' ∙ key, best' ∙ best)
      ]

  -- The peer has the path that it had, or one to the address at this time.
  IsLeft : AddrPort → DiscoPeer → DiscoPeer → Type 0
  IsLeft from dp dp' =
      (dp'.key ≡ dp.key)
      × ((dp'.best ≡ dp.best) ⊎ (((from =addr dp'.best.addr) ≡ true) × (dp'.best.at ≡ now)))

  addr_reflexive : (a : AddrPort) → (a =addr a) ≡ true
  addr_reflexive a = ground arith

  confirm-IsLeft :
      (path : DiscoPath) (dp : DiscoPeer)
      → path.at ≡ now
      → IsLeft path.addr dp (confirm c self now path dp).0
  unfolding confirm IsLeft
  confirm-IsLeft path dp at_now = elim (Bool-cases (better self.lan now path dp.best)) [
    | inl new ↦ rw new (refl, inr (addr_reflexive path.addr, at_now))
    | inr old ↦ elim (Bool-cases (path.addr =addr dp.best.addr)) [
      | inl same ↦ rw (old, same) (refl, inr (same, refl))
      | inr other ↦ rw (old, other) (refl, inl refl)
    ]
  ]

  -- A new path is to an address that was pinged, from where the pong with that transaction came.
  unfoldable pub IsAsked : AddrPort → Msg → DiscoPeer → DiscoPeer → Type 0
  IsAsked from m dp dp' =
      (dp'.best ≡ dp.best)
      ⊎ (((from =addr dp'.best.addr) ≡ true)
          × (dp'.best.at ≡ now)
          × (m.typ ≡ type_pong)
          × ((s : SentPing) × (lookup Bytes_discrete m.tx dp.sent ≡ some s)
              × ((s.to =addr from) ≡ true)))

  pong-IsAsked :
      (m : Msg) (from : AddrPort) (dp : DiscoPeer)
      → m.typ ≡ type_pong
      → ((handle_pong c self now m from dp).0.key ≡ dp.key)
        × IsAsked from m dp (handle_pong c self now m from dp).0
  unfolding handle_pong IsAsked IsLeft
  pong-IsAsked m from dp typ = elim (Option-cases (lookup Bytes_discrete m.tx dp.sent)) [
    | inl e ↦ rw (e, handle_pong) (refl, inl refl)
    | inr (s, e) ↦ elim (Bool-cases (s.to =addr from)) [
      | inr other ↦ rw (e, other, handle_pong) (refl, inl refl)
      | inl asked ↦
          let answered : DiscoPeer = record dp { sent = erase Bytes_discrete m.tx dp.sent } in
          let (key, left) =
            confirm-IsLeft (record { addr = from; rtt = now - s.at; at = now }) answered refl in
          rw (e, asked, handle_pong)
            (
              key,
              elim left [
                | inl same ↦ inl same
                | inr (own, at_now) ↦ inr (own, at_now, typ, (s, refl, asked))
              ],
            )
    ]
  ]

  -- A message keeps the key of the peer. Its path stays, or the message is a pong to a ping that was
  -- sent to the address that it comes from, which is the address of the path.
  pub handle_msg-IsAsked :
      (f g : Draw) (m : Msg) (from : AddrPort) (dp : DiscoPeer)
      → ((handle_msg c self now f g m from dp).0.key ≡ dp.key)
        × IsAsked from m dp (handle_msg c self now f g m from dp).0
  unfolding handle_msg IsAsked
  handle_msg-IsAsked f g m from dp = elim (Bool-cases (m.typ == type_ping)) [
    | inl ping ↦ let (key, best) = handle_ping_same f g m from dp in rw ping (key, inl best)
    | inr other ↦ elim (Bool-cases (m.typ == type_pong)) [
      | inl pong ↦ rw (other, pong) (pong-IsAsked m from dp (ground arith))
      | inr neither ↦ rw (other, neither) (refl, inl refl)
    ]
  ]
