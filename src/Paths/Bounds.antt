-- ===== src/Paths/Bounds.antt =====
-- How much a peer takes, whatever others send.
use zeropentime.Crypto.{Primitives}
use zeropentime.Disco.{Msg, type_ping, type_pong}
use zeropentime.Netip.{AddrPort, is_valid, ◌=addr◌}
use zeropentime.Paths.{
  DiscoPath, DiscoPeer, SentPing, Draw, Self, max_candidates, max_pending_pings,
}
use zeropentime.Paths.Kept.{IsTold}
use zeropentime.Paths.Search.{
  pings, aged, without_old, targets_of, tick_peer, learn, handle_ping, confirm, handle_pong,
  handle_msg,
}
use zeropentime.Prelude.Assoc.{lookup, erase, insert, length-insert}
use zeropentime.Prelude.{
  ℕ, ◌+◌, ◌-◌, ◌≤◌, inl, inr, List, [], ◌∷◌, ltb, leb, ◌==◌, arith, length, length-append,
  Bool-cases, Option-cases, Bytes_discrete,
}

-- The addresses and the pending pings of a peer are within their limits.
abbrev pub IsLimited : DiscoPeer → Type 0
IsLimited dp =
    (length dp.candidates ≤ max_candidates + 1)
    × (length dp.learned ≤ max_candidates)
    × (length dp.hints ≤ max_candidates)
    × (length dp.gossip ≤ max_candidates)
    × (length dp.sent ≤ max_pending_pings)

pub told-IsLimited : IsTold IsLimited
told-IsLimited = record {
  at_first = λ now id key. (omega arith, omega arith, omega arith, omega arith, omega arith);
  with_candidates = λ dp l few (a, b, c, d, e). (few, b, c, d, e);
  with_hints = λ dp l few (a, b, c, d, e). (a, b, few, d, e);
  with_gossip = λ dp l few (a, b, c, d, e). (a, b, c, few, e);
}

length-without_old :
    (now : ℕ) (sent : List (List ℕ × SentPing)) → length (without_old now sent) ≤ length sent
unfolding without_old
length-without_old now [] = omega arith
length-without_old now ((tx, s) ∷ sent) = ground (arith, length-without_old now sent)

length-erase :
    (tx : List ℕ) (sent : List (List ℕ × SentPing))
    → length (erase Bytes_discrete tx sent) ≤ length sent
unfolding erase
length-erase tx [] = omega arith
length-erase tx ((k, s) ∷ sent) = ground (arith, length-erase tx sent)

module _ (c : Primitives) (self : Self) where
  pings-IsLimited :
      (now : ℕ) (targets : List (AddrPort × Draw)) (dp : DiscoPeer)
      → IsLimited dp
      → IsLimited (pings c self now targets dp).0
  unfolding pings
  pings-IsLimited now [] dp b = b
  pings-IsLimited now ((to, f) ∷ targets) dp b =
      elim (Bool-cases (leb max_pending_pings (length dp.sent))) [
        | inl full ↦ rw full b
        | inr room ↦
            let s : SentPing = record { to = to; at = now } in
            let fits : length (insert Bytes_discrete f.tx s dp.sent) ≤ max_pending_pings =
              ground (arith, length-insert Bytes_discrete f.tx s dp.sent) in
            rw room (pings-IsLimited now targets _ (b.0, b.1, b.2, b.3, fits))
      ]

  pub tick_peer-IsLimited :
      (now : ℕ) (draws : ℕ → Draw) (dp : DiscoPeer)
      → IsLimited dp
      → IsLimited (tick_peer c self now draws dp).0
  unfolding tick_peer aged
  tick_peer-IsLimited now draws dp b =
      let fewer : length (without_old now dp.sent) ≤ max_pending_pings =
        omega (arith, length-without_old now dp.sent, b.4) in
      let young : IsLimited (aged now dp) = (b.0, b.1, b.2, b.3, fewer) in
      elim (Bool-cases (ltb (now - (aged now dp).last_ping) (targets_of now (aged now dp)).0)) [
        | inl early ↦ rw early young
        | inr due ↦ rw due (pings-IsLimited now _ _ (b.0, b.1, b.2, b.3, fewer))
      ]

  learn-IsLimited : (from : AddrPort) (dp : DiscoPeer) → IsLimited dp → IsLimited (learn from dp)
  unfolding learn
  learn-IsLimited from dp b = ground (arith, length-append dp.learned (from ∷ []))

  handle_ping-IsLimited :
      (now : ℕ) (f g : Draw) (m : Msg) (from : AddrPort) (dp : DiscoPeer)
      → IsLimited dp
      → IsLimited (handle_ping c self now f g m from dp).0
  unfolding handle_ping
  handle_ping-IsLimited now f g m from dp b = elim (Bool-cases (is_valid dp.best.addr.addr)) [
    | inl has ↦ rw has (learn-IsLimited from dp b)
    | inr lacks ↦ rw lacks (pings-IsLimited now _ _ (learn-IsLimited from dp b))
  ]

  confirm-IsLimited :
      (now : ℕ) (path : DiscoPath) (dp : DiscoPeer)
      → IsLimited dp
      → IsLimited (confirm c self now path dp).0
  unfolding confirm
  confirm-IsLimited now path dp b = ground arith

  handle_pong-IsLimited :
      (now : ℕ) (m : Msg) (from : AddrPort) (dp : DiscoPeer)
      → IsLimited dp
      → IsLimited (handle_pong c self now m from dp).0
  unfolding handle_pong
  handle_pong-IsLimited now m from dp b = elim (Option-cases (lookup Bytes_discrete m.tx dp.sent)) [
    | inl e ↦ rw (e, handle_pong) b
    | inr (s, e) ↦ elim (Bool-cases (s.to =addr from)) [
      | inr other ↦ rw (e, other, handle_pong) b
      | inl asked ↦
          rw (e, asked, handle_pong)
            (confirm-IsLimited now _ _
              (b.0, b.1, b.2, b.3, omega (arith, length-erase m.tx dp.sent, b.4)))
    ]
  ]

  pub handle_msg-IsLimited :
      (now : ℕ) (f g : Draw) (m : Msg) (from : AddrPort) (dp : DiscoPeer)
      → IsLimited dp
      → IsLimited (handle_msg c self now f g m from dp).0
  unfolding handle_msg
  handle_msg-IsLimited now f g m from dp b = elim (Bool-cases (m.typ == type_ping)) [
    | inl ping ↦ rw ping (handle_ping-IsLimited now f g m from dp b)
    | inr other ↦ elim (Bool-cases (m.typ == type_pong)) [
      | inl pong ↦ rw (other, pong) (handle_pong-IsLimited now m from dp b)
      | inr none_of ↦ rw (other, none_of) b
    ]
  ]
