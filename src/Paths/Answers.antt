-- ===== src/Paths/Answers.antt =====
-- What a disco packet is answered with, and by whom it must be sent.
use zeropentime.Crypto.{Primitives}
use zeropentime.Disco.{Msg, type_ping, type_pong, type_join, type_join_reply, open_packet}
use zeropentime.Netip.{AddrPort, is_valid}
use zeropentime.Paths.{DiscoPeer, DiscoMgr, Outgoing, Draw, Self, max_pending_pings}
use zeropentime.Paths.Search.{learn, pings, handle_ping, handle_msg, handle_known, handle}
use zeropentime.Prelude.Assoc.{lookup}
use zeropentime.Prelude.{
  ℕ, ◌≤◌, ◌≡◌, ◌↔◌, refl, sym, ◌∙◌, ◌⊎◌, inl, inr, ◌||◌, List, [], ◌∷◌, Option, none, some, leb,
  ◌==◌, arith, length, All, true, false, get_elem?, set, Bool-cases, Option-cases, Bytes_discrete,
}

none_apart : {a : List ℕ × Msg} → ¬ (none ≡ some a)
none_apart e = cc

same_typ : (a b : List ℕ × Msg) → some a ≡ some b → a.1.typ ≡ b.1.typ
same_typ a b e = cc

is_join :
    (a b : List ℕ × Msg)
    → some a ≡ some b
    → (a.1.typ == type_join || a.1.typ == type_join_reply) ≡ true
    → (b.1.typ ≡ type_join) ⊎ (b.1.typ ≡ type_join_reply)
is_join a b e join = ground (arith, same_typ a b e)

no_join :
    (a b : List ℕ × Msg)
    → some a ≡ some b
    → (b.1.typ ≡ type_join) ⊎ (b.1.typ ≡ type_join_reply)
    → ¬ ((a.1.typ == type_join || a.1.typ == type_join_reply) ≡ false)
no_join a b e t other = ground (arith, same_typ a b e)

-- At most two datagrams, all to one address.
abbrev pub IsModest : AddrPort → List Outgoing → Type 0
IsModest from out = (length out ≤ 2) × All (λ (o : Outgoing). o.to ≡ from) out

module _ (c : Primitives) (self : Self) (now : ℕ) (f g : Draw) (from : AddrPort) where
  one_ping :
      (dp : DiscoPeer)
      → (length (pings c self now ((from, g) ∷ []) dp).1 ≤ 1)
        × All (λ (o : Outgoing). o.to ≡ from) (pings c self now ((from, g) ∷ []) dp).1
  unfolding pings
  one_ping dp = elim (Bool-cases (leb max_pending_pings (length dp.sent))) [
    | inl full ↦ rw full (omega arith, tt)
    | inr room ↦ rw room (omega arith, (refl, tt))
  ]

  handle_ping-IsModest :
      (m : Msg) (dp : DiscoPeer) → IsModest from (handle_ping c self now f g m from dp).1
  unfolding handle_ping
  handle_ping-IsModest m dp =
      let (few, own) = one_ping (learn from dp) in
      elim (Bool-cases (is_valid dp.best.addr.addr)) [
        | inl has ↦ rw has (omega arith, (refl, tt))
        | inr lacks ↦ rw lacks (omega (arith, few), (refl, own))
      ]

  handle_msg-IsModest :
      (m : Msg) (dp : DiscoPeer) → IsModest from (handle_msg c self now f g m from dp).1
  unfolding handle_msg
  handle_msg-IsModest m dp = elim (Bool-cases (m.typ == type_ping)) [
    | inl ping ↦ rw ping (handle_ping-IsModest m dp)
    | inr other ↦ elim (Bool-cases (m.typ == type_pong)) [
      | inl pong ↦ rw (other, pong) (omega arith, tt)
      | inr neither ↦ rw (other, neither) (omega arith, tt)
    ]
  ]

  -- The packet is a message of a known peer: the reference and the peer at it.
  pub record IsFrom (d : DiscoMgr) (pkt sender : List ℕ) (m : Msg) (i : ℕ) (dp : DiscoPeer)
      : Type 0 where
    pub authentic : open_packet c pkt self.priv self.public_key ≡ some (sender, m)
    pub indexed : lookup Bytes_discrete sender d.by_key ≡ some i
    pub stored : get_elem? d.store i ≡ some dp

  -- What is handed to the join handlers is an authentic join message, or an answer to one, with its
  -- sender; and every such message is handed to them.
  abbrev pub IsHandedOn : List ℕ → Option (List ℕ × Msg) → Type 0
  IsHandedOn pkt join =
      (sender : List ℕ) (m : Msg)
      → (join ≡ some (sender, m)) ↔ (
          (open_packet c pkt self.priv self.public_key ≡ some (sender, m))
          × ((m.typ ≡ type_join) ⊎ (m.typ ≡ type_join_reply)))

  join-handle_known :
      (sender : List ℕ) (m : Msg) (d : DiscoMgr)
      → (handle_known c self now f g sender m from d).join ≡ none
  unfolding handle_known
  join-handle_known sender m d = elim (Option-cases (lookup Bytes_discrete sender d.by_key)) [
    | inl e ↦ rw (e, handle_known) refl
    | inr (i, e) ↦ elim (Option-cases (get_elem? d.store i)) [
      | inl e' ↦ rw (e, e', handle_known) refl
      | inr (dp, e') ↦ rw (e, e', handle_known) refl
    ]
  ]

  join-handle :
      (pkt : List ℕ) (d : DiscoMgr) → IsHandedOn pkt (handle c self now f g pkt from d).join
  unfolding handle
  join-handle pkt d sender m = elim (Option-cases (open_packet c pkt self.priv self.public_key)) [
    | inl e ↦ rw (e, handle) (λ h. cc, λ (o, t). cc)
    | inr ((who, n), e) ↦ elim (Bool-cases (n.typ == type_join || n.typ == type_join_reply)) [
      | inl join ↦ rw (e, join, handle) (λ h. (h, is_join (who, n) (sender, m) h join), λ (o, t). o)
      | inr other ↦
          rw (e, other, handle)
            (
              λ h. absurd (none_apart (sym (join-handle_known who n d) ∙ h)),
              λ (o, t). absurd (no_join (who, n) (sender, m) o t other),
            )
    ]
  ]

  unfoldable pub Outcome : List ℕ → DiscoMgr → Type 0
  Outcome pkt d =
      (((handle c self now f g pkt from d).mgr ≡ d) × ((handle c self now f g pkt from d).out ≡ []))
      ⊎ ((sender : List ℕ) × (m : Msg) × (i : ℕ) × (dp : DiscoPeer) × IsFrom d pkt sender m i dp
          × ((handle c self now f g pkt from d).mgr
              ≡ record d { store = set d.store i (handle_msg c self now f g m from dp).0 })
          × ((handle c self now f g pkt from d).out ≡ (handle_msg c self now f g m from dp).1))

  pub handle-Outcome : (pkt : List ℕ) (d : DiscoMgr) → Outcome pkt d
  unfolding Outcome handle handle_known
  handle-Outcome pkt d = elim (Option-cases (open_packet c pkt self.priv self.public_key)) [
    | inl e ↦ inl (rw (e, handle) refl, rw (e, handle) refl)
    | inr ((sender, m), e) ↦ elim (Bool-cases (m.typ == type_join || m.typ == type_join_reply)) [
      | inl join ↦ inl (rw (e, join, handle) refl, rw (e, join, handle) refl)
      | inr other ↦ elim (Option-cases (lookup Bytes_discrete sender d.by_key)) [
        | inl e' ↦ inl (
          rw (e, other, e', handle, handle_known) refl,
          rw (e, other, e', handle, handle_known) refl,
        )
        | inr (i, e') ↦ elim (Option-cases (get_elem? d.store i)) [
          | inl e'' ↦ inl (
            rw (e, other, e', e'', handle, handle_known) refl,
            rw (e, other, e', e'', handle, handle_known) refl,
          )
          | inr (dp, e'') ↦ inr (
            sender,
            m,
            i,
            dp,
            record { authentic = e; indexed = e'; stored = e'' },
            rw (e, other, e', e'', handle, handle_known) refl,
            rw (e, other, e', e'', handle, handle_known) refl,
          )
        ]
      ]
    ]
  ]

  -- `handle` hands a message on to the join handlers exactly when it is an authentic join message or an
  -- answer to one. Apart from what those do, a packet changes nothing and gets no answer, or a known
  -- peer sent it, and at most two datagrams answer it, which go to where it came from.
  pub handle-IsModest :
      (pkt : List ℕ) (d : DiscoMgr)
      → IsHandedOn pkt (handle c self now f g pkt from d).join
        × ((((handle c self now f g pkt from d).mgr ≡ d)
              × ((handle c self now f g pkt from d).out ≡ []))
            ⊎ ((sender : List ℕ) × (m : Msg) × (i : ℕ) × (dp : DiscoPeer) × IsFrom d pkt sender m i
                  dp
                × IsModest from (handle c self now f g pkt from d).out))
  unfolding Outcome
  handle-IsModest pkt d = (
    join-handle pkt d,
    elim (handle-Outcome pkt d) [
      | inl quiet ↦ inl quiet
      | inr (sender, m, i, dp, known, after, out) ↦
          inr (sender, m, i, dp, known, rw out (handle_msg-IsModest m dp))
    ],
  )
