-- ===== src/Relay/Server/Permission.antt =====
-- The relay forwards only what the controller permits.
use zeropentime.Prelude.Assoc.{lookup, lookup-insert}
use zeropentime.Prelude.{
  ℕ, ◌-◌, ◌<◌, ◌≡◌, ◌⊎◌, inl, inr, sym, ◌∙◌, ap, true, List, some, arith, ltb, Option-cases,
  Bool-cases,
}
use zeropentime.Relay.Server.{
  Server, PermEntry, Authorizer, minute, allowed, remember, Pair_discrete,
}

allowed-lookup :
    (a : Authorizer) (now : ℕ) (src dst from to : List ℕ) (s : Server) (e : PermEntry)
    → lookup Pair_discrete (from, to) (allowed a now src dst s).1.perm ≡ some e
    → (lookup Pair_discrete (from, to) s.perm ≡ some e)
      ⊎ ((src ≡ from) × (dst ≡ to) × (e ≡ record { ok = a.can_send src dst; at = now }))
unfolding allowed remember
allowed-lookup a now src dst from to s e h = ground (
  arith,
  lookup-insert Pair_discrete (src, dst) (from, to) (record { ok = a.can_send src dst; at = now })
      s.perm,
)

-- A yes comes out of the cache, or is the controller's own.
allowed_yes :
    (a : Authorizer) (now : ℕ) (src dst : List ℕ) (s : Server)
    → (allowed a now src dst s).0 ≡ true
    → (a.can_send src dst ≡ true)
      ⊎ ((e : PermEntry) × (lookup Pair_discrete (src, dst) s.perm ≡ some e)
          × (now - e.at < minute)
          × (e.ok ≡ true))
unfolding allowed remember
allowed_yes a now src dst s h = elim (Option-cases (lookup Pair_discrete (src, dst) s.perm)) [
  | inl e ↦ inl (ground (arith, e))
  | inr (p, e) ↦ elim (Bool-cases (ltb (now - p.at) minute)) [
    | inl fresh ↦ inr (p, e, ground arith, ground (arith, e))
    | inr old ↦ inl (ground (arith, e))
  ]
]

-- What the controller answers at each time.
module _ (auth : ℕ → Authorizer) where
  -- Each cached answer is the one that the controller gave at the noted time.
  unfoldable pub IsJustified : Server → Type 0
  IsJustified s =
      (src dst : List ℕ) (e : PermEntry)
      → lookup Pair_discrete (src, dst) s.perm ≡ some e
      → (auth e.at).can_send src dst ≡ e.ok

  -- The controller said yes less than a minute ago.
  pub IsGranted : ℕ → List ℕ → List ℕ → Type 0
  IsGranted now src dst = (t : ℕ) × (now - t < minute) × ((auth t).can_send src dst ≡ true)

  pub allowed-IsGranted :
      (now : ℕ) (src dst : List ℕ) (s : Server)
      → IsJustified s
      → (allowed (auth now) now src dst s).0 ≡ true
      → IsGranted now src dst
  unfolding IsJustified IsGranted
  allowed-IsGranted now src dst s j h = elim (allowed_yes (auth now) now src dst s h) [
    | inl yes_now ↦ (now, omega arith, yes_now)
    | inr (e, cached, fresh, yes_then) ↦ (e.at, fresh, j src dst e cached ∙ yes_then)
  ]

  pub allowed-IsJustified :
      (now : ℕ) (src dst : List ℕ) (s : Server)
      → IsJustified s
      → IsJustified (allowed (auth now) now src dst s).1
  unfolding IsJustified
  allowed-IsJustified now src dst s j from to e h =
      elim (allowed-lookup (auth now) now src dst from to s e h) [
        | inl old ↦ j from to e old
        | inr (one, two, eq) ↦
            ap (λ (t : PermEntry). (auth t.at).can_send from to) eq
            ∙ ap (λ (k : List ℕ). (auth now).can_send k to) (sym one)
            ∙ ap (λ (k : List ℕ). (auth now).can_send src k) (sym two)
            ∙ ap (λ (t : PermEntry). t.ok) (sym eq)
      ]
