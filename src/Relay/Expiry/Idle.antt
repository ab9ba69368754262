-- ===== src/Relay/Expiry/Idle.antt =====
-- A tick leaves no idle session, and keeps the registry in order.
use zeropentime.Prelude.Assoc.{lookup, erase, lookup-erase}
use zeropentime.Prelude.{
  ℕ, ◌-◌, ◌≤◌, ◌≡◌, ◌≢◌, inl, inr, refl, sym, ◌∙◌, ap, List, [], ◌∷◌, some, arith, Option-cases,
  Bool-cases, ℕ_discrete, Bytes_discrete, ltb,
}
use zeropentime.Relay.Expiry.{forget_node, drop_session, expire_one, expire_sessions, expire}
use zeropentime.Relay.Server.{Server, ServerSession, session_of_id, session_idle}
use zeropentime.Relay.Server.Sessions.{IsRegistered}
use zeropentime.Relay.Server.Registry.{same_registry, stored_reference}

lookup-forget_node :
    (node n : List ℕ) (r q : ℕ) (m : List (List ℕ × ℕ))
    → lookup Bytes_discrete n m ≡ some q
    → ((n ≡ node) → r ≢ q)
    → lookup Bytes_discrete n (forget_node node r m) ≡ some q
unfolding forget_node
lookup-forget_node node n r q m h apart = ground (arith, lookup-erase Bytes_discrete node n m)

forget_node_keeps :
    (node n : List ℕ) (r q : ℕ) (m : List (List ℕ × ℕ))
    → lookup Bytes_discrete n (forget_node node r m) ≡ some q
    → lookup Bytes_discrete n m ≡ some q
unfolding forget_node
forget_node_keeps node n r q m h = ground (arith, lookup-erase Bytes_discrete node n m)

erase_keeps :
    (id n : List ℕ) (q : ℕ) (m : List (List ℕ × ℕ))
    → lookup Bytes_discrete n (erase Bytes_discrete id m) ≡ some q
    → (lookup Bytes_discrete n m ≡ some q) × (id ≢ n)
erase_keeps id n q m h = ground (arith, lookup-erase Bytes_discrete id n m)

one_id :
    (n id : List ℕ) (q r : ℕ) (d e : ServerSession) (s : Server)
    → lookup ℕ_discrete q s.store ≡ some d
    → lookup ℕ_discrete r s.store ≡ some e
    → d.session.id ≡ n
    → e.session.id ≡ id
    → r ≡ q
    → id ≡ n
one_id n id q r d e s found_d found_e named_d named_e same = ground (arith, same)

drop_session-IsRegistered :
    (id : List ℕ) (r : ℕ) (e : ServerSession) (s : Server)
    → IsRegistered s
    → lookup Bytes_discrete id s.by_id ≡ some r
    → lookup ℕ_discrete r s.store ≡ some e
    → IsRegistered (drop_session id r e s)
unfolding drop_session
drop_session-IsRegistered id r e s g at stored = record {
  stored = g.stored;
  by_id_current = λ n q found.
      let (was, apart) = erase_keeps id n q s.by_id found in
      let (d, found_d, named, current) = g.by_id_current n q was in
      let (e', found_e, named_e, _) = g.by_id_current id r at in
      (
        d,
        found_d,
        named,
        lookup-forget_node e.node_id d.node_id r q s.by_node current
            (λ _ same. apart (one_id n id q r d e' s found_d found_e named named_e same)),
      );
  by_node_owned =
      λ node q found. g.by_node_owned node q (forget_node_keeps e.node_id node r q s.by_node found);
}

expire_one-IsRegistered :
    (now : ℕ) (id : List ℕ) (s : Server) → IsRegistered s → IsRegistered (expire_one now id s)
unfolding expire_one
expire_one-IsRegistered now id s g = elim (Option-cases (session_of_id s id)) [
  | inl e ↦ rw (e, expire_one) g
  | inr ((r, d), e) ↦
      let (at, stored) = stored_reference s id r d e in
      elim (Bool-cases (ltb session_idle (now - d.last))) [
        | inl idle ↦ rw (e, idle, expire_one) (drop_session-IsRegistered id r d s g at stored)
        | inr busy ↦ rw (e, busy, expire_one) g
      ]
]

expire_sessions-IsRegistered :
    (now : ℕ) (m : List (List ℕ × ℕ)) (s : Server)
    → IsRegistered s
    → IsRegistered (expire_sessions now m s)
unfolding expire_sessions
expire_sessions-IsRegistered now [] s g = g
expire_sessions-IsRegistered now ((id, r) ∷ m) s g =
    expire_sessions-IsRegistered now m (expire_one now id s) (expire_one-IsRegistered now id s g)

-- What one round leaves reachable was reachable before, and is not idle if it is the round's own.
expire_one_leaves :
    (now : ℕ) (id n : List ℕ) (q : ℕ) (s : Server)
    → lookup Bytes_discrete n (expire_one now id s).by_id ≡ some q
    → ((expire_one now id s).store ≡ s.store)
      × (lookup Bytes_discrete n s.by_id ≡ some q)
      × ((e : ServerSession)
          → lookup ℕ_discrete q s.store ≡ some e
          → id ≡ n
          → now - e.last ≤ session_idle)
unfolding expire_one drop_session session_of_id
expire_one_leaves now id n q s h = elim (Option-cases (lookup Bytes_discrete id s.by_id)) [
  | inl none_at ↦ ground (arith, none_at)
  | inr (r, at) ↦ elim (Option-cases (lookup ℕ_discrete r s.store)) [
    | inl dangling ↦ ground (arith, at, dangling)
    | inr (d, stored) ↦ ground (arith, at, stored, lookup-erase Bytes_discrete id n s.by_id)
  ]
]

lookup_nothing : (n : List ℕ) (r : ℕ) → lookup Bytes_discrete n [] ≡ some r → ⊥
unfolding lookup
lookup_nothing n r h = cc

lookup_tail :
    (id n : List ℕ) (p r : ℕ) (m : List (List ℕ × ℕ))
    → id ≢ n
    → lookup Bytes_discrete n ((id, p) ∷ m) ≡ some r
    → lookup Bytes_discrete n m ≡ some r
unfolding lookup
lookup_tail id n p r m other h = ground arith

expire_sessions_leaves :
    (now : ℕ) (m : List (List ℕ × ℕ)) (n : List ℕ) (q : ℕ) (s : Server)
    → lookup Bytes_discrete n (expire_sessions now m s).by_id ≡ some q
    → ((expire_sessions now m s).store ≡ s.store)
      × (lookup Bytes_discrete n s.by_id ≡ some q)
      × ((e : ServerSession) (r : ℕ)
          → lookup ℕ_discrete q s.store ≡ some e
          → lookup Bytes_discrete n m ≡ some r
          → now - e.last ≤ session_idle)
unfolding expire_sessions
expire_sessions_leaves now [] n q s h = (refl, h, λ e r found k. absurd (lookup_nothing n r k))
expire_sessions_leaves now ((id, p) ∷ m) n q s h =
    let (same, before, fresh) = expire_sessions_leaves now m n q (expire_one now id s) h in
    let (same_one, before_one, fresh_one) = expire_one_leaves now id n q s before in
    (
      same ∙ same_one,
      before_one,
      λ e r found k. elim (Bytes_discrete id n) [
        | yes own ↦ fresh_one e found own
        | no other ↦
            fresh e r (ap (λ t. lookup ℕ_discrete q t) same_one ∙ found)
              (lookup_tail id n p r m other k)
      ],
    )

-- After a tick, each session that an ID reaches was used within the last two minutes.
pub expire_fresh :
    (now : ℕ) (s : Server) (n : List ℕ) (q : ℕ) (e : ServerSession)
    → session_of_id (expire now s) n ≡ some (q, e)
    → now - e.last ≤ session_idle
unfolding expire
expire_fresh now s n q e h =
    let (at, stored) = stored_reference (expire now s) n q e h in
    let (same, before, fresh) = expire_sessions_leaves now s.by_id n q s at in
    fresh e q (ap (λ t. lookup ℕ_discrete q t) (sym same) ∙ stored) before

-- A tick keeps the registry in order.
pub expire-IsRegistered : (now : ℕ) (s : Server) → IsRegistered s → IsRegistered (expire now s)
unfolding expire
expire-IsRegistered now s g =
    same_registry (expire_sessions now s.by_id s) (expire now s) refl refl refl refl
      (expire_sessions-IsRegistered now s.by_id s g)
