-- ===== src/Relay/Server/Sessions.antt =====
-- The registry: a session that is reached by its ID is the current one of its node.
use zeropentime.Prelude.Assoc.{
  lookup, insert, lookup-insert, lookup-erase, lookup-insert_self, lookup-insert_ne,
}
use zeropentime.Prelude.{
  ℕ, ◌<◌, ◌≡◌, ◌≢◌, ◌⊎◌, inl, inr, refl, sym, ◌∙◌, ap, List, Option, none, some, arith, ℕ_discrete,
  Bytes_discrete,
}
use zeropentime.Relay.Frame.{Session}
use zeropentime.Relay.Server.{
  Server, ServerSession, new_server, register, without, store_at, session_of_node,
}

-- The references are ones of the store, and each session that an ID reaches has that ID and is the
-- one that its node has.
pub record IsRegistered (s : Server) : Type 0 where
  pub stored : (r : ℕ) (e : ServerSession) → lookup ℕ_discrete r s.store ≡ some e → r < s.next
  pub by_id_current :
      (id : List ℕ) (r : ℕ)
      → lookup Bytes_discrete id s.by_id ≡ some r
      → (e : ServerSession) × (lookup ℕ_discrete r s.store ≡ some e)
        × (e.session.id ≡ id)
        × (lookup Bytes_discrete e.node_id s.by_node ≡ some r)
  pub by_node_owned :
      (node : List ℕ) (r : ℕ)
      → lookup Bytes_discrete node s.by_node ≡ some r
      → (e : ServerSession) × (lookup ℕ_discrete r s.store ≡ some e) × (e.node_id ≡ node)

pub new_server-IsRegistered : (priv pub_key : List ℕ) → IsRegistered (new_server priv pub_key)
unfolding lookup
new_server-IsRegistered priv pub_key = record {
  stored = λ r e h. cc;
  by_id_current = λ id r h. cc;
  by_node_owned = λ node r h. cc;
}

insert_cases :
    (r q : ℕ) (e d : ServerSession) (m : List (ℕ × ServerSession))
    → lookup ℕ_discrete q (insert ℕ_discrete r e m) ≡ some d
    → ((q ≡ r) × (d ≡ e)) ⊎ (lookup ℕ_discrete q m ≡ some d)
insert_cases r q e d m h = ground (arith, lookup-insert ℕ_discrete r q e m)

-- What a reference reads after a write that keeps the node and the session.
read_back :
    (r q : ℕ) (e old d : ServerSession) (m : List (ℕ × ServerSession))
    → lookup ℕ_discrete r m ≡ some old
    → e.session ≡ old.session
    → e.node_id ≡ old.node_id
    → lookup ℕ_discrete q m ≡ some d
    → (d' : ServerSession) × (lookup ℕ_discrete q (insert ℕ_discrete r e m) ≡ some d')
      × (d'.session ≡ d.session)
      × (d'.node_id ≡ d.node_id)
read_back r q e old d m h same_session same_node found = elim (ℕ_discrete r q) [
  | yes same ↦ (
    e,
    ground (arith, same, lookup-insert ℕ_discrete r q e m),
    ground (arith, same, h),
    ground (arith, same, h),
  )
  | no apart ↦ (d, ground (arith, apart, lookup-insert ℕ_discrete r q e m), refl, refl)
]

-- A write through a reference that keeps the node and the session.
pub store_at-IsRegistered :
    (r : ℕ) (e old : ServerSession) (s : Server)
    → IsRegistered s
    → lookup ℕ_discrete r s.store ≡ some old
    → e.session ≡ old.session
    → e.node_id ≡ old.node_id
    → IsRegistered (store_at r e s)
unfolding store_at
store_at-IsRegistered r e old s g h same_session same_node = record {
  stored = λ q d found. elim (insert_cases r q e d s.store found) [
    | inl (same, _) ↦ omega (arith, same, g.stored r old h)
    | inr before ↦ g.stored q d before
  ];
  by_id_current = λ id q found.
      let (d, before, named, current) = g.by_id_current id q found in
      let (d', after, ses, node) = read_back r q e old d s.store h same_session same_node before in
      (
        d',
        after,
        ap (λ (x : Session). x.id) ses ∙ named,
        ap (λ (n : List ℕ). lookup Bytes_discrete n s.by_node) node ∙ current,
      );
  by_node_owned = λ node q found.
      let (d, before, owned) = g.by_node_owned node q found in
      let (d', after, ses, same) = read_back r q e old d s.store h same_session same_node before in
      (d', after, same ∙ owned);
}

-- What is left without a session does not lead to it.
without-lookup :
    (o : Option (ℕ × ServerSession)) (by_id : List (List ℕ × ℕ)) (id : List ℕ) (r : ℕ)
    → lookup Bytes_discrete id (without o by_id) ≡ some r
    → (lookup Bytes_discrete id by_id ≡ some r)
      × ((q : ℕ) (d : ServerSession) → o ≡ some (q, d) → d.session.id ≢ id)
unfolding without
without-lookup none by_id id r h = (h, λ q d e. cc)
without-lookup (some (p, old)) by_id id r h =
    let cut = lookup-erase Bytes_discrete old.session.id id by_id in
    (ground (arith, cut, h), λ q d e same. ground (arith, cut, h, e, same))

session_of_node_reads :
    (s : Server) (node : List ℕ) (r : ℕ) (d : ServerSession)
    → lookup Bytes_discrete node s.by_node ≡ some r
    → lookup ℕ_discrete r s.store ≡ some d
    → session_of_node s node ≡ some (r, d)
unfolding session_of_node
session_of_node_reads s node r d e e' = ground (arith, e, e')

insert_id_cases :
    (k id : List ℕ) (v r : ℕ) (m : List (List ℕ × ℕ))
    → lookup Bytes_discrete id (insert Bytes_discrete k v m) ≡ some r
    → ((k ≡ id) × (v ≡ r)) ⊎ ((k ≢ id) × (lookup Bytes_discrete id m ≡ some r))
insert_id_cases k id v r m h = ground (arith, lookup-insert Bytes_discrete k id v m)

module _ (e : ServerSession) (s : Server) (g : IsRegistered s) where
  kept :
      (r : ℕ) (d : ServerSession)
      → lookup ℕ_discrete r s.store ≡ some d
      → lookup ℕ_discrete r (insert ℕ_discrete s.next e s.store) ≡ some d
  kept r d h = ground (arith, g.stored r d h, lookup-insert ℕ_discrete s.next r e s.store)

  own_store : lookup ℕ_discrete s.next (insert ℕ_discrete s.next e s.store) ≡ some e
  own_store = lookup-insert_self ℕ_discrete s.next e s.store

  by_id_after :
      (id : List ℕ) (r : ℕ)
      → lookup Bytes_discrete id (without (session_of_node s e.node_id) s.by_id) ≡ some r
      → (d : ServerSession) × (lookup ℕ_discrete r s.store ≡ some d)
        × (d.session.id ≡ id)
        × (lookup Bytes_discrete d.node_id (insert Bytes_discrete e.node_id s.next s.by_node)
            ≡ some r)
  by_id_after id r h =
      let (was, unreached) = without-lookup (session_of_node s e.node_id) s.by_id id r h in
      let (d, found, named, current) = g.by_id_current id r was in
      let other : e.node_id ≢ d.node_id = λ same.
        unreached r d
          (session_of_node_reads s e.node_id r d
            (ap (λ (n : List ℕ). lookup Bytes_discrete n s.by_node) same ∙ current) found)
          named in
      (
        d,
        found,
        named,
        lookup-insert_ne Bytes_discrete e.node_id d.node_id s.next s.by_node other ∙ current,
      )

  pub register-IsRegistered : IsRegistered (register e s)
  unfolding register
  register-IsRegistered = record {
    stored = λ q d found. elim (insert_cases s.next q e d s.store found) [
      | inl (same, _) ↦ omega (arith, same)
      | inr before ↦ omega (arith, g.stored q d before)
    ];
    by_id_current = λ id r found.
        elim (insert_id_cases e.session.id id s.next r
          (without (session_of_node s e.node_id) s.by_id) found) [
            | inl (named, at_next) ↦ (
              e,
              ap (λ (q : ℕ). lookup ℕ_discrete q (insert ℕ_discrete s.next e s.store)) (sym at_next)
                  ∙ own_store,
              named,
              lookup-insert_self Bytes_discrete e.node_id s.next s.by_node ∙ ap some at_next,
            )
            | inr (_, before) ↦
                let (d, stored, named, current) = by_id_after id r before in
                (d, kept r d stored, named, current)
          ];
    by_node_owned = λ node r found. elim (insert_id_cases e.node_id node s.next r s.by_node found) [
      | inl (named, at_next) ↦ (
        e,
        ap (λ (q : ℕ). lookup ℕ_discrete q (insert ℕ_discrete s.next e s.store)) (sym at_next)
            ∙ own_store,
        named,
      )
      | inr (_, before) ↦
          let (d, stored, owned) = g.by_node_owned node r before in (d, kept r d stored, owned)
    ];
  }
