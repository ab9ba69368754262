-- ===== src/Relay/Server/Registry.antt =====
-- Every datagram keeps the registry in order.
use zeropentime.Crypto.{Primitives}
use zeropentime.Netip.{AddrPort}
use zeropentime.Prelude.Assoc.{lookup}
use zeropentime.Prelude.{
  ℕ, ◌≡◌, inl, inr, sym, ◌∙◌, ap, List, some, arith, Option-cases, Bool-cases, ℕ_discrete,
  Bytes_discrete, ltb,
}
use zeropentime.Relay.Frame.{Inner, open_frame, session_id}
use zeropentime.Relay.Handshake.{is_hello, open_hello}
use zeropentime.Relay.Server.Sessions.{IsRegistered, store_at-IsRegistered, register-IsRegistered}
use zeropentime.Relay.Server.{
  Server, ServerSession, Authorizer, NodeIds, Fresh, allowed, remember, forward, dispatch,
  handle_frame, handle, handle_hello, hello_of_node, welcome_node, store_at, count, session_of_id,
  max_pps,
}

-- What the cache of permissions holds does not matter to it.
pub same_registry :
    (s t : Server)
    → t.store ≡ s.store
    → t.next ≡ s.next
    → t.by_id ≡ s.by_id
    → t.by_node ≡ s.by_node
    → IsRegistered s
    → IsRegistered t
same_registry s t store next by_id by_node g = record {
  stored = λ r e h. rw next (g.stored r e (ap (λ m. lookup ℕ_discrete r m) (sym store) ∙ h));
  by_id_current = λ id r h.
      rw (store, by_node)
        (g.by_id_current id r (ap (λ m. lookup Bytes_discrete id m) (sym by_id) ∙ h));
  by_node_owned = λ node r h.
      rw store (g.by_node_owned node r (ap (λ m. lookup Bytes_discrete node m) (sym by_node) ∙ h));
}

allowed_registry :
    (a : Authorizer) (now : ℕ) (src dst : List ℕ) (s : Server)
    → let t = (allowed a now src dst s).1 in
      (t.store ≡ s.store) × (t.next ≡ s.next) × (t.by_id ≡ s.by_id) × (t.by_node ≡ s.by_node)
unfolding allowed remember
allowed_registry a now src dst s = ground arith

-- Where a session that an ID reaches stands.
pub stored_reference :
    (s : Server) (id : List ℕ) (r : ℕ) (e : ServerSession)
    → session_of_id s id ≡ some (r, e)
    → (lookup Bytes_discrete id s.by_id ≡ some r) × (lookup ℕ_discrete r s.store ≡ some e)
unfolding session_of_id
stored_reference s id r e h = elim (Option-cases (lookup Bytes_discrete id s.by_id)) [
  | inl e' ↦ ground (arith, e')
  | inr (q, e') ↦ elim (Option-cases (lookup ℕ_discrete q s.store)) [
    | inl e'' ↦ ground (arith, e', e'')
    | inr (d, e'') ↦ ground (arith, e', e'')
  ]
]

module _ (c : Primitives) (ids : NodeIds) (a : Authorizer) (f : Fresh) (now : ℕ) where
  forward_registry :
      (src : ServerSession) (node payload : List ℕ) (s : Server)
      → let t = (forward c ids a f now src node payload s).1 in
        (t.store ≡ s.store) × (t.next ≡ s.next) × (t.by_id ≡ s.by_id) × (t.by_node ≡ s.by_node)
  unfolding forward
  forward_registry src node payload s =
      ground (arith, allowed_registry a now src.node_id (ids.node_id_string node) s)

  dispatch_registry :
      (from : AddrPort) (src : ServerSession) (i : Inner) (s : Server)
      → let t = (dispatch c ids a f now from src i s).1 in
        (t.store ≡ s.store) × (t.next ≡ s.next) × (t.by_id ≡ s.by_id) × (t.by_node ≡ s.by_node)
  unfolding dispatch
  dispatch_registry from src i s = ground (arith, forward_registry src i.node i.payload s)

  count_keeps :
      (e : ServerSession)
      → ((count now e).session ≡ e.session) × ((count now e).node_id ≡ e.node_id)
  unfolding count
  count_keeps e = ground arith

  handle_frame-IsRegistered :
      (pkt : List ℕ) (from : AddrPort) (r : ℕ) (e : ServerSession) (s : Server)
      → IsRegistered s
      → lookup ℕ_discrete r s.store ≡ some e
      → IsRegistered (handle_frame c ids a f now pkt from r e s).1
  unfolding handle_frame
  handle_frame-IsRegistered pkt from r e s g h =
      let (ses, node) = count_keeps e in
      let counted = count now e in
      let seen : ServerSession = record counted { addr = from; last = now } in
      let g_counted = store_at-IsRegistered r counted e s g h ses node in
      let g_seen = store_at-IsRegistered r seen e s g h ses node in
      elim (Bool-cases (ltb max_pps counted.packets)) [
        | inl many ↦ rw many g_counted
        | inr few ↦ elim (Option-cases (open_frame c e.session pkt)) [
          | inl closed ↦ rw (few, closed) g_counted
          | inr (i, opened) ↦
              let (st, ne, bi, bn) = dispatch_registry from seen i (store_at r seen s) in
              rw (few, opened) (same_registry (store_at r seen s) _ st ne bi bn g_seen)
        ]
      ]

  handle_hello-IsRegistered :
      (pkt : List ℕ) (from : AddrPort) (s : Server)
      → IsRegistered s
      → IsRegistered (handle_hello c ids a f now pkt from s).1
  unfolding handle_hello hello_of_node welcome_node
  handle_hello-IsRegistered pkt from s g = elim (Option-cases (open_hello c pkt s.priv s.pub_key)) [
    | inl e ↦ rw (e, handle_hello) g
    | inr (key, e) ↦ elim (Option-cases (a.node key)) [
      | inl e' ↦ rw (e, e', handle_hello) g
      | inr (node_id, e') ↦ elim (Option-cases (ids.node_id_bytes node_id)) [
        | inl e'' ↦ rw (e, e', e'', handle_hello, hello_of_node) g
        | inr (raw, e'') ↦
            rw (e, e', e'', handle_hello, hello_of_node) (register-IsRegistered _ s g)
      ]
    ]
  ]

  -- Whatever datagram comes, from whomever: each session that an ID reaches has that ID and is the one
  -- session of its node, and each node's session names that node.
  pub handle-IsRegistered :
      (pkt : List ℕ) (from : AddrPort) (s : Server)
      → IsRegistered s
      → IsRegistered (handle c ids a f now pkt from s).1
  unfolding handle
  handle-IsRegistered pkt from s g = elim (Bool-cases (is_hello c pkt s.pub_key)) [
    | inl hello ↦ rw hello (handle_hello-IsRegistered pkt from s g)
    | inr other ↦ elim (Option-cases (session_id c pkt s.pub_key)) [
      | inl e ↦ rw (other, e) g
      | inr (id, e) ↦ elim (Option-cases (session_of_id s id)) [
        | inl e' ↦ rw (other, e, e') g
        | inr ((r, entry), e') ↦
            rw (other, e, e')
              (handle_frame-IsRegistered pkt from r entry s g (stored_reference s id r entry e').1)
      ]
    ]
  ]
