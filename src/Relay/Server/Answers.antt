-- ===== src/Relay/Server/Answers.antt =====
-- The answers of `Handle`, each with its reason.
use zeropentime.Crypto.{Primitives}
use zeropentime.Netip.{AddrPort}
use zeropentime.Prelude.{
  ℕ, ◌≡◌, ◌⊎◌, inl, inr, refl, false, List, [], none, some, Option-cases, Bool-cases,
}
use zeropentime.Relay.Frame.{session_id}
use zeropentime.Relay.Handshake.{is_hello, open_hello}
use zeropentime.Relay.Server.Permission.{IsJustified}
use zeropentime.Relay.Server.Forwarding.{
  AtMostOne, IsFrameAnswer, AtMostOne-weaken, handle_frame-IsFrameAnswer,
}
use zeropentime.Relay.Server.{
  Server, ServerSession, Authorizer, NodeIds, Fresh, Out, handle, handle_frame, handle_hello,
  hello_of_node, welcome_node, session_of_id,
}

module _ (c : Primitives) (ids : NodeIds) (auth : ℕ → Authorizer) (f : Fresh) (now : ℕ)
    (pkt : List ℕ) (from : AddrPort) where
  -- A datagram back to the sender, or the answer to a frame of a session.
  pub IsHandled : Server → Server → Out → Type 0
  IsHandled s after o =
      (o.to ≡ from)
      ⊎ ((id : List ℕ) × (r : ℕ) × (e : ServerSession) × (session_id c pkt s.pub_key ≡ some id)
          × (session_of_id s id ≡ some (r, e))
          × IsFrameAnswer c ids auth f now pkt from after s.pub_key e o)

  hello_answer :
      (s : Server) → AtMostOne (λ o. o.to ≡ from) (handle_hello c ids (auth now) f now pkt from s).0
  unfolding handle_hello hello_of_node welcome_node
  hello_answer s = elim (Option-cases (open_hello c pkt s.priv s.pub_key)) [
    | inl e ↦ rw (e, handle_hello) (inl refl)
    | inr (key, e) ↦ elim (Option-cases ((auth now).node key)) [
      | inl e' ↦ rw (e, e', handle_hello) (inl refl)
      | inr (node_id, e') ↦ elim (Option-cases (ids.node_id_bytes node_id)) [
        | inl e'' ↦ rw (e, e', e'', handle_hello, hello_of_node) (inl refl)
        | inr (raw, e'') ↦ rw (e, e', e'', handle_hello, hello_of_node) (inr (_, refl, refl))
      ]
    ]
  ]

  handle_session :
      (s : Server) (id : List ℕ) (r : ℕ) (e : ServerSession)
      → is_hello c pkt s.pub_key ≡ false
      → session_id c pkt s.pub_key ≡ some id
      → session_of_id s id ≡ some (r, e)
      → handle c ids (auth now) f now pkt from s
        ≡ handle_frame c ids (auth now) f now pkt from r e s
  unfolding handle
  handle_session s id r e other named found = rw (other, named, found) refl

  handle_ignored :
      (s : Server) (id : List ℕ)
      → is_hello c pkt s.pub_key ≡ false
      → (session_id c pkt s.pub_key ≡ none)
        ⊎ ((session_id c pkt s.pub_key ≡ some id) × (session_of_id s id ≡ none))
      → (handle c ids (auth now) f now pkt from s).0 ≡ []
  unfolding handle
  handle_ignored s id other (inl e) = rw (other, e) refl
  handle_ignored s id other (inr (e, e')) = rw (other, e, e') refl

  -- A datagram leads to nothing or to one datagram. That one goes back to the sender, or the datagram
  -- was a frame that opens with the key of the session it names, is to be forwarded, and: the
  -- controller permitted the session's node to send to the addressee less than a minute ago, and the
  -- payload leaves under the sender's name, sealed for the session of the addressee, to its address.
  pub handle-AtMostOne :
      (s : Server)
      → IsJustified auth s
      → let after = handle c ids (auth now) f now pkt from s in
        AtMostOne (IsHandled s after.1) after.0
  unfolding IsHandled handle
  handle-AtMostOne s j = elim (Bool-cases (is_hello c pkt s.pub_key)) [
    | inl hello ↦ rw hello (AtMostOne-weaken _ _ _ (λ o e. inl e) (hello_answer s))
    | inr other ↦ elim (Option-cases (session_id c pkt s.pub_key)) [
      | inl e ↦ inl (handle_ignored s [] other (inl e))
      | inr (id, e) ↦ elim (Option-cases (session_of_id s id)) [
        | inl e' ↦ inl (handle_ignored s id other (inr (e, e')))
        | inr ((r, entry), e') ↦ rw (handle_session s id r entry other e e') (
            AtMostOne-weaken _ _ _ (λ o a. inr (id, r, entry, e, e', a))
              (handle_frame-IsFrameAnswer c ids auth f now pkt from r entry s j))
      ]
    ]
  ]
