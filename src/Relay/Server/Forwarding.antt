-- ===== src/Relay/Server/Forwarding.antt =====
-- What the relay sends in answer to a datagram.
use mathlib.Core.Path.{subst}
use zeropentime.Crypto.{Primitives}
use zeropentime.Netip.{AddrPort}
use zeropentime.Prelude.{
  ℕ, ◌≡◌, ◌⊎◌, inl, inr, refl, ◌∙◌, ap, Bool, true, false, List, [], ◌∷◌, Option, none, some, arith,
  ltb, ◌==◌, Option-cases, Bool-cases,
}
use zeropentime.Relay.Frame.{Inner, open_frame, type_ping, type_send, type_recv, seal}
use zeropentime.Relay.Server.Permission.{IsJustified, IsGranted, allowed-IsGranted}
use zeropentime.Relay.Server.{
  Server, ServerSession, Authorizer, NodeIds, Fresh, Out, allowed, forward, dispatch, handle_frame,
  store_at, count, reply, session_of_node, max_pps,
}

-- Nothing, or one datagram of which `P` holds.
abbrev pub AtMostOne : (Out → Type 0) → List Out → Type 0
AtMostOne P outs = (outs ≡ []) ⊎ ((o : Out) × (outs ≡ o ∷ []) × P o)

pub AtMostOne-weaken :
    (P Q : Out → Type 0) (outs : List Out)
    → ((o : Out) → P o → Q o)
    → AtMostOne P outs
    → AtMostOne Q outs
AtMostOne-weaken P Q outs f (inl e) = inl e
AtMostOne-weaken P Q outs f (inr (o, e, p)) = inr (o, e, f o p)

module _ (c : Primitives) (ids : NodeIds) (auth : ℕ → Authorizer) (f : Fresh) (now : ℕ) where
  -- A payload sealed for the session of a node that the sender may send to.
  pub IsCarried : Server → List ℕ → List ℕ → List ℕ → Inner → Out → Type 0
  IsCarried s relay_pub node_id raw i o =
      let dst_id = ids.node_id_string i.node in
      IsGranted auth now node_id dst_id
      × ((q : ℕ) × (dst : ServerSession) × (session_of_node s dst_id ≡ some (q, dst))
          × (seal c dst.session relay_pub type_recv raw i.payload f.tag f.nonce ≡ some o.packet)
          × (o.to ≡ dst.addr))

  module _ (src : ServerSession) (i : Inner) (s : Server) where
    asked : Bool × Server
    asked = allowed (auth now) now src.node_id (ids.node_id_string i.node) s

    sent : List Out × Server
    sent = forward c ids (auth now) f now src i.node i.payload s

    forward_state : sent.1 ≡ asked.1
    unfolding asked sent forward
    forward_state = ground arith

    forward_denied : asked.0 ≡ false → sent.0 ≡ []
    unfolding asked sent forward
    forward_denied h = ground arith

    forward_unknown : session_of_node asked.1 (ids.node_id_string i.node) ≡ none → sent.0 ≡ []
    unfolding asked sent forward
    forward_unknown h = ground arith

    forward_known :
        (q : ℕ) (dst : ServerSession)
        → asked.0 ≡ true
        → session_of_node asked.1 (ids.node_id_string i.node) ≡ some (q, dst)
        → sent.0
          ≡ reply dst.addr (seal c dst.session s.pub_key type_recv src.raw i.payload f.tag f.nonce)
    unfolding asked sent forward
    forward_known q dst ok found = ground arith

    forward-IsCarried :
        IsJustified auth s → AtMostOne (IsCarried sent.1 s.pub_key src.node_id src.raw i) sent.0
    unfolding IsCarried reply
    forward-IsCarried j =
        let dst_id = ids.node_id_string i.node in
        elim (Bool-cases asked.0) [
          | inr denied ↦ inl (forward_denied denied)
          | inl ok ↦ elim (Option-cases (session_of_node asked.1 dst_id)) [
            | inl unknown ↦ inl (forward_unknown unknown)
            | inr ((q, dst), found) ↦
                elim (Option-cases
                  (seal c dst.session s.pub_key type_recv src.raw i.payload f.tag f.nonce)) [
                    | inl e ↦ inl (forward_known q dst ok found ∙ ap (reply dst.addr) e)
                    | inr (frame, e) ↦ inr (
                      record { packet = frame; to = dst.addr },
                      forward_known q dst ok found ∙ ap (reply dst.addr) e,
                      (
                        unfold asked in allowed-IsGranted auth now src.node_id dst_id s j ok,
                        (
                          q,
                          dst,
                          ap (λ (t : Server). session_of_node t dst_id) forward_state ∙ found,
                          e,
                          refl,
                        ),
                      ),
                    )
                  ]
          ]
        ]

  -- What is sent to the sender itself, or carried for it.
  pub IsAnswer : AddrPort → Server → List ℕ → List ℕ → List ℕ → Inner → Out → Type 0
  IsAnswer from s relay_pub node_id raw i o =
      (o.to ≡ from) ⊎ ((i.typ ≡ type_send) × IsCarried s relay_pub node_id raw i o)

  reply-AtMostOne :
      (to : AddrPort) (frame : Option (List ℕ)) → AtMostOne (λ o. o.to ≡ to) (reply to frame)
  unfolding reply
  reply-AtMostOne to none = inl refl
  reply-AtMostOne to (some frame) = inr (record { packet = frame; to = to }, refl, refl)

  dispatch-IsAnswer :
      (from : AddrPort) (src : ServerSession) (i : Inner) (s : Server)
      → IsJustified auth s
      → let after = dispatch c ids (auth now) f now from src i s in
        AtMostOne (IsAnswer from after.1 s.pub_key src.node_id src.raw i) after.0
  unfolding dispatch IsAnswer
  dispatch-IsAnswer from src i s j = elim (Bool-cases (i.typ == type_ping)) [
    | inl ping ↦ rw ping (AtMostOne-weaken _ _ _ (λ o e. inl e) (reply-AtMostOne from _))
    | inr other ↦ elim (Bool-cases (i.typ == type_send)) [
      | inl send ↦
          rw (other, send)
            (AtMostOne-weaken _ _ _ (λ o e. inr (ground (arith, send), e))
              (unfold sent in forward-IsCarried src i s j))
      | inr neither ↦ rw (other, neither) (inl refl)
    ]
  ]

  count_keeps :
      (e : ServerSession) → ((count now e).node_id ≡ e.node_id) × ((count now e).raw ≡ e.raw)
  unfolding count
  count_keeps e = ground arith

  module _ (pkt : List ℕ) (from : AddrPort) where
    -- A frame of a session that opens, and what is answered to its inside.
    pub IsFrameAnswer : Server → List ℕ → ServerSession → Out → Type 0
    IsFrameAnswer s relay_pub e o =
        (i : Inner) × (open_frame c e.session pkt ≡ some i)
        × IsAnswer from s relay_pub e.node_id e.raw i o

    seen : ServerSession → ServerSession
    seen e = record (count now e) { addr = from; last = now }

    handle_frame_drops :
        (r : ℕ) (e : ServerSession) (s : Server)
        → (ltb max_pps (count now e).packets ≡ true) ⊎ (open_frame c e.session pkt ≡ none)
        → (handle_frame c ids (auth now) f now pkt from r e s).0 ≡ []
    unfolding handle_frame
    handle_frame_drops r e s h = ground (arith, h)

    handle_frame_opens :
        (r : ℕ) (e : ServerSession) (s : Server) (i : Inner)
        → ltb max_pps (count now e).packets ≡ false
        → open_frame c e.session pkt ≡ some i
        → handle_frame c ids (auth now) f now pkt from r e s
          ≡ dispatch c ids (auth now) f now from (seen e) i (store_at r (seen e) s)
    unfolding handle_frame seen
    handle_frame_opens r e s i few opened = ground (arith, few, opened)

    dispatch-seen :
        (r : ℕ) (e : ServerSession) (i : Inner) (s : Server)
        → IsJustified auth s
        → let after = dispatch c ids (auth now) f now from (seen e) i (store_at r (seen e) s) in
          AtMostOne (IsAnswer from after.1 s.pub_key e.node_id e.raw i) after.0
    unfolding seen store_at IsJustified
    dispatch-seen r e i s j =
        let after = dispatch c ids (auth now) f now from (seen e) i (store_at r (seen e) s) in
        let (same_id, same_raw) = count_keeps e in
        subst (λ (n : List ℕ). AtMostOne (IsAnswer from after.1 s.pub_key n e.raw i) after.0)
          same_id
          (subst
            (λ (w : List ℕ).
              AtMostOne (IsAnswer from after.1 s.pub_key (count now e).node_id w i) after.0)
            same_raw (dispatch-IsAnswer from (seen e) i (store_at r (seen e) s) j))

    pub handle_frame-IsFrameAnswer :
        (r : ℕ) (e : ServerSession) (s : Server)
        → IsJustified auth s
        → let after = handle_frame c ids (auth now) f now pkt from r e s in
          AtMostOne (IsFrameAnswer after.1 s.pub_key e) after.0
    unfolding IsFrameAnswer
    handle_frame-IsFrameAnswer r e s j = elim (Bool-cases (ltb max_pps (count now e).packets)) [
      | inl many ↦ inl (handle_frame_drops r e s (inl many))
      | inr few ↦ elim (Option-cases (open_frame c e.session pkt)) [
        | inl closed ↦ inl (handle_frame_drops r e s (inr closed))
        | inr (i, opened) ↦
            rw (handle_frame_opens r e s i few opened)
              (AtMostOne-weaken _ _ _ (λ o a. (i, opened, a)) (dispatch-seen r e i s j))
      ]
    ]
