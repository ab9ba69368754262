-- ===== src/Sock/Answers.antt =====
-- The answers of STUN servers.
use zeropentime.Netip.{◌=addr◌, AddrPort}
use zeropentime.Stun.{parse_response}
use zeropentime.Sock.{Conn, StunWait, handle_stun}
use zeropentime.Prelude.Assoc.{lookup, insert, lookup-insert}
use zeropentime.Prelude.{
  ℕ, ◌≡◌, ◌⊎◌, inl, inr, sym, true, List, none, some, arith, Option-cases, Bool-cases,
  Bytes_discrete,
}

stun_stored :
    (id id' : List ℕ) (w w' : StunWait) (m : List (List ℕ × StunWait))
    → lookup Bytes_discrete id' (insert Bytes_discrete id w m) ≡ some w'
    → (lookup Bytes_discrete id' m ≡ some w') ⊎ ((id ≡ id') × (w ≡ w'))
stun_stored id id' w w' m h = ground (arith, lookup-insert Bytes_discrete id id' w m)

-- After a datagram, a request waits as before, or the datagram is a response with its transaction ID
-- from the server that it asked, the first one, and its answer is the mapped address of the response.
pub handle_stun_answer :
    (pkt : List ℕ) (from : AddrPort) (c : Conn) (id : List ℕ) (w' : StunWait)
    → lookup Bytes_discrete id (handle_stun pkt from c).stun_pending ≡ some w'
    → (lookup Bytes_discrete id c.stun_pending ≡ some w')
      ⊎ ((w : StunWait) × (mapped : AddrPort) × (lookup Bytes_discrete id c.stun_pending ≡ some w)
          × (parse_response pkt ≡ some (id, mapped))
          × ((w.server =addr from) ≡ true)
          × (w.reply ≡ none)
          × (w' ≡ record w { reply = some mapped }))
unfolding handle_stun
handle_stun_answer pkt from c id w' h = elim (Option-cases (parse_response pkt)) [
  | inl e ↦ inl (ground (arith, e, h))
  | inr ((tx, mapped), e) ↦ elim (Option-cases (lookup Bytes_discrete tx c.stun_pending)) [
    | inl e' ↦ inl (ground (arith, e, e', h))
    | inr (w, e') ↦ elim (Option-cases w.reply) [
      | inr (earlier, e'') ↦ inl (ground (arith, e, e', e'', h))
      | inl e'' ↦ elim (Bool-cases (w.server =addr from)) [
        | inr other ↦ inl (ground (arith, e, e', e'', other, h))
        | inl asked ↦
            elim (stun_stored tx id (record w { reply = some mapped }) w' c.stun_pending
              (ground (arith, e, e', e'', asked, h))) [
                | inl same ↦ inl same
                | inr (this, new) ↦ inr (
                  w,
                  mapped,
                  ground (arith, this, e'),
                  ground (arith, this, e),
                  asked,
                  e'',
                  sym new,
                )
              ]
      ]
    ]
  ]
]
