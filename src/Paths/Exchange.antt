-- ===== src/Paths/Exchange.antt =====
-- A ping, its pong, and the path found.
use zeropentime.Crypto.{Primitives, IsLawful}
use zeropentime.Disco.{Msg, type_ping, type_pong, type_join, type_join_reply, open_packet}
use zeropentime.Disco.Opened.{open_packet-seal}
use zeropentime.Disco.Payload.{IsSendable, IsSource, decoded}
use zeropentime.Netip.{AddrPort, no_addr_port, IsPlain, is_valid, ◌=addr◌, Prefix}
use zeropentime.Paths.{SentPing, DiscoPeer, DiscoMgr, Outgoing, Draw, Self, is_stale}
use zeropentime.Paths.Search.{
  Handled, better, pings, handle_ping, handle_pong, confirm, handle_msg, handle_known, handle,
  sealed, learn,
}
use zeropentime.Prelude.Assoc.{lookup}
use zeropentime.Prelude.{
  ℕ, ◌-◌, ◌^◌, ◌<◌, ◌≡◌, refl, ◌∙◌, ap, inl, inr, true, false, ◌||◌, List, [], ◌∷◌, none, some,
  length, get_elem?, set, get_elem?-set_self, get_elem?-length, Bytes_discrete, Bool-cases, ◌==◌,
}

-- Who holds a private key.
abbrev pub holder : Primitives → List ℕ → List Prefix → Self
holder c priv lan = record { priv = priv; public_key = c.public priv; lan = lan }

abbrev pub ping_of : List ℕ → Msg
ping_of tx = record { typ = type_ping; tx = tx; src = no_addr_port; body = [] }

abbrev pub pong_of : List ℕ → AddrPort → Msg
pong_of tx from = record { typ = type_pong; tx = tx; src = from; body = [] }

-- The sizes of what is drawn.
abbrev pub IsDrawn : Draw → Type 0
IsDrawn f = (length f.nonce ≡ 24) × (length f.tag ≡ 4)

handle_opened :
    (c : Primitives) (self : Self) (now : ℕ) (f g : Draw) (from : AddrPort) (pkt sender : List ℕ)
    (m : Msg) (d : DiscoMgr) (i : ℕ) (dp : DiscoPeer)
    → open_packet c pkt self.priv self.public_key ≡ some (sender, m)
    → (m.typ == type_join || m.typ == type_join_reply) ≡ false
    → lookup Bytes_discrete sender d.by_key ≡ some i
    → get_elem? d.store i ≡ some dp
    → handle c self now f g pkt from d ≡ record {
      mgr = record d { store = set d.store i (handle_msg c self now f g m from dp).0 };
      out = (handle_msg c self now f g m from dp).1;
      changed = (handle_msg c self now f g m from dp).2;
      join = none;
    }
unfolding handle handle_known
handle_opened c self now f g from pkt sender m d i dp e plain e' e'' =
    rw (e, plain, e', e'', handle, handle_known) refl

first_answer :
    (c : Primitives) (self : Self) (now : ℕ) (f g : Draw) (m : Msg) (from : AddrPort)
    (dp : DiscoPeer)
    → m.typ ≡ type_ping
    → (rest : List Outgoing) × ((handle_msg c self now f g m from dp).1
        ≡ record { pkt = sealed c self (pong_of m.tx from) dp.key f; to = from } ∷ rest)
unfolding handle_msg handle_ping
first_answer c self now f g m from dp ping = elim (Bool-cases (is_valid dp.best.addr.addr)) [
  | inl has ↦ ([], rw (ping, has) refl)
  | inr lacks ↦ ((pings c self now ((from, g) ∷ []) (learn from dp)).1, rw (ping, lacks) refl)
]

-- The pong to a pending ping, where there is no current path.
pong_found :
    (c : Primitives) (self : Self) (now : ℕ) (f g : Draw) (m : Msg) (to : AddrPort) (dp : DiscoPeer)
    (s : SentPing)
    → m.typ ≡ type_pong
    → lookup Bytes_discrete m.tx dp.sent ≡ some s
    → (s.to =addr to) ≡ true
    → is_stale now dp.best ≡ true
    → (handle_msg c self now f g m to dp).0.best ≡ record { addr = to; rtt = now - s.at; at = now }
unfolding handle_msg handle_pong confirm better
pong_found c self now f g m to dp s pong sent asked stale =
    rw (pong, sent, asked, stale, handle_pong) refl

-- Two nodes know each other's key. A ping of the first, which it has pending, reaches the second: the
-- first datagram of the answer goes back to where the ping came from. Where that datagram reaches the
-- first node from the address that it pinged, and it has no current path, the address is its path.
pub handle-handle :
    (c : Primitives) (a b : List ℕ) (lan lan' : List Prefix) (f g h g' h' : Draw)
    (from to : AddrPort) (now now' : ℕ) (first second : DiscoMgr) (i j : ℕ) (peer peer' : DiscoPeer)
    (s : SentPing)
    → IsLawful c
    → IsDrawn f
    → IsDrawn g
    → length f.tx ≡ 12
    → IsPlain from.addr
    → from.port < 2 ^ 16
    → lookup Bytes_discrete (c.public a) second.by_key ≡ some i
    → get_elem? second.store i ≡ some peer
    → peer.key ≡ c.public a
    → lookup Bytes_discrete (c.public b) first.by_key ≡ some j
    → get_elem? first.store j ≡ some peer'
    → lookup Bytes_discrete f.tx peer'.sent ≡ some s
    → (s.to =addr to) ≡ true
    → is_stale now' peer'.best ≡ true
    → let ping = sealed c (holder c a lan) (ping_of f.tx) (c.public b) f in
      (pong : List ℕ) × (rest : List Outgoing) × ((handle c
          (holder c b lan')
          now
          g
          h
          ping
          from
          second).out
        ≡ record { pkt = pong; to = from } ∷ rest)
      × ((found : DiscoPeer) × (get_elem?
              (handle c (holder c a lan) now' g' h' pong to first).mgr.store
              j
            ≡ some found)
          × (found.best ≡ record { addr = to; rtt = now' - s.at; at = now' }))
unfolding sealed IsSendable IsSource decoded
handle-handle c a b lan lan' f g h g' h' from to now now' first second i j peer peer' s lawful
      (n, t) (n', t') htx plain p16 e1 e2 own e3 e4 sent asked stale =
    let ping = sealed c (holder c a lan) (ping_of f.tx) (c.public b) f in
    let pong = sealed c (holder c b lan') (pong_of f.tx from) (c.public a) g in
    let heard =
      (open_packet-seal c lawful (ping_of f.tx) a b f.nonce f.seed f.tag
        (htx, inl (inl refl, refl, inl refl)) n t).1 in
    let back =
      (open_packet-seal c lawful (pong_of f.tx from) b a g.nonce g.seed g.tag
        (htx, inl (inr refl, refl, inr (plain, p16))) n' t').1 in
    let (rest, out) =
      first_answer c (holder c b lan') now g h (decoded (ping_of f.tx)) from peer refl in
    let at_second =
      handle_opened c (holder c b lan') now g h from ping (c.public a) _ second i peer heard refl e1
        e2 in
    let at_first =
      handle_opened c (holder c a lan) now' g' h' to pong (c.public b) _ first j peer' back refl e3
        e4 in
    let p = (handle_msg c (holder c a lan) now' g' h' (decoded (pong_of f.tx from)) to peer').0 in
    (
      pong,
      rest,
      ap (λ (x : Handled). x.out) at_second
          ∙ out
          ∙ ap
              (λ (k : List ℕ).
                record { pkt = sealed c (holder c b lan') (pong_of f.tx from) k g; to = from }
                ∷ rest)
              own,
      (
        p,
        ap (λ (x : Handled). get_elem? x.mgr.store j) at_first
            ∙ get_elem?-set_self first.store j p (get_elem?-length first.store j peer' e4),
        pong_found c (holder c a lan) now' g' h' (decoded (pong_of f.tx from)) to peer' s refl sent
            asked stale,
      ),
    )
