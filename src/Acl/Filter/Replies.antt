-- ===== src/Acl/Filter/Replies.antt =====
-- Which incoming packets pass: replies to what this node sent, room configs, and what the rules
-- allow.
use zeropentime.Acl.Filter.{
  Flow, Flow_discrete, Filter, Header, parse, flow_of, reply_of, flow_ttl, max_flows, remember,
  outbound, is_live, ping_known, group_to_self, inbound_first, inbound, gossip_port,
}
use zeropentime.Acl.Filter.Broadcast.{IsGroup, group_to_self_cases}
use zeropentime.Acl.Filter.Packets.{
  Ip4, IsIp4, bytes, header_of, dport_of, parse-bytes, parse-bytes_later,
}
use zeropentime.Netip.{v4}
use zeropentime.Acl.Policy.{Texts, allowed, icmp, tcp, udp}
use zeropentime.Prelude.Assoc.{lookup, lookup-insert_self}
use zeropentime.Prelude.{
  ℕ, zero, suc, ◌-◌, ◌<◌, ◌≡◌, ◌↔◌, ◌⊎◌, refl, true, false, List, [], ◌∷◌, Option, none, some,
  arith, length, inl, inr, Any,
}

-- A flow with the two addresses and the two ports of the packet changed about was used within `flow_ttl`.
abbrev pub IsReply : Filter → Header → ℕ → Type 0
IsReply f h now =
    (t : ℕ) × (lookup Flow_discrete
        (record { proto = h.proto; src = h.dst; dst = h.src; sport = h.dport; dport = h.sport })
        f.flows
      ≡ some t)
    × (now - t < flow_ttl)

-- An ICMP flow between the same two addresses was used within `flow_ttl`.
abbrev pub IsPingReply : Filter → Header → ℕ → Type 0
IsPingReply f h now =
    (h.proto ≡ icmp)
    × Any
        (λ (e : Flow × ℕ).
          (e.0.proto ≡ icmp) × (e.0.src ≡ h.dst) × (e.0.dst ≡ h.src) × (now - e.1 < flow_ttl))
        f.flows

abbrev pub IsGossip : Filter → Header → Type 0
IsGossip f h = ((h.proto ≡ tcp) ⊎ (h.proto ≡ udp)) × (h.dst ≡ f.self) × (h.dport ≡ gossip_port)

is_live_iff :
    (o : Option ℕ) (now : ℕ)
    → (is_live o now ≡ true) ↔ ((t : ℕ) × (o ≡ some t) × (now - t < flow_ttl))
unfolding is_live
is_live_iff none now = (λ e. cc, λ (t, e, l). cc)
is_live_iff (some t) now = (λ e. (t, refl, ground arith), λ (u, e, l). ground arith)

ping_known_iff :
    (h : Header) (now : ℕ) (m : List (Flow × ℕ))
    → (ping_known h now m ≡ true)
      ↔ Any
          (λ (e : Flow × ℕ).
            (e.0.proto ≡ icmp) × (e.0.src ≡ h.dst) × (e.0.dst ≡ h.src) × (now - e.1 < flow_ttl))
          m
unfolding ping_known
ping_known_iff h now [] = ground arith
ping_known_iff h now ((k, t) ∷ m) = ground (arith, ping_known_iff h now m)

zero_or_pos : (n : ℕ) → (n ≡ 0) ⊎ (0 < n)
zero_or_pos zero = inl refl
zero_or_pos (suc n) = inr (omega arith)

reword : {P A B C D E Z : Type 0} → P ↔ (A ⊎ B ⊎ C ⊎ D) → D ↔ E → ¬ Z → P ↔ (Z ⊎ A ⊎ B ⊎ C ⊎ E)
reword (to, from) (there, back) never = (
  λ p. elim (to p) [
    | inl a ↦ inr (inl a)
    | inr (inl b) ↦ inr (inr (inl b))
    | inr (inr (inl c)) ↦ inr (inr (inr (inl c)))
    | inr (inr (inr d)) ↦ inr (inr (inr (inr (there d))))
  ],
  λ s. elim s [
    | inl z ↦ absurd (never z)
    | inr (inl a) ↦ from (inl a)
    | inr (inr (inl b)) ↦ from (inr (inl b))
    | inr (inr (inr (inl c))) ↦ from (inr (inr (inl c)))
    | inr (inr (inr (inr e))) ↦ from (inr (inr (inr (back e))))
  ],
)

module _ (texts : Texts) where
  inbound_first_iff :
      (f : Filter) (h : Header) (now : ℕ)
      → ((inbound_first texts f h now).0 ≡ true) ↔ (
          IsReply f h now
          ⊎ IsPingReply f h now
          ⊎ IsGossip f h
          ⊎ ((allowed texts f.pol h.src (group_to_self f h.dst) h.proto h.dport).0 ≡ true))
  unfolding inbound_first
  inbound_first_iff f h now = ground (
    arith,
    is_live_iff (lookup Flow_discrete (reply_of h) f.flows) now,
    ping_known_iff h now f.flows,
  )

  -- The rules allow the packet: to this member, if it goes to a group, and else to where it goes.
  abbrev pub IsRuled : Filter → Ip4 → Type 0
  IsRuled f k =
      let dport = dport_of k.content in
      (IsGroup f k.dst × ((allowed texts f.pol (v4 k.src) f.self k.proto dport).0 ≡ true))
      ⊎ (¬ IsGroup f k.dst × ((allowed texts f.pol (v4 k.src) (v4 k.dst) k.proto dport).0 ≡ true))

  by_group :
      (f : Filter) (k : Ip4)
      → ((allowed texts f.pol
            (v4 k.src)
            (group_to_self f (v4 k.dst))
            k.proto
            (dport_of k.content)).0
          ≡ true)
        ↔ IsRuled f k
  by_group f k = elim (group_to_self_cases f k.dst) [
    | inl (group, e) ↦ rw e (λ h. inl (group, h), λ h. ground (arith, h, group))
    | inr (other, e) ↦ rw e (λ h. inr (other, h), λ h. ground (arith, h, other))
  ]

  inbound_whole :
      (f : Filter) (pkt : List ℕ) (h : Header) (now : ℕ)
      → parse pkt ≡ h
      → h.is_ok ≡ true
      → h.first ≡ true
      → (inbound texts f pkt now).0 ≡ (inbound_first texts f h now).0
  unfolding inbound
  inbound_whole f pkt h now e ok first = rw (← e) (ground arith)

  inbound_later :
      (f : Filter) (pkt : List ℕ) (now : ℕ)
      → (parse pkt).is_ok ≡ true
      → (parse pkt).first ≡ false
      → (inbound texts f pkt now).0 ≡ true
  unfolding inbound
  inbound_later f pkt now ok later = ground arith

  -- The bytes of an IPv4 packet whose fields are in their ranges pass exactly when it is a later
  -- fragment, a reply, a ping's reply, a room config, or the rules allow it (with a group address read
  -- as this member).
  pub inbound_iff :
      (f : Filter) (k : Ip4) (now : ℕ)
      → IsIp4 k
      → ((inbound texts f (bytes k) now).0 ≡ true) ↔ (
          (0 < k.offset)
          ⊎ IsReply f (header_of k) now
          ⊎ IsPingReply f (header_of k) now
          ⊎ IsGossip f (header_of k)
          ⊎ IsRuled f k)
  inbound_iff f k now valid = elim (zero_or_pos k.offset) [
    | inl whole ↦
        rw (inbound_whole f (bytes k) (header_of k) now (parse-bytes k valid whole) refl refl)
          (reword (inbound_first_iff f (header_of k) now) (by_group f k) (λ l. omega arith))
    | inr later ↦
        let (ok, not_first) = parse-bytes_later k valid later in
        (λ h. inl later, λ h. inbound_later f (bytes k) now ok not_first)
  ]

  -- A packet that is refused leaves the filter as it was.
  pub inbound_refused :
      (f : Filter) (pkt : List ℕ) (now : ℕ)
      → (inbound texts f pkt now).0 ≡ false
      → (inbound texts f pkt now).1 ≡ f
  unfolding inbound
  inbound_refused f pkt now e = ground arith

  lookup-remember :
      (f : Filter) (k : Flow) (now : ℕ)
      → length f.flows < max_flows
      → lookup Flow_discrete k (remember f k now).flows ≡ some now
  unfolding remember
  lookup-remember f k now room = ground (arith, lookup-insert_self Flow_discrete k now f.flows)

  -- A packet that this node sent opens the way back: while its flow fits the table, the reply passes
  -- within `flow_ttl`, whatever the rules say.
  pub inbound-outbound :
      (f : Filter) (sent back : List ℕ) (t0 t1 : ℕ)
      → length f.flows < max_flows
      → (parse sent).is_ok ≡ true
      → reply_of (parse back) ≡ flow_of (parse sent)
      → t1 - t0 < flow_ttl
      → (inbound texts (outbound f sent t0) back t1).0 ≡ true
  unfolding inbound outbound
  inbound-outbound f sent back t0 t1 room ok e fresh =
      let lives : IsReply (outbound f sent t0) (parse back) t1 = (
        t0,
        rw e (unfold outbound in rw ok (lookup-remember f (flow_of (parse sent)) t0 room)),
        fresh,
      ) in
      ground (arith, (inbound_first_iff (outbound f sent t0) (parse back) t1).1 (inl lives))
