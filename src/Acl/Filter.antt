-- ===== src/Acl/Filter.antt =====
-- internal/acl/filter.go: packet headers, the flow table and the decision about incoming packets.
-- A time is a number of nanoseconds; `now.Sub(t) < d` and `> d` of the source are `now - t < d` and
-- `d < now - t` on numbers, where a time that lies ahead gives 0, as a negative difference would.
pub mod Bounds
pub mod Packets
pub mod Replies
pub mod Broadcast
use Prim.Native.Nat.{bit_or}
use zeropentime.Acl.Policy.{Policy, Texts, allowed, icmp, tcp, udp}
use zeropentime.Netip.{
  Addr, v4, invalid, Prefix, prefix_is_valid, bits, masked4, is_multicast, ◌=ip◌,
}
use zeropentime.Netip
use zeropentime.Prelude.Assoc.{lookup, insert}
use zeropentime.Prelude.{
  ℕ, ◌+◌, ◌-◌, ◌*◌, ◌/◌, ◌%◌, ◌^◌, Bool, true, false, not, ◌&&◌, ◌||◌, List, [], ◌∷◌, Option, none,
  some, ltb, leb, ◌==◌, if◌then◌else◌, is_yes, length, byte_at, u16_at, u32_at, ℕ_discrete,
}

pub record Flow : Type 0 where
  pub proto : ℕ
  pub src : Addr
  pub dst : Addr
  pub sport : ℕ
  pub dport : ℕ

unfoldable pub Flow_discrete : Discrete Flow
Flow_discrete = hlevel (ℕ_discrete, Netip.Addr_discrete)

pub record Filter : Type 0 where
  pub pol : Policy
  pub self : Addr
  pub flows : List (Flow × ℕ)
  pub swept : ℕ

abbrev pub gossip_port : ℕ
gossip_port = 4798

abbrev pub second : ℕ
second = 1_000_000_000

abbrev pub flow_ttl : ℕ
flow_ttl = 5 * 60 * second

abbrev pub max_flows : ℕ
max_flows = 65536

-- `NewFilter`.
abbrev pub new_filter : Policy → Addr → Filter
new_filter pol self = record { pol = pol; self = self; flows = []; swept = 0 }

pub record Header : Type 0 where
  pub is_ok : Bool
  pub proto : ℕ
  pub src : Addr
  pub dst : Addr
  pub sport : ℕ
  pub dport : ℕ
  pub first : Bool

abbrev no_header : Header
no_header = record {
  is_ok = false;
  proto = 0;
  src = invalid;
  dst = invalid;
  sport = 0;
  dport = 0;
  first = false;
}

-- `parse`: an IPv4 header, with the ports of a first fragment of TCP or UDP that holds them.
unfoldable pub parse : List ℕ → Header
parse pkt =
    let ihl = byte_at pkt 0 % 16 * 4 in
    let proto = byte_at pkt 9 in
    let first = u16_at pkt 6 % 2 ^ 13 == 0 in
    let has_ports = first && (proto == tcp || proto == udp) && leb (ihl + 4) (length pkt) in
    if ltb (length pkt) 20 || not (byte_at pkt 0 / 16 == 4) then no_header else record {
      is_ok = true;
      proto = proto;
      src = v4 (u32_at pkt 12);
      dst = v4 (u32_at pkt 16);
      sport = if has_ports then u16_at pkt ihl else 0;
      dport = if has_ports then u16_at pkt (ihl + 2) else 0;
      first = first;
    }

-- `for x, t := range f.flows { if now.Sub(t) > flowTTL { delete(f.flows, x) } }`
unfoldable pub sweep : ℕ → List (Flow × ℕ) → List (Flow × ℕ)
sweep now [] = []
sweep now ((k, t) ∷ m) = if ltb flow_ttl (now - t) then sweep now m else (k, t) ∷ sweep now m

-- The sweep at the head of `rememberLocked`.
sweep_if_full : Filter → ℕ → Filter
unfolding sweep
sweep_if_full f now =
    if leb max_flows (length f.flows) && ltb second (now - f.swept)
    then record f { flows = sweep now f.flows; swept = now }
    else f

add_if_room : Filter → Flow → ℕ → Filter
add_if_room f k now =
    if ltb (length f.flows) max_flows
    then record f { flows = insert Flow_discrete k now f.flows }
    else f

pub remember : Filter → Flow → ℕ → Filter
unfolding sweep_if_full add_if_room
remember f k now = add_if_room (sweep_if_full f now) k now

abbrev pub flow_of : Header → Flow
flow_of h = record { proto = h.proto; src = h.src; dst = h.dst; sport = h.sport; dport = h.dport }

abbrev pub reply_of : Header → Flow
reply_of h = record { proto = h.proto; src = h.dst; dst = h.src; sport = h.dport; dport = h.sport }

-- `Outbound` at the time `now`.
unfoldable pub outbound : Filter → List ℕ → ℕ → Filter
outbound f pkt now = let h = parse pkt in if not h.is_ok then f else remember f (flow_of h) now

is_live : Option ℕ → ℕ → Bool
is_live none now = false
is_live (some t) now = ltb (now - t) flow_ttl

-- The loop over the flows for ICMP: by addresses only.
unfoldable pub ping_known : Header → ℕ → List (Flow × ℕ) → Bool
ping_known h now [] = false
ping_known h now ((k, t) ∷ m) =
    k.proto == icmp && k.src =ip h.dst && k.dst =ip h.src && ltb (now - t) flow_ttl
    || ping_known h now m

-- `lastAddr`: the host bits of an IPv4 prefix set. (`As4` of another address panics; the code asks
-- it of valid IPv4 prefixes only.)
last_of : ℕ → Addr → Addr
last_of len (v4 a) = v4 (bit_or (masked4 a len) (2 ^ (32 - len) - 1))
last_of len _ = invalid

unfoldable pub last_addr : Prefix → Addr
unfolding last_of
last_addr p = last_of (bits p) p.ip

-- A packet to a group reaches this member: the rules see it as sent to `self`.
pub group_to_self : Filter → Addr → Addr
group_to_self f dst =
    if is_multicast dst
      || dst =ip v4 0xffff_ffff
      || prefix_is_valid f.pol.subnet && dst =ip last_addr f.pol.subnet
    then f.self
    else dst

module _ (texts : Texts) where
  by_rules : Filter → Header → ℕ → Bool × Filter
  by_rules f h now =
      let (pass, rule) = allowed texts f.pol h.src (group_to_self f h.dst) h.proto h.dport in
      if pass then (true, remember f (flow_of h) now) else (false, f)

  inbound_first : Filter → Header → ℕ → Bool × Filter
  unfolding by_rules is_live
  inbound_first f h now =
      if is_live (lookup Flow_discrete (reply_of h) f.flows) now
      then (true, record f { flows = insert Flow_discrete (reply_of h) now f.flows })
      else if h.proto == icmp && ping_known h now f.flows
      then (true, f)
      else if (h.proto == tcp || h.proto == udp) && h.dst =ip f.self && h.dport == gossip_port
      then (true, f)
      else by_rules f h now

  -- `Inbound` at the time `now`: whether the packet may pass, and the filter behind it.
  unfoldable pub inbound : Filter → List ℕ → ℕ → Bool × Filter
  unfolding inbound_first group_to_self
  inbound f pkt now =
      let h = parse pkt in
      if not h.is_ok then (true, f) else if not h.first then (true, f) else inbound_first f h now
