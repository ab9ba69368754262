-- ===== src/Tests/Acl.antt =====
-- The access rules and the filter at concrete packets.
use zeropentime.Tests.Packets.{texts, anna, boris, policy, packet}
use zeropentime.Acl.Filter.{Filter, new_filter, parse, outbound, inbound}
use zeropentime.Acl.Filter.Bounds.{IsBounded, sends, receives, run, run-IsBounded}
use zeropentime.Acl.Filter.Replies.{
  IsReply, IsPingReply, IsGossip, IsRuled, inbound_iff, inbound-outbound,
}
use zeropentime.Acl.Filter.Packets.{Ip4, IsIp4, bytes, header_of, ports}
use zeropentime.Acl.Policy.First.{Grants, allowed-IsFirst}
use zeropentime.Acl.Policy.{minus_one, rule_at, allowed, matches, any, any_port, tcp}
use zeropentime.Netip.{v4, Addr_discrete}
use zeropentime.Prelude.First.{IsFirst, NoneFits}
use zeropentime.Prelude.{
  ℕ, ◌<◌, ◌≡◌, ◌↔◌, ◌⊎◌, inl, refl, true, false, List, [], ◌∷◌, arith, Bytes_discrete, ℕ_discrete,
}

ssh_allowed : allowed texts policy (v4 anna) (v4 boris) tcp 22 ≡ (true, rule_at 1)
unfolding allowed matches any any_port Addr_discrete Bytes_discrete ℕ_discrete
ssh_allowed = refl

ssh_denied : allowed texts policy (v4 boris) (v4 anna) tcp 22 ≡ (false, minus_one)
unfolding allowed matches any any_port Addr_discrete Bytes_discrete ℕ_discrete
ssh_denied = refl

allowed-IsFirst_example :
    ((allowed texts policy (v4 anna) (v4 boris) tcp 22 ≡ (true, rule_at 1))
      ↔ IsFirst (Grants texts policy (v4 anna) (v4 boris) tcp 22) 1 policy.rules)
    × ((allowed texts policy (v4 anna) (v4 boris) tcp 22 ≡ (false, minus_one))
        ↔ NoneFits (Grants texts policy (v4 anna) (v4 boris) tcp 22) policy.rules)
allowed-IsFirst_example = allowed-IsFirst texts policy (v4 anna) (v4 boris) tcp 22 (λ e. cc) 1

abbrev anna_filter : Filter
anna_filter = new_filter policy (v4 anna)

-- Anna asks boris's web server; the answer.
abbrev request : List ℕ
request = packet tcp anna boris 40000 80

abbrev answer : List ℕ
answer = packet tcp boris anna 80 40000

run-IsBounded_example :
    IsBounded (run texts (new_filter policy (v4 anna)) (sends request 5 ∷ receives answer 9 ∷ []))
run-IsBounded_example =
    run-IsBounded texts policy (v4 anna) (sends request 5 ∷ receives answer 9 ∷ [])

-- A segment of boris to the room's broadcast address, with four bytes of options.
abbrev shout : Ip4
shout = record {
  words = 1;
  tos = 0;
  total = 28;
  ident = 7;
  flags = 2;
  offset = 0;
  ttl = 64;
  proto = tcp;
  sum = 0;
  src = boris;
  dst = 0x0a6401ff;
  options = 1 ∷ 1 ∷ 1 ∷ 0 ∷ [];
  content = ports 40000 22 [];
}

shout-IsIp4 : IsIp4 shout
shout-IsIp4 = record {
  words_small = omega arith;
  options_size = refl;
  flags_small = omega arith;
  offset_small = omega arith;
  src_small = omega arith;
  dst_small = omega arith;
  content_fits = (inl refl, omega arith, omega arith);
}

inbound_iff_example : ((inbound texts anna_filter (bytes shout) 9).0 ≡ true) ↔ (
    (0 < shout.offset)
    ⊎ IsReply anna_filter (header_of shout) 9
    ⊎ IsPingReply anna_filter (header_of shout) 9
    ⊎ IsGossip anna_filter (header_of shout)
    ⊎ IsRuled texts anna_filter shout)
inbound_iff_example = inbound_iff texts anna_filter shout 9 shout-IsIp4

inbound-outbound_example : (inbound texts (outbound anna_filter request 5) answer 9).0 ≡ true
unfolding parse
inbound-outbound_example =
    inbound-outbound texts anna_filter request answer 5 9 (omega arith) refl refl (omega arith)
