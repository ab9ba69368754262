-- ===== src/Tests/Packets.antt =====
-- Packets and rooms that the tests share.
use zeropentime.Netip.{v4, Prefix}
use zeropentime.Prelude.{ℕ, List, [], ◌∷◌, ◌++◌, codes, put_u16, put_u32, none, ◌=text◌}
use zeropentime.Acl.Policy.{Texts, Rule, Policy, tcp}

-- No address or prefix is written in the rules of the tests; names are compared as bytes.
abbrev pub texts : Texts
texts = record { parse_prefix = λ s. none; parse_addr = λ s. none; equal_fold = λ a b. a =text b }

-- A room 10.100.1.0/24.
abbrev pub anna : ℕ
anna = 0x0a640105

abbrev pub boris : ℕ
boris = 0x0a640106

abbrev pub room : Prefix
room = record { ip = v4 0x0a640100; bits_plus_one = 25 }

abbrev pub ssh : Rule
ssh = record {
  from = codes "tag:admin" ∷ [];
  to = codes "*" ∷ [];
  ports = record { proto = tcp; first = 22; last = 22 } ∷ [];
}

abbrev pub echo_requests : Rule
echo_requests = record {
  from = codes "*" ∷ [];
  to = codes "*" ∷ [];
  ports = record { proto = 1; first = 0; last = 0 } ∷ [];
}

abbrev pub policy : Policy
policy = record {
  rules = echo_requests ∷ ssh ∷ [];
  members = record { name = codes "anna"; ip = v4 anna; tags = codes "admin" ∷ [] } ∷ [];
  subnet = room;
}

-- An IPv4 packet of one protocol, with ports and no payload.
abbrev pub packet : ℕ → ℕ → ℕ → ℕ → ℕ → List ℕ
packet proto src dst sport dport =
    (0x45 ∷ 0 ∷ 0 ∷ 28 ∷ 0 ∷ 0 ∷ 0 ∷ 0 ∷ 64 ∷ proto ∷ 0 ∷ 0 ∷ [])
    ++ put_u32 src
    ++ put_u32 dst
    ++ put_u16 sport
    ++ put_u16 dport
    ++ (0 ∷ 8 ∷ 0 ∷ 0 ∷ [])
