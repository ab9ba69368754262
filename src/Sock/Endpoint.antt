-- ===== src/Sock/Endpoint.antt =====
-- internal/magicsock/magicsock.go: relayed paths as addresses of a private IPv6 range.
use zeropentime.Netip.{v6, AddrPort, Prefix, contains, as_16, addr_from_16}
use zeropentime.Prelude.{
  ℕ, ◌*◌, ◌^◌, ◌<◌, ◌≡◌, ap, Bool, not, true, List, [], ◌∷◌, ◌++◌, Option, none, some,
  if◌then◌else◌, length, take, drop, All, arith,
}

-- fd7a:7a70:72ff::/48
abbrev pub relay_prefix : Prefix
relay_prefix = record { ip = v6 (0xfd7a7a7072ff * 2 ^ 80) []; bits_plus_one = 49 }

-- `RelayEndpoint`.
unfoldable pub relay_endpoint : List ℕ → AddrPort
relay_endpoint node = record {
  addr = addr_from_16 (take 6 (as_16 relay_prefix.ip) ++ node);
  port = 1;
}

-- `IsRelay`.
unfoldable pub is_relay : AddrPort → Bool
is_relay ap = contains relay_prefix ap.addr

-- `RelayNode`.
unfoldable pub relay_node : AddrPort → Option (List ℕ)
relay_node ap = if not (contains relay_prefix ap.addr) then none else some (drop 6 (as_16 ap.addr))

relay_node_bytes :
    (a b c d e f g h i j : ℕ)
    → All (λ x. x < 256) (a ∷ b ∷ c ∷ d ∷ e ∷ f ∷ g ∷ h ∷ i ∷ j ∷ [])
    → relay_node (relay_endpoint (a ∷ b ∷ c ∷ d ∷ e ∷ f ∷ g ∷ h ∷ i ∷ j ∷ []))
      ≡ some (a ∷ b ∷ c ∷ d ∷ e ∷ f ∷ g ∷ h ∷ i ∷ j ∷ [])
unfolding relay_node relay_endpoint contains
relay_node_bytes a b c d e f g h i j small = ground arith

-- The node of a relay endpoint is the one that it was made for.
pub relay_node-relay_endpoint :
    (node : List ℕ)
    → length node ≡ 10
    → All (λ x. x < 256) node
    → relay_node (relay_endpoint node) ≡ some node
relay_node-relay_endpoint (a ∷ b ∷ c ∷ d ∷ e ∷ f ∷ g ∷ h ∷ i ∷ j ∷ []) size small =
    relay_node_bytes a b c d e f g h i j small
relay_node-relay_endpoint node size small = absurd (omega arith)

pub is_relay-relay_node :
    (to : AddrPort) (node : List ℕ) → relay_node to ≡ some node → is_relay to ≡ true
unfolding relay_node is_relay
is_relay-relay_node to node h = ground arith
