-- ===== src/Tunwrap/Packet.antt =====
-- Which packets are shared, and how one is wrapped and unwrapped.
pub mod Checksum
pub mod RoundTrip
pub mod Spoofing
use Prim.Native.Nat.{bit_or}
use zeropentime.Acl.Filter.{Filter}
use zeropentime.Netip.{Addr, v4, v6, invalid, Prefix, bits, masked4, contains, ◌=ip◌}
use zeropentime.Prelude.{
  ℕ, zero, suc, ◌+◌, ◌-◌, ◌*◌, ◌/◌, ◌%◌, ◌^◌, Bool, true, false, not, ◌&&◌, ◌||◌, List, [], ◌∷◌,
  ◌++◌, Option, none, some, ltb, leb, ◌==◌, if◌then◌else◌, length, drop, byte_at, u16_at, u32_at,
  put_u16, put_u32, codes, ◌=text◌,
}

-- Wrapped broadcasts travel on this port.
abbrev pub port : ℕ
port = 4797

abbrev pub mode_on : List ℕ
mode_on = codes "on"

abbrev pub mode_off : List ℕ
mode_off = codes "off"

abbrev pub mode_mdns : List ℕ
mode_mdns = codes "mdns"

abbrev pub ip_hdr : ℕ
ip_hdr = 20

abbrev pub udp_hdr : ℕ
udp_hdr = 8

-- The two headers and the magic.
abbrev pub wrap_hdr : ℕ
wrap_hdr = 32

abbrev pub proto_udp : ℕ
proto_udp = 17

abbrev pub proto_igmp : ℕ
proto_igmp = 2

abbrev pub limited : Addr
limited = v4 0xffff_ffff

abbrev pub multicast : Prefix
multicast = record { ip = v4 0xe000_0000; bits_plus_one = 5 }

abbrev pub mdns_addr : Addr
mdns_addr = v4 0xe000_00fb

-- A device in front of the OS interface, with what its operations read and change.
pub record Device : Type 0 where
  pub self : Addr
  pub subnet : Prefix
  pub bcast : Addr
  pub mode : List ℕ
  pub peers : List Addr
  pub pending : List (List ℕ)
  pub window : ℕ
  pub counter : ℕ
  pub filter : Option Filter

last_of : ℕ → Addr → Addr
last_of len (v4 a) = v4 (bit_or (masked4 a len) (2 ^ (32 - len) - 1))
last_of len _ = invalid

-- `lastAddr`.
unfoldable pub last_addr : Prefix → Addr
unfolding last_of
last_addr p = last_of (bits p) p.ip

-- `isGroupDst`: broadcast or multicast in this room.
unfoldable pub is_group_dst : Device → Addr → Bool
is_group_dst d dst = dst =ip limited || dst =ip d.bcast || contains multicast dst

-- `shouldForward`: an outgoing broadcast to share.
unfoldable pub should_forward : Device → List ℕ → Bool
should_forward d pkt =
    let src = v4 (u32_at pkt 12) in
    let dst = v4 (u32_at pkt 16) in
    let ihl = byte_at pkt 0 % 16 * 4 in
    if ltb (length pkt) ip_hdr || not (byte_at pkt 0 / 16 == 4)
    then false
    else if not (src =ip d.self) || not (is_group_dst d dst) || byte_at pkt 9 == proto_igmp
    then false
    else if d.mode =text mode_off
    then false
    else if d.mode =text mode_mdns
    then dst =ip mdns_addr
      && byte_at pkt 9 == proto_udp
      && leb (ihl + udp_hdr) (length pkt)
      && u16_at pkt (ihl + 2) == 5353
    else true

-- The sum of the big-endian words in 32 bits; an odd last byte is the high half of a word.
unfoldable pub sum_words : ℕ → List ℕ → ℕ
sum_words s [] = s
sum_words s (a ∷ []) = (s + a * 256) % 2 ^ 32
sum_words s (a ∷ b ∷ rest) = sum_words ((s + (a * 256 + b)) % 2 ^ 32) rest

-- `for s>>16 != 0 { s = s&0xffff + s>>16 }`, with fuel.
unfoldable pub fold_carry : ℕ → ℕ → ℕ
fold_carry zero s = s
fold_carry (suc fuel) s =
    let next = fold_carry fuel (s % 2 ^ 16 + s / 2 ^ 16) in if s / 2 ^ 16 == 0 then s else next

unfoldable pub checksum : List ℕ → ℕ
unfolding sum_words fold_carry
checksum b = 65535 - fold_carry 4 (sum_words 0 b) % 2 ^ 16

-- `As4`; the addresses of a room are IPv4.
abbrev pub as4 : Addr → ℕ
as4 (v4 a) = a
as4 (v6 a z) = a % 2 ^ 32
as4 invalid = 0

-- The first 20 bytes of a wrapped packet, with the checksum field given.
unfoldable pub outer_header : ℕ → ℕ → ℕ → ℕ → List ℕ
outer_header total src dst sum =
    0x45 ∷ 0 ∷ put_u16 total
    ++ (0 ∷ 0 ∷ put_u16 0x4000)
    ++ (64 ∷ proto_udp ∷ put_u16 sum)
    ++ put_u32 src
    ++ put_u32 dst

-- `wrap`: a UDP packet from `self` to `peer` that carries the original packet.
unfoldable pub wrap : Device → List ℕ → Addr → List ℕ
unfolding outer_header
wrap d orig peer =
    let total = wrap_hdr + length orig in
    let header = outer_header total (as4 d.self) (as4 peer) in
    header (checksum (header 0))
    ++ put_u16 port
    ++ put_u16 port
    ++ put_u16 (udp_hdr + 4 + length orig)
    ++ (0 ∷ 0 ∷ codes "zptb")
    ++ orig

unfoldable pub has_magic : List ℕ → Bool
has_magic pkt =
    byte_at pkt 28 == b'z'
    && byte_at pkt 29 == b'p'
    && byte_at pkt 30 == b't'
    && byte_at pkt 31 == b'b'

-- What `unwrap` answers for the inner part of a wrapped packet from `src`.
unfoldable pub unwrap_inner : Device → Addr → List ℕ → Option (List ℕ)
unwrap_inner d src inner =
    if ltb (length inner) ip_hdr || not (byte_at inner 0 / 16 == 4) || d.mode =text mode_off
    then none
    else if not (v4 (u32_at inner 12) =ip src) || not (contains d.subnet src)
    then none
    else if not (is_group_dst d (v4 (u32_at inner 16)))
    then none
    else if not (u16_at inner 2 == length inner)
    then none
    else some inner

-- `unwrap`: the original broadcast, or none, and whether the packet is a wrapped one.
unfoldable pub unwrap : Device → List ℕ → Option (List ℕ) × Bool
unwrap d pkt =
    if ltb (length pkt) wrap_hdr || not (byte_at pkt 0 == 0x45) || not (byte_at pkt 9 == proto_udp)
    then (none, false)
    else if not (v4 (u32_at pkt 16) =ip d.self)
        || not (u16_at pkt 22 == port)
        || not (has_magic pkt)
    then (none, false)
    else (unwrap_inner d (v4 (u32_at pkt 12)) (drop wrap_hdr pkt), true)
