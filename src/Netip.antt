-- ===== src/Netip.antt =====
-- What the program uses of Go's net/netip: addresses, prefixes and ports, with the equality,
-- `Contains`, `Masked`, `Unmap` and `IsMulticast` that its code calls.
use zeropentime.Prelude.{
  ℕ, ◌+◌, ◌-◌, ◌*◌, ◌/◌, ◌%◌, ◌^◌, Bool, true, false, ◌&&◌, List, [], ◌∷◌, ltb, ◌==◌, if◌then◌else◌,
  is_yes, ℕ_discrete, Bytes_discrete, ◌<◌, ◌≡◌, refl, ap, Option, none, some, length, put_u32,
  put_u128, u32_at, u128_at, u32_at-put_u32, u128_at-put_u128, arith, Bool-cases, inl, inr,
}

-- The zero Addr, an IPv4 address as the number of its four bytes, and an IPv6 address as the
-- number of its sixteen bytes with its zone.
pub data Addr : Type 0 where
  invalid : Addr
  v4 : ℕ → Addr
  v6 : ℕ → List ℕ → Addr

unfoldable pub Addr_discrete : Discrete Addr
Addr_discrete = hlevel (ℕ_discrete, Bytes_discrete)

infix 50 ◌=ip◌
abbrev pub ◌=ip◌ : Addr → Addr → Bool
a =ip b = is_yes (Addr_discrete a b)

-- `bits_plus_one` is 0 for an invalid prefix.
pub record Prefix : Type 0 where
  pub ip : Addr
  pub bits_plus_one : ℕ

abbrev pub prefix_is_valid : Prefix → Bool
prefix_is_valid p = ltb 0 p.bits_plus_one

abbrev pub bits : Prefix → ℕ
bits p = p.bits_plus_one - 1

abbrev same_network : ℕ → ℕ → ℕ → ℕ → Bool
same_network width len a b = a / 2 ^ (width - len) == b / 2 ^ (width - len)

-- `Prefix.Contains`: the same family, no zone, and equal in the leading bits.
contains_addr : Addr → ℕ → Addr → Bool
contains_addr (v4 p) len (v4 a) = same_network 32 len a p
contains_addr (v6 p z) len (v6 a []) = same_network 128 len a p
contains_addr _ len _ = false

unfoldable pub contains : Prefix → Addr → Bool
unfolding contains_addr
contains p a = prefix_is_valid p && contains_addr p.ip (bits p) a

-- `Addr.Unmap`: an IPv4-mapped IPv6 address as IPv4.
unfoldable pub unmap : Addr → Addr
unmap (v6 a z) = if a / 2 ^ 32 == 0xffff then v4 (a % 2 ^ 32) else v6 a z
unmap a = a

-- `Addr.IsMulticast`: 224.0.0.0/4 and ff00::/8 (an IPv4-mapped address counts as IPv4).
is_multicast_unmapped : Addr → Bool
is_multicast_unmapped (v4 a) = a / 2 ^ 28 == 14
is_multicast_unmapped (v6 a z) = a / 2 ^ 120 == 255
is_multicast_unmapped invalid = false

unfoldable pub is_multicast : Addr → Bool
unfolding is_multicast_unmapped unmap
is_multicast a = is_multicast_unmapped (unmap a)

-- The number of `Prefix.Masked` for an IPv4 prefix: the host bits cleared.
abbrev pub masked4 : ℕ → ℕ → ℕ
masked4 a len = a / 2 ^ (32 - len) * 2 ^ (32 - len)

-- `Addr.IsLoopback`: 127.0.0.0/8 and ::1 (an IPv4-mapped address counts as IPv4).
is_loopback_unmapped : Addr → Bool
is_loopback_unmapped (v4 a) = a / 2 ^ 24 == 127
is_loopback_unmapped (v6 a z) = a == 1
is_loopback_unmapped invalid = false

unfoldable pub is_loopback : Addr → Bool
unfolding is_loopback_unmapped unmap
is_loopback a = is_loopback_unmapped (unmap a)

-- `Addr.IsValid`.
abbrev pub is_valid : Addr → Bool
is_valid invalid = false
is_valid (v4 a) = true
is_valid (v6 a z) = true

pub record AddrPort : Type 0 where
  pub addr : Addr
  pub port : ℕ

infix 50 ◌=addr◌
abbrev pub ◌=addr◌ : AddrPort → AddrPort → Bool
a =addr b = (a.addr =ip b.addr) && a.port == b.port

-- The zero AddrPort, which is not valid.
abbrev pub no_addr_port : AddrPort
no_addr_port = record { addr = invalid; port = 0 }

-- `Addr.AsSlice` and `AddrFromSlice`.
abbrev pub as_slice : Addr → List ℕ
as_slice invalid = []
as_slice (v4 a) = put_u32 a
as_slice (v6 a z) = put_u128 a

-- `Addr.As16`: an IPv4 address is mapped into IPv6.
abbrev pub as_16 : Addr → List ℕ
as_16 (v4 a) = put_u128 (0xffff * 2 ^ 32 + a)
as_16 (v6 a z) = put_u128 a
as_16 invalid = put_u128 0

-- `AddrFrom16`.
abbrev pub addr_from_16 : List ℕ → Addr
addr_from_16 b = v6 (u128_at b 0) []

unfoldable pub addr_from_slice : List ℕ → Option Addr
addr_from_slice b =
    if length b == 4
    then some (v4 (u32_at b 0))
    else if length b == 16
    then some (v6 (u128_at b 0) [])
    else none

-- An address in its range, with no zone.
abbrev pub IsPlain : Addr → Type 0
IsPlain invalid = ⊥
IsPlain (v4 a) = a < 2 ^ 32
IsPlain (v6 a z) = (a < 2 ^ 128) × (z ≡ [])

pub addr_from_slice-as_slice : (a : Addr) → IsPlain a → addr_from_slice (as_slice a) ≡ some a
unfolding addr_from_slice
addr_from_slice-as_slice invalid h = absurd h
addr_from_slice-as_slice (v4 a) h = ap (λ (n : ℕ). some (v4 n)) (u32_at-put_u32 a h)
addr_from_slice-as_slice (v6 a z) (h, e) =
    rw e (ap (λ (n : ℕ). some (v6 n [])) (u128_at-put_u128 a h))

pub unmap-IsPlain : (a : Addr) → IsPlain a → IsPlain (unmap a)
unfolding unmap
unmap-IsPlain invalid h = h
unmap-IsPlain (v4 a) h = h
unmap-IsPlain (v6 a z) h = elim (Bool-cases (a / 2 ^ 32 == 0xffff)) [
  | inl mapped ↦ rw mapped (omega arith)
  | inr other ↦ rw other h
]

pub unmap_idem : (a : Addr) → unmap (unmap a) ≡ unmap a
unfolding unmap
unmap_idem invalid = refl
unmap_idem (v4 a) = refl
unmap_idem (v6 a z) = elim (Bool-cases (a / 2 ^ 32 == 0xffff)) [
  | inl mapped ↦ rw mapped refl
  | inr other ↦ rw other (rw other refl)
]

-- `slices.Contains`.
unfoldable pub has_addr : List AddrPort → AddrPort → Bool
has_addr [] a = false
has_addr (b ∷ list) a = if b =addr a then true else has_addr list a
