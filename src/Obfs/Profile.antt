-- ===== src/Obfs/Profile.antt =====
-- internal/obfs/obfs.go: `Secret.Derive`. The bytes that HKDF derives for a label are the argument
-- `derive`: "awg-params" gives the 64 bytes that the ranges and paddings are read from.
pub mod Ranges
pub mod Sizes
use zeropentime.Prelude.{
  ℕ, zero, suc, ◌+◌, ◌-◌, ◌*◌, ◌%◌, ◌^◌, List, [], ◌∷◌, ◌==◌, if◌then◌else◌, get_or, set, byte_at,
  u32_at,
}

-- An inclusive range of header values.
pub record Range : Type 0 where
  pub lo : ℕ
  pub hi : ℕ

abbrev pub max_transport_padding : ℕ
max_transport_padding = 32

abbrev pub min_padding : ℕ
min_padding = 12

abbrev pub quarter : ℕ
quarter = 2 ^ 30

-- `order[i], order[j] = order[j], order[i]`
abbrev pub swap : List ℕ → ℕ → ℕ → List ℕ
swap order i j = set (set order i (get_or order j 0)) j (get_or order i 0)

-- The shuffle of the quarters, for i = 3, 2, 1.
unfoldable pub shuffled : ℕ → ℕ → ℕ → List ℕ
shuffled j3 j2 j1 = swap (swap (swap (0 ∷ 1 ∷ 2 ∷ 3 ∷ []) 3 j3) 2 j2) 1 j1

unfoldable pub order : List ℕ → List ℕ
order r = shuffled (byte_at r 3 % 4) (byte_at r 2 % 3) (byte_at r 1 % 2)

-- One range, in quarter `q` of the 32-bit numbers.
unfoldable pub range_in : ℕ → ℕ → ℕ → Range
range_in q w x =
    let base = if q * quarter == 0 then 2 ^ 16 else q * quarter in
    let width = 2 ^ 20 + w % 2 ^ 24 in
    let span = quarter - base % quarter - width - 1 in
    let lo = base + x % span in record { lo = lo % 2 ^ 32; hi = (lo + width) % 2 ^ 32 }

-- `p.Headers[i]`
unfoldable pub header_range : List ℕ → ℕ → Range
header_range r i = range_in (get_or (order r) i 0) (u32_at r (4 + 4 * i)) (u32_at r (20 + 4 * i))

-- `p.Paddings`: 16-bit sums of small numbers.
pub record Paddings : Type 0 where
  pub s1 : ℕ
  pub s2 : ℕ
  pub s3 : ℕ
  pub s4 : ℕ

abbrev handshake_padding : ℕ → ℕ
handshake_padding b = 16 + b % 128

-- Init and response sizes are kept distinct.
unfoldable pub paddings : List ℕ → Paddings
paddings r =
    let s1 = handshake_padding (byte_at r 36) in
    let s2 = handshake_padding (byte_at r 37) in
    record {
      s1 = s1;
      s2 = if s1 + 148 == s2 + 92 then s2 + 1 else s2;
      s3 = handshake_padding (byte_at r 38);
      s4 = min_padding + byte_at r 39 % (max_transport_padding - min_padding + 1);
    }

pub record Profile : Type 0 where
  pub headers : List Range
  pub paddings : Paddings
  pub header_protection_key : List ℕ
  pub preshared_key : List ℕ
  pub tag_key : List ℕ

-- The labels of the derivations.
pub data Label : Type 0 where
  awg_params awg_header_protection wireguard_psk room_tag : Label

-- `Derive`, over the derivation of a label's bytes with their number.
pub derive_profile : (Label → ℕ → List ℕ) → Profile
derive_profile derive =
    let r = derive awg_params 64 in
    record {
      headers = header_range r 0 ∷ header_range r 1 ∷ header_range r 2 ∷ header_range r 3 ∷ [];
      paddings = paddings r;
      header_protection_key = derive awg_header_protection 32;
      preshared_key = derive wireguard_psk 32;
      tag_key = derive room_tag 16;
    }
