-- ===== src/Tunwrap/Packet/Spoofing.antt =====
-- Nobody can inject a broadcast in another member's name.
use zeropentime.Netip.{Addr, v4, contains}
use zeropentime.Prelude.{ℕ, ◌≡◌, ◌≢◌, List, true, some, arith, length, u16_at, u32_at, drop}
use zeropentime.Tunwrap.Packet.{Device, mode_off, wrap_hdr, is_group_dst, unwrap, unwrap_inner}

-- What `unwrap` has checked of a packet whose inner part it hands out.
abbrev pub IsGenuine : Device → List ℕ → List ℕ → Type 0
IsGenuine d pkt inner =
    (inner ≡ drop wrap_hdr pkt)
    × (v4 (u32_at inner 12) ≡ v4 (u32_at pkt 12))
    × (contains d.subnet (v4 (u32_at pkt 12)) ≡ true)
    × (is_group_dst d (v4 (u32_at inner 16)) ≡ true)
    × (u16_at inner 2 ≡ length inner)
    × (v4 (u32_at pkt 16) ≡ d.self)
    × (d.mode ≢ mode_off)

unwrap_outer :
    (d : Device) (pkt inner : List ℕ)
    → unwrap d pkt ≡ (some inner, true)
    → (v4 (u32_at pkt 16) ≡ d.self)
      × (unwrap_inner d (v4 (u32_at pkt 12)) (drop wrap_hdr pkt) ≡ some inner)
unfolding unwrap
unwrap_outer d pkt inner h = ground arith

unwrap_inner_checks :
    (d : Device) (src : Addr) (body inner : List ℕ)
    → unwrap_inner d src body ≡ some inner
    → (inner ≡ body)
      × (v4 (u32_at body 12) ≡ src)
      × (contains d.subnet src ≡ true)
      × (is_group_dst d (v4 (u32_at body 16)) ≡ true)
      × (u16_at body 2 ≡ length body)
      × (d.mode ≢ mode_off)
unfolding unwrap_inner
unwrap_inner_checks d src body inner h = ground arith

-- An unwrapped broadcast is the inner part of a packet to this member, it names as its source the
-- member that AmneziaWG has authenticated for the outer packet, an address of the room, it goes to a
-- group, and its length is the one it states; nothing is unwrapped where broadcasts are off.
pub unwrap-IsGenuine :
    (d : Device) (pkt inner : List ℕ) → unwrap d pkt ≡ (some inner, true) → IsGenuine d pkt inner
unwrap-IsGenuine d pkt inner h =
    let (own, open_inner) = unwrap_outer d pkt inner h in
    let (same, from, net, group, total, mode) =
      unwrap_inner_checks d (v4 (u32_at pkt 12)) (drop wrap_hdr pkt) inner open_inner in
    (same, rw same from, net, rw same group, rw same total, own, mode)
