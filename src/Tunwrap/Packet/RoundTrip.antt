-- ===== src/Tunwrap/Packet/RoundTrip.antt =====
-- A broadcast that one member wraps is what another member unwraps.
use zeropentime.Netip.{Addr, v4, contains}
use zeropentime.Prelude.{
  ℕ, ◌+◌, ◌/◌, ◌^◌, ◌≤◌, ◌<◌, ◌≡◌, ◌≢◌, refl, ap, sym, List, arith, length, ◌∙◌, true, some,
  byte_at, u16_at, u32_at, u32_at-put_u32, drop,
}
use zeropentime.Tunwrap.Packet.{
  Device, mode_off, port, wrap, is_group_dst, should_forward, as4, unwrap, wrap_hdr, unwrap_inner,
  has_magic,
}

-- What a receiver reads off a wrapped packet.
module _ (d : Device) (orig : List ℕ) (peer : Addr) where
  wrap_fields :
      (length (wrap d orig peer) ≡ wrap_hdr + length orig)
      × (byte_at (wrap d orig peer) 0 ≡ 0x45)
      × (byte_at (wrap d orig peer) 9 ≡ 17)
      × (u16_at (wrap d orig peer) 22 ≡ port)
      × (drop wrap_hdr (wrap d orig peer) ≡ orig)
      × (has_magic (wrap d orig peer) ≡ true)
  unfolding wrap has_magic
  wrap_fields = (omega arith, refl, refl, refl, refl, refl)

  wrap_addrs :
      (s q : ℕ)
      → d.self ≡ v4 s
      → peer ≡ v4 q
      → s < 2 ^ 32
      → q < 2 ^ 32
      → (u32_at (wrap d orig peer) 12 ≡ s) × (u32_at (wrap d orig peer) 16 ≡ q)
  unfolding wrap
  wrap_addrs s q hs hq s32 q32 =
      let es : as4 d.self ≡ s = ap as4 hs in
      let eq : as4 peer ≡ q = ap as4 hq in
      (u32_at-put_u32 (as4 d.self) (omega arith) ∙ es, u32_at-put_u32 (as4 peer) (omega arith) ∙ eq)

-- What `shouldForward` has checked of a packet.
forwarded_facts :
    (d : Device) (orig : List ℕ)
    → should_forward d orig ≡ true
    → (20 ≤ length orig)
      × (byte_at orig 0 / 16 ≡ 4)
      × (v4 (u32_at orig 12) ≡ d.self)
      × (is_group_dst d (v4 (u32_at orig 16)) ≡ true)
unfolding should_forward
forwarded_facts d orig h = ground arith

group_same_room :
    (d r : Device) (a : Addr) → d.bcast ≡ r.bcast → is_group_dst d a ≡ is_group_dst r a
unfolding is_group_dst
group_same_room d r a e = rw e

unwrap_inner_accepts :
    (r : Device) (src : Addr) (inner : List ℕ)
    → 20 ≤ length inner
    → byte_at inner 0 / 16 ≡ 4
    → r.mode ≢ mode_off
    → v4 (u32_at inner 12) ≡ src
    → contains r.subnet src ≡ true
    → is_group_dst r (v4 (u32_at inner 16)) ≡ true
    → u16_at inner 2 ≡ length inner
    → unwrap_inner r src inner ≡ some inner
unfolding unwrap_inner
unwrap_inner_accepts r src inner len ver mode from net group total = ground arith

unwrap_accepts :
    (r : Device) (pkt : List ℕ)
    → wrap_hdr ≤ length pkt
    → byte_at pkt 0 ≡ 0x45
    → byte_at pkt 9 ≡ 17
    → v4 (u32_at pkt 16) ≡ r.self
    → u16_at pkt 22 ≡ port
    → has_magic pkt ≡ true
    → unwrap r pkt ≡ (unwrap_inner r (v4 (u32_at pkt 12)) (drop wrap_hdr pkt), true)
unfolding unwrap
unwrap_accepts r pkt len b0 b9 dst dport magic = ground arith

-- A broadcast that `shouldForward` shares in member `d`, wrapped for `peer`, is unwrapped to the very
-- packet by the device `r` of that peer: if `r` has not switched broadcasts off, `d`'s address lies
-- in the room, both know the room's broadcast address, the addresses are IPv4 and the packet's
-- length field is its length.
pub unwrap-wrap :
    (d r : Device) (orig : List ℕ) (s q : ℕ)
    → should_forward d orig ≡ true
    → u16_at orig 2 ≡ length orig
    → d.self ≡ v4 s
    → s < 2 ^ 32
    → r.self ≡ v4 q
    → q < 2 ^ 32
    → r.mode ≢ mode_off
    → contains r.subnet (v4 s) ≡ true
    → d.bcast ≡ r.bcast
    → unwrap r (wrap d orig (v4 q)) ≡ (some orig, true)
unwrap-wrap d r orig s q shared total hs s32 hq q32 mode net room =
    let (len, b0, b9, dport, inner, magic) = wrap_fields d orig (v4 q) in
    let (src, dst) = wrap_addrs d orig (v4 q) s q hs refl s32 q32 in
    let (long, ver, from, group) = forwarded_facts d orig shared in
    let open_inner =
      unwrap_inner_accepts r (v4 s) orig long ver mode (from ∙ hs) net
        (sym (group_same_room d r (v4 (u32_at orig 16)) room) ∙ group) total in
    unwrap_accepts r (wrap d orig (v4 q)) (omega arith) b0 b9 (ap v4 dst ∙ sym hq) dport magic
    ∙ rw (src, inner, open_inner) refl
