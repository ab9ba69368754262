-- ===== src/Obfs/Profile/Sizes.antt =====
-- The paddings of a room.
use zeropentime.Obfs.Profile.{paddings, min_padding, max_transport_padding}
use zeropentime.Prelude.{ℕ, ◌+◌, ◌≤◌, ◌≢◌, List, arith}

-- Whatever the derived bytes, every padding is at least what header protection needs, the one of
-- data packets is within its limit, the handshake ones are at most 144, and the sizes of init and
-- response packets differ.
pub paddings_lem :
    (r : List ℕ)
    → let p = paddings r in
      (min_padding ≤ p.s1)
      × (min_padding ≤ p.s2)
      × (min_padding ≤ p.s3)
      × (min_padding ≤ p.s4)
      × (p.s4 ≤ max_transport_padding)
      × (p.s1 ≤ 143)
      × (p.s2 ≤ 144)
      × (p.s3 ≤ 143)
      × (p.s1 + 148 ≢ p.s2 + 92)
unfolding paddings
paddings_lem r = ground arith
