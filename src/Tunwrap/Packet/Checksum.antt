-- ===== src/Tunwrap/Packet/Checksum.antt =====
-- The Internet checksum of the wrapped packets.
use zeropentime.Prelude.{ℕ, ◌^◌, ◌<◌, arith}
use zeropentime.Tunwrap.Packet.{fold_carry}

-- With fuel 4 the loop has ended on every 32-bit sum: no carry is left.
pub fold_carry-lt : (s : ℕ) → s < 2 ^ 32 → fold_carry 4 s < 2 ^ 16
unfolding fold_carry
fold_carry-lt s h = ground arith
