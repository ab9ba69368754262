-- ===== src/Prelude/Finite.antt =====
-- A statement about small numbers, by evaluation at each of them.
use Prim.Native.Nat.{ℕ, zero, suc, ◌<◌}
use mathlib.Core.Bool.{Bool, true, ◌&&◌}
use mathlib.Core.Path.{◌≡◌}
use native.Mathlib.Omega.{arith}

unfoldable pub holds_below : (ℕ → Bool) → ℕ → Bool
holds_below test zero = true
holds_below test (suc n) = holds_below test n && test n

pub holds_below→ :
    (test : ℕ → Bool) (n : ℕ) → holds_below test n ≡ true → (k : ℕ) → k < n → test k ≡ true
unfolding holds_below
holds_below→ test zero h k lt = absurd (omega arith)
holds_below→ test (suc n) h k lt = ground (arith, holds_below→ test n (ground arith) k)
