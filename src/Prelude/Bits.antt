-- ===== src/Prelude/Bits.antt =====
-- `^` and `|` at variables, from the digit recursion that the native operations stand for.
use Prim.Native.Nat.{
  ℕ, zero, suc, ◌+◌, ◌-◌, ◌*◌, ◌/◌, ◌%◌, ◌^◌, ◌≤◌, ◌<◌, max, bit_or, bit_xor, digits, bitwise,
  bit_or-bitwise, bit_xor-bitwise, differ,
}
use mathlib.Core.Path.{◌≡◌, refl, ap, sym, ◌∙◌}
use native.Mathlib.Nat.{pow-suc, one-le-pow, le_refl}
use native.Mathlib.Omega.{arith}

-- The recursion on digits takes fuel: any that is not below the number gives one answer.
module _ (rest : ℕ → ℕ) (op : ℕ → ℕ → ℕ) where
  digits-zero : (fuel y : ℕ) → digits rest op fuel zero y ≡ rest y
  digits-zero zero y = refl
  digits-zero (suc fuel) y = refl

  same_digits :
      (fuel more x y : ℕ) → x ≤ fuel → x ≤ more → digits rest op more x y ≡ digits rest op fuel x y
  same_digits fuel more zero y h k = digits-zero more y ∙ sym (digits-zero fuel y)
  same_digits zero more (suc x) y h k = absurd (omega arith)
  same_digits (suc fuel) zero (suc x) y h k = absurd (omega arith)
  same_digits (suc fuel) (suc more) (suc x) y h k =
      let half : suc x / 2 ≤ fuel = omega arith in
      let half' : suc x / 2 ≤ more = omega arith in
      ap (λ (t : ℕ). t * 2 + op (suc x % 2) (y % 2))
        (same_digits fuel more (suc x / 2) (y / 2) half half')

  lowest_digit :
      (x y : ℕ)
      → bitwise rest op (suc x) y ≡ op (suc x % 2) (y % 2) + 2 * bitwise rest op (suc x / 2) (y / 2)
  lowest_digit x y =
      let half : suc x / 2 ≤ x = omega arith in
      omega (arith, same_digits (suc x / 2) x (suc x / 2) (y / 2) (le_refl (suc x / 2)) half)

pub bit_or_step : (x y : ℕ) → bit_or x y ≡ max (x % 2) (y % 2) + 2 * bit_or (x / 2) (y / 2)
bit_or_step zero y = rw (bit_or-bitwise 0 y, bit_or-bitwise 0 (y / 2)) (omega arith)
bit_or_step (suc x) y =
    rw (bit_or-bitwise (suc x) y, bit_or-bitwise (suc x / 2) (y / 2))
      (lowest_digit (λ t. t) max x y)

differ_bits : (x y : ℕ) → x < 2 → y < 2 → differ x y ≡ (x + y) % 2
differ_bits zero y p q = omega arith
differ_bits (suc zero) zero p q = refl
differ_bits (suc zero) (suc zero) p q = refl
differ_bits (suc zero) (suc (suc y)) p q = absurd (omega arith)
differ_bits (suc (suc x)) y p q = absurd (omega arith)

pub bit_xor_step : (a b : ℕ) → bit_xor a b ≡ bit_xor (a / 2) (b / 2) * 2 + (a % 2 + b % 2) % 2
bit_xor_step zero b = simp bit_xor-bitwise (omega arith)
bit_xor_step (suc a) b = simp bit_xor-bitwise (
    rw (← differ_bits (suc a % 2) (b % 2) (omega arith) (omega arith))
      (omega (arith, lowest_digit (λ t. t) differ a b)))

-- The recursion goes from `a / 2` and `k / 2` to `a` and `k`, below the bound `n`.
xor_cancel_below : (n a k : ℕ) → a ≤ n → k ≤ n → bit_xor (bit_xor a k) k ≡ a
xor_cancel_below zero zero zero p q = refl
xor_cancel_below zero zero (suc k) p q = absurd (omega arith)
xor_cancel_below zero (suc a) k p q = absurd (omega arith)
xor_cancel_below (suc n) a k p q =
    let half : bit_xor a k / 2 ≡ bit_xor (a / 2) (k / 2) = omega (arith, bit_xor_step a k) in
    omega (
      arith,
      bit_xor_step a k,
      bit_xor_step (bit_xor a k) k,
      ap (λ (t : ℕ). bit_xor t (k / 2)) half,
      xor_cancel_below n (a / 2) (k / 2) (omega arith) (omega arith),
    )

-- Masking twice with one key gives the value back.
pub xor_cancel : (a k : ℕ) → bit_xor (bit_xor a k) k ≡ a
xor_cancel a k = xor_cancel_below (a + k) a k (omega arith) (omega arith)

pub bit_xor-lt : (n a k : ℕ) → a < 2 ^ n → k < 2 ^ n → bit_xor a k < 2 ^ n
bit_xor-lt zero zero zero h g = omega arith
bit_xor-lt zero zero (suc k) h g = absurd (omega arith)
bit_xor-lt zero (suc a) k h g = absurd (omega arith)
bit_xor-lt (suc n) a k h g =
    let e : 2 ^ suc n ≡ 2 * 2 ^ n = omega (arith, pow-suc 2 n) in
    omega (arith, bit_xor_step a k, bit_xor-lt n (a / 2) (k / 2) (omega arith) (omega arith))

bit_or-zero_below : (bound x : ℕ) → x ≤ bound → bit_or x 0 ≡ x
bit_or-zero_below bound zero h = refl
bit_or-zero_below zero (suc x) h = absurd (omega arith)
bit_or-zero_below (suc bound) (suc x) h =
    omega (arith, bit_or_step (suc x) 0, bit_or-zero_below bound (suc x / 2) (omega arith))

bit_or-zero : (x : ℕ) → bit_or x 0 ≡ x
bit_or-zero x = bit_or-zero_below x x (le_refl x)

-- `|` with a mask of `k` ones fills the low bits of a multiple of `2 ^ k`.
pub bit_or_ones : (k m : ℕ) → bit_or (m * 2 ^ k) (2 ^ k - 1) ≡ m * 2 ^ k + (2 ^ k - 1)
bit_or_ones zero m = ground (arith, bit_or-zero m)
bit_or_ones (suc k) m =
    let p : 1 ≤ 2 ^ k = one-le-pow k 2 (omega arith) in
    let e : 2 ^ suc k ≡ 2 * 2 ^ k = omega (arith, pow-suc 2 k) in
    let w : m * 2 ^ suc k ≡ 2 * (m * 2 ^ k) = omega (arith, ap (λ (t : ℕ). m * t) e) in
    let x : m * 2 ^ suc k / 2 ≡ m * 2 ^ k = omega arith in
    let y : (2 ^ suc k - 1) / 2 ≡ 2 ^ k - 1 = omega arith in
    omega (
      arith,
      bit_or_step (m * 2 ^ suc k) (2 ^ suc k - 1),
      ap (λ (t : ℕ). bit_or t ((2 ^ suc k - 1) / 2)) x,
      ap (λ (t : ℕ). bit_or (m * 2 ^ k) t) y,
      bit_or_ones k m,
    )
