-- ===== src/Obfs/Profile/Ranges.antt =====
-- The header ranges of a room: apart from one another and from WireGuard's own values.
use zeropentime.Obfs.Profile.{Range, quarter, shuffled, order, range_in, header_range}
use zeropentime.Prelude.Finite.{holds_below, holds_below→}
use zeropentime.Prelude.{
  ℕ, ◌+◌, ◌*◌, ◌%◌, ◌^◌, ◌≤◌, ◌<◌, ◌≡◌, ◌≢◌, ◌⊎◌, refl, sym, Bool, true, ◌&&◌, ◌||◌, List, get_or,
  byte_at, u32_at, ltb, ◌==◌, arith, not,
}

-- A range keeps inside its quarter, and above 2 ^ 16.
range_in_bounds :
    (q w x : ℕ)
    → q < 4
    → (q * quarter ≤ (range_in q w x).lo)
      × (2 ^ 16 ≤ (range_in q w x).lo)
      × ((range_in q w x).lo < (range_in q w x).hi)
      × ((range_in q w x).hi < (q + 1) * quarter)
unfolding range_in
range_in_bounds q w x h = ground arith

-- Ranges inside two different quarters.
quarters_apart :
    (q k : ℕ) (a b : Range)
    → q < 4
    → k < 4
    → q ≢ k
    → (q * quarter ≤ a.lo) × (2 ^ 16 ≤ a.lo) × (a.lo < a.hi) × (a.hi < (q + 1) * quarter)
    → (k * quarter ≤ b.lo) × (2 ^ 16 ≤ b.lo) × (b.lo < b.hi) × (b.hi < (k + 1) * quarter)
    → ((a.hi < b.lo) ⊎ (b.hi < a.lo)) × (2 ^ 16 ≤ a.lo) × (a.lo < a.hi) × (a.hi < 2 ^ 32)
quarters_apart q k a b hq hk ne in_a in_b = omega arith

-- The shuffle leaves four different quarters.
apart : ℕ → ℕ → ℕ → ℕ → ℕ → Bool
apart j3 j2 j1 i k =
    ltb (get_or (shuffled j3 j2 j1) i 0) 4
    && (i == k || not (get_or (shuffled j3 j2 j1) i 0 == get_or (shuffled j3 j2 j1) k 0))

all_apart :
    holds_below
      (λ j3.
        holds_below
          (λ j2. holds_below (λ j1. holds_below (λ i. holds_below (λ k. apart j3 j2 j1 i k) 4) 4) 2)
          3)
      4
    ≡ true
unfolding holds_below apart shuffled
all_apart = refl

order_apart :
    (r : List ℕ) (i k : ℕ)
    → i < 4
    → k < 4
    → i ≢ k
    → (get_or (order r) i 0 < 4) × (get_or (order r) i 0 ≢ get_or (order r) k 0)
unfolding order apart
order_apart r i k hi hk ne =
    let a = byte_at r 3 % 4 in
    let b = byte_at r 2 % 3 in
    let c = byte_at r 1 % 2 in
    let e : apart a b c i k ≡ true =
      holds_below→ _ 4
        (holds_below→ _ 4
          (holds_below→ _ 2
            (holds_below→ _ 3 (holds_below→ _ 4 all_apart a (omega arith)) b (omega arith)) c
            (omega arith))
          i hi)
        k hk in
    ground arith

-- Whatever the derived bytes, two of a room's four header ranges have no value in common, each lies
-- in the 32-bit numbers above 2 ^ 16 (so none holds 1 to 4, the types of plain WireGuard), and none
-- is empty.
pub header_range-apart :
    (r : List ℕ) (i k : ℕ)
    → i < 4
    → k < 4
    → i ≢ k
    → (((header_range r i).hi < (header_range r k).lo)
        ⊎ ((header_range r k).hi < (header_range r i).lo))
      × (2 ^ 16 ≤ (header_range r i).lo)
      × ((header_range r i).lo < (header_range r i).hi)
      × ((header_range r i).hi < 2 ^ 32)
unfolding header_range
header_range-apart r i k hi hk ne =
    let (in_i, ne') = order_apart r i k hi hk ne in
    let (in_k, _) = order_apart r k i hk hi (λ e. ne (sym e)) in
    let a =
      range_in_bounds (get_or (order r) i 0) (u32_at r (4 + 4 * i)) (u32_at r (20 + 4 * i)) in_i in
    let b =
      range_in_bounds (get_or (order r) k 0) (u32_at r (4 + 4 * k)) (u32_at r (20 + 4 * k)) in_k in
    quarters_apart _ _ _ _ in_i in_k ne' a b
