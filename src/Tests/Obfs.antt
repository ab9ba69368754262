-- ===== src/Tests/Obfs.antt =====
-- A room's parameters from sample bytes, and its tag.
use zeropentime.Obfs.Profile.{header_range, paddings}
use zeropentime.Obfs.Profile.Ranges.{header_range-apart}
use zeropentime.Prelude.{
  ℕ, ◌+◌, ◌^◌, ◌≤◌, ◌<◌, ◌≡◌, ◌⊎◌, List, [], ◌∷◌, ◌++◌, map, arith, refl, replicate,
}

-- The second padding is drawn 56 above the first.
abbrev derived : List ℕ
derived = replicate 36 77 ++ (71 ∷ 127 ∷ replicate 26 5)

-- So it gets the one value beyond the documented bound.
padding_144 : (paddings derived).s2 ≡ 144
unfolding paddings
padding_144 = refl

header_range-apart_example :
    (((header_range derived 0).hi < (header_range derived 3).lo)
      ⊎ ((header_range derived 3).hi < (header_range derived 0).lo))
    × (2 ^ 16 ≤ (header_range derived 0).lo)
    × ((header_range derived 0).lo < (header_range derived 0).hi)
    × ((header_range derived 0).hi < 2 ^ 32)
header_range-apart_example =
    header_range-apart derived 0 3 (omega arith) (omega arith) (λ e. omega arith)

-- In place of AES, a block that is turned round.
abbrev turned : List ℕ → List ℕ
turned b = map (λ (x : ℕ). x + 1) b

abbrev tagged : List ℕ
tagged = 9 ∷ 8 ∷ 7 ∷ 6 ∷ 10 ∷ 9 ∷ 8 ∷ 7 ∷ 1 ∷ []
