-- ===== src/Update.antt =====
-- internal/update/update.go: which of two releases is newer.
pub mod Order
use zeropentime.Bencode.{lt_text}
use zeropentime.Bencode.Number.{ℤ, pos, negsuc, parse_int}
use zeropentime.Prelude.{
  ℕ, Bool, true, false, not, List, [], ◌∷◌, Option, none, some, ltb, ◌==◌, ◌=text◌, if◌then◌else◌,
}

-- `version`: the three numbers, and what stands behind the dash.
pub record Version : Type 0 where
  pub major : ℕ
  pub minor : ℕ
  pub patch : ℕ
  pub pre : List ℕ

-- `strings.TrimPrefix(s, "v")`.
unfoldable pub without_v : List ℕ → List ℕ
without_v [] = []
without_v (c ∷ s) = if c == b'v' then s else c ∷ s

-- `strings.Cut(s, "-")`.
unfoldable pub cut_dash : List ℕ → List ℕ × List ℕ
cut_dash [] = ([], [])
cut_dash (c ∷ s) =
    let (before, after) = cut_dash s in if c == b'-' then ([], s) else (c ∷ before, after)

unfoldable pub onto_first : ℕ → List (List ℕ) → List (List ℕ)
onto_first c [] = (c ∷ []) ∷ []
onto_first c (p ∷ parts) = (c ∷ p) ∷ parts

-- `strings.Split(s, ".")`.
unfoldable pub split_dots : List ℕ → List (List ℕ)
split_dots [] = [] ∷ []
split_dots (c ∷ s) =
    let parts = split_dots s in if c == b'.' then [] ∷ parts else onto_first c parts

-- `strconv.Atoi`, and not negative.
unfoldable pub part_of : Option ℤ → Option ℕ
part_of none = none
part_of (some (pos n)) = some n
part_of (some (negsuc n)) = none

-- The three parts, if each is a number.
unfoldable pub numbers_of : List ℕ → Option ℕ → Option ℕ → Option ℕ → Option Version
numbers_of pre (some x) (some y) (some z) =
    some (record { major = x; minor = y; patch = z; pre = pre })
numbers_of pre _ _ _ = none

unfoldable pub version_of : List ℕ → List (List ℕ) → Option Version
version_of pre (a ∷ b ∷ c ∷ []) =
    numbers_of pre (part_of (parse_int a)) (part_of (parse_int b)) (part_of (parse_int c))
version_of pre _ = none

-- `parseVersion`.
unfoldable pub parse_version : List ℕ → Option Version
parse_version s = let (numbers, pre) = cut_dash (without_v s) in version_of pre (split_dots numbers)

unfoldable pub is_blank : List ℕ → Bool
is_blank [] = true
is_blank (c ∷ s) = false

-- The switch of `Newer`.
unfoldable pub newer_pre : List ℕ → List ℕ → Bool
newer_pre p q =
    if p =text q
    then false
    else if is_blank p
    then true
    else if is_blank q
    then false
    else lt_text q p

unfoldable pub newer_version : Version → Version → Bool
newer_version a b =
    if not (a.major == b.major)
    then ltb b.major a.major
    else if not (a.minor == b.minor)
    then ltb b.minor a.minor
    else if not (a.patch == b.patch)
    then ltb b.patch a.patch
    else newer_pre a.pre b.pre

-- `Newer`.
unfoldable pub newer : List ℕ → List ℕ → Bool
newer a b = elim (parse_version a) [
  | none ↦ false
  | some va ↦ elim (parse_version b) [ none ↦ true | some vb ↦ newer_version va vb ]
]
