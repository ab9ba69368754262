-- ===== src/Zone.antt =====
-- internal/dnsfwd/zone.go: the DNS label of a name. A name is the list of its runes; `unicode.ToLower` is
-- the argument `to_lower`.
pub mod Label
use zeropentime.Prelude.{
  ℕ, Bool, true, false, not, ◌&&◌, ◌||◌, List, [], ◌∷◌, ◌++◌, ltb, leb, ◌==◌, ◌=text◌,
  if◌then◌else◌, length, take, map, codes,
}

-- `translit`, by the code points from а to я.
abbrev pub translit : List (ℕ × List ℕ)
translit =
    (1072, codes "a")
    ∷ (1073, codes "b")
    ∷ (1074, codes "v")
    ∷ (1075, codes "g")
    ∷ (1076, codes "d")
    ∷ (1077, codes "e")
    ∷ (1105, codes "e")
    ∷ (1078, codes "zh")
    ∷ (1079, codes "z")
    ∷ (1080, codes "i")
    ∷ (1081, codes "y")
    ∷ (1082, codes "k")
    ∷ (1083, codes "l")
    ∷ (1084, codes "m")
    ∷ (1085, codes "n")
    ∷ (1086, codes "o")
    ∷ (1087, codes "p")
    ∷ (1088, codes "r")
    ∷ (1089, codes "s")
    ∷ (1090, codes "t")
    ∷ (1091, codes "u")
    ∷ (1092, codes "f")
    ∷ (1093, codes "h")
    ∷ (1094, codes "c")
    ∷ (1095, codes "ch")
    ∷ (1096, codes "sh")
    ∷ (1097, codes "sch")
    ∷ (1099, codes "y")
    ∷ (1101, codes "e")
    ∷ (1102, codes "yu")
    ∷ (1103, codes "ya")
    ∷ []

-- `translit[r]`.
unfoldable pub latin_of : ℕ → List (ℕ × List ℕ) → List ℕ
latin_of r [] = []
latin_of r ((c, s) ∷ table) = let rest = latin_of r table in if c == r then s else rest

unfoldable pub is_plain : ℕ → Bool
is_plain r = (leb b'a' r && leb r b'z') || (leb b'0' r && leb r b'9')

-- The loop over the runes, with what is written and whether a dash is last.
unfoldable pub label_loop : List ℕ → List ℕ → Bool → List ℕ
label_loop [] sb dash = sb
label_loop (r ∷ name) sb dash =
    if is_plain r
    then label_loop name (sb ++ (r ∷ [])) false
    else if not (latin_of r translit =text [])
    then label_loop name (sb ++ latin_of r translit) false
    else if not (sb =text []) && not dash
    then label_loop name (sb ++ (b'-' ∷ [])) true
    else label_loop name sb dash

-- `strings.Trim(s, "-")`.
unfoldable pub trim_left : List ℕ → List ℕ
trim_left [] = []
trim_left (c ∷ s) = let rest = trim_left s in if c == b'-' then rest else c ∷ s

unfoldable pub trim_right : List ℕ → List ℕ
trim_right [] = []
trim_right (c ∷ s) = let rest = trim_right s in if rest =text [] && c == b'-' then [] else c ∷ rest

-- `Label`.
unfoldable pub label : (ℕ → ℕ) → List ℕ → List ℕ
label to_lower name =
    let s = label_loop (map to_lower name) [] false in
    trim_left (trim_right (if ltb 63 (length s) then take 63 s else s))
