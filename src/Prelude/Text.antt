-- ===== src/Prelude/Text.antt =====
-- A Go string is the list of its bytes.
use Prim.Native.Char.{code}
use Prim.Native.Nat.{ℕ}
use Prim.Native.String.{String}
use mathlib.Core.Bool.{Bool, true, false, ◌&&◌, ◌||◌}
use mathlib.Core.List.{List, [], ◌∷◌}
use zeropentime.Prelude.Tests.{◌==◌, is_yes, Bytes_discrete}

-- The bytes of an ASCII literal.
abbrev pub codes : String → List ℕ
codes String.[] = []
codes (String.◌∷◌ c s) = code c ∷ codes s

infix 50 ◌=text◌
abbrev pub ◌=text◌ : List ℕ → List ℕ → Bool
a =text b = is_yes (Bytes_discrete a b)

-- `strings.HasPrefix(s, p)`, `strings.Contains` of one byte, `slices.Contains`.
unfoldable pub has_prefix : List ℕ → List ℕ → Bool
has_prefix s [] = true
has_prefix [] (c ∷ p) = false
has_prefix (b ∷ s) (c ∷ p) = b == c && has_prefix s p

unfoldable pub has_byte : ℕ → List ℕ → Bool
has_byte c [] = false
has_byte c (b ∷ s) = b == c || has_byte c s

unfoldable pub has_text : List (List ℕ) → List ℕ → Bool
has_text [] x = false
has_text (t ∷ ts) x = t =text x || has_text ts x
