-- ===== src/Tests/Zone.antt =====
-- A name in two alphabets.
use zeropentime.Prelude.{ℕ, ◌≤◌, ◌≡◌, refl, List, [], ◌∷◌, length, All, codes, Bytes_discrete}
use zeropentime.Zone.{label, label_loop, is_plain, latin_of, trim_left, trim_right}
use zeropentime.Zone.Label.{IsLabelByte, BeginsPlain, EndsPlain, label-IsLabelByte}

-- "щи x!", in lower case already.
abbrev soup : List ℕ
soup = 1097 ∷ 1080 ∷ 32 ∷ 120 ∷ 33 ∷ []

transliterated : label (λ r. r) soup ≡ codes "schi-x"
unfolding label label_loop is_plain latin_of trim_left trim_right Bytes_discrete
transliterated = refl

label-IsLabelByte_example :
    All IsLabelByte (label (λ r. r) soup)
    × (length (label (λ r. r) soup) ≤ 63)
    × BeginsPlain (label (λ r. r) soup)
    × EndsPlain (label (λ r. r) soup)
label-IsLabelByte_example = label-IsLabelByte (λ r. r) soup
