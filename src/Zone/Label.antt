-- ===== src/Zone/Label.antt =====
-- What `Label` gives can stand in a DNS name.
use zeropentime.Prelude.{
  ℕ, zero, suc, ◌≤◌, ◌≡◌, ◌≢◌, ◌⊎◌, inl, inr, refl, Bool, true, false, not, ◌&&◌, List, [], ◌∷◌,
  arith, length, length-take, take, map, All, All-append, Bool-cases, ltb, ◌==◌, ◌=text◌,
  if◌then◌else◌,
}
use zeropentime.Zone.{translit, latin_of, is_plain, label_loop, trim_left, trim_right, label}

-- A lower case Latin letter, a digit or a dash.
abbrev pub IsLabelByte : ℕ → Type 0
IsLabelByte c = (is_plain c ≡ true) ⊎ (c ≡ b'-')

in_table :
    (r : ℕ) (table : List (ℕ × List ℕ))
    → All (λ (e : ℕ × List ℕ). All IsLabelByte e.1) table
    → All IsLabelByte (latin_of r table)
unfolding latin_of
in_table r [] h = tt
in_table r ((c, s) ∷ table) (one, rest) = elim (Bool-cases (c == r)) [
  | inl this ↦ rw (this, latin_of) one
  | inr other ↦ rw (other, latin_of) (in_table r table rest)
]

latin_of-IsLabelByte : (r : ℕ) → All IsLabelByte (latin_of r translit)
latin_of-IsLabelByte r = in_table r translit (unfold is_plain in ground arith)

label_loop-IsLabelByte :
    (name sb : List ℕ) (dash : Bool)
    → All IsLabelByte sb
    → All IsLabelByte (label_loop name sb dash)
unfolding label_loop
label_loop-IsLabelByte [] sb dash h = h
label_loop-IsLabelByte (r ∷ name) sb dash h = elim (Bool-cases (is_plain r)) [
  | inl plain ↦
      rw (plain, label_loop)
        (label_loop-IsLabelByte name _ false (All-append IsLabelByte sb (r ∷ []) h (inl plain, tt)))
  | inr other ↦ elim (Bool-cases (not (latin_of r translit =text []))) [
    | inl latin ↦
        rw (other, latin, label_loop)
          (label_loop-IsLabelByte name _ false
            (All-append IsLabelByte sb (latin_of r translit) h (latin_of-IsLabelByte r)))
    | inr strange ↦ elim (Bool-cases (not (sb =text []) && not dash)) [
      | inl first ↦
          rw (other, strange, first, label_loop)
            (label_loop-IsLabelByte name _ true
              (All-append IsLabelByte sb (b'-' ∷ []) h (inr refl, tt)))
      | inr again ↦ rw (other, strange, again, label_loop) (label_loop-IsLabelByte name sb dash h)
    ]
  ]
]

-- The first byte is no dash; the last byte is none.
abbrev pub BeginsPlain : List ℕ → Type 0
BeginsPlain [] = Unit
BeginsPlain (c ∷ s) = c ≢ b'-'

abbrev pub EndsPlain : List ℕ → Type 0
EndsPlain [] = Unit
EndsPlain (c ∷ []) = c ≢ b'-'
EndsPlain (c ∷ d ∷ s) = EndsPlain (d ∷ s)

EndsPlain-tail : (c : ℕ) (s : List ℕ) → EndsPlain (c ∷ s) → EndsPlain s
EndsPlain-tail c [] h = tt
EndsPlain-tail c (d ∷ s) h = h

EndsPlain-cons : (c : ℕ) (s : List ℕ) → EndsPlain s → s ≢ [] → EndsPlain (c ∷ s)
EndsPlain-cons c [] h ne = absurd (ne refl)
EndsPlain-cons c (d ∷ s) h ne = h

trim_right-EndsPlain : (s : List ℕ) → EndsPlain (trim_right s)
unfolding trim_right
trim_right-EndsPlain [] = tt
trim_right-EndsPlain (c ∷ s) = elim (Bool-cases (trim_right s =text [])) [
  | inr more ↦
      rw (more, trim_right)
        (EndsPlain-cons c (trim_right s) (trim_right-EndsPlain s) (λ e. ground (arith, more, e)))
  | inl last ↦
      let none_left : trim_right s ≡ [] = ground (arith, last) in
      elim (Bool-cases (c == b'-')) [
        | inl dash ↦ rw (last, dash, trim_right) tt
        | inr plain ↦ rw (last, plain, none_left, trim_right) (λ e. ground (arith, plain, e))
      ]
]

trim_left-BeginsPlain :
    (s : List ℕ) → EndsPlain s → BeginsPlain (trim_left s) × EndsPlain (trim_left s)
unfolding trim_left
trim_left-BeginsPlain [] h = (tt, tt)
trim_left-BeginsPlain (c ∷ s) h = elim (Bool-cases (c == b'-')) [
  | inl dash ↦ rw (dash, trim_left) (trim_left-BeginsPlain s (EndsPlain-tail c s h))
  | inr plain ↦ rw (plain, trim_left) ((λ e. ground (arith, plain, e)), h)
]

trim_left-All :
    (s : List ℕ)
    → All IsLabelByte s
    → All IsLabelByte (trim_left s) × (length (trim_left s) ≤ length s)
unfolding trim_left
trim_left-All [] h = (tt, omega arith)
trim_left-All (c ∷ s) (one, rest) = elim (Bool-cases (c == b'-')) [
  | inl dash ↦
      let (all, few) = trim_left-All s rest in rw (dash, trim_left) (all, omega (arith, few))
  | inr plain ↦ rw (plain, trim_left) ((one, rest), omega arith)
]

trim_right-All :
    (s : List ℕ)
    → All IsLabelByte s
    → All IsLabelByte (trim_right s) × (length (trim_right s) ≤ length s)
unfolding trim_right
trim_right-All [] h = (tt, omega arith)
trim_right-All (c ∷ s) (one, rest) =
    let (all, few) = trim_right-All s rest in
    elim (Bool-cases (trim_right s =text [] && c == b'-')) [
      | inl last ↦ rw (last, trim_right) (tt, omega arith)
      | inr more ↦ rw (more, trim_right) ((one, all), omega (arith, few))
    ]

take-All : (n : ℕ) (s : List ℕ) → All IsLabelByte s → All IsLabelByte (take n s)
take-All zero s h = tt
take-All (suc n) [] h = tt
take-All (suc n) (c ∷ s) (one, rest) = (one, take-All n s rest)

cut : List ℕ → List ℕ
cut s = if ltb 63 (length s) then take 63 s else s

cut-All : (s : List ℕ) → All IsLabelByte s → All IsLabelByte (cut s) × (length (cut s) ≤ 63)
unfolding cut
cut-All s h = elim (Bool-cases (ltb 63 (length s))) [
  | inl long ↦ rw long (take-All 63 s h, omega (arith, length-take 63 s))
  | inr short ↦ rw short (h, ground (arith, short))
]

-- A label has at most 63 bytes, all of them lower case Latin letters, digits and dashes, and neither
-- begins nor ends with a dash.
pub label-IsLabelByte :
    (to_lower : ℕ → ℕ) (name : List ℕ)
    → All IsLabelByte (label to_lower name)
      × (length (label to_lower name) ≤ 63)
      × BeginsPlain (label to_lower name)
      × EndsPlain (label to_lower name)
unfolding label cut
label-IsLabelByte to_lower name =
    let s = label_loop (map to_lower name) [] false in
    let (all, few) = cut-All s (label_loop-IsLabelByte (map to_lower name) [] false tt) in
    let (all', few') = trim_right-All (cut s) all in
    let (all'', few'') = trim_left-All (trim_right (cut s)) all' in
    let (begins, ends) =
      trim_left-BeginsPlain (trim_right (cut s)) (trim_right-EndsPlain (cut s)) in
    (all'', omega (arith, few, few', few''), begins, ends)
