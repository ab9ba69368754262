-- ===== src/Bencode/Number.antt =====
-- What bencode.go uses of strconv and bytes: decimal numbers, and the first place of a byte.
use zeropentime.Prelude.{
  ℕ, zero, suc, ◌+◌, ◌-◌, ◌*◌, ◌/◌, ◌%◌, ◌^◌, ◌≤◌, ◌<◌, ◌≡◌, ◌≢◌, refl, sym, subst, ap, ◌∙◌, inl,
  inr, Bool, true, false, ◌||◌, List, [], ◌∷◌, ◌++◌, Option, none, some, ltb, leb, ◌==◌,
  if◌then◌else◌, length, arith, All, All-append, Option-cases, Bool-cases, length-append,
}

-- `int64`, from -2 ^ 63 to 2 ^ 63 - 1 where it is in range.
pub data ℤ : Type 0 where
  pos : ℕ → ℤ
  negsuc : ℕ → ℤ

-- The digits of a number, with fuel that the number itself is enough for.
unfoldable pub digits : ℕ → ℕ → List ℕ
digits zero n = (b'0' + n % 10) ∷ []
digits (suc fuel) n =
    let more = digits fuel (n / 10) in
    if ltb n 10 then (b'0' + n) ∷ [] else more ++ ((b'0' + n % 10) ∷ [])

-- `strconv.Itoa` of a number that is not negative.
unfoldable pub itoa : ℕ → List ℕ
itoa n = digits n n

-- `strconv.FormatInt`.
unfoldable pub format_int : ℤ → List ℕ
format_int (pos n) = itoa n
format_int (negsuc n) = b'-' ∷ itoa (n + 1)

-- `strconv.ParseUint`, base 10, 64 bits.
unfoldable pub scan : List ℕ → ℕ → Option ℕ
scan [] n = some n
scan (c ∷ s) n =
    let next = n * 10 + (c - b'0') in
    let rest = scan s next in
    if ltb c b'0' || ltb b'9' c then none else if leb (2 ^ 64) next then none else rest

unfoldable pub parse_uint : List ℕ → Option ℕ
parse_uint [] = none
parse_uint (c ∷ s) = scan (c ∷ s) 0

unfoldable pub negated : ℕ → ℤ
negated zero = pos 0
negated (suc n) = negsuc n

unfoldable pub signed : Bool → Option ℕ → Option ℤ
signed minus none = none
signed false (some n) = if leb (2 ^ 63) n then none else some (pos n)
signed true (some n) = if ltb (2 ^ 63) n then none else some (negated n)

-- `strconv.ParseInt`, base 10, 64 bits, and `strconv.Atoi`.
unfoldable pub parse_int : List ℕ → Option ℤ
parse_int [] = none
parse_int (c ∷ s) =
    if c == b'-'
    then signed true (parse_uint s)
    else if c == b'+'
    then signed false (parse_uint s)
    else signed false (parse_uint (c ∷ s))

-- `bytes.IndexByte`.
unfoldable pub index_byte : ℕ → List ℕ → Option ℕ
index_byte c [] = none
index_byte c (x ∷ xs) = elim (index_byte c xs) [
  | none ↦ if x == c then some 0 else none
  | some k ↦ if x == c then some 0 else some (suc k)
]

abbrev pub IsDigit : ℕ → Type 0
IsDigit c = (b'0' ≤ c) × (c ≤ b'9')

digits-IsDigit : (fuel n : ℕ) → All IsDigit (digits fuel n)
unfolding digits
digits-IsDigit zero n = omega arith
digits-IsDigit (suc fuel) n = elim (Bool-cases (ltb n 10)) [
  | inl small ↦ rw (small, digits) (ground arith)
  | inr big ↦
      rw (big, digits)
        (All-append IsDigit (digits fuel (n / 10)) _ (digits-IsDigit fuel (n / 10)) (omega arith))
]

pub itoa-IsDigit : (n : ℕ) → All IsDigit (itoa n)
unfolding itoa
itoa-IsDigit n = digits-IsDigit n n

scan-append :
    (s : List ℕ) (c n k : ℕ)
    → scan s n ≡ some k
    → IsDigit c
    → k * 10 + (c - b'0') < 2 ^ 64
    → scan (s ++ (c ∷ [])) n ≡ some (k * 10 + (c - b'0'))
unfolding scan
scan-append [] c n k e d fits = ground arith
scan-append (x ∷ s) c n k e d fits = ground (arith, e, scan-append s c (n * 10 + (x - b'0')) k)

scan-digits : (fuel n : ℕ) → n ≤ fuel → n < 2 ^ 64 → scan (digits fuel n) 0 ≡ some n
unfolding digits
scan-digits zero n h fits = unfold scan in ground arith
scan-digits (suc fuel) n h fits = elim (Bool-cases (ltb n 10)) [
  | inl small ↦ rw (small, digits) (unfold scan in ground arith)
  | inr big ↦
      let before = scan-digits fuel (n / 10) (omega arith) (omega arith) in
      rw (big, digits)
        (scan-append (digits fuel (n / 10)) (b'0' + n % 10) 0 (n / 10) before (omega arith)
            (omega arith)
          ∙ ap some (omega arith))
]

digits_cons : (fuel n : ℕ) → (c : ℕ) × (s : List ℕ) × (digits fuel n ≡ c ∷ s)
unfolding digits
digits_cons zero n = (b'0' + n % 10, [], refl)
digits_cons (suc fuel) n = elim (Bool-cases (ltb n 10)) [
  | inl small ↦ (b'0' + n, [], rw (small, digits) refl)
  | inr big ↦
      let (c, s, e) = digits_cons fuel (n / 10) in
      (
        c,
        s ++ ((b'0' + n % 10) ∷ []),
        rw (big, digits) (ap (λ (x : List ℕ). x ++ ((b'0' + n % 10) ∷ [])) e),
      )
]

-- The text of a number begins with a digit.
pub itoa_cons : (n : ℕ) → (c : ℕ) × (s : List ℕ) × (itoa n ≡ c ∷ s) × IsDigit c
unfolding itoa
itoa_cons n =
    let (c, s, e) = digits_cons n n in (c, s, e, (subst (All IsDigit) e (digits-IsDigit n n)).0)

parse_uint-itoa : (n : ℕ) → n < 2 ^ 64 → parse_uint (itoa n) ≡ some n
unfolding itoa parse_uint
parse_uint-itoa n fits =
    let (c, s, e) = digits_cons n n in
    rw e (ap (λ (x : List ℕ). scan x 0) (sym e) ∙ scan-digits n n (omega arith) fits)

-- In the range of `int64`.
abbrev pub IsInt64 : ℤ → Type 0
IsInt64 (pos n) = n < 2 ^ 63
IsInt64 (negsuc n) = n < 2 ^ 63

parse_positive :
    (n c : ℕ) (s : List ℕ)
    → itoa n ≡ c ∷ s
    → IsDigit c
    → n < 2 ^ 63
    → parse_int (itoa n) ≡ some (pos n)
unfolding parse_int signed
parse_positive n c s e d fits =
    let whole : parse_uint (c ∷ s) ≡ some n =
      ap parse_uint (sym e) ∙ parse_uint-itoa n (omega arith) in
    ap parse_int e ∙ ground (arith, whole)

-- An integer is read back from its text.
pub parse_int-format_int : (n : ℤ) → IsInt64 n → parse_int (format_int n) ≡ some n
unfolding format_int parse_int signed negated
parse_int-format_int (pos n) fits = let (c, s, e, d) = itoa_cons n in parse_positive n c s e d fits
parse_int-format_int (negsuc n) fits =
    let whole = parse_uint-itoa (suc n) (omega arith) in ground (arith, whole)

-- The first place of a byte that what is before has not.
pub index_byte-append :
    (c : ℕ) (xs ys : List ℕ)
    → All (λ x. x ≢ c) xs
    → index_byte c (xs ++ (c ∷ ys)) ≡ some (length xs)
unfolding index_byte
index_byte-append c [] ys h = elim (Option-cases (index_byte c ys)) [
  | inl e ↦ ground (arith, e)
  | inr (k, e) ↦ ground (arith, e)
]
index_byte-append c (x ∷ xs) ys (one, rest) = ground (arith, index_byte-append c xs ys rest)

length-digits : (fuel k : ℕ) → length (digits fuel k) ≤ fuel + 1
unfolding digits
length-digits zero k = omega arith
length-digits (suc fuel) k = ground (
  arith,
  length-digits fuel (k / 10),
  length-append (digits fuel (k / 10)) ((b'0' + k % 10) ∷ []),
)

pub length-itoa : (n : ℕ) → length (itoa n) ≤ n + 1
unfolding itoa
length-itoa n = length-digits n n
