-- ===== src/Bencode/Overflow.antt =====
-- A length near 2 ^ 63.
use zeropentime.Bencode.{panics, cut_text, decode_text, decode_at, decode}
use zeropentime.Bencode.Number.{
  pos, itoa, itoa_cons, itoa-IsDigit, format_int, parse_int, parse_int-format_int, index_byte,
  index_byte-append,
}
use zeropentime.Bencode.RoundTrip.{no_colon, decode_at_digit}
use zeropentime.Prelude.{
  ℕ, ◌+◌, ◌≤◌, ◌<◌, ◌^◌, ◌≡◌, refl, sym, ap, subst, ◌∙◌, List, ◌∷◌, ◌++◌, some, length, arith, take,
  take-append_exact,
}

text_panics :
    (b : List ℕ) (colon n : ℕ)
    → index_byte b':' b ≡ some colon
    → 1 ≤ colon
    → parse_int (take colon b) ≡ some (pos n)
    → 2 ^ 63 ≤ colon + 1 + n
    → decode_text b ≡ panics
unfolding decode_text cut_text
text_panics b colon n e some_digits e_n big = ground (arith, e, e_n)

-- A string whose length is an `int64`, but with its prefix is none, makes `Decode` panic.
pub decode_panics :
    (n : ℕ) (rest : List ℕ)
    → n < 2 ^ 63
    → 2 ^ 63 ≤ length (itoa n) + 1 + n
    → decode (itoa n ++ (b':' ∷ rest)) ≡ panics
unfolding decode format_int
decode_panics n rest fits big =
    let d = itoa n in
    let b = b':' ∷ rest in
    let (c, t, e, digit) = itoa_cons n in
    let some_digits : 1 ≤ length d = subst (λ (x : List ℕ). 1 ≤ length x) (sym e) (omega arith) in
    let panicked : decode_text (d ++ b) ≡ panics =
      text_panics (d ++ b) (length d) n
        (index_byte-append b':' d rest (no_colon d (itoa-IsDigit n))) some_digits
        (ap parse_int (take-append_exact (length d) d b refl) ∙ parse_int-format_int (pos n) fits)
        big in
    let outcome : decode_at 33 (d ++ b) ≡ panics =
      ap (λ (x : List ℕ). decode_at 33 (x ++ b)) e
      ∙ decode_at_digit 32 c (t ++ b) digit
      ∙ ap (λ (x : List ℕ). decode_text (x ++ b)) (sym e)
      ∙ panicked in
    rw (outcome, decode) refl
