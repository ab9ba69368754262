-- ===== src/Bencode/RoundTrip.antt =====
-- A canonical value is decoded from its bytes, and what follows stays.
use mathlib.Core.List.{append_assoc}
use zeropentime.Bencode.{
  text, int, ok, encode_text, encode, decode_int, cut_text, decode_text, decode_at,
}
use zeropentime.Bencode.Number.{
  ℤ, pos, negsuc, itoa, itoa_cons, itoa-IsDigit, length-itoa, format_int, parse_int,
  parse_int-format_int, index_byte, index_byte-append, IsDigit, IsInt64,
}
use zeropentime.Bencode.Sizes.{IsSized}
use zeropentime.Prelude.{
  ℕ, suc, ◌+◌, ◌≤◌, ◌<◌, ◌^◌, ◌≡◌, ◌≢◌, refl, sym, ap, subst, ◌∙◌, List, [], ◌∷◌, ◌++◌, some,
  length, arith, take, drop, All, All-weaken, take-append_exact, drop-append_exact, length-append,
}

pub no_colon : (s : List ℕ) → All IsDigit s → All (λ x. x ≢ b':') s
no_colon = All-weaken IsDigit (λ x. x ≢ b':') (λ x d e. ground (arith, d, e))

no_end : (s : List ℕ) → All IsDigit s → All (λ x. x ≢ b'e') s
no_end = All-weaken IsDigit (λ x. x ≢ b'e') (λ x d e. ground (arith, d, e))

text_parts :
    (b : List ℕ) (colon n : ℕ) (s rest : List ℕ)
    → index_byte b':' b ≡ some colon
    → 1 ≤ colon
    → parse_int (take colon b) ≡ some (pos n)
    → colon + 1 + n < 2 ^ 63
    → colon + 1 + n ≤ length b
    → take n (drop (colon + 1) b) ≡ s
    → drop (colon + 1 + n) b ≡ rest
    → decode_text b ≡ ok (text s) rest
unfolding decode_text cut_text
text_parts b colon n s rest e some_digits e_n small inside e_s e_rest =
    ground (arith, e, e_n, e_s, e_rest)

-- A string comes back.
decode_text-encode_text :
    (s rest : List ℕ)
    → IsSized s
    → decode_text (itoa (length s) ++ (b':' ∷ (s ++ rest))) ≡ ok (text s) rest
unfolding format_int
decode_text-encode_text s rest sized =
    let n = length s in
    let d = itoa n in
    let b = d ++ (b':' ∷ (s ++ rest)) in
    let (c, t, e, digit) = itoa_cons n in
    let some_digits : 1 ≤ length d = subst (λ (x : List ℕ). 1 ≤ length x) (sym e) (omega arith) in
    let behind : drop (length d + 1) b ≡ s ++ rest =
      ap (drop (length d + 1)) (sym (append_assoc d (b':' ∷ []) (s ++ rest)))
      ∙ drop-append_exact (length d + 1) (d ++ (b':' ∷ [])) (s ++ rest)
          (length-append d (b':' ∷ [])) in
    let whole : b ≡ (d ++ (b':' ∷ s)) ++ rest = sym (append_assoc d (b':' ∷ s) rest) in
    let size : length (d ++ (b':' ∷ s)) ≡ length d + 1 + n =
      omega (arith, length-append d (b':' ∷ s)) in
    text_parts b (length d) n s rest
      (index_byte-append b':' d (s ++ rest) (no_colon d (itoa-IsDigit n))) some_digits
      (ap parse_int (take-append_exact (length d) d (b':' ∷ (s ++ rest)) refl)
        ∙ parse_int-format_int (pos n) (omega arith))
      (omega (arith, length-itoa n))
      (omega (arith, ap length whole, length-append (d ++ (b':' ∷ s)) rest, size))
      (ap (take n) behind ∙ take-append_exact n s rest refl)
      (ap (drop (length d + 1 + n)) whole
        ∙ drop-append_exact (length d + 1 + n) (d ++ (b':' ∷ s)) rest size)

pub decode_at_digit :
    (levels c : ℕ) (b : List ℕ) → IsDigit c → decode_at (suc levels) (c ∷ b) ≡ decode_text (c ∷ b)
unfolding decode_at
decode_at_digit levels c b digit = ground arith

-- A string at any depth that is left.
pub decode_at_text :
    (levels : ℕ) (s rest : List ℕ)
    → IsSized s
    → decode_at (suc levels) (encode_text s ++ rest) ≡ ok (text s) rest
unfolding encode_text
decode_at_text levels s rest sized =
    let (c, t, e, digit) = itoa_cons (length s) in
    let b = b':' ∷ (s ++ rest) in
    ap (decode_at (suc levels))
      ((append_assoc (itoa (length s)) (b':' ∷ s) rest) ∙ ap (λ (x : List ℕ). x ++ b) e)
    ∙ decode_at_digit levels c (t ++ b) digit
    ∙ ap (λ (x : List ℕ). decode_text (x ++ b)) (sym e)
    ∙ decode_text-encode_text s rest sized

int_parts :
    (b : List ℕ) (k : ℕ) (n : ℤ) (rest : List ℕ)
    → index_byte b'e' b ≡ some k
    → 2 ≤ k
    → parse_int (drop 1 (take k b)) ≡ some n
    → drop (k + 1) b ≡ rest
    → decode_int b ≡ ok (int n) rest
unfolding decode_int
int_parts b k n rest e long e_n e_rest = ground (arith, e, e_n, e_rest)

-- The text of an integer is not empty, and has no `e`.
format_int_plain : (n : ℤ) → (1 ≤ length (format_int n)) × All (λ x. x ≢ b'e') (format_int n)
unfolding format_int
format_int_plain (pos n) =
    let (c, t, e, digit) = itoa_cons n in
    (subst (λ (x : List ℕ). 1 ≤ length x) (sym e) (omega arith), no_end (itoa n) (itoa-IsDigit n))
format_int_plain (negsuc n) =
    (omega arith, ((λ e. absurd (omega (arith, e))), no_end (itoa (n + 1)) (itoa-IsDigit (n + 1))))

pub decode_at_int :
    (levels : ℕ) (n : ℤ) (rest : List ℕ)
    → IsInt64 n
    → decode_at (suc levels) (encode (int n) ++ rest) ≡ ok (int n) rest
unfolding decode_at encode
decode_at_int levels n rest fits =
    let d = b'i' ∷ format_int n in
    let (long, plain) = format_int_plain n in
    let whole : encode (int n) ++ rest ≡ d ++ (b'e' ∷ rest) = (append_assoc d (b'e' ∷ []) rest) in
    let back : decode_int (d ++ (b'e' ∷ rest)) ≡ ok (int n) rest =
      int_parts (d ++ (b'e' ∷ rest)) (length d) n rest
        (index_byte-append b'e' d rest ((λ e. absurd (omega (arith, e))), plain))
        (omega (arith, long))
        (ap (λ (x : List ℕ). parse_int (drop 1 x))
            (take-append_exact (length d) d (b'e' ∷ rest) refl)
          ∙ parse_int-format_int n fits)
        (ap (drop (length d + 1)) (sym (append_assoc d (b'e' ∷ []) rest))
          ∙ drop-append_exact (length d + 1) (d ++ (b'e' ∷ [])) rest
              (length-append d (b'e' ∷ []))) in
    ap decode_int whole ∙ back
