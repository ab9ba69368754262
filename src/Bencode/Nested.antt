-- ===== src/Bencode/Nested.antt =====
-- The loops of `decode` read back what the loops of `encode` wrote.
use mathlib.Core.List.{append_assoc, append-nil}
use zeropentime.Bencode.{
  Value, Values, Entries, text, int, list, dict, nil, cons, end, entry, Decoded, ok, encode_text,
  join, encode, encode_values, list_loop, dict_loop, decode_at, decode, snoc, put_entry,
}
use zeropentime.Bencode.Number.{itoa_cons}
use zeropentime.Bencode.RoundTrip.{decode_at_text, decode_at_int}
use zeropentime.Bencode.Sizes.{
  depth, depth_values, depth_entries, IsCanonical, AllCanonical, IsOrdered, append_values,
  append_entries, append_values-snoc, append_entries-put_entry, AreFresh, AreFresh-put_entry,
  AreFresh-end, pairs_of, sorted_pairs-IsOrdered,
}
use zeropentime.Prelude.{
  ℕ, zero, suc, ◌≤◌, ◌≡◌, ◌≢◌, refl, sym, ap, subst, ◌∙◌, List, [], ◌∷◌, ◌++◌, length, arith,
  length-append,
}

append_values_end : (vs : Values) → append_values vs nil ≡ vs
unfolding append_values
append_values_end nil = refl
append_values_end (cons v vs) = ap (cons v) (append_values_end vs)

append_entries_end : (es : Entries) → append_entries es end ≡ es
unfolding append_entries
append_entries_end end = refl
append_entries_end (entry k v es) = ap (entry k v) (append_entries_end es)

depth_positive : (v : Value) → 1 ≤ depth v
unfolding depth
depth_positive (text s) = omega arith
depth_positive (int n) = omega arith
depth_positive (list vs) = omega arith
depth_positive (dict es) = omega arith

-- No value begins with the byte that ends a list.
abbrev Begins : List ℕ → Type 0
Begins b = (c : ℕ) × (t : List ℕ) × (b ≡ c ∷ t) × (c ≢ b'e')

text-Begins : (s : List ℕ) → Begins (encode_text s)
unfolding encode_text
text-Begins s =
    let (c, t, e, digit) = itoa_cons (length s) in
    (c, t ++ (b':' ∷ s), ap (λ (x : List ℕ). x ++ (b':' ∷ s)) e, λ e'. ground (arith, digit, e'))

encode-Begins : (v : Value) → Begins (encode v)
unfolding encode
encode-Begins (text s) = text-Begins s
encode-Begins (int n) = (_, _, refl, λ e. absurd (omega (arith, e)))
encode-Begins (list vs) = (_, _, refl, λ e. absurd (omega (arith, e)))
encode-Begins (dict es) = (_, _, refl, λ e. absurd (omega (arith, e)))

module _ (one : List ℕ → Decoded) where
  list_step :
      (fuel : ℕ) (out : Values) (b rest tail : List ℕ) (v : Value)
      → Begins b
      → one (b ++ tail) ≡ ok v rest
      → list_loop one (suc fuel) out (b ++ tail) ≡ list_loop one fuel (snoc out v) rest
  unfolding list_loop
  list_step fuel out b rest tail v (c, t, e, other) read =
      let read' : one (c ∷ (t ++ tail)) ≡ ok v rest =
        ap (λ (x : List ℕ). one (x ++ tail)) (sym e) ∙ read in
      ap (λ (x : List ℕ). list_loop one (suc fuel) out (x ++ tail)) e ∙ ground (arith, read', other)

  dict_step :
      (fuel : ℕ) (out : Entries) (b rest rest' tail : List ℕ) (k : List ℕ) (v : Value)
      → Begins b
      → one (b ++ tail) ≡ ok (text k) rest
      → one rest ≡ ok v rest'
      → dict_loop one (suc fuel) out (b ++ tail) ≡ dict_loop one fuel (put_entry k v out) rest'
  unfolding dict_loop
  dict_step fuel out b rest rest' tail k v (c, t, e, other) read_key read =
      let read' : one (c ∷ (t ++ tail)) ≡ ok (text k) rest =
        ap (λ (x : List ℕ). one (x ++ tail)) (sym e) ∙ read_key in
      ap (λ (x : List ℕ). dict_loop one (suc fuel) out (x ++ tail)) e
      ∙ ground (arith, read', read, other)

Begins-length : (b : List ℕ) → Begins b → 1 ≤ length b
Begins-length b (c, t, e, other) = subst (λ (x : List ℕ). 1 ≤ length x) (sym e) (omega arith)

mutual
  unfolding depth encode IsCanonical decode_at pairs_of append_values append_entries list_loop
      dict_loop join AreFresh

  -- A canonical value within the depth is decoded from its bytes.
  pub decode_at-encode :
      (v : Value) (levels : ℕ) (rest : List ℕ)
      → depth v ≤ levels
      → IsCanonical v
      → decode_at levels (encode v ++ rest) ≡ ok v rest
  decode_at-encode v zero rest h good = absurd (omega (arith, depth_positive v))
  decode_at-encode (text s) (suc levels) rest h good = decode_at_text levels s rest good
  decode_at-encode (int n) (suc levels) rest h good = decode_at_int levels n rest good
  decode_at-encode (list vs) (suc levels) rest h good =
      let b = encode_values vs ++ (b'e' ∷ rest) in
      ap (λ (x : List ℕ). list_loop (decode_at levels) (length x) nil x)
        (append_assoc (encode_values vs) (b'e' ∷ []) rest)
      ∙ list_loop-encode_values vs levels rest (length b) nil (omega arith) good (omega arith)
      ∙ ap (λ (x : Values). ok (list x) rest) refl
  decode_at-encode (dict es) (suc levels) rest h good =
      let b = join (pairs_of es) ++ (b'e' ∷ rest) in
      ap
        (λ (x : List (List ℕ × List ℕ)).
          decode_at (suc levels) (b'd' ∷ ((join x ++ (b'e' ∷ [])) ++ rest)))
        (sorted_pairs-IsOrdered es good)
      ∙ ap (λ (x : List ℕ). dict_loop (decode_at levels) (length x) end x)
          (append_assoc (join (pairs_of es)) (b'e' ∷ []) rest)
      ∙ dict_loop-encode es levels rest (length b) end (omega arith) good (AreFresh-end es)
          (omega arith)
      ∙ ap (λ (x : Entries). ok (dict x) rest) refl

  list_loop-encode_values :
      (vs : Values) (levels : ℕ) (rest : List ℕ) (fuel : ℕ) (out : Values)
      → depth_values vs ≤ levels
      → AllCanonical vs
      → length (encode_values vs ++ (b'e' ∷ rest)) ≤ fuel
      → list_loop (decode_at levels) fuel out (encode_values vs ++ (b'e' ∷ rest))
        ≡ ok (list (append_values out vs)) rest
  list_loop-encode_values nil levels rest zero out h good enough = absurd (omega arith)
  list_loop-encode_values nil levels rest (suc fuel) out h good enough =
      ap (λ (x : Values). ok (list x) rest) (sym (append_values_end out))
  list_loop-encode_values (cons v vs) levels rest zero out h good enough =
      absurd (omega (arith, length-append (encode v ++ encode_values vs) (b'e' ∷ rest)))
  list_loop-encode_values (cons v vs) levels rest (suc fuel) out h (one, more) enough =
      let w = encode_values vs ++ (b'e' ∷ rest) in
      let split = append_assoc (encode v) (encode_values vs) (b'e' ∷ rest) in
      let begins = encode-Begins v in
      ap (list_loop (decode_at levels) (suc fuel) out) split
      ∙ list_step (decode_at levels) fuel out (encode v) w w v begins
          (decode_at-encode v levels w (omega arith) one)
      ∙ list_loop-encode_values vs levels rest fuel (snoc out v) (omega arith) more (
          omega
            (arith, ap length split, length-append (encode v) w, Begins-length (encode v) begins))
      ∙ ap (λ (x : Values). ok (list x) rest) (append_values-snoc out vs v)

  dict_loop-encode :
      (es : Entries) (levels : ℕ) (rest : List ℕ) (fuel : ℕ) (out : Entries)
      → depth_entries es ≤ levels
      → IsOrdered es
      → AreFresh out es
      → length (join (pairs_of es) ++ (b'e' ∷ rest)) ≤ fuel
      → dict_loop (decode_at levels) fuel out (join (pairs_of es) ++ (b'e' ∷ rest))
        ≡ ok (dict (append_entries out es)) rest
  dict_loop-encode end levels rest zero out h good fresh enough = absurd (omega arith)
  dict_loop-encode end levels rest (suc fuel) out h good fresh enough =
      ap (λ (x : Entries). ok (dict x) rest) (sym (append_entries_end out))
  dict_loop-encode (entry k v es) zero rest fuel out h good fresh enough =
      absurd (omega (arith, depth_positive v))
  dict_loop-encode (entry k v es) (suc levels) rest zero out h good fresh enough =
      absurd (omega (arith, length-append (join (pairs_of (entry k v es))) (b'e' ∷ rest)))
  dict_loop-encode (entry k v es) (suc levels) rest (suc fuel) out h (sized, one, before, more)
        fresh enough =
      let w = join (pairs_of es) ++ (b'e' ∷ rest) in
      let split : (encode_text k ++ (encode v ++ join (pairs_of es))) ++ (b'e' ∷ rest)
          ≡ encode_text k ++ (encode v ++ w) =
        append_assoc (encode_text k) (encode v ++ join (pairs_of es)) (b'e' ∷ rest)
        ∙ ap (λ (x : List ℕ). encode_text k ++ x)
            (append_assoc (encode v) (join (pairs_of es)) (b'e' ∷ rest)) in
      let begins = text-Begins k in
      (ap (dict_loop (decode_at (suc levels)) (suc fuel) out) split)
      ∙ dict_step (decode_at (suc levels)) fuel out (encode_text k) (encode v ++ w) w
          (encode v ++ w) k v begins (decode_at_text levels k (encode v ++ w) sized)
          (decode_at-encode v (suc levels) w (omega arith) one)
      ∙ dict_loop-encode es (suc levels) rest fuel (put_entry k v out) (omega arith) more
          (AreFresh-put_entry k v out es fresh.1 before)
          (omega (
            arith,
            ap length split,
            length-append (encode_text k) (encode v ++ w),
            length-append (encode v) w,
            Begins-length (encode_text k) begins,
          ))
      ∙ ap (λ (x : Entries). ok (dict x) rest) (append_entries-put_entry out es k v fresh.0)

-- `Decode` gives back what `Encode` wrote, for a canonical value of at most 33 levels.
pub decode-encode : (v : Value) → depth v ≤ 33 → IsCanonical v → decode (encode v) ≡ ok v []
unfolding decode
decode-encode v h good =
    let back : decode_at 33 (encode v) ≡ ok v [] =
      ap (decode_at 33) (sym (append-nil (encode v))) ∙ decode_at-encode v 33 [] h good in
    rw (back, decode) refl
