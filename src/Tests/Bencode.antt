-- ===== src/Tests/Bencode.antt =====
-- The example of the tests of the package, and a length that overflows.
use zeropentime.Bencode.{
  Value, text, int, list, dict, nil, cons, end, entry, ok, bad, panics, encode, decode, decode_at,
  list_loop, dict_loop, join, insert_sorted, lt_text, encode_text, decode_text, cut_text,
  decode_int,
}
use zeropentime.Bencode.Fuel.{decode_at_ends}
use zeropentime.Bencode.Nested.{decode-encode}
use zeropentime.Bencode.Number.{
  pos, itoa, digits, format_int, index_byte, parse_int, signed, parse_uint, scan,
}
use zeropentime.Bencode.Overflow.{decode_panics}
use zeropentime.Bencode.Sizes.{depth, IsCanonical, Precedes}
use zeropentime.Prelude.{
  ℕ, ◌+◌, ◌≤◌, ◌<◌, ◌-◌, ◌^◌, ◌≡◌, refl, List, [], ◌∷◌, ◌++◌, codes, length, arith,
}

abbrev query : Value
query = dict (
    entry (codes "a")
      (dict (entry (codes "id") (text (codes "abc")) (entry (codes "port") (int (pos 4790)) end)))
      (entry (codes "l") (list (cons (text (codes "x")) (cons (int (pos 1)) nil)))
        (entry (codes "y") (text (codes "q")) end)))

written : encode query ≡ codes "d1:ad2:id3:abc4:porti4790ee1:ll1:xi1ee1:y1:qe"
unfolding encode join insert_sorted lt_text encode_text itoa digits format_int
written = refl

refused :
    (decode (codes "5:abc") ≡ bad)
    × (decode (codes "d1:ae") ≡ bad)
    × (decode (codes "di1ei2ee") ≡ bad)
unfolding decode decode_at decode_text index_byte parse_int signed parse_uint scan cut_text
    dict_loop decode_int
refused = (refl, refl, refl)

query-IsCanonical : IsCanonical query
unfolding IsCanonical Precedes lt_text
query-IsCanonical = (
  omega arith,
  (omega arith, omega arith, (refl, tt), (omega arith, omega arith, tt, tt)),
  (refl, (refl, tt)),
  (omega arith, (omega arith, (omega arith, tt)), (refl, tt), (omega arith, omega arith, tt, tt)),
)

decode-encode_example : decode (encode query) ≡ ok query []
decode-encode_example = decode-encode query (unfold depth in omega arith) query-IsCanonical

long_enough : 2 ^ 63 ≤ length (itoa (2 ^ 63 - 1)) + 1 + (2 ^ 63 - 1)
unfolding itoa
long_enough = omega arith

decode_panics_example : decode (itoa (2 ^ 63 - 1) ++ (b':' ∷ [])) ≡ panics
decode_panics_example = decode_panics (2 ^ 63 - 1) [] (omega arith) long_enough

decode_at_ends_example :
    (list_loop (decode_at 32) 3 nil (codes "1:x") ≡ list_loop (decode_at 32) 9 nil (codes "1:x"))
    × (dict_loop (decode_at 32) 3 end (codes "1:x") ≡ dict_loop (decode_at 32) 9 end (codes "1:x"))
    × ((v : Value) (rest : List ℕ) → decode_at 32 (codes "1:x") ≡ ok v rest → length rest < 3)
decode_at_ends_example = decode_at_ends 32 (codes "1:x") nil end 9 (omega arith)
