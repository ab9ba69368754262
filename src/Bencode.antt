-- ===== src/Bencode.antt =====
-- internal/dht/bencode.go: byte strings, integers, lists and dictionaries as bytes.
pub mod Number
pub mod Sizes
pub mod RoundTrip
pub mod Nested
pub mod Fuel
pub mod Overflow
use zeropentime.Bencode.Number.{ℤ, pos, negsuc, itoa, format_int, parse_int, index_byte}
use zeropentime.Prelude.{
  ℕ, zero, suc, ◌+◌, ◌^◌, Bool, true, false, ◌&&◌, List, [], ◌∷◌, ◌++◌, Option, none, some, ltb,
  leb, ◌==◌, ◌=text◌, if◌then◌else◌, length, take, drop,
}

-- What `Encode` takes and `Decode` returns; a dictionary is its entries.
mutual
  pub data Value : Type 0 where
    text : List ℕ → Value
    int : ℤ → Value
    list : Values → Value
    dict : Entries → Value

  pub data Values : Type 0 where
    nil : Values
    cons : Value → Values → Values

  pub data Entries : Type 0 where
    end : Entries
    entry : List ℕ → Value → Entries → Entries

-- `a < b` on strings.
unfoldable pub lt_text : List ℕ → List ℕ → Bool
lt_text [] [] = false
lt_text [] (y ∷ ys) = true
lt_text (x ∷ xs) [] = false
lt_text (x ∷ xs) (y ∷ ys) = let rest = lt_text xs ys in if x == y then rest else ltb x y

-- `sort.Strings` on the keys, each with its encoded value.
unfoldable pub insert_sorted : List ℕ → List ℕ → List (List ℕ × List ℕ) → List (List ℕ × List ℕ)
insert_sorted k v [] = (k, v) ∷ []
insert_sorted k v ((j, w) ∷ pairs) =
    let rest = insert_sorted k v pairs in
    if lt_text j k then (j, w) ∷ rest else (k, v) ∷ (j, w) ∷ pairs

unfoldable pub encode_text : List ℕ → List ℕ
encode_text s = itoa (length s) ++ (b':' ∷ s)

unfoldable pub join : List (List ℕ × List ℕ) → List ℕ
join [] = []
join ((k, v) ∷ pairs) = encode_text k ++ (v ++ join pairs)

-- `encode`.
unfoldable mutual
  pub encode : Value → List ℕ
  encode (text s) = encode_text s
  encode (int n) = b'i' ∷ (format_int n ++ (b'e' ∷ []))
  encode (list vs) = b'l' ∷ (encode_values vs ++ (b'e' ∷ []))
  encode (dict es) = b'd' ∷ (join (sorted_pairs es) ++ (b'e' ∷ []))

  pub encode_values : Values → List ℕ
  encode_values nil = []
  encode_values (cons v vs) = encode v ++ encode_values vs

  pub sorted_pairs : Entries → List (List ℕ × List ℕ)
  sorted_pairs end = []
  sorted_pairs (entry k v es) = insert_sorted k (encode v) (sorted_pairs es)

-- A value with the bytes behind it, `errBencode`, or the panic of a slice out of range.
pub data Decoded : Type 0 where
  ok : Value → List ℕ → Decoded
  bad : Decoded
  panics : Decoded

-- `out[key] = v`.
unfoldable pub put_entry : List ℕ → Value → Entries → Entries
put_entry k v end = entry k v end
put_entry k v (entry j w es) =
    let rest = put_entry k v es in if j =text k then entry k v es else entry j w rest

unfoldable pub snoc : Values → Value → Values
snoc nil v = cons v nil
snoc (cons w vs) v = cons w (snoc vs v)

-- An integer: from the `i` on.
unfoldable pub decode_int : List ℕ → Decoded
decode_int b = elim (index_byte b'e' b) [
  | none ↦ bad
  | some end_at ↦ if ltb end_at 2 then bad else elim (parse_int (drop 1 (take end_at b))) [
    | none ↦ bad
    | some n ↦ ok (int n) (drop (end_at + 1) b)
  ]
]

-- A string of length `n` behind the colon. `colon + 1 + n` is a 64-bit sum: where it wraps around, the
-- test lets it pass, and the slice panics.
unfoldable pub cut_text : ℕ → ℕ → List ℕ → Decoded
cut_text colon n b =
    if leb (2 ^ 63) (colon + 1 + n)
    then panics
    else if ltb (length b) (colon + 1 + n)
    then bad
    else ok (text (take n (drop (colon + 1) b))) (drop (colon + 1 + n) b)

unfoldable pub decode_text : List ℕ → Decoded
decode_text b = elim (index_byte b':' b) [
  | none ↦ bad
  | some colon ↦ if ltb colon 1 then bad else elim (parse_int (take colon b)) [
    | none ↦ bad
    | some (negsuc n) ↦ bad
    | some (pos n) ↦ cut_text colon n b
  ]
]

-- The loops, with `one` for the values in them and fuel for their rounds.
module _ (one : List ℕ → Decoded) where
  unfoldable pub list_loop : ℕ → Values → List ℕ → Decoded
  list_loop fuel out [] = bad
  list_loop zero out (c ∷ b) = bad
  list_loop (suc fuel) out (c ∷ b) = if c == b'e' then ok (list out) b else elim (one (c ∷ b)) [
    | ok v rest ↦ list_loop fuel (snoc out v) rest
    | bad ↦ bad
    | panics ↦ panics
  ]

  unfoldable pub dict_loop : ℕ → Entries → List ℕ → Decoded
  dict_loop fuel out [] = bad
  dict_loop zero out (c ∷ b) = bad
  dict_loop (suc fuel) out (c ∷ b) = if c == b'e' then ok (dict out) b else elim (one (c ∷ b)) [
    | bad ↦ bad
    | panics ↦ panics
    | ok (int n) rest ↦ bad
    | ok (list vs) rest ↦ bad
    | ok (dict es) rest ↦ bad
    | ok (text key) rest ↦ elim (one rest) [
      | bad ↦ bad
      | panics ↦ panics
      | ok v rest' ↦ dict_loop fuel (put_entry key v out) rest'
    ]
  ]

-- `decode` at the depth `33 - levels`.
unfoldable pub decode_at : ℕ → List ℕ → Decoded
decode_at levels [] = bad
decode_at zero (c ∷ b) = bad
decode_at (suc levels) (c ∷ b) =
    let items = list_loop (decode_at levels) (length b) nil b in
    let pairs = dict_loop (decode_at levels) (length b) end b in
    if c == b'i'
    then decode_int (c ∷ b)
    else if c == b'l'
    then items
    else if c == b'd'
    then pairs
    else if leb b'0' c && leb c b'9'
    then decode_text (c ∷ b)
    else bad

-- `Decode`.
unfoldable pub decode : List ℕ → Decoded
decode b = elim (decode_at 33 b) [
  | ok v [] ↦ ok v []
  | ok v (c ∷ rest) ↦ bad
  | bad ↦ bad
  | panics ↦ panics
]
