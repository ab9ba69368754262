-- ===== src/Bencode/Fuel.antt =====
-- The loops of `decode` end: each value takes bytes, so as many rounds as there are bytes are enough.
use zeropentime.Bencode.{
  Value, Values, Entries, text, int, list, dict, nil, end, Decoded, ok, bad, panics, decode_int,
  cut_text, decode_text, list_loop, dict_loop, decode_at, snoc, put_entry,
}
use zeropentime.Bencode.Number.{pos, negsuc, parse_int, index_byte}
use zeropentime.Prelude.{
  ℕ, zero, suc, ◌+◌, ◌≤◌, ◌<◌, ◌≡◌, refl, sym, ap, ◌∙◌, inl, inr, ◌⊎◌, ◌&&◌, List, [], ◌∷◌, length,
  arith, take, drop, length-drop, Option-cases, Bool-cases, leb, ◌==◌, if◌then◌else◌,
}

-- What is left behind a value is shorter.
abbrev pub Consumes : (List ℕ → Decoded) → Type 0
Consumes one = (b : List ℕ) (v : Value) (rest : List ℕ) → one b ≡ ok v rest → length rest < length b

Decoded-cases :
    (r : Decoded) → ((v : Value) × (rest : List ℕ) × (r ≡ ok v rest)) ⊎ ((r ≡ bad) ⊎ (r ≡ panics))
Decoded-cases (ok v rest) = inl (v, rest, refl)
Decoded-cases bad = inr (inl refl)
Decoded-cases panics = inr (inr refl)

module _ (one : List ℕ → Decoded) (consumes : Consumes one) where
  -- Any two amounts of fuel that are enough give one answer.
  pub list_loop_fuel :
      (fuel more : ℕ) (out : Values) (b : List ℕ)
      → length b ≤ fuel
      → length b ≤ more
      → list_loop one fuel out b ≡ list_loop one more out b
  unfolding list_loop
  list_loop_fuel fuel more out [] h k = refl
  list_loop_fuel zero more out (c ∷ b) h k = absurd (omega arith)
  list_loop_fuel (suc fuel) zero out (c ∷ b) h k = absurd (omega arith)
  list_loop_fuel (suc fuel) (suc more) out (c ∷ b) h k = elim (Decoded-cases (one (c ∷ b))) [
    | inr (inl e) ↦ rw (e, list_loop) refl
    | inr (inr e) ↦ rw (e, list_loop) refl
    | inl (v, rest, e) ↦
        let ih =
          list_loop_fuel fuel more (snoc out v) rest (omega (arith, consumes (c ∷ b) v rest e))
            (omega (arith, consumes (c ∷ b) v rest e)) in
        rw (e, list_loop) (ap (λ (r : Decoded). if c == b'e' then ok (list out) b else r) ih)
  ]

  list_loop_rest :
      (fuel : ℕ) (out : Values) (b : List ℕ) (v : Value) (rest : List ℕ)
      → list_loop one fuel out b ≡ ok v rest
      → length rest < length b
  unfolding list_loop
  list_loop_rest fuel out [] v rest e = cc
  list_loop_rest zero out (c ∷ b) v rest e = cc
  list_loop_rest (suc fuel) out (c ∷ b) v rest e = elim (Bool-cases (c == b'e')) [
    | inl over ↦ ground (arith, e)
    | inr going ↦ elim (Decoded-cases (one (c ∷ b))) [
      | inr (inl e') ↦ absurd (ground (arith, e, e', going))
      | inr (inr e') ↦ absurd (ground (arith, e, e', going))
      | inl (w, rest', e') ↦
          let inner : list_loop one fuel (snoc out w) rest' ≡ ok v rest =
            ground (arith, e, e', going) in
          omega (
            arith,
            list_loop_rest fuel (snoc out w) rest' v rest inner,
            consumes (c ∷ b) w rest' e',
          )
    ]
  ]

  -- A round of the loop for dictionaries reads a key and a value, or ends it.
  HasOutcome : ℕ → List ℕ → Type 0
  HasOutcome c b =
      ((k : List ℕ) × (v : Value) × (r1 : List ℕ) × (r2 : List ℕ) × (one (c ∷ b) ≡ ok (text k) r1)
        × (one r1 ≡ ok v r2))
      ⊎ ((r : Decoded) × ((r ≡ bad) ⊎ (r ≡ panics))
          × ((fuel : ℕ) (out : Entries)
              → dict_loop one (suc fuel) out (c ∷ b) ≡ (if c == b'e' then ok (dict out) b else r)))

  round_after_key : (c : ℕ) (b k r1 : List ℕ) → one (c ∷ b) ≡ ok (text k) r1 → HasOutcome c b
  unfolding HasOutcome dict_loop
  round_after_key c b k r1 e = elim (Decoded-cases (one r1)) [
    | inl (v, r2, e') ↦ inl (k, v, r1, r2, e, e')
    | inr (inl e') ↦ inr (bad, inl refl, λ fuel out. rw (e, e', dict_loop) refl)
    | inr (inr e') ↦ inr (panics, inr refl, λ fuel out. rw (e, e', dict_loop) refl)
  ]

  round_after : (c : ℕ) (b r1 : List ℕ) (v : Value) → one (c ∷ b) ≡ ok v r1 → HasOutcome c b
  unfolding HasOutcome dict_loop
  round_after c b r1 (text k) e = round_after_key c b k r1 e
  round_after c b r1 (int n) e = inr (bad, inl refl, λ fuel out. rw (e, dict_loop) refl)
  round_after c b r1 (list vs) e = inr (bad, inl refl, λ fuel out. rw (e, dict_loop) refl)
  round_after c b r1 (dict es) e = inr (bad, inl refl, λ fuel out. rw (e, dict_loop) refl)

  round : (c : ℕ) (b : List ℕ) → HasOutcome c b
  unfolding HasOutcome dict_loop
  round c b = elim (Decoded-cases (one (c ∷ b))) [
    | inl (v, r1, e) ↦ round_after c b r1 v e
    | inr (inl e) ↦ inr (bad, inl refl, λ fuel out. rw (e, dict_loop) refl)
    | inr (inr e) ↦ inr (panics, inr refl, λ fuel out. rw (e, dict_loop) refl)
  ]

  pub dict_loop_fuel :
      (fuel more : ℕ) (out : Entries) (b : List ℕ)
      → length b ≤ fuel
      → length b ≤ more
      → dict_loop one fuel out b ≡ dict_loop one more out b
  unfolding dict_loop HasOutcome
  dict_loop_fuel fuel more out [] h k = refl
  dict_loop_fuel zero more out (c ∷ b) h k = absurd (omega arith)
  dict_loop_fuel (suc fuel) zero out (c ∷ b) h k = absurd (omega arith)
  dict_loop_fuel (suc fuel) (suc more) out (c ∷ b) h k = elim (round c b) [
    | inr (r, stops, same) ↦ same fuel out ∙ sym (same more out)
    | inl (key, v, r1, r2, e, e') ↦
        let shorter : length r2 < length b =
          omega (arith, consumes (c ∷ b) (text key) r1 e, consumes r1 v r2 e') in
        let ih = dict_loop_fuel fuel more (put_entry key v out) r2 (omega arith) (omega arith) in
        rw (e, e', dict_loop) (ap (λ (r : Decoded). if c == b'e' then ok (dict out) b else r) ih)
  ]

  dict_loop_rest :
      (fuel : ℕ) (out : Entries) (b : List ℕ) (v : Value) (rest : List ℕ)
      → dict_loop one fuel out b ≡ ok v rest
      → length rest < length b
  unfolding dict_loop HasOutcome
  dict_loop_rest fuel out [] v rest e = cc
  dict_loop_rest zero out (c ∷ b) v rest e = cc
  dict_loop_rest (suc fuel) out (c ∷ b) v rest e = elim (Bool-cases (c == b'e')) [
    | inl over ↦ ground (arith, e)
    | inr going ↦ elim (round c b) [
      | inr (r, stops, same) ↦ absurd (ground (arith, stops, sym (same fuel out) ∙ e, going))
      | inl (key, w, r1, r2, e1, e2) ↦
          let inner : dict_loop one fuel (put_entry key w out) r2 ≡ ok v rest =
            ground (arith, e, e1, e2, going) in
          omega (
            arith,
            dict_loop_rest fuel (put_entry key w out) r2 v rest inner,
            consumes (c ∷ b) (text key) r1 e1,
            consumes r1 w r2 e2,
          )
    ]
  ]

decode_int_rest :
    (c : ℕ) (b : List ℕ) (v : Value) (rest : List ℕ)
    → decode_int (c ∷ b) ≡ ok v rest
    → length rest < length (c ∷ b)
unfolding decode_int
decode_int_rest c b v rest e = elim (Option-cases (index_byte b'e' (c ∷ b))) [
  | inl e' ↦ absurd (ground (arith, e, e'))
  | inr (k, e') ↦ elim (Option-cases (parse_int (drop 1 (take k (c ∷ b))))) [
    | inl e'' ↦ absurd (ground (arith, e, e', e''))
    | inr (n, e'') ↦
        let same : drop (k + 1) (c ∷ b) ≡ rest = ground (arith, e, e', e'') in
        omega (arith, ap length same, length-drop (k + 1) (c ∷ b))
  ]
]

cut_text_rest :
    (colon n : ℕ) (c : ℕ) (b : List ℕ) (v : Value) (rest : List ℕ)
    → cut_text colon n (c ∷ b) ≡ ok v rest
    → length rest < length (c ∷ b)
unfolding cut_text
cut_text_rest colon n c b v rest e =
    let same : drop (colon + 1 + n) (c ∷ b) ≡ rest = ground (arith, e) in
    omega (arith, ap length same, length-drop (colon + 1 + n) (c ∷ b))

decode_text_rest :
    (c : ℕ) (b : List ℕ) (v : Value) (rest : List ℕ)
    → decode_text (c ∷ b) ≡ ok v rest
    → length rest < length (c ∷ b)
unfolding decode_text
decode_text_rest c b v rest e = elim (Option-cases (index_byte b':' (c ∷ b))) [
  | inl e' ↦ absurd (ground (arith, e, e'))
  | inr (colon, e') ↦ elim (Option-cases (parse_int (take colon (c ∷ b)))) [
    | inl e'' ↦ absurd (ground (arith, e, e', e''))
    | inr (negsuc n, e'') ↦ absurd (ground (arith, e, e', e''))
    | inr (pos n, e'') ↦ cut_text_rest colon n c b v rest (ground (arith, e, e', e''))
  ]
]

-- A value takes at least one byte, at any depth.
pub decode_at-Consumes : (levels : ℕ) → Consumes (decode_at levels)
unfolding decode_at
decode_at-Consumes levels [] v rest e = cc
decode_at-Consumes zero (c ∷ b) v rest e = cc
decode_at-Consumes (suc levels) (c ∷ b) v rest e = elim (Bool-cases (c == b'i')) [
  | inl i ↦ decode_int_rest c b v rest (ground (arith, e, i))
  | inr not_i ↦ elim (Bool-cases (c == b'l')) [
    | inl l ↦
        let shorter =
          list_loop_rest (decode_at levels) (decode_at-Consumes levels) (length b) nil b v rest
            (ground (arith, e, not_i, l)) in
        omega (arith, shorter)
    | inr not_l ↦ elim (Bool-cases (c == b'd')) [
      | inl d ↦
          let shorter =
            dict_loop_rest (decode_at levels) (decode_at-Consumes levels) (length b) end b v rest
              (ground (arith, e, not_i, not_l, d)) in
          omega (arith, shorter)
      | inr not_d ↦ elim (Bool-cases (leb b'0' c && leb c b'9')) [
        | inl digit ↦ decode_text_rest c b v rest (ground (arith, e, not_i, not_l, not_d, digit))
        | inr other ↦ absurd (ground (arith, e, not_i, not_l, not_d, other))
      ]
    ]
  ]
]

-- With the decoder of any depth, the loops for lists and dictionaries have the same outcome on any fuel
-- that is at least the length of the input, and what a value leaves is shorter than its input.
pub decode_at_ends :
    (levels : ℕ) (b : List ℕ) (out : Values) (out' : Entries) (more : ℕ)
    → length b ≤ more
    → (list_loop (decode_at levels) (length b) out b ≡ list_loop (decode_at levels) more out b)
      × (dict_loop (decode_at levels) (length b) out' b ≡ dict_loop (decode_at levels) more out' b)
      × ((v : Value) (rest : List ℕ) → decode_at levels b ≡ ok v rest → length rest < length b)
decode_at_ends levels b out out' more h = (
  list_loop_fuel (decode_at levels) (decode_at-Consumes levels) (length b) more out b (omega arith)
      h,
  dict_loop_fuel (decode_at levels) (decode_at-Consumes levels) (length b) more out' b (omega arith)
      h,
  λ v rest e. decode_at-Consumes levels b v rest e,
)
