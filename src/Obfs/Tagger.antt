-- ===== src/Obfs/Tagger.antt =====
-- internal/obfs/obfs.go: `Tagger`, the hidden tag in front of a room's packets. AES under the key of
-- the room is the argument `block`, from 16 bytes to 16 bytes.
use mathlib.Core.List.{append_assoc}
use zeropentime.Prelude.{
  ℕ, ◌-◌, ◌≡◌, Bool, true, false, List, ◌++◌, length, take, drop, replicate, ltb, if◌then◌else◌,
  length-take, drop-append_exact, take-append_exact, length-append, take_plus, ◌=text◌, arith, ap,
  sym, ◌∙◌, refl, ◌↔◌, ◌≤◌,
}

abbrev pub tag_len : ℕ
tag_len = 8

abbrev pub nonce_len : ℕ
nonce_len = 4

abbrev pub block_size : ℕ
block_size = 16

module _ (block : List ℕ → List ℕ) where
  -- `copy` fills the block up to its size; the rest stays zero.
  unfoldable pub mac : List ℕ → List ℕ
  mac nonce = block (take block_size (nonce ++ replicate (block_size - length nonce) 0))

  -- `Put`: the tag for a fresh nonce.
  unfoldable pub put : List ℕ → List ℕ
  put nonce = nonce ++ take (tag_len - nonce_len) (mac nonce)

  -- `Match`.
  unfoldable pub match : List ℕ → Bool
  match pkt =
      if ltb (length pkt) tag_len
      then false
      else (take (tag_len - nonce_len) (mac (take nonce_len pkt))
          =text take (tag_len - nonce_len) (drop nonce_len pkt))

same_behind : (a x y : List ℕ) (n : ℕ) → length a ≡ n → a ++ x ≡ a ++ y → x ≡ y
same_behind a x y n h e =
    sym (drop-append_exact n a x h) ∙ ap (λ (t : List ℕ). drop n t) e ∙ drop-append_exact n a y h

module _ (block : List ℕ → List ℕ) where
  -- A packet carries the room's tag exactly when it starts with what `Put` writes for its own first
  -- four bytes.
  pub match_iff :
      (pkt : List ℕ)
      → tag_len ≤ length pkt
      → ((match block pkt ≡ true) ↔ (take tag_len pkt ≡ put block (take nonce_len pkt)))
  unfolding match put
  match_iff pkt h =
      let cut = take_plus 8 4 4 pkt refl in
      let size : length (take 4 pkt) ≡ 4 = omega (arith, length-take 4 pkt) in
      ground (
        arith,
        cut,
        same_behind (take 4 pkt) (take 4 (drop 4 pkt)) (take 4 (mac block (take 4 pkt))) 4 size,
      )

  length-put :
      (nonce : List ℕ)
      → length nonce ≡ nonce_len
      → ((b : List ℕ) → length (block b) ≡ block_size)
      → length (put block nonce) ≡ tag_len
  unfolding put mac
  length-put nonce h ok = omega (
    arith,
    length-append nonce (take 4 (mac block nonce)),
    length-take 4 (mac block nonce),
    ok (take block_size (nonce ++ replicate (block_size - length nonce) 0)),
  )

  -- What `Put` writes is matched, whatever follows.
  pub match-put :
      (nonce rest : List ℕ)
      → length nonce ≡ nonce_len
      → ((b : List ℕ) → length (block b) ≡ block_size)
      → (length (put block nonce) ≡ tag_len) × (match block (put block nonce ++ rest) ≡ true)
  match-put nonce rest h ok =
      let size = length-put nonce h ok in
      let own : take nonce_len (put block nonce ++ rest) ≡ nonce =
        unfold put in
        ap (λ (b : List ℕ). take 4 b) (append_assoc nonce _ rest) ∙ take-append_exact 4 nonce _ h in
      let whole = take-append_exact 8 (put block nonce) rest size in
      (
        size,
        (match_iff (put block nonce ++ rest)
              (omega (arith, length-append (put block nonce) rest))).1
            (whole ∙ ap (λ (n : List ℕ). put block n) (sym own)),
      )
