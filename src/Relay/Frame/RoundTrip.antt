-- ===== src/Relay/Frame/RoundTrip.antt =====
-- A frame opens to what was sealed.
use mathlib.Core.List.{append_assoc}
use zeropentime.Crypto.{Primitives, IsLawful}
use zeropentime.Obfs.Tagger.{match-put}
use zeropentime.Prelude.Xor.{xor_with, xor_with_cancel, length-xor_with}
use zeropentime.Prelude.{
  ℕ, ◌+◌, ◌≤◌, ◌≡◌, ◌∙◌, ap, List, ◌∷◌, ◌++◌, some, arith, length, take, drop, take-append_exact,
  drop-append_exact, length-append, length-take,
}
use zeropentime.Relay.Frame.{
  Session, Inner, tag_key, mask, tag_of, seal, session_id, open_frame, max_payload, inner_of,
}

-- The four parts of a frame.
parts :
    (t x n b : List ℕ)
    → length t ≡ 8
    → length x ≡ 8
    → length n ≡ 24
    → let frame = t ++ x ++ n ++ b in
      (take 8 frame ≡ t)
      × (take 8 (drop 8 frame) ≡ x)
      × (take 24 (drop 16 frame) ≡ n)
      × (drop 40 frame ≡ b)
      × (length frame ≡ 40 + length b)
parts t x n b ht hx hn =
    let flat : t ++ x ++ n ++ b ≡ t ++ (x ++ (n ++ b)) =
      append_assoc (t ++ x) n b ∙ append_assoc t x (n ++ b) in
    let size : length (t ++ x) ≡ 16 = omega (arith, length-append t x) in
    let sizes : length (t ++ x ++ n) ≡ 40 = omega (arith, length-append (t ++ x) n) in
    (
      ap (take 8) flat ∙ take-append_exact 8 t _ ht,
      ap (λ (f : List ℕ). take 8 (drop 8 f)) flat
          ∙ ap (take 8) (drop-append_exact 8 t _ ht)
          ∙ take-append_exact 8 x _ hx,
      ap (λ (f : List ℕ). take 24 (drop 16 f)) (append_assoc (t ++ x) n b)
          ∙ ap (take 24) (drop-append_exact 16 (t ++ x) _ size)
          ∙ take-append_exact 24 n b hn,
      drop-append_exact 40 (t ++ x ++ n) b sizes,
      omega (arith, length-append (t ++ x ++ n) b),
    )

-- What is inside comes back.
inner_of_back :
    (typ : ℕ) (node payload : List ℕ)
    → length node ≡ 10
    → inner_of (some (typ ∷ (node ++ payload)))
      ≡ some (record { typ = typ; node = node; payload = payload })
unfolding inner_of
inner_of_back typ node payload h = ground (
  arith,
  take-append_exact 10 node payload h,
  drop-append_exact 10 node payload h,
  length-append node payload,
)

-- What `Open` and `SessionID` do with a frame, by its parts.
open_parts :
    (c : Primitives) (s : Session) (frame box nonce inner : List ℕ) (i : Inner)
    → 67 ≤ length frame
    → length frame ≤ 65535
    → drop 40 frame ≡ box
    → take 24 (drop 16 frame) ≡ nonce
    → c.secret_open box nonce s.key ≡ some inner
    → inner_of (some inner) ≡ some i
    → open_frame c s frame ≡ some i
unfolding open_frame
open_parts c s frame box nonce inner i long short e_box e_nonce opened e_inner = ground arith

session_parts :
    (c : Primitives) (frame relay_pub tag id : List ℕ)
    → 67 ≤ length frame
    → take 8 frame ≡ tag
    → take 8 (drop 8 frame) ≡ xor_with id (mask c tag relay_pub)
    → length id ≤ length (mask c tag relay_pub)
    → session_id c frame relay_pub ≡ some id
unfolding session_id
session_parts c frame relay_pub tag id long e_tag e_id masked =
    ground (arith, xor_with_cancel id (mask c tag relay_pub))

length-mask :
    (c : Primitives) → IsLawful c → (tag relay_pub : List ℕ) → length (mask c tag relay_pub) ≡ 8
unfolding mask
length-mask c ok tag relay_pub = omega (arith, length-take 8 (c.sha256 _), ok.length-sha256 _)

-- A payload that fits is sealed, and the frame gives back its session, and to the holder of the
-- session's key what was sealed.
pub open_frame-seal :
    (c : Primitives)
    → IsLawful c
    → (s : Session) (relay_pub : List ℕ) (typ : ℕ) (node payload fresh nonce : List ℕ)
    → length payload ≤ max_payload
    → length s.id ≡ 8
    → length node ≡ 10
    → length fresh ≡ 4
    → length nonce ≡ 24
    → (frame : List ℕ) × (seal c s relay_pub typ node payload fresh nonce ≡ some frame)
      × (session_id c frame relay_pub ≡ some s.id)
      × (open_frame c s frame ≡ some (record { typ = typ; node = node; payload = payload }))
unfolding seal tag_of
open_frame-seal c ok s relay_pub typ node payload fresh nonce fits hid hnode hfresh hnonce =
    let tag = tag_of c (tag_key c relay_pub) fresh in
    let id = xor_with s.id (mask c tag relay_pub) in
    let inner = typ ∷ (node ++ payload) in
    let box = c.secret_seal inner nonce s.key in
    let (htag, _) = match-put (c.aes (tag_key c relay_pub)) fresh box hfresh (ok.length-aes _) in
    let masked = length-mask c ok tag relay_pub in
    let p =
      parts tag id nonce box htag (length-xor_with s.id (mask c tag relay_pub) ∙ hid) hnonce in
    let size : length box ≡ 27 + length payload =
      omega (arith, ok.length-secret_seal inner nonce s.key, length-append node payload) in
    (
      tag ++ id ++ nonce ++ box,
      ground arith,
      session_parts c _ relay_pub tag s.id (omega (arith, p, size)) p.0 p.1 (omega (arith, masked)),
      open_parts c s _ box nonce inner _ (omega (arith, p, size)) (omega (arith, p, size)) p.3 p.2
          (ok.secret_open-secret_seal inner nonce s.key) (inner_of_back typ node payload hnode),
    )
