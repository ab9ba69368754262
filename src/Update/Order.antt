-- ===== src/Update/Order.antt =====
-- `Newer` is an order: no release is offered over a newer one.
use zeropentime.Bencode.{lt_text}
use zeropentime.Bencode.Sizes.{lt_text_asymmetric}
use zeropentime.Prelude.{
  ℕ, ◌<◌, ◌≡◌, ◌≢◌, ◌⊎◌, refl, inl, inr, true, false, List, [], ◌∷◌, none, some, arith,
  Option-cases, Bytes_discrete,
}
use zeropentime.Update.{is_blank, Version, parse_version, newer_pre, newer_version, newer}

lt_text_transitive : (x y z : List ℕ) → lt_text x y ≡ true → lt_text y z ≡ true → lt_text x z ≡ true
unfolding lt_text
lt_text_transitive [] [] z h k = cc
lt_text_transitive [] (b ∷ y) [] h k = cc
lt_text_transitive [] (b ∷ y) (c ∷ z) h k = cc
lt_text_transitive (a ∷ x) [] z h k = cc
lt_text_transitive (a ∷ x) (b ∷ y) [] h k = cc
lt_text_transitive (a ∷ x) (b ∷ y) (c ∷ z) h k = ground (arith, h, k, lt_text_transitive x y z)

blank_same : (p q : List ℕ) → is_blank p ≡ true → is_blank q ≡ true → p ≡ q
unfolding is_blank
blank_same [] [] h k = refl
blank_same [] (c ∷ q) h k = cc
blank_same (c ∷ p) q h k = cc

newer_pre_asymmetric : (p q : List ℕ) → newer_pre p q ≡ true → newer_pre q p ≡ false
unfolding newer_pre
newer_pre_asymmetric p q h = ground (arith, h, lt_text_asymmetric q p, blank_same p q)

newer_pre_transitive :
    (p q r : List ℕ) → newer_pre p q ≡ true → newer_pre q r ≡ true → newer_pre p r ≡ true
unfolding newer_pre
newer_pre_transitive p q r h k = ground (
  arith,
  h,
  k,
  lt_text_transitive r q p,
  lt_text_asymmetric q p,
  blank_same p q,
  blank_same q r,
  blank_same p r,
)

newer_version_asymmetric : (a b : Version) → newer_version a b ≡ true → newer_version b a ≡ false
unfolding newer_version
newer_version_asymmetric a b h = ground (arith, h, newer_pre_asymmetric a.pre b.pre)

newer_version_transitive :
    (a b c : Version)
    → newer_version a b ≡ true
    → newer_version b c ≡ true
    → newer_version a c ≡ true
unfolding newer_version
newer_version_transitive a b c h k = ground (arith, h, k, newer_pre_transitive a.pre b.pre c.pre)

-- What stands behind the dash is later: nothing there is later than something, and texts are ordered.
abbrev pub IsLaterPre : List ℕ → List ℕ → Type 0
IsLaterPre p q = (q ≢ []) × ((p ≡ []) ⊎ (lt_text q p ≡ true))

-- The first of the three numbers that differs is greater, or none differs and the rest is later.
abbrev pub IsLater : Version → Version → Type 0
IsLater a b =
    (b.major < a.major)
    ⊎ ((a.major ≡ b.major)
        × ((b.minor < a.minor)
            ⊎ ((a.minor ≡ b.minor)
                × ((b.patch < a.patch) ⊎ ((a.patch ≡ b.patch) × IsLaterPre a.pre b.pre)))))

newer_pre_blank : (p : List ℕ) → ¬ (newer_pre p [] ≡ true)
unfolding newer_pre is_blank Bytes_discrete
newer_pre_blank [] h = ground (arith, h)
newer_pre_blank (c ∷ p) h = ground (arith, h)

newer_pre-IsLaterPre : (p q : List ℕ) → newer_pre p q ≡ true → IsLaterPre p q
unfolding newer_pre is_blank
newer_pre-IsLaterPre p [] h = absurd (newer_pre_blank p h)
newer_pre-IsLaterPre [] (c ∷ q) h = (λ e. cc, inl refl)
newer_pre-IsLaterPre (c ∷ p) (d ∷ q) h = (λ e. cc, inr (ground (arith, h)))

newer_version-IsLater : (a b : Version) → newer_version a b ≡ true → IsLater a b
unfolding newer_version
newer_version-IsLater a b h = ground (arith, h, newer_pre-IsLaterPre a.pre b.pre)

-- The first text is a version, and the second is none or an earlier version.
abbrev pub IsLaterText : List ℕ → List ℕ → Type 0
IsLaterText a b =
    (va : Version) × (parse_version a ≡ some va)
    × ((parse_version b ≡ none) ⊎ ((vb : Version) × (parse_version b ≡ some vb) × IsLater va vb))

-- A text that is newer than another is a version, and the other is none or an earlier version, by the
-- first number that differs or else by what stands behind the dash; the other is not newer than it; and
-- it is newer than all that the other is newer than.
pub newer_lem :
    (a b c : List ℕ)
    → newer a b ≡ true
    → IsLaterText a b × (newer b a ≡ false) × (newer b c ≡ true → newer a c ≡ true)
unfolding newer
newer_lem a b c h = elim (Option-cases (parse_version a)) [
  | inl e ↦ absurd (ground (arith, e, h))
  | inr (va, e) ↦ elim (Option-cases (parse_version b)) [
    | inl e' ↦ ((va, e, inl e'), rw (e', newer) refl, λ k. absurd (ground (arith, e', k)))
    | inr (vb, e') ↦
        let before : newer_version va vb ≡ true = ground (arith, e, e', h) in
        (
          (va, e, inr (vb, e', newer_version-IsLater va vb before)),
          ground (arith, e, e', newer_version_asymmetric va vb before),
          λ k. elim (Option-cases (parse_version c)) [
            | inl e'' ↦ ground (arith, e, e'')
            | inr (vc, e'') ↦
                let after : newer_version vb vc ≡ true = ground (arith, e', e'', k) in
                ground (arith, e, e'', newer_version_transitive va vb vc before after)
          ],
        )
  ]
]
