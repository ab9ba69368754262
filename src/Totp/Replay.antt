-- ===== src/Totp/Replay.antt =====
-- A code is accepted in its window, and once.
use mathlib.Core.Path.{subst}
use zeropentime.Totp.{totp_period, totp_code, try_step, try_steps, check_totp}
use zeropentime.Prelude.{
  ℕ, ◌+◌, ◌/◌, ◌-◌, ◌≤◌, ◌<◌, ◌≡◌, ◌≢◌, refl, sym, ℕ_discrete, List, [], ◌∷◌, arith, length, ◌⊎◌,
  inl, inr, ◌∙◌, Any, All,
}

module _ (hmac : List ℕ → List ℕ → List ℕ) (clean : List ℕ → List ℕ) (secret code : List ℕ)
    (last_used : ℕ) where
  -- A step that may be accepted: the code is its code, and it is after the last used one.
  unfoldable pub IsUsable : ℕ → Type 0
  IsUsable step = (code ≡ totp_code hmac clean secret step) × (last_used < step)

  try_step_lem :
      (hit step : ℕ)
      → let new = try_step hmac clean secret code last_used hit step in
        ((new ≡ hit) ⊎ ((new ≡ step) × IsUsable step)) × (hit ≤ new) × (IsUsable step → step ≤ new)
  unfolding try_step IsUsable
  try_step_lem hit step = ground arith

  try_steps_lem :
      (hit : ℕ) (steps : List ℕ)
      → let r = try_steps hmac clean secret code last_used hit steps in
        ((r ≡ hit) ⊎ Any (λ s. (r ≡ s) × IsUsable s) steps)
        × (hit ≤ r)
        × All (λ s. IsUsable s → s ≤ r) steps
  unfolding try_steps
  try_steps_lem hit [] = (inl refl, omega arith, tt)
  try_steps_lem hit (step ∷ steps) =
      let new = try_step hmac clean secret code last_used hit step in
      let (one, above, own) = try_step_lem hit step in
      let (rest, over, others) = try_steps_lem new steps in
      (
        elim rest [
          | inl kept ↦ elim one [
            | inl e ↦ inl (kept ∙ e)
            | inr (e, usable) ↦ inr (inl (kept ∙ e, usable))
          ]
          | inr later ↦ inr (inr later)
        ],
        omega (arith, above, over),
        (λ usable. omega (arith, own usable, over), others),
      )

-- The steps around the current one.
near : (cur s : ℕ) → cur ≤ s + 1 → s ≤ cur + 1 → ((s ≡ cur - 1) ⊎ (s ≡ cur)) ⊎ (s ≡ cur + 1)
near cur s above below = omega arith

module _ (hmac : List ℕ → List ℕ → List ℕ) (clean : List ℕ → List ℕ) where
  window : ℕ → List ℕ
  window cur = (cur - 1) ∷ cur ∷ (cur + 1) ∷ []

  check_totp_short :
      (secret code : List ℕ) (now last_used : ℕ)
      → length (clean code) ≢ 6
      → check_totp hmac clean secret code now last_used ≡ 0
  unfolding check_totp
  check_totp_short secret code now last_used h = ground arith

  check_totp_long :
      (secret code : List ℕ) (now last_used : ℕ)
      → length (clean code) ≡ 6
      → check_totp hmac clean secret code now last_used
        ≡ try_steps hmac clean secret (clean code) last_used 0 (window (now / totp_period))
  unfolding check_totp window
  check_totp_long secret code now last_used h = ground arith

  module _ (secret code : List ℕ) (now last_used : ℕ) where
    Chosen : ℕ → Type 0
    Chosen r =
        (now / totp_period ≤ r + 1)
        × (r ≤ now / totp_period + 1)
        × IsUsable hmac clean secret (clean code) last_used r

    Chosen-near :
        (r s : ℕ)
        → r ≡ s
        → now / totp_period ≤ s + 1
        → s ≤ now / totp_period + 1
        → IsUsable hmac clean secret (clean code) last_used s
        → Chosen r
    unfolding Chosen
    Chosen-near r s e above below usable = subst Chosen (sym e) (above, below, usable)

    check_totp-Chosen :
        (r : ℕ)
        → Any
            (λ s. (r ≡ s) × IsUsable hmac clean secret (clean code) last_used s)
            (window (now / totp_period))
        → Chosen r
    unfolding window
    check_totp-Chosen r (inl (e, u)) = Chosen-near r _ e (omega arith) (omega arith) u
    check_totp-Chosen r (inr (inl (e, u))) = Chosen-near r _ e (omega arith) (omega arith) u
    check_totp-Chosen r (inr (inr (inl (e, u)))) = Chosen-near r _ e (omega arith) (omega arith) u
    check_totp-Chosen r (inr (inr (inr e))) = absurd e

  -- The step that is returned is 0, or at most one from the current step, after the last used one, and
  -- the text is its code.
  pub check_totp-IsUsable :
      (secret code : List ℕ) (now last_used : ℕ)
      → let r = check_totp hmac clean secret code now last_used in
        (r ≡ 0)
        ⊎ ((now / totp_period ≤ r + 1)
            × (r ≤ now / totp_period + 1)
            × IsUsable hmac clean secret (clean code) last_used r)
  unfolding Chosen
  check_totp-IsUsable secret code now last_used = elim (ℕ_discrete (length (clean code)) 6) [
    | no other ↦ inl (check_totp_short secret code now last_used other)
    | yes six ↦
        let e = check_totp_long secret code now last_used six in
        elim (try_steps_lem hmac clean secret (clean code) last_used 0
          (window (now / totp_period))).0 [
            | inl zero_step ↦ inl (e ∙ zero_step)
            | inr found ↦ inr (
                subst (Chosen secret code now last_used) (sym e)
                  (check_totp-Chosen secret code now last_used _ found))
          ]
  ]

  -- With six characters, no usable step of the window is later than the one returned.
  pub check_totp_latest :
      (secret code : List ℕ) (now last_used s : ℕ)
      → length (clean code) ≡ 6
      → now / totp_period ≤ s + 1
      → s ≤ now / totp_period + 1
      → IsUsable hmac clean secret (clean code) last_used s
      → s ≤ check_totp hmac clean secret code now last_used
  unfolding window
  check_totp_latest secret code now last_used s six above below usable =
      let e = check_totp_long secret code now last_used six in
      let (a, (b, (d, _))) =
        (try_steps_lem hmac clean secret (clean code) last_used 0 (window (now / totp_period))).2 in
      let own : (t : ℕ) → s ≡ t → IsUsable hmac clean secret (clean code) last_used t =
        λ t same. subst (IsUsable hmac clean secret (clean code) last_used) same usable in
      elim (near (now / totp_period) s above below) [
        | inl (inl same) ↦ omega (arith, e, same, a (own _ same))
        | inl (inr same) ↦ omega (arith, e, same, b (own _ same))
        | inr same ↦ omega (arith, e, same, d (own _ same))
      ]
