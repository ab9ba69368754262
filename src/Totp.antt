-- ===== src/Totp.antt =====
-- internal/controller/totp.go: one-time codes. HMAC-SHA1 and the removal of spaces
-- (`strings.TrimSpace`, `strings.ReplaceAll`) are the arguments `hmac` and `clean`.
pub mod Replay
use zeropentime.Prelude.{
  ℕ, ◌+◌, ◌-◌, ◌/◌, ◌%◌, ◌^◌, Bool, not, ◌&&◌, List, [], ◌∷◌, ltb, ◌==◌, ◌=text◌, if◌then◌else◌,
  length, byte_at, u32_at, drop, put_u32, ◌++◌,
}

abbrev pub totp_period : ℕ
totp_period = 30

abbrev pub totp_digits : ℕ
totp_digits = 6

abbrev pub totp_skew : ℕ
totp_skew = 1

abbrev digit : ℕ → ℕ
digit n = 48 + n % 10

-- `%06d` of a number below a million.
abbrev pub six_digits : ℕ → List ℕ
six_digits n =
    digit (n / 100000)
    ∷ digit (n / 10000)
    ∷ digit (n / 1000)
    ∷ digit (n / 100)
    ∷ digit (n / 10)
    ∷ digit n
    ∷ []

module _ (hmac : List ℕ → List ℕ → List ℕ) (clean : List ℕ → List ℕ) where
  -- `totpCode`.
  unfoldable pub totp_code : List ℕ → ℕ → List ℕ
  totp_code secret step =
      let sum = hmac secret (put_u32 (step / 2 ^ 32) ++ put_u32 step) in
      let off = byte_at sum (length sum - 1) % 16 in
      six_digits (u32_at (drop off sum) 0 % 2 ^ 31 % 1000000)

  -- One step of the loop: the steps after the last used one, with no early exit.
  unfoldable pub try_step : List ℕ → List ℕ → ℕ → ℕ → ℕ → ℕ
  try_step secret code last_used hit step =
      if (code =text totp_code secret step) && ltb last_used step && ltb hit step then step else hit

  unfoldable pub try_steps : List ℕ → List ℕ → ℕ → ℕ → List ℕ → ℕ
  try_steps secret code last_used hit [] = hit
  try_steps secret code last_used hit (step ∷ steps) =
      try_steps secret code last_used (try_step secret code last_used hit step) steps

  -- `checkTOTP`, at `now` in seconds.
  unfoldable pub check_totp : List ℕ → List ℕ → ℕ → ℕ → ℕ
  check_totp secret code now last_used =
      let cur = now / totp_period in
      if not (length (clean code) == totp_digits)
      then 0
      else try_steps secret (clean code) last_used 0
          ((cur - totp_skew) ∷ cur ∷ (cur + totp_skew) ∷ [])
