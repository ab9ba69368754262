-- ===== src/Tests/Totp.antt =====
-- A code of the current step, over a digest that is the message itself.
use zeropentime.Prelude.{
  ℕ, ◌+◌, ◌/◌, ◌≤◌, ◌≡◌, ◌⊎◌, refl, sym, List, [], ◌∷◌, ◌++◌, arith, replicate,
}
use zeropentime.Totp.{totp_period, totp_code, check_totp}
use zeropentime.Totp.Replay.{IsUsable, check_totp-IsUsable, check_totp_latest}

abbrev digest : List ℕ → List ℕ → List ℕ
digest secret msg = msg ++ replicate 12 0

abbrev as_is : List ℕ → List ℕ
as_is t = t

abbrev code : List ℕ
code = 48 ∷ 48 ∷ 48 ∷ 48 ∷ 48 ∷ 48 ∷ []

code_of_100 : totp_code digest as_is [] 100 ≡ code
unfolding totp_code
code_of_100 = refl

check_totp-IsUsable_example :
    (check_totp digest as_is [] code 3000 7 ≡ 0)
    ⊎ ((3000 / totp_period ≤ check_totp digest as_is [] code 3000 7 + 1)
        × (check_totp digest as_is [] code 3000 7 ≤ 3000 / totp_period + 1)
        × IsUsable digest as_is [] code 7 (check_totp digest as_is [] code 3000 7))
check_totp-IsUsable_example = check_totp-IsUsable digest as_is [] code 3000 7

usable : IsUsable digest as_is [] code 7 100
unfolding IsUsable
usable = (sym code_of_100, omega arith)

check_totp_latest_example : 100 ≤ check_totp digest as_is [] code 3000 7
check_totp_latest_example =
    check_totp_latest digest as_is [] code 3000 7 100 refl (omega arith) (omega arith) usable
