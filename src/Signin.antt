-- ===== src/Signin.antt =====
-- internal/controller/auth.go: the limit on failed logins.
pub mod History
use zeropentime.Prelude.Assoc.{lookup, insert, erase}
use zeropentime.Prelude.{
  ℕ, ◌+◌, ◌-◌, ◌*◌, ◌^◌, Bool, List, [], ◌∷◌, ◌++◌, Option, none, some, ltb, if◌then◌else◌, length,
  Bytes_discrete,
}

-- `loginLimiter`: the times of the failures of each address.
pub record LoginLimiter : Type 0 where
  pub fail : List (List ℕ × List ℕ)

-- Ten minutes, in nanoseconds.
abbrev pub login_window : ℕ
login_window = 600 * 10 ^ 9

abbrev pub max_failures : ℕ
max_failures = 10

unfoldable pub recent_of : ℕ → List ℕ → List ℕ
recent_of now [] = []
recent_of now (t ∷ times) =
    let rest = recent_of now times in if ltb (now - t) login_window then t ∷ rest else rest

unfoldable pub times_of : Option (List ℕ) → List ℕ
times_of none = []
times_of (some times) = times

unfoldable pub store_recent : List ℕ → List ℕ → List (List ℕ × List ℕ) → List (List ℕ × List ℕ)
store_recent addr [] fail = erase Bytes_discrete addr fail
store_recent addr (t ∷ recent) fail = insert Bytes_discrete addr (t ∷ recent) fail

-- `allowed`: whether a login may be tried, and the limiter without what is old.
unfoldable pub allowed : List ℕ → ℕ → LoginLimiter → Bool × LoginLimiter
allowed addr now l =
    let recent = recent_of now (times_of (lookup Bytes_discrete addr l.fail)) in
    (ltb (length recent) max_failures, record { fail = store_recent addr recent l.fail })

-- `failed`.
unfoldable pub failed : List ℕ → ℕ → LoginLimiter → LoginLimiter
failed addr now l = record {
  fail =
      insert Bytes_discrete addr (times_of (lookup Bytes_discrete addr l.fail) ++ (now ∷ []))
        l.fail;
}
