-- ===== src/Signin/History.antt =====
-- The limiter forgets old failures, but answers as if it kept them all.
use zeropentime.Prelude.Assoc.{lookup}
use zeropentime.Prelude.{ℕ, ◌≤◌, ◌≡◌, List, [], ◌∷◌, ◌++◌, if◌then◌else◌, Bytes_discrete, ◌=text◌}
use zeropentime.Signin.{LoginLimiter, recent_of, times_of, allowed, failed}

-- What happens to a limiter: a login is tried, or has failed, at a time.
pub data Event : Type 0 where
  tries fails : List ℕ → ℕ → Event

abbrev pub time_of : Event → ℕ
time_of (tries addr t) = t
time_of (fails addr t) = t

abbrev pub step : LoginLimiter → Event → LoginLimiter
step l (tries addr t) = (allowed addr t l).1
step l (fails addr t) = failed addr t l

abbrev pub run : LoginLimiter → List Event → LoginLimiter
run l [] = l
run l (e ∷ events) = run (step l e) events

-- All failures of an address, in their order.
unfoldable pub failures : List ℕ → List Event → List ℕ
failures addr [] = []
failures addr (tries a t ∷ events) = failures addr events
failures addr (fails a t ∷ events) =
    let rest = failures addr events in if a =text addr then t ∷ rest else rest

-- No event is before the time, and time does not run back.
abbrev pub IsTimely : ℕ → List Event → Type 0
IsTimely now [] = Unit
IsTimely now (e ∷ events) = (now ≤ time_of e) × IsTimely (time_of e) events

abbrev pub end_of : ℕ → List Event → ℕ
end_of now [] = now
end_of now (e ∷ events) = end_of (time_of e) events

abbrev stored : List ℕ → LoginLimiter → List ℕ
stored addr l = times_of (lookup Bytes_discrete addr l.fail)

-- The limiter holds the failures that are recent, now and later.
Agrees : ℕ → LoginLimiter → (List ℕ → List ℕ) → Type 0
Agrees now l all =
    (addr : List ℕ) (later : ℕ)
    → now ≤ later
    → recent_of later (stored addr l) ≡ recent_of later (all addr)

-- The failures with one more.
with_failure : List ℕ → ℕ → (List ℕ → List ℕ) → List ℕ → List ℕ
with_failure a t all addr = if a =text addr then all addr ++ (t ∷ []) else all addr
