-- ===== src/Tunwrap/Device/Limit.antt =====
-- The rate limit of forwarded broadcasts.
use zeropentime.Acl.Filter.{second}
use zeropentime.Prelude.{
  ℕ, suc, ◌+◌, ◌-◌, ◌≤◌, ◌<◌, ◌≡◌, List, [], ◌∷◌, All, arith, if◌then◌else◌, length, refl,
}
use zeropentime.Tunwrap.Packet.{Device}
use zeropentime.Tunwrap.Device.{max_pps, allow}

-- How many of the broadcasts at the given times pass.
pub passed : Device → List ℕ → ℕ
passed d [] = 0
passed d (now ∷ times) =
    let (pass, d') = allow d now in let rest = passed d' times in if pass then suc rest else rest

-- Inside the current window, as many pass as are left of it.
passed-le-left :
    (d : Device) (times : List ℕ)
    → All (λ now. now - d.window < second) times
    → passed d times ≤ max_pps - d.counter
unfolding passed allow
passed-le-left d [] h = omega arith
passed-le-left d (now ∷ times) h =
    ground (arith, passed-le-left (record d { counter = d.counter + 1 }) times h.1)

-- From a broadcast that opens a new window on, at most `max_pps` broadcasts pass within a second.
pub passed-le-max_pps :
    (d : Device) (now : ℕ) (times : List ℕ)
    → second ≤ now - d.window
    → All (λ t. t - now < second) times
    → passed d (now ∷ times) ≤ max_pps
unfolding passed allow
passed-le-max_pps d now times opens h =
    ground (arith, passed-le-left (record d { window = now; counter = 1 }) times h)

-- The limit refuses nothing that fits: the first `max_pps` of a window pass.
pub passed_within :
    (d : Device) (times : List ℕ)
    → All (λ now. now - d.window < second) times
    → d.counter + length times ≤ max_pps
    → passed d times ≡ length times
unfolding passed allow
passed_within d [] h room = refl
passed_within d (now ∷ times) h room =
    ground (arith, passed_within (record d { counter = d.counter + 1 }) times h.1)
