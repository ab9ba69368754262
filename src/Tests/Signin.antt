-- ===== src/Tests/Signin.antt =====
-- A guesser with two failures, one of them old.
use zeropentime.Prelude.{ℕ, ◌*◌, ◌^◌, List, [], ◌∷◌, codes}
use zeropentime.Signin.History.{Event, tries, fails}

abbrev guesser : List ℕ
guesser = codes "203.0.113.4"

abbrev guesses : List Event
guesses =
    tries guesser 5
    ∷ fails guesser 6
    ∷ fails guesser (300 * 10 ^ 9)
    ∷ tries guesser (700 * 10 ^ 9)
    ∷ []
