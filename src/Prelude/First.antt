-- ===== src/Prelude/First.antt =====
-- Loops that look for the first element that fits, against the description of "first".
use mathlib.Core.Bool.{Bool, true, false}
use mathlib.Core.List.{List, [], ◌∷◌}
use mathlib.Core.Logic.{◌↔◌, ◌⊎◌, inl, inr}
use mathlib.Core.Option.{Option, none, some}
use mathlib.Core.Path.{◌≡◌, refl, subst, sym}
use native.Mathlib.Omega.{arith}
use Prim.Native.Nat.{ℕ, zero, suc, ◌+◌, ◌<◌}
use zeropentime.Prelude.Lists.{get_elem?}
use zeropentime.Prelude.Tests.{if◌then◌else◌, Bool-cases}

module _ {A : Type 0} (P : A → Type 0) where
  -- The element at `k` fits, and none before it does.
  abbrev pub IsFirst : ℕ → List A → Type 0
  IsFirst k xs =
      ((x : A) × (get_elem? xs k ≡ some x) × P x)
      × ((j : ℕ) (y : A) → j < k → get_elem? xs j ≡ some y → ¬ P y)

  abbrev pub NoneFits : List A → Type 0
  NoneFits xs = (j : ℕ) (y : A) → get_elem? xs j ≡ some y → ¬ P y

  module _ (p : A → Bool) (reflects : (x : A) → (p x ≡ true) ↔ P x) where
    -- `for i, x := range xs { if p(x) { return i } }`, from index `i` on.
    unfoldable pub find_from : ℕ → List A → Option ℕ
    find_from i [] = none
    find_from i (x ∷ xs) = let rest = find_from (i + 1) xs in if p x then some i else rest

    refuses : (x : A) → ¬ P x → p x ≡ false
    refuses x n = elim (Bool-cases (p x)) [ inl e ↦ absurd (n ((reflects x).0 e)) | inr e ↦ e ]

    denies : (x : A) → p x ≡ false → ¬ P x
    denies x e h = ground (arith, (reflects x).1 h)

    pub find_from-IsFirst : (i k : ℕ) (xs : List A) → IsFirst k xs → find_from i xs ≡ some (i + k)
    unfolding find_from
    find_from-IsFirst i k [] ((y, e, h), before) = cc
    find_from-IsFirst i zero (x ∷ xs) ((y, e, h), before) =
        let e' : x ≡ y = ground arith in
        let t : p x ≡ true = (reflects x).1 (subst P (sym e') h) in ground arith
    find_from-IsFirst i (suc k) (x ∷ xs) ((y, e, h), before) =
        let f : p x ≡ false = refuses x (before 0 x (omega arith) refl) in
        let ih : find_from (i + 1) xs ≡ some (i + 1 + k) =
          find_from-IsFirst (i + 1) k xs
            ((y, e, h), λ j z lt g. before (suc j) z (omega arith) g) in
        ground arith

    pub find_from-NoneFits : (i : ℕ) (xs : List A) → NoneFits xs → find_from i xs ≡ none
    unfolding find_from
    find_from-NoneFits i [] h = refl
    find_from-NoneFits i (x ∷ xs) h =
        let f : p x ≡ false = refuses x (h 0 x refl) in
        rw f (find_from-NoneFits (i + 1) xs (λ j y e. h (suc j) y e))

    IsFirst-step : (x : A) (xs : List A) → ¬ P x → (k : ℕ) → IsFirst k xs → IsFirst (suc k) (x ∷ xs)
    IsFirst-step x xs n k ((y, e, h), before) = ((y, e, h), earlier)
      where
        earlier : (j : ℕ) (z : A) → j < suc k → get_elem? (x ∷ xs) j ≡ some z → ¬ P z
        earlier zero z lt e' q = n (subst P (ground arith) q)
        earlier (suc j) z lt e' q = before j z (omega arith) e' q

    NoneFits-step : (x : A) (xs : List A) → ¬ P x → NoneFits xs → NoneFits (x ∷ xs)
    NoneFits-step x xs n h zero y e q = n (subst P (ground arith) q)
    NoneFits-step x xs n h (suc j) y e q = h j y e q

    pub IsFirst-cases : (xs : List A) → ((k : ℕ) × IsFirst k xs) ⊎ NoneFits xs
    IsFirst-cases [] = inr (λ j y e h. cc)
    IsFirst-cases (x ∷ xs) = elim (Bool-cases (p x)) [
      | inl e ↦ inl (0, ((x, refl, (reflects x).0 e), λ j y lt. absurd (omega arith)))
      | inr f ↦ elim (IsFirst-cases xs) [
        | inl (k, h) ↦ inl (suc k, IsFirst-step x xs (denies x f) k h)
        | inr h ↦ inr (NoneFits-step x xs (denies x f) h)
      ]
    ]

    -- Each answer of the loop says which case holds.
    pub find_from-some_iff : (k : ℕ) (xs : List A) → (find_from 0 xs ≡ some k) ↔ IsFirst k xs
    find_from-some_iff k xs = (to, λ h. ground (arith, find_from-IsFirst 0 k xs h))
      where
        to : find_from 0 xs ≡ some k → IsFirst k xs
        to e = elim (IsFirst-cases xs) [
          | inl (j, h) ↦
              subst (λ (n : ℕ). IsFirst n xs) (ground (arith, find_from-IsFirst 0 j xs h)) h
          | inr h ↦ cc (find_from-NoneFits 0 xs h)
        ]

    pub find_from-none_iff : (xs : List A) → (find_from 0 xs ≡ none) ↔ NoneFits xs
    find_from-none_iff xs = (to, find_from-NoneFits 0 xs)
      where
        to : find_from 0 xs ≡ none → NoneFits xs
        to e = elim (IsFirst-cases xs) [ inl (j, h) ↦ cc (find_from-IsFirst 0 j xs h) | inr h ↦ h ]
