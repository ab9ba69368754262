-- ===== src/Prelude/Tests.antt =====
-- Boolean tests on the native numbers, and the conditional.
use Prim.Native.Nat.{ℕ, ◌≤◌, ◌<◌, compare, Ordering}
use mathlib.Core.Path.{◌≡◌, refl}
use mathlib.Core.Logic.{◌↔◌, ◌⊎◌, inl, inr}
use mathlib.Core.Bool.{Bool, true, false}
use mathlib.Core.List.{List}
use mathlib.Core.Option.{Option, none, some}
use native.Mathlib.Decide.{ℕ_discrete}
use native.Mathlib.Omega.{arith}

-- These compute to `compare`, which `ground` and `grind` read with no lemma listed.
abbrev pub ltb : ℕ → ℕ → Bool
ltb a b = elim (compare a b) [ Ordering.lt ↦ true | _ ↦ false ]

abbrev pub leb : ℕ → ℕ → Bool
leb a b = elim (compare a b) [ Ordering.gt ↦ false | _ ↦ true ]

infix 50 ◌==◌
abbrev pub ◌==◌ : ℕ → ℕ → Bool
a == b = elim (compare a b) [ Ordering.eq ↦ true | _ ↦ false ]

infix 1 if◌then◌else◌
abbrev pub if◌then◌else◌ {ℓ} : {A : Type ℓ} → Bool → A → A → A
if true then x else y = x
if false then x else y = y

-- `omega` reads a test through such lemmas.
pub ltb→lt : (a b : ℕ) → ltb a b ≡ true → a < b
ltb→lt a b h = ground arith

pub lt→ltb : (a b : ℕ) → a < b → ltb a b ≡ true
lt→ltb a b h = ground arith

pub leb→le : (a b : ℕ) → leb a b ≡ true → a ≤ b
leb→le a b h = ground arith

pub ==_iff : (a b : ℕ) → ((a == b) ≡ true) ↔ (a ≡ b)
==_iff a b = ground arith

pub ruleset tests = (arith, ltb→lt, lt→ltb, leb→le)

-- To split on a computed value and keep the equation.
pub Bool-cases : (b : Bool) → (b ≡ true) ⊎ (b ≡ false)
Bool-cases true = inl refl
Bool-cases false = inr refl

pub Option-cases {ℓ} : {A : Type ℓ} (o : Option A) → (o ≡ none) ⊎ ((a : A) × (o ≡ some a))
Option-cases none = inl refl
Option-cases (some a) = inr (a, refl)

-- The Boolean of a decision, and the Boolean equality that a decision procedure gives.
abbrev pub is_yes {ℓ} : {P : Type ℓ} → Dec P → Bool
is_yes (yes p) = true
is_yes (no n) = false

pub is_yes→ {ℓ} : {P : Type ℓ} (c : Dec P) → is_yes c ≡ true → P
is_yes→ (yes p) h = p
is_yes→ (no n) h = cc

pub →is_yes {ℓ} : {P : Type ℓ} (c : Dec P) → P → is_yes c ≡ true
→is_yes (yes p) h = refl
→is_yes (no n) h = absurd (n h)

unfoldable pub Bytes_discrete : Discrete (List ℕ)
Bytes_discrete = hlevel ℕ_discrete

pub iff_trans {ℓ κ μ} : {A : Type ℓ} {B : Type κ} {C : Type μ} → A ↔ B → B ↔ C → A ↔ C
iff_trans f g = (λ a. g.0 (f.0 a), λ c. f.1 (g.1 c))
