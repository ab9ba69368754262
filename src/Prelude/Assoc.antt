-- ===== src/Prelude/Assoc.antt =====
-- Go's maps as association lists: `lookup` reads, `insert` writes a key in place or adds it,
-- `erase` deletes it. The order of the entries stands for no order of iteration.
use Prim.Native.Nat.{◌+◌, ◌≤◌}
use mathlib.Core.Path.{◌≡◌, refl, sym, ◌∙◌, subst}
use mathlib.Core.Logic.{ite, if_pos, if_neg, ◌≢◌}
use mathlib.Core.List.{List, [], ◌∷◌}
use mathlib.Core.Option.{Option, none, some}
use native.Mathlib.Omega.{arith}
use zeropentime.Prelude.Lists.{length}

module _ {ℓ} {K V : Type ℓ} (d : Discrete K) where
  unfoldable pub lookup : K → List (K × V) → Option V
  lookup k [] = none
  lookup k ((j, v) ∷ m) = ite (d j k) (some v) (lookup k m)

  unfoldable pub insert : K → V → List (K × V) → List (K × V)
  insert k v [] = (k, v) ∷ []
  insert k v ((j, w) ∷ m) = ite (d j k) ((k, v) ∷ m) ((j, w) ∷ insert k v m)

  unfoldable pub erase : K → List (K × V) → List (K × V)
  erase k [] = []
  erase k ((j, w) ∷ m) = ite (d j k) (erase k m) ((j, w) ∷ erase k m)

  pub lookup-insert :
      (k j : K) (v : V) (m : List (K × V))
      → lookup j (insert k v m) ≡ ite (d k j) (some v) (lookup j m)
  unfolding lookup insert
  lookup-insert k j v [] = refl
  lookup-insert k j v ((i, w) ∷ m) = ground (arith, lookup-insert k j v m)

  pub lookup-erase :
      (k j : K) (m : List (K × V)) → lookup j (erase k m) ≡ ite (d k j) none (lookup j m)
  unfolding lookup erase
  lookup-erase k j [] = ground arith
  lookup-erase k j ((i, w) ∷ m) = ground (arith, lookup-erase k j m)

  pub length-insert : (k : K) (v : V) (m : List (K × V)) → length (insert k v m) ≤ length m + 1
  unfolding insert
  length-insert k v [] = omega arith
  length-insert k v ((j, w) ∷ m) = ground (arith, length-insert k v m)

  -- Each key stands once, as in a map.
  abbrev pub Distinct : List (K × V) → Type ℓ
  Distinct [] = Unit
  Distinct ((k, v) ∷ m) = (lookup k m ≡ none) × Distinct m

  pub lookup-insert_ne :
      (k j : K) (v : V) (m : List (K × V)) → k ≢ j → lookup j (insert k v m) ≡ lookup j m
  lookup-insert_ne k j v m h = ground (arith, lookup-insert k j v m)

  pub lookup-insert_self : (k : K) (v : V) (m : List (K × V)) → lookup k (insert k v m) ≡ some v
  lookup-insert_self k v m = ground (arith, lookup-insert k k v m)

  pub insert-Distinct : (k : K) (v : V) (m : List (K × V)) → Distinct m → Distinct (insert k v m)
  unfolding insert
  insert-Distinct k v [] h = (unfold lookup in refl, tt)
  insert-Distinct k v ((j, w) ∷ m) h = elim (d j k) [
    | yes e ↦ rw (if_pos _ e) (subst (λ (i : K). lookup i m ≡ none) e h.0, h.1)
    | no n ↦
        rw (if_neg _ n) (lookup-insert_ne k j v m (λ e. n (sym e)) ∙ h.0, insert-Distinct k v m h.1)
  ]

  -- A write to a key that is there keeps the number of entries.
  pub length-insert_of_some :
      (k : K) (v w : V) (m : List (K × V)) → lookup k m ≡ some w → length (insert k v m) ≡ length m
  unfolding insert lookup
  length-insert_of_some k v w [] h = cc
  length-insert_of_some k v w ((j, u) ∷ m) h = ground (arith, length-insert_of_some k v w m)
