-- ===== src/Prelude/Lists.antt =====
-- Lists measured and indexed by native numbers, under the library's names.
use Prim.Native.Nat.{ℕ, zero, suc, ◌+◌, ◌-◌, ◌<◌, ◌≤◌, min}
use mathlib.Core.Path.{◌≡◌, refl, ap, subst}
use mathlib.Core.Logic.{◌≢◌, ◌⊎◌}
use mathlib.Core.List.{List, [], ◌∷◌, ◌++◌, map}
use mathlib.Core.Option.{Option, none, some}
use native.Mathlib.Omega.{arith}

module _ {ℓ} {A : Type ℓ} where
  abbrev pub length : List A → ℕ
  length [] = 0
  length (x ∷ xs) = suc (length xs)

  abbrev pub get_elem? : List A → ℕ → Option A
  get_elem? [] i = none
  get_elem? (x ∷ xs) zero = some x
  get_elem? (x ∷ xs) (suc i) = get_elem? xs i

  -- A write out of bounds changes nothing.
  abbrev pub set : List A → ℕ → A → List A
  set [] i v = []
  set (x ∷ xs) zero v = v ∷ xs
  set (x ∷ xs) (suc i) v = x ∷ set xs i v

  pub length-append : (xs ys : List A) → length (xs ++ ys) ≡ length xs + length ys
  length-append [] ys = omega arith
  length-append (x ∷ xs) ys = omega (arith, length-append xs ys)

module _ {ℓ} {A : Type ℓ} where
  pub length-set : (xs : List A) (i : ℕ) (v : A) → length (set xs i v) ≡ length xs
  length-set [] i v = refl
  length-set (x ∷ xs) zero v = refl
  length-set (x ∷ xs) (suc i) v = ap suc (length-set xs i v)

  pub get_elem?-set_self :
      (xs : List A) (i : ℕ) (v : A) → i < length xs → get_elem? (set xs i v) i ≡ some v
  get_elem?-set_self [] i v h = elim h [ ]
  get_elem?-set_self (x ∷ xs) zero v h = refl
  get_elem?-set_self (x ∷ xs) (suc i) v h = get_elem?-set_self xs i v (omega arith)

  pub get_elem?-set_ne :
      (xs : List A) {i j : ℕ} (v : A) → i ≢ j → get_elem? (set xs i v) j ≡ get_elem? xs j
  get_elem?-set_ne [] v h = refl
  get_elem?-set_ne (x ∷ xs) {i = zero} {j = zero} v h = absurd (h refl)
  get_elem?-set_ne (x ∷ xs) {i = zero} {j = suc j} v h = refl
  get_elem?-set_ne (x ∷ xs) {i = suc i} {j = zero} v h = refl
  get_elem?-set_ne (x ∷ xs) {i = suc i} {j = suc j} v h = get_elem?-set_ne xs v (λ e. h (ap suc e))

module _ {ℓ} {A : Type ℓ} where
  abbrev pub get_or : List A → ℕ → A → A
  get_or [] i d = d
  get_or (x ∷ xs) zero d = x
  get_or (x ∷ xs) (suc i) d = get_or xs i d

  abbrev pub take : ℕ → List A → List A
  take zero xs = []
  take (suc n) [] = []
  take (suc n) (x ∷ xs) = x ∷ take n xs

  abbrev pub drop : ℕ → List A → List A
  drop zero xs = xs
  drop (suc n) [] = []
  drop (suc n) (x ∷ xs) = drop n xs

  abbrev pub replicate : ℕ → A → List A
  replicate zero a = []
  replicate (suc n) a = a ∷ replicate n a

  pub take-append-drop : (n : ℕ) (xs : List A) → take n xs ++ drop n xs ≡ xs
  take-append-drop zero xs = refl
  take-append-drop (suc n) [] = refl
  take-append-drop (suc n) (x ∷ xs) = rw (take-append-drop n xs)

  pub length-take : (n : ℕ) (xs : List A) → length (take n xs) ≡ min n (length xs)
  length-take zero xs = omega arith
  length-take (suc n) [] = omega arith
  length-take (suc n) (x ∷ xs) = omega (arith, length-take n xs)

  pub length-drop : (n : ℕ) (xs : List A) → length (drop n xs) ≡ length xs - n
  length-drop zero xs = omega arith
  length-drop (suc n) [] = omega arith
  length-drop (suc n) (x ∷ xs) = omega (arith, length-drop n xs)

  pub length-replicate : (n : ℕ) (a : A) → length (replicate n a) ≡ n
  length-replicate zero a = refl
  length-replicate (suc n) a = ap suc (length-replicate n a)

  pub length-map {κ} : {B : Type κ} (xs : List A) (f : A → B) → length (map f xs) ≡ length xs
  length-map [] f = refl
  length-map (x ∷ xs) f = ap suc (length-map xs f)

-- Some element, every element: by recursion, so that the tactics see the parts.
module _ {ℓ} {A : Type ℓ} (P : A → Type 0) where
  abbrev pub Any : List A → Type 0
  Any [] = ⊥
  Any (x ∷ xs) = P x ⊎ Any xs

  abbrev pub All : List A → Type 0
  All [] = Unit
  All (x ∷ xs) = P x × All xs

module _ {ℓ} {A : Type ℓ} where
  pub take-append_exact : (n : ℕ) (xs ys : List A) → length xs ≡ n → take n (xs ++ ys) ≡ xs
  take-append_exact zero [] ys h = refl
  take-append_exact zero (x ∷ xs) ys h = absurd (omega arith)
  take-append_exact (suc n) [] ys h = absurd (omega arith)
  take-append_exact (suc n) (x ∷ xs) ys h = ap (◌∷◌ x) (take-append_exact n xs ys (omega arith))

  pub drop-append_exact : (n : ℕ) (xs ys : List A) → length xs ≡ n → drop n (xs ++ ys) ≡ ys
  drop-append_exact zero [] ys h = refl
  drop-append_exact zero (x ∷ xs) ys h = absurd (omega arith)
  drop-append_exact (suc n) [] ys h = absurd (omega arith)
  drop-append_exact (suc n) (x ∷ xs) ys h = drop-append_exact n xs ys (omega arith)

  pub take_all : (n : ℕ) (xs : List A) → length xs ≡ n → take n xs ≡ xs
  take_all zero [] h = refl
  take_all zero (x ∷ xs) h = absurd (omega arith)
  take_all (suc n) [] h = absurd (omega arith)
  take_all (suc n) (x ∷ xs) h = ap (◌∷◌ x) (take_all n xs (omega arith))

  pub take_plus :
      (k n m : ℕ) (xs : List A) → k ≡ n + m → take k xs ≡ take n xs ++ take m (drop n xs)
  take_plus k zero m xs e = ap (λ (i : ℕ). take i xs) (omega arith)
  take_plus zero (suc n) m xs e = absurd (omega arith)
  take_plus (suc k) (suc n) zero [] e = refl
  take_plus (suc k) (suc n) (suc m) [] e = refl
  take_plus (suc k) (suc n) m (x ∷ xs) e = ap (◌∷◌ x) (take_plus k n m xs (omega arith))

  pub take_short : (n : ℕ) (xs : List A) → length xs ≤ n → take n xs ≡ xs
  take_short zero [] h = refl
  take_short zero (x ∷ xs) h = absurd (omega arith)
  take_short (suc n) [] h = refl
  take_short (suc n) (x ∷ xs) h = ap (◌∷◌ x) (take_short n xs (omega arith))

-- What holds of every element, in a changed list.
module _ {ℓ} {A : Type ℓ} (P : A → Type 0) where
  pub All-append : (xs ys : List A) → All P xs → All P ys → All P (xs ++ ys)
  All-append [] ys h k = k
  All-append (x ∷ xs) ys (one, rest) k = (one, All-append xs ys rest k)

  pub All-set : (xs : List A) (i : ℕ) (v : A) → All P xs → P v → All P (set xs i v)
  All-set [] i v h p = tt
  All-set (x ∷ xs) zero v (one, rest) p = (p, rest)
  All-set (x ∷ xs) (suc i) v (one, rest) p = (one, All-set xs i v rest p)

  pub All-get_elem? : (xs : List A) (i : ℕ) (x : A) → All P xs → get_elem? xs i ≡ some x → P x
  All-get_elem? [] i x h e = cc
  All-get_elem? (y ∷ xs) zero x (one, rest) e = subst P (ground (arith, e)) one
  All-get_elem? (y ∷ xs) (suc i) x (one, rest) e = All-get_elem? xs i x rest e

module _ {ℓ} {A : Type ℓ} (P Q : A → Type 0) where
  pub All-weaken : ((x : A) → P x → Q x) → (xs : List A) → All P xs → All Q xs
  All-weaken f [] h = tt
  All-weaken f (x ∷ xs) (one, rest) = (f x one, All-weaken f xs rest)

module _ {ℓ} {A : Type ℓ} where
  pub get_elem?-append :
      (xs ys : List A) (i : ℕ) (x : A) → get_elem? xs i ≡ some x → get_elem? (xs ++ ys) i ≡ some x
  get_elem?-append [] ys i x e = cc
  get_elem?-append (y ∷ xs) ys zero x e = e
  get_elem?-append (y ∷ xs) ys (suc i) x e = get_elem?-append xs ys i x e

  pub get_elem?-append_end : (xs : List A) (y : A) → get_elem? (xs ++ (y ∷ [])) (length xs) ≡ some y
  get_elem?-append_end [] y = refl
  get_elem?-append_end (x ∷ xs) y = get_elem?-append_end xs y

  pub get_elem?-length : (xs : List A) (i : ℕ) (x : A) → get_elem? xs i ≡ some x → i < length xs
  get_elem?-length [] i x e = cc
  get_elem?-length (y ∷ xs) zero x e = omega arith
  get_elem?-length (y ∷ xs) (suc i) x e = omega (arith, get_elem?-length xs i x e)
