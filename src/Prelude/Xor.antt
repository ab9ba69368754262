-- ===== src/Prelude/Xor.antt =====
-- Bytes under the mask of a key.
use Prim.Native.Nat.{ℕ, suc, ◌≤◌, bit_xor}
use mathlib.Core.List.{List, [], ◌∷◌}
use mathlib.Core.Path.{◌≡◌, refl, ap}
use native.Mathlib.Omega.{arith}
use zeropentime.Prelude.Bits.{xor_cancel}
use zeropentime.Prelude.Lists.{length}

-- What the key does not cover stays.
unfoldable pub xor_with : List ℕ → List ℕ → List ℕ
xor_with [] key = []
xor_with (b ∷ ip) [] = b ∷ ip
xor_with (b ∷ ip) (k ∷ key) = bit_xor b k ∷ xor_with ip key

pub xor_with_cancel : (xs ks : List ℕ) → length xs ≤ length ks → xor_with (xor_with xs ks) ks ≡ xs
unfolding xor_with
xor_with_cancel [] ks h = refl
xor_with_cancel (x ∷ xs) [] h = refl
xor_with_cancel (x ∷ xs) (k ∷ ks) h =
    ground (arith, xor_cancel x k, xor_with_cancel xs ks (omega arith))

pub length-xor_with : (xs ks : List ℕ) → length (xor_with xs ks) ≡ length xs
unfolding xor_with
length-xor_with [] ks = refl
length-xor_with (x ∷ xs) [] = refl
length-xor_with (x ∷ xs) (k ∷ ks) = ap suc (length-xor_with xs ks)
