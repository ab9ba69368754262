-- ===== src/Stun/Attributes.antt =====
-- The loop over the attributes of a response: it ends, and skips what it does not know.
use native.Mathlib.Nat.{add_comm}
use native.Mathlib.Numerals.{towards_suc}
use zeropentime.Netip.{AddrPort}
use zeropentime.Prelude.{
  ℕ, zero, suc, ◌+◌, ◌%◌, ◌^◌, ◌≤◌, ◌<◌, ◌≡◌, ◌≢◌, ◌⊎◌, refl, ◌∙◌, ap, List, ◌++◌, Option, arith,
  length, drop, take, length-drop, length-append, drop-append_exact, u16_at, put_u16,
  u16_at-put_u16, inl, inr,
}
use zeropentime.Stun.{attributes, read_attribute, padded, Found, answer, so_far}

Found-cases :
    (r : Found) → ((a : AddrPort) × (r ≡ answer a)) ⊎ ((m : Option AddrPort) × (r ≡ so_far m))
Found-cases (answer a) = inl (a, refl)
Found-cases (so_far m) = inr (m, refl)

-- The number of rounds is no more than the length of the body, since each takes at least four bytes:
-- any fuel from the length on gives one answer.
pub attributes_fuel :
    (fuel more : ℕ) (id body : List ℕ) (mapped : Option AddrPort)
    → length body ≤ fuel
    → length body ≤ more
    → attributes fuel id body mapped ≡ attributes more id body mapped
unfolding attributes
attributes_fuel zero zero id body mapped h k = refl
attributes_fuel zero (suc more) id body mapped h k = ground arith
attributes_fuel (suc fuel) zero id body mapped h k = ground arith
attributes_fuel (suc fuel) (suc more) id body mapped h k =
    elim (Found-cases
      (read_attribute id (u16_at body 0) (take (u16_at body 2) (drop 4 body)) mapped)) [
        | inl (a, e) ↦ ground (arith, e)
        | inr (m, e) ↦ ground (
          arith,
          e,
          attributes_fuel fuel more id (drop (4 + padded (u16_at body 2)) body) m,
          length-drop (4 + padded (u16_at body 2)) body,
        )
      ]

attributes_next :
    (fuel : ℕ) (id body rest : List ℕ) (mapped : Option AddrPort) (n : ℕ)
    → u16_at body 2 ≡ n
    → 4 + n ≤ length body
    → read_attribute id (u16_at body 0) (take (u16_at body 2) (drop 4 body)) mapped ≡ so_far mapped
    → 4 + padded n ≤ length body
    → drop (4 + padded n) body ≡ rest
    → attributes (suc fuel) id body mapped ≡ attributes fuel id rest mapped
unfolding attributes
attributes_next fuel id body rest mapped n len fits skipped room behind = ground arith

read_attribute_unknown :
    (id v rest : List ℕ) (mapped : Option AddrPort) (typ n : ℕ)
    → u16_at (put_u16 typ) 0 ≡ typ
    → typ ≢ 0x0001
    → typ ≢ 0x0020
    → read_attribute id
        (u16_at (put_u16 typ ++ put_u16 n ++ v ++ rest) 0)
        (take (u16_at (put_u16 n) 0) (v ++ rest))
        mapped
      ≡ so_far mapped
unfolding read_attribute
read_attribute_unknown id v rest mapped typ n t other unknown = ground arith

behind :
    (n : ℕ) (v rest : List ℕ) (typ : ℕ)
    → length v ≡ n
    → drop (4 + n) (put_u16 typ ++ put_u16 n ++ v ++ rest) ≡ rest
behind n v rest typ size = rw (add_comm 4 n) (simp towards_suc (drop-append_exact n v rest size))

-- An attribute of another type in front is skipped, whatever its value: with a value padded to four
-- bytes the search goes on behind it.
pub attributes_skip :
    (fuel typ n : ℕ) (id v rest : List ℕ) (mapped : Option AddrPort)
    → typ < 2 ^ 16
    → n < 2 ^ 16
    → typ ≢ 0x0001
    → typ ≢ 0x0020
    → length v ≡ n
    → n % 4 ≡ 0
    → attributes (suc fuel) id (put_u16 typ ++ put_u16 n ++ v ++ rest) mapped
      ≡ attributes fuel id rest mapped
attributes_skip fuel typ n id v rest mapped t16 n16 other unknown size aligned =
    let t : u16_at (put_u16 typ) 0 ≡ typ = u16_at-put_u16 typ t16 in
    let len : u16_at (put_u16 n) 0 ≡ n = u16_at-put_u16 n n16 in
    let whole : padded n ≡ n = omega arith in
    let body = put_u16 typ ++ put_u16 n ++ v ++ rest in
    attributes_next fuel id body rest mapped n len (omega (arith, length-append v rest))
      (read_attribute_unknown id v rest mapped typ n t other unknown)
      (omega (arith, length-append v rest))
      (ap (λ (k : ℕ). drop (4 + k) body) whole ∙ behind n v rest typ size)
