-- ===== src/Acl/Filter/Broadcast.antt =====
-- `lastAddr`: the broadcast address of an IPv4 prefix, and the addresses that reach a group.
use zeropentime.Acl.Filter.{Filter, last_addr, group_to_self}
use zeropentime.Netip.{
  Addr, v4, v6, invalid, Prefix, prefix_is_valid, contains, is_multicast, unmap, ◌=ip◌,
}
use zeropentime.Prelude.Bits.{bit_or_ones}
use native.Mathlib.Nat.{div-add-mod, div-add-mod', one-le-pow, mod-lt}
use zeropentime.Prelude.{
  ℕ, ◌+◌, ◌-◌, ◌*◌, ◌/◌, ◌%◌, ◌^◌, ◌≤◌, ◌<◌, ◌≡◌, ◌↔◌, ◌⊎◌, inl, inr, refl, true, false, List, ltb,
  ◌&&◌, arith, ap, sym, ◌∙◌, Bool-cases,
}

fill_div : (q w : ℕ) → 1 ≤ w → (q * w + (w - 1)) / w ≡ q
fill_div q w h = grind arith

le-fill : (b w q : ℕ) → 1 ≤ w → b / w ≡ q → b ≤ q * w + (w - 1)
le-fill b w q h e =
    let m : b % w < w = mod-lt b h in
    let d : q * w ≡ b / w * w = ap (λ (t : ℕ). t * w) (sym e) in omega (arith, div-add-mod b w)

abbrev pub prefix4 : ℕ → ℕ → Prefix
prefix4 a bits_plus_one = record { ip = v4 a; bits_plus_one = bits_plus_one }

abbrev pub host_size : ℕ → ℕ
host_size bits_plus_one = 2 ^ (32 - (bits_plus_one - 1))

last_addr_value :
    (a n : ℕ) → last_addr (prefix4 a n) ≡ v4 (a / host_size n * host_size n + (host_size n - 1))
unfolding last_addr
last_addr_value a n = ap v4 (bit_or_ones (32 - (n - 1)) (a / host_size n))

-- The last address of a valid IPv4 prefix lies in the prefix, and no address of it is greater.
pub last_addr_greatest :
    (a n b : ℕ)
    → 0 < n
    → contains (prefix4 a n) (v4 b) ≡ true
    → (last : ℕ) × (last_addr (prefix4 a n) ≡ v4 last)
      × (contains (prefix4 a n) (v4 last) ≡ true)
      × (b ≤ last)
unfolding contains
last_addr_greatest a n b valid inside =
    let w = host_size n in
    let pos : 1 ≤ w = one-le-pow (32 - (n - 1)) 2 (omega arith) in
    let same : b / w ≡ a / w = ground arith in
    (
      a / w * w + (w - 1),
      last_addr_value a n,
      ground (arith, fill_div (a / w) w pos),
      le-fill b w (a / w) pos same,
    )

quotient : (q r w : ℕ) → r < w → (q * w + r) / w ≡ q
quotient q r w h = grind arith

next_quotient : (q w : ℕ) → 1 ≤ w → (q * w + (w - 1) + 1) / w ≡ q + 1
next_quotient q w h = grind arith

-- A number is the last of its block of `w` exactly when the next one is in another block.
last_of_block :
    (a d w : ℕ) → 1 ≤ w → (d ≡ a / w * w + (w - 1)) ↔ ((d / w ≡ a / w) × ¬ ((d + 1) / w ≡ a / w))
last_of_block a d w h = (
  λ e. (
    ap (λ (t : ℕ). t / w) e ∙ fill_div (a / w) w h,
    λ k.
        let next : (d + 1) / w ≡ a / w + 1 =
          ap (λ (t : ℕ). (t + 1) / w) e ∙ next_quotient (a / w) w h in
        absurd (omega (arith, next, k)),
  ),
  λ (same, other).
      let split = div-add-mod' d w in
      let q : d / w * w ≡ a / w * w = ap (λ (t : ℕ). t * w) same in
      elim (Bool-cases (ltb (d % w + 1) w)) [
        | inl below ↦
            let inside : d % w + 1 < w = ground arith in
            let next : d + 1 ≡ a / w * w + (d % w + 1) = omega (arith, split, q) in
            absurd (other (ap (λ (t : ℕ). t / w) next ∙ quotient (a / w) (d % w + 1) w inside))
        | inr top ↦
            let above : w ≤ d % w + 1 = ground arith in omega (arith, split, q, above, mod-lt d h)
      ],
)

-- The last address of a prefix: it lies in the prefix and the next one does not.
abbrev pub IsLast : Prefix → ℕ → Type 0
IsLast p d = (contains p (v4 d) ≡ true) × (contains p (v4 (d + 1)) ≡ false)

last_addr_invalid : (n : ℕ) → last_addr (record { ip = invalid; bits_plus_one = n }) ≡ invalid
unfolding last_addr
last_addr_invalid n = refl

last_addr_v6 :
    (a : ℕ) (z : List ℕ) (n : ℕ) → last_addr (record { ip = v6 a z; bits_plus_one = n }) ≡ invalid
unfolding last_addr
last_addr_v6 a z n = refl

last_addr_iff_of :
    (ip : Addr) (n d : ℕ)
    → let p : Prefix = record { ip = ip; bits_plus_one = n } in
      ((prefix_is_valid p && v4 d =ip last_addr p) ≡ true) ↔ IsLast p d
unfolding contains
last_addr_iff_of invalid n d = rw (last_addr_invalid n) (ground arith)
last_addr_iff_of (v6 a z) n d = rw (last_addr_v6 a z n) (ground arith)
last_addr_iff_of (v4 a) n d =
    rw (last_addr_value a n)
      (ground (arith, last_of_block a d (host_size n) (one-le-pow (32 - (n - 1)) 2 (omega arith))))

last_addr_iff :
    (p : Prefix) (d : ℕ) → ((prefix_is_valid p && v4 d =ip last_addr p) ≡ true) ↔ IsLast p d
last_addr_iff p d = last_addr_iff_of p.ip p.bits_plus_one d

-- The multicast addresses 224.0.0.0 to 239.255.255.255, 255.255.255.255, and the subnet's last.
abbrev pub IsGroup : Filter → ℕ → Type 0
IsGroup f d = ((0xe000_0000 ≤ d) × (d < 0xf000_0000)) ⊎ (d ≡ 0xffff_ffff) ⊎ IsLast f.pol.subnet d

-- The rules see a packet to a group as one to this member, and any other as it is.
pub group_to_self_cases :
    (f : Filter) (d : ℕ)
    → (IsGroup f d × (group_to_self f (v4 d) ≡ f.self))
      ⊎ (¬ IsGroup f d × (group_to_self f (v4 d) ≡ v4 d))
unfolding group_to_self is_multicast unmap
group_to_self_cases f d = ground (arith, last_addr_iff f.pol.subnet d)
