-- ===== src/Dht/Contacts.antt =====
-- The contacts of a lookup: each address once, and which were asked.
use zeropentime.Bencode.{Entries, lt_text}
use zeropentime.Dht.{Contact, Lookup, add, add_all, distance, insert_near, sorted, told}
use zeropentime.Netip.{has_addr, AddrPort, ◌=addr◌}
use zeropentime.Prelude.{
  ℕ, ◌≡◌, refl, ◌∙◌, inl, inr, Bool, true, false, List, [], ◌∷◌, ◌++◌, arith, Bool-cases,
  if◌then◌else◌,
}

unfoldable pub has_contact : List Contact → AddrPort → Bool
has_contact [] a = false
has_contact (c ∷ cs) a = if c.addr =addr a then true else has_contact cs a

-- The first contact with the address was asked.
unfoldable pub is_asked : List Contact → AddrPort → Bool
is_asked [] a = false
is_asked (c ∷ cs) a = if c.addr =addr a then c.asked else is_asked cs a

abbrev pub AreApart : List Contact → Type 0
AreApart [] = Unit
AreApart (c ∷ cs) = (has_contact cs c.addr ≡ false) × AreApart cs

-- The second contacts have the addresses of the first, each once, and the same of them were asked.
pub record IsSame (cs cs' : List Contact) : Type 0 where
  pub same_contact : (a : AddrPort) → has_contact cs' a ≡ has_contact cs a
  pub same_asked : (a : AddrPort) → is_asked cs' a ≡ is_asked cs a
  pub apart : AreApart cs'

two_apart : (a b c : AddrPort) → (a =addr b) ≡ false → (a =addr c) ≡ true → (b =addr c) ≡ false
two_apart a b c h e = ground (arith, h, e)

insert_near-IsSame :
    (ih : List ℕ) (c : Contact) (cs : List Contact)
    → has_contact cs c.addr ≡ false
    → AreApart cs
    → IsSame (c ∷ cs) (insert_near ih c cs)
unfolding insert_near has_contact is_asked
insert_near-IsSame ih c [] h g = record {
  same_contact = λ a. refl;
  same_asked = λ a. refl;
  apart = (h, g);
}
insert_near-IsSame ih c (x ∷ cs) h (one, rest) =
    elim (Bool-cases (lt_text (distance x.id ih) (distance c.id ih))) [
      | inr before ↦
          rw (before, insert_near)
            (record { same_contact = λ a. refl; same_asked = λ a. refl; apart = (h, (one, rest)) })
      | inl after ↦
          let other : (x.addr =addr c.addr) ≡ false = ground (arith, h) in
          let ih' = insert_near-IsSame ih c cs (ground (arith, h)) rest in
          rw (after, insert_near)
            (record {
              same_contact = λ a. ground (arith, ih'.same_contact a);
              same_asked = λ a. ground (arith, ih'.same_asked a, two_apart x.addr c.addr a other);
              apart = (ih'.same_contact x.addr ∙ ground (arith, one, other), ih'.apart);
            })
    ]

pub IsSame-refl : (cs : List Contact) → AreApart cs → IsSame cs cs
IsSame-refl cs g = record { same_contact = λ a. refl; same_asked = λ a. refl; apart = g }

pub sorted-IsSame : (ih : List ℕ) (cs : List Contact) → AreApart cs → IsSame cs (sorted ih cs)
unfolding sorted has_contact is_asked
sorted-IsSame ih [] g = IsSame-refl [] g
sorted-IsSame ih (c ∷ cs) (one, rest) =
    let ih' = sorted-IsSame ih cs rest in
    let put = insert_near-IsSame ih c (sorted ih cs) (ih'.same_contact c.addr ∙ one) ih'.apart in
    record {
      same_contact = λ a. ground (arith, put.same_contact a, ih'.same_contact a);
      same_asked = λ a. ground (arith, put.same_asked a, ih'.same_asked a);
      apart = put.apart;
    }

pub told-IsSame :
    (from : AddrPort) (r : Entries) (cs : List Contact) → AreApart cs → IsSame cs (told from r cs)
unfolding told has_contact is_asked
told-IsSame from r [] g = IsSame-refl [] g
told-IsSame from r (c ∷ cs) (one, rest) = elim (Bool-cases (c.addr =addr from)) [
  | inl this ↦
      rw (this, told)
        (record { same_contact = λ a. refl; same_asked = λ a. refl; apart = (one, rest) })
  | inr other ↦
      let ih = told-IsSame from r cs rest in
      rw (other, told)
        (record {
          same_contact = λ a. ground (arith, ih.same_contact a);
          same_asked = λ a. ground (arith, ih.same_asked a);
          apart = (ih.same_contact c.addr ∙ one, ih.apart);
        })
]

-- Each address once, and all of them seen.
pub record IsSound (s : Lookup) : Type 0 where
  pub apart : AreApart s.closer
  pub covered : (a : AddrPort) → has_contact s.closer a ≡ true → has_addr s.seen a ≡ true

contact_end :
    (cs : List Contact) (c : Contact) (a : AddrPort)
    → has_contact (cs ++ (c ∷ [])) a ≡ (if has_contact cs a then true else c.addr =addr a)
unfolding has_contact
contact_end [] c a = ground arith
contact_end (x ∷ cs) c a = ground (arith, contact_end cs c a)

asked_end :
    (cs : List Contact) (c : Contact) (a : AddrPort)
    → is_asked cs a ≡ true
    → is_asked (cs ++ (c ∷ [])) a ≡ true
unfolding is_asked
asked_end [] c a h = cc
asked_end (x ∷ cs) c a h = ground (arith, asked_end cs c a)

AreApart-end :
    (cs : List Contact) (c : Contact)
    → AreApart cs
    → has_contact cs c.addr ≡ false
    → AreApart (cs ++ (c ∷ []))
unfolding has_contact
AreApart-end [] c g h = (refl, tt)
AreApart-end (x ∷ cs) c (one, rest) h =
    (ground (arith, contact_end cs c x.addr, one, h), AreApart-end cs c rest (ground (arith, h)))

-- A change of the contacts that keeps the invariant, and those that were asked.
pub record Keeps (s s' : Lookup) : Type 0 where
  pub sound : IsSound s'
  pub still_asked : (a : AddrPort) → is_asked s.closer a ≡ true → is_asked s'.closer a ≡ true

pub add-Keeps : (s : Lookup) (ct : Contact) → IsSound s → Keeps s (add s ct)
unfolding add has_addr
add-Keeps s ct g = elim (Bool-cases (has_addr s.seen ct.addr)) [
  | inl known ↦ rw (known, add) (record { sound = g; still_asked = λ a h. h })
  | inr new ↦
      let fresh : has_contact s.closer ct.addr ≡ false = ground (arith, g.covered ct.addr, new) in
      rw (new, add)
        (record {
          sound = record {
            apart = AreApart-end s.closer ct g.apart fresh;
            covered = λ a h. ground (arith, h, contact_end s.closer ct a, g.covered a);
          };
          still_asked = λ a. asked_end s.closer ct a;
        })
]

pub add_all-Keeps : (s : Lookup) (cts : List Contact) → IsSound s → Keeps s (add_all s cts)
unfolding add_all
add_all-Keeps s [] g = record { sound = g; still_asked = λ a h. h }
add_all-Keeps s (ct ∷ cts) g =
    let first = add-Keeps s ct g in
    let rest = add_all-Keeps (add s ct) cts first.sound in
    record { sound = rest.sound; still_asked = λ a h. rest.still_asked a (first.still_asked a h) }
