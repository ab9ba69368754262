-- ===== src/Dht/Rounds.antt =====
-- The batch of a round, and the answers to it.
use zeropentime.Dht.{Contact, pick}
use zeropentime.Dht.Contacts.{has_contact, is_asked, AreApart}
use zeropentime.Netip.{has_addr, AddrPort}
use zeropentime.Prelude.{
  ℕ, zero, suc, ◌-◌, ◌≤◌, ◌≡◌, refl, ◌∙◌, inl, inr, true, false, not, ◌&&◌, List, [], ◌∷◌, arith,
  length, ltb, Bool-cases,
}

-- Each address once.
abbrev pub IsOnce : List AddrPort → Type 0
IsOnce [] = Unit
IsOnce (a ∷ list) = (has_addr list a ≡ false) × IsOnce list

-- What `pick` gives: the same contacts, with those of the batch asked, who were not.
pub record IsBatch (room : ℕ) (cs cs' : List Contact) (batch : List AddrPort) : Type 0 where
  pub same_contact : (a : AddrPort) → has_contact cs' a ≡ has_contact cs a
  pub apart : AreApart cs'
  pub still_asked : (a : AddrPort) → is_asked cs a ≡ true → is_asked cs' a ≡ true
  pub from_contacts : (a : AddrPort) → has_addr batch a ≡ true → has_contact cs a ≡ true
  pub not_before : (a : AddrPort) → has_addr batch a ≡ true → is_asked cs a ≡ false
  pub asked_now : (a : AddrPort) → has_addr batch a ≡ true → is_asked cs' a ≡ true
  pub once : IsOnce batch
  pub few : length batch ≤ room

nothing_picked : (room : ℕ) (cs : List Contact) → AreApart cs → IsBatch room cs cs []
unfolding has_addr
nothing_picked room cs g = record {
  same_contact = λ a. refl;
  apart = g;
  still_asked = λ a h. h;
  from_contacts = λ a h. cc;
  not_before = λ a h. cc;
  asked_now = λ a h. cc;
  once = tt;
  few = omega arith;
}

-- The batch of a round takes at most so many contacts as there is room, each once and none asked before.
pub pick-IsBatch :
    (near room : ℕ) (cs : List Contact)
    → AreApart cs
    → IsBatch room cs (pick near room cs).0 (pick near room cs).1
unfolding pick has_contact is_asked has_addr
pick-IsBatch near room [] g = nothing_picked room [] g
pick-IsBatch zero room (c ∷ cs) g = nothing_picked room (c ∷ cs) g
pick-IsBatch (suc near) room (c ∷ cs) (one, rest) = elim (Bool-cases (not c.asked && ltb 0 room)) [
  | inl takes ↦
      let ih = pick-IsBatch near (room - 1) cs rest in
      rw (takes, pick)
        (record {
          same_contact = λ a. ground (arith, ih.same_contact a);
          apart = (ih.same_contact c.addr ∙ one, ih.apart);
          still_asked = λ a h. ground (arith, h, ih.still_asked a);
          from_contacts = λ a h. ground (arith, h, ih.from_contacts a);
          not_before = λ a h. ground (arith, h, takes, one, ih.not_before a, ih.from_contacts a);
          asked_now = λ a h. ground (arith, h, ih.asked_now a);
          once = (ground (arith, ih.from_contacts c.addr, one), ih.once);
          few = ground (arith, ih.few, takes);
        })
  | inr skips ↦
      let ih = pick-IsBatch near room cs rest in
      rw (skips, pick)
        (record {
          same_contact = λ a. ground (arith, ih.same_contact a);
          apart = (ih.same_contact c.addr ∙ one, ih.apart);
          still_asked = λ a h. ground (arith, h, ih.still_asked a);
          from_contacts = λ a h. ground (arith, h, ih.from_contacts a);
          not_before = λ a h. ground (arith, h, ih.not_before a, ih.from_contacts a, one);
          asked_now = λ a h. ground (arith, h, ih.asked_now a, ih.from_contacts a, one);
          once = ih.once;
          few = ih.few;
        })
]
