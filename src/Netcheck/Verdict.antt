-- ===== src/Netcheck/Verdict.antt =====
-- The verdict of a check, from the answers.
use zeropentime.Netcheck.{
  Nat, nat_none, nat_cone, nat_symmetric, nat_blocked, nat_unknown, Answer, insert_addr, sort_addrs,
  distinct_mapped, has_other_server, is_local, classified, check,
}
use zeropentime.Netip.{has_addr, Addr, AddrPort, ◌=addr◌}
use zeropentime.Prelude.{
  ℕ, suc, ◌≤◌, ◌≡◌, ◌⊎◌, refl, ◌∙◌, ap, inl, inr, true, false, List, [], ◌∷◌, ◌++◌, arith, ltb,
  length, length-append, All, Any, Bool-cases,
}

length-insert_addr :
    (a : AddrPort) (list : List AddrPort) → length (insert_addr a list) ≡ suc (length list)
unfolding insert_addr
length-insert_addr a [] = refl
length-insert_addr a (b ∷ list) = ground (arith, length-insert_addr a list)

length-sort_addrs : (list : List AddrPort) → length (sort_addrs list) ≡ length list
unfolding sort_addrs
length-sort_addrs [] = refl
length-sort_addrs (a ∷ list) =
    length-insert_addr a (sort_addrs list) ∙ ap suc (length-sort_addrs list)

-- The servers all saw this address.
abbrev pub IsAgreed : AddrPort → List Answer → Type 0
IsAgreed m answers = All (λ (a : Answer). (m =addr a.mapped) ≡ true) answers

-- Some server saw another.
abbrev pub IsSplit : AddrPort → List Answer → Type 0
IsSplit m answers = Any (λ (a : Answer). (m =addr a.mapped) ≡ false) answers

verdict_cases : (m : AddrPort) (answers : List Answer) → IsAgreed m answers ⊎ IsSplit m answers
verdict_cases m [] = inl tt
verdict_cases m (a ∷ answers) = elim (Bool-cases (m =addr a.mapped)) [
  | inr other ↦ inr (inl other)
  | inl same ↦ elim (verdict_cases m answers) [
    | inl all ↦ inl (same, all)
    | inr some_other ↦ inr (inr some_other)
  ]
]

mapped_agreed :
    (m : AddrPort) (answers : List Answer)
    → IsAgreed m answers
    → distinct_mapped (m ∷ []) answers ≡ m ∷ []
unfolding distinct_mapped has_addr
mapped_agreed m [] h = refl
mapped_agreed m (a ∷ answers) (same, all) = rw same (mapped_agreed m answers all)

mapped_grows :
    (answers : List Answer) (out : List AddrPort)
    → length out ≤ length (distinct_mapped out answers)
unfolding distinct_mapped
mapped_grows [] out = omega arith
mapped_grows (a ∷ answers) out = elim (Bool-cases (has_addr out a.mapped)) [
  | inl known ↦ rw (known, distinct_mapped) (mapped_grows answers out)
  | inr new ↦
      rw (new, distinct_mapped)
        (omega
          (arith, mapped_grows answers (out ++ (a.mapped ∷ [])), length-append out (a.mapped ∷ [])))
]

mapped_split :
    (m : AddrPort) (answers : List Answer)
    → IsSplit m answers
    → 2 ≤ length (distinct_mapped (m ∷ []) answers)
unfolding distinct_mapped has_addr
mapped_split m [] h = absurd h
mapped_split m (a ∷ answers) h = elim (Bool-cases (m =addr a.mapped)) [
  | inr other ↦ rw other (mapped_grows answers (m ∷ a.mapped ∷ []))
  | inl same ↦ rw same (mapped_split m answers (ground (arith, h, same)))
]

-- What the verdict means: with answers, `first` the first of them, and not the address of this machine,
-- it is `symmetric` where the servers saw different addresses, `cone` where they agree and are two or
-- more, and `unknown` where there is one server. It is `none` where `first` is an own address, `blocked`
-- without answers.
pub data Means (local_port : ℕ) (local_addrs : List Addr) : List Answer → Nat → Type 0 where
  no_answer : Means local_port local_addrs [] nat_blocked
  own :
      (first : Answer) (more : List Answer)
      → is_local local_port local_addrs first.mapped ≡ true
      → Means local_port local_addrs (first ∷ more) nat_none
  disagree :
      (first : Answer) (more : List Answer)
      → is_local local_port local_addrs first.mapped ≡ false
      → IsSplit first.mapped more
      → Means local_port local_addrs (first ∷ more) nat_symmetric
  agree :
      (first : Answer) (more : List Answer)
      → is_local local_port local_addrs first.mapped ≡ false
      → IsAgreed first.mapped more
      → Any (λ (a : Answer). (first.server =addr a.server) ≡ false) more
      → Means local_port local_addrs (first ∷ more) nat_cone
  one_server :
      (first : Answer) (more : List Answer)
      → is_local local_port local_addrs first.mapped ≡ false
      → IsAgreed first.mapped more
      → All (λ (a : Answer). (first.server =addr a.server) ≡ true) more
      → Means local_port local_addrs (first ∷ more) nat_unknown

other_server :
    (s : AddrPort) (answers : List Answer)
    → has_other_server s answers ≡ true
    → Any (λ (a : Answer). (s =addr a.server) ≡ false) answers
unfolding has_other_server
other_server s [] h = cc
other_server s (a ∷ answers) h = elim (Bool-cases (s =addr a.server)) [
  | inr other ↦ inl other
  | inl same ↦ inr (other_server s answers (ground (arith, h, same)))
]

same_server :
    (s : AddrPort) (answers : List Answer)
    → has_other_server s answers ≡ false
    → All (λ (a : Answer). (s =addr a.server) ≡ true) answers
unfolding has_other_server
same_server s [] h = tt
same_server s (a ∷ answers) h = elim (Bool-cases (s =addr a.server)) [
  | inr other ↦ absurd (ground (arith, h, other))
  | inl same ↦ (same, same_server s answers (ground (arith, h, same)))
]

-- A check with servers to ask gives the verdict that the answers mean.
pub check-Means :
    (local_port : ℕ) (local_addrs : List Addr) (answers : List Answer)
    → Means local_port local_addrs answers (check true local_port local_addrs answers).nat
unfolding check classified distinct_mapped has_addr
check-Means local_port local_addrs [] = no_answer
check-Means local_port local_addrs (first ∷ more) =
    let size = length-sort_addrs (distinct_mapped [] (first ∷ more)) in
    elim (Bool-cases (is_local local_port local_addrs first.mapped)) [
      | inl mine ↦ rw mine (own first more mine)
      | inr other ↦ elim (verdict_cases first.mapped more) [
        | inr split ↦
            let many : ltb 1 (length (sort_addrs (distinct_mapped [] (first ∷ more)))) ≡ true =
              ground (arith, size, mapped_split first.mapped more split) in
            rw (other, many) (disagree first more other split)
        | inl agreed ↦
            let one : ltb 1 (length (sort_addrs (distinct_mapped [] (first ∷ more)))) ≡ false =
              ground (arith, size, mapped_agreed first.mapped more agreed) in
            elim (Bool-cases (has_other_server first.server more)) [
              | inl two ↦
                  rw (other, one, two)
                    (agree first more other agreed (other_server first.server more two))
              | inr single ↦
                  rw (other, one, single)
                    (one_server first more other agreed (same_server first.server more single))
            ]
      ]
    ]
