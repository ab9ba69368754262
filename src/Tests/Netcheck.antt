-- ===== src/Tests/Netcheck.antt =====
-- Two servers that see one address.
use zeropentime.Netcheck.{
  Answer, nat_cone, check, classified, is_local, sort_addrs, distinct_mapped, insert_addr,
  has_other_server,
}
use zeropentime.Netcheck.Verdict.{Means, check-Means}
use zeropentime.Netip.{has_addr, Addr_discrete, v4, AddrPort}
use zeropentime.Prelude.{ℕ, ℕ_discrete, ◌≡◌, refl, true, List, [], ◌∷◌}

abbrev outside : AddrPort
outside = record { addr = v4 0xcb007109; port = 40000 }

abbrev answer_from : ℕ → Answer
answer_from port = record {
  server = record { addr = v4 0xc6336401; port = port };
  mapped = outside;
}

abbrev agreeing : List Answer
agreeing = answer_from 3478 ∷ answer_from 3479 ∷ []

cone : (check true 4790 (v4 0xc0a8010a ∷ []) agreeing).nat ≡ nat_cone
unfolding check classified is_local sort_addrs distinct_mapped has_addr Addr_discrete ℕ_discrete
    insert_addr has_other_server
cone = refl

check-Means_example :
    Means 4790 (v4 0xc0a8010a ∷ []) agreeing (check true 4790 (v4 0xc0a8010a ∷ []) agreeing).nat
check-Means_example = check-Means 4790 (v4 0xc0a8010a ∷ []) agreeing
