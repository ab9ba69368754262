-- ===== src/Tests/Dht.antt =====
-- A lookup whose first node names another.
use zeropentime.Bencode.{Entries, text, end, entry}
use zeropentime.Dht.{get_peers}
use zeropentime.Dht.Queries.{get_peers-IsOnce}
use zeropentime.Dht.Rounds.{IsOnce}
use zeropentime.Netip.{AddrPort, v4}
use zeropentime.Prelude.{ℕ, ◌≤◌, true, List, [], ◌∷◌, ◌++◌, length, map, replicate, codes}

abbrev entrance : AddrPort
entrance = record { addr = v4 0xcb007101; port = 6881 }

abbrev info_hash : List ℕ
info_hash = replicate 20 5

-- Every node names 203.0.113.2:6881, and gives a token.
abbrev answer_of : AddrPort → AddrPort × Entries
answer_of a = (
  a,
  entry (codes "id") (text (replicate 20 1)) (
      entry (codes "nodes") (text (replicate 20 4 ++ (203 ∷ 0 ∷ 113 ∷ 2 ∷ 26 ∷ 225 ∷ [])))
        (entry (codes "token") (text (codes "t")) end)),
)

get_peers-IsOnce_example :
    IsOnce (get_peers info_hash (entrance ∷ []) (λ left. true) (λ left. map answer_of)).2
    × (length (get_peers info_hash (entrance ∷ []) (λ left. true) (λ left. map answer_of)).2 ≤ 36)
get_peers-IsOnce_example =
    get_peers-IsOnce info_hash (λ left. true) (λ left. map answer_of) (entrance ∷ [])
