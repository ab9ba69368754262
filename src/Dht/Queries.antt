-- ===== src/Dht/Queries.antt =====
-- How often a lookup asks, and whom.
use zeropentime.Bencode.{Entries}
use zeropentime.Dht.{
  Contact, Lookup, alpha, k, max_rounds, add, pick, sorted, told, nodes, text_of, field_of,
  values_of, add_peers, handle_answer, handle_answers, rounds, with_token, bootstrap_contact,
  bootstrapped, new_lookup, get_peers,
}
use zeropentime.Dht.Contacts.{
  has_contact, is_asked, sorted-IsSame, told-IsSame, IsSound, Keeps, add-Keeps, add_all-Keeps,
}
use zeropentime.Dht.Rounds.{IsOnce, pick-IsBatch}
use zeropentime.Netip.{has_addr, AddrPort}
use zeropentime.Prelude.{
  ℕ, zero, suc, ◌*◌, ◌≤◌, ◌≡◌, ◌≢◌, refl, sym, ◌∙◌, inl, inr, Bool, true, false, not, ◌==◌, List,
  [], ◌∷◌, ◌++◌, arith, length, length-append, All, Bool-cases, codes, if◌then◌else◌, ◌=text◌,
}

handle_answer-Keeps :
    (s : Lookup) (from : AddrPort) (r : Entries) → IsSound s → Keeps s (handle_answer s from r)
unfolding handle_answer
handle_answer-Keeps s from r g =
    let same = told-IsSame from r s.closer g.apart in
    let heard : Lookup = record s {
      closer = told from r s.closer;
      peers = add_peers (values_of (field_of (codes "values") r)) s.peers;
    } in
    let sound : IsSound heard = record {
      apart = same.apart;
      covered = λ a h. g.covered a (sym (same.same_contact a) ∙ h);
    } in
    let rest = add_all-Keeps heard (nodes (text_of (field_of (codes "nodes") r))) sound in
    record { sound = rest.sound; still_asked = λ a h. rest.still_asked a (same.same_asked a ∙ h) }

handle_answers-Keeps :
    (s : Lookup) (answers : List (AddrPort × Entries))
    → IsSound s
    → Keeps s (handle_answers s answers)
unfolding handle_answers
handle_answers-Keeps s [] g = record { sound = g; still_asked = λ a h. h }
handle_answers-Keeps s ((from, r) ∷ answers) g =
    let first = handle_answer-Keeps s from r g in
    let rest = handle_answers-Keeps (handle_answer s from r) answers first.sound in
    record { sound = rest.sound; still_asked = λ a h. rest.still_asked a (first.still_asked a h) }

has_addr-append :
    (xs ys : List AddrPort) (a : AddrPort)
    → has_addr (xs ++ ys) a ≡ (if has_addr xs a then true else has_addr ys a)
unfolding has_addr
has_addr-append [] ys a = refl
has_addr-append (x ∷ xs) ys a = ground (arith, has_addr-append xs ys a)

IsOnce-append :
    (xs ys : List AddrPort)
    → IsOnce xs
    → IsOnce ys
    → ((a : AddrPort) → has_addr xs a ≡ true → has_addr ys a ≡ false)
    → IsOnce (xs ++ ys)
unfolding has_addr
IsOnce-append [] ys h k apart = k
IsOnce-append (x ∷ xs) ys (one, rest) k apart = (
  ground (arith, has_addr-append xs ys x, one, apart x),
  IsOnce-append xs ys rest k (λ a h. apart a (ground (arith, h))),
)

-- The queries of the rounds that are left: each address once, none asked before, three for each round.
record AreNew (left : ℕ) (s : Lookup) (queries : List AddrPort) : Type 0 where
  once : IsOnce queries
  not_before : (a : AddrPort) → has_addr queries a ≡ true → is_asked s.closer a ≡ false
  few : length queries ≤ left * alpha

none_new : (left : ℕ) (s : Lookup) → AreNew left s []
unfolding has_addr
none_new left s = record { once = tt; not_before = λ a h. cc; few = omega arith }

module _ (ih : List ℕ) (alive : ℕ → Bool)
    (network : ℕ → List AddrPort → List (AddrPort × Entries)) where
  rounds-AreNew :
      (left : ℕ) (s : Lookup) → IsSound s → AreNew left s (rounds ih alive network left s).1
  unfolding rounds
  rounds-AreNew zero s g = none_new zero s
  rounds-AreNew (suc left) s g =
      let same = sorted-IsSame ih s.closer g.apart in
      let near = sorted ih s.closer in
      let picked = pick-IsBatch k alpha near same.apart in
      let batch = (pick k alpha near).1 in
      let chosen : Lookup = record s { closer = (pick k alpha near).0 } in
      let sound : IsSound chosen = record {
        apart = picked.apart;
        covered = λ a h. g.covered a (sym (picked.same_contact a ∙ same.same_contact a) ∙ h);
      } in
      let kept = handle_answers-Keeps chosen (network left batch) sound in
      let rest = rounds-AreNew left (handle_answers chosen (network left batch)) kept.sound in
      let later = (rounds ih alive network left (handle_answers chosen (network left batch))).1 in
      elim (Bool-cases (not (alive left))) [
        | inl over ↦ rw (over, rounds) (none_new (suc left) s)
        | inr going ↦ elim (Bool-cases (length batch == 0)) [
          | inl idle ↦ rw (going, idle, rounds) (none_new (suc left) s)
          | inr busy ↦
              rw (going, busy, rounds)
                (record {
                  once = IsOnce-append batch later picked.once rest.once (λ a h.
                      ground (arith, kept.still_asked a, picked.asked_now a h, rest.not_before a));
                  not_before = λ a h. ground (
                    arith,
                    h,
                    has_addr-append batch later a,
                    same.same_asked a,
                    picked.not_before a,
                    picked.still_asked a,
                    kept.still_asked a,
                    rest.not_before a,
                  );
                  few = omega (arith, length-append batch later, picked.few, rest.few);
                })
        ]
      ]

  bootstrapped-IsSound :
      (addrs : List AddrPort) (s : Lookup) → IsSound s → IsSound (bootstrapped ih addrs s)
  unfolding bootstrapped
  bootstrapped-IsSound [] s g = g
  bootstrapped-IsSound (a ∷ addrs) s g =
      bootstrapped-IsSound addrs (add s (bootstrap_contact ih a))
        (add-Keeps s (bootstrap_contact ih a) g).sound

  -- Whatever the network answers, a lookup asks no address twice, and at most 36 in all.
  pub get_peers-IsOnce :
      (boot : List AddrPort)
      → IsOnce (get_peers ih boot alive network).2
        × (length (get_peers ih boot alive network).2 ≤ 36)
  unfolding get_peers has_contact
  get_peers-IsOnce boot =
      let start : IsSound new_lookup = record { apart = tt; covered = λ a h. cc } in
      let asked =
        rounds-AreNew max_rounds (bootstrapped ih boot new_lookup)
          (bootstrapped-IsSound boot new_lookup start) in
      (asked.once, asked.few)

unfoldable pub HasToken : Contact → Type 0
HasToken c = c.token ≢ []

with_token-HasToken :
    (room : ℕ) (cs : List Contact)
    → All HasToken (with_token room cs) × (length (with_token room cs) ≤ room)
unfolding with_token HasToken
with_token-HasToken zero cs = (tt, omega arith)
with_token-HasToken (suc room) [] = (tt, omega arith)
with_token-HasToken (suc room) (c ∷ cs) = elim (Bool-cases (c.token =text [])) [
  | inl empty ↦ rw (empty, with_token) (with_token-HasToken (suc room) cs)
  | inr full ↦
      let (all, few) = with_token-HasToken room cs in
      rw (full, with_token) (((λ e. ground (arith, full, e)), all), omega (arith, few))
]

-- The contacts that a lookup gives are at most eight, each with a token to announce with.
pub get_peers-HasToken :
    (ih : List ℕ) (boot : List AddrPort) (alive : ℕ → Bool)
    (network : ℕ → List AddrPort → List (AddrPort × Entries))
    → All HasToken (get_peers ih boot alive network).1
      × (length (get_peers ih boot alive network).1 ≤ 8)
unfolding get_peers
get_peers-HasToken ih boot alive network = with_token-HasToken k _
