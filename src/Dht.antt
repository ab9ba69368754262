-- ===== src/Dht.antt =====
-- internal/dht/dht.go: the lookup of an info hash. The network is an argument: what comes back for the
-- queries of a round, in the order of its arrival.
pub mod Contacts
pub mod Rounds
pub mod Queries
use Prim.Native.Nat.{bit_xor}
use zeropentime.Bencode.{
  Value, Values, Entries, text, int, list, dict, nil, cons, end, entry, lt_text,
}
use zeropentime.Netip.{has_addr, Addr, v4, AddrPort, ◌=addr◌}
use zeropentime.Prelude.{
  ℕ, zero, suc, ◌+◌, ◌-◌, Bool, true, false, not, ◌&&◌, List, [], ◌∷◌, ◌++◌, Option, none, some,
  ltb, leb, ◌==◌, ◌=text◌, if◌then◌else◌, length, take, drop, u32_at, u16_at, codes,
}

abbrev pub alpha : ℕ
alpha = 3

abbrev pub k : ℕ
k = 8

abbrev pub max_rounds : ℕ
max_rounds = 12

pub record Contact : Type 0 where
  pub id : List ℕ
  pub addr : AddrPort
  pub token : List ℕ
  pub asked : Bool

-- `distance`.
unfoldable pub distance : List ℕ → List ℕ → List ℕ
distance [] b = []
distance (x ∷ a) [] = []
distance (x ∷ a) (y ∷ b) = bit_xor x y ∷ distance a b

abbrev pub contact_of : List ℕ → Contact
contact_of s = record {
  id = take 20 s;
  addr = record { addr = v4 (u32_at s 20); port = u16_at s 24 };
  token = [];
  asked = false;
}

-- `nodes`, with the length of the text as fuel.
unfoldable pub nodes_loop : ℕ → List ℕ → List Contact
nodes_loop zero s = []
nodes_loop (suc fuel) s =
    let rest = nodes_loop fuel (drop 26 s) in
    if ltb (length s) 26
    then []
    else if not (u16_at s 24 == 0) && not (u32_at s 20 == 0)
    then contact_of s ∷ rest
    else rest

unfoldable pub nodes : List ℕ → List Contact
nodes s = nodes_loop (length s) s

-- The variables of `GetPeers`.
pub record Lookup : Type 0 where
  pub peers : List AddrPort
  pub seen : List AddrPort
  pub closer : List Contact

-- `add`.
unfoldable pub add : Lookup → Contact → Lookup
add s ct =
    if has_addr s.seen ct.addr
    then s
    else record s { seen = ct.addr ∷ s.seen; closer = s.closer ++ (ct ∷ []) }

unfoldable pub add_all : Lookup → List Contact → Lookup
add_all s [] = s
add_all s (ct ∷ cts) = add_all (add s ct) cts

-- The order of `sort.Slice` by distance; contacts at one distance come in the order that they had, where
-- Go promises none.
unfoldable pub insert_near : List ℕ → Contact → List Contact → List Contact
insert_near ih c [] = c ∷ []
insert_near ih c (x ∷ xs) =
    let rest = insert_near ih c xs in
    if lt_text (distance x.id ih) (distance c.id ih) then x ∷ rest else c ∷ x ∷ xs

unfoldable pub sorted : List ℕ → List Contact → List Contact
sorted ih [] = []
sorted ih (c ∷ cs) = insert_near ih c (sorted ih cs)

-- The batch of a round: of the first contacts those not asked, up to a number; they are marked.
unfoldable pub pick : ℕ → ℕ → List Contact → List Contact × List AddrPort
pick near room [] = ([], [])
pick zero room (c ∷ cs) = (c ∷ cs, [])
pick (suc near) room (c ∷ cs) =
    let (taken, batch) = pick near (room - 1) cs in
    let (left, others) = pick near room cs in
    if not c.asked && ltb 0 room
    then (record c { asked = true } ∷ taken, c.addr ∷ batch)
    else (c ∷ left, others)

unfoldable pub field_of : List ℕ → Entries → Option Value
field_of key end = none
field_of key (entry j v es) = let rest = field_of key es in if j =text key then some v else rest

-- `x, _ := v.(string)`.
unfoldable pub text_of : Option Value → List ℕ
text_of (some (text s)) = s
text_of v = []

-- The loop over the values.
unfoldable pub add_peers : Values → List AddrPort → List AddrPort
add_peers nil peers = peers
add_peers (cons (text s) vs) peers =
    let ap : AddrPort = record { addr = v4 (u32_at s 0); port = u16_at s 4 } in
    add_peers vs (if length s == 6 && not (has_addr peers ap) then peers ++ (ap ∷ []) else peers)
add_peers (cons v vs) peers = add_peers vs peers

unfoldable pub values_of : Option Value → Values
values_of (some (list vs)) = vs
values_of v = nil

-- What an answer tells of the contact that was asked.
unfoldable pub told : AddrPort → Entries → List Contact → List Contact
told from r [] = []
told from r (c ∷ cs) =
    let id = text_of (field_of (codes "id") r) in
    let rest = told from r cs in
    if c.addr =addr from
    then record c {
      id = if length id == 20 then id else c.id;
      token = text_of (field_of (codes "token") r);
    }
      ∷ cs
    else c ∷ rest

-- The answer to one query.
unfoldable pub handle_answer : Lookup → AddrPort → Entries → Lookup
handle_answer s from r =
    add_all
      (record s {
        closer = told from r s.closer;
        peers = add_peers (values_of (field_of (codes "values") r)) s.peers;
      })
      (nodes (text_of (field_of (codes "nodes") r)))

unfoldable pub handle_answers : Lookup → List (AddrPort × Entries) → Lookup
handle_answers s [] = s
handle_answers s ((from, r) ∷ answers) = handle_answers (handle_answer s from r) answers

-- The rounds, while the context lives: the lookup, and the addresses that were asked.
module _ (ih : List ℕ) (alive : ℕ → Bool)
    (network : ℕ → List AddrPort → List (AddrPort × Entries)) where
  unfoldable pub rounds : ℕ → Lookup → Lookup × List AddrPort
  rounds zero s = (s, [])
  rounds (suc left) s =
      let (marked, batch) = pick k alpha (sorted ih s.closer) in
      let chosen = record s { closer = marked } in
      let (last, later) = rounds left (handle_answers chosen (network left batch)) in
      if not (alive left)
      then (s, [])
      else if length batch == 0
      then (chosen, [])
      else (last, batch ++ later)

-- The best contacts with a token.
unfoldable pub with_token : ℕ → List Contact → List Contact
with_token zero cs = []
with_token (suc room) [] = []
with_token (suc room) (c ∷ cs) =
    let taken = with_token room cs in
    let others = with_token (suc room) cs in if c.token =text [] then others else c ∷ taken

abbrev pub bootstrap_contact : List ℕ → AddrPort → Contact
bootstrap_contact ih a = record { id = ih; addr = a; token = []; asked = false }

unfoldable pub bootstrapped : List ℕ → List AddrPort → Lookup → Lookup
bootstrapped ih [] s = s
bootstrapped ih (a ∷ addrs) s = bootstrapped ih addrs (add s (bootstrap_contact ih a))

abbrev pub new_lookup : Lookup
new_lookup = record { peers = []; seen = []; closer = [] }

-- `GetPeers`: the peers, the best contacts, and the queries that were sent.
unfoldable pub get_peers :
    List ℕ
    → List AddrPort
    → (ℕ → Bool)
    → (ℕ → List AddrPort → List (AddrPort × Entries))
    → List AddrPort × List Contact × List AddrPort
get_peers ih boot alive network =
    let (s, queries) = rounds ih alive network max_rounds (bootstrapped ih boot new_lookup) in
    (s.peers, with_token k (sorted ih s.closer), queries)
