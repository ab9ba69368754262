-- ===== src/Tests/Stun.antt =====
-- A request and its response, and the attributes that servers add.
use zeropentime.Netip.{v4, AddrPort, unmap}
use zeropentime.Prelude.{ℕ, ◌≡◌, List, [], ◌∷◌, ◌++◌, none, some, arith, refl, put_u16, put_u32}
use zeropentime.Stun.{response, parse_response, attributes}
use zeropentime.Stun.Attributes.{attributes_fuel}
use zeropentime.Stun.Response.{parse_response-response}

abbrev tx : List ℕ
tx = 7 ∷ 1 ∷ 9 ∷ 200 ∷ 3 ∷ 3 ∷ 0 ∷ 255 ∷ 8 ∷ 5 ∷ 6 ∷ 4 ∷ []

abbrev mapped : AddrPort
mapped = record { addr = v4 0xcb007107; port = 40112 }

parse_response-response_example : parse_response (response tx mapped) ≡ some (tx, mapped)
unfolding unmap
parse_response-response_example =
    parse_response-response tx (v4 0xcb007107) 40112 refl (omega arith) (omega arith)

-- A plain mapped address.
abbrev plain_address : List ℕ
plain_address = put_u16 1 ++ put_u16 8 ++ (0 ∷ 1 ∷ put_u16 40112) ++ put_u32 0xcb007107

attributes_fuel_example : attributes 12 tx plain_address none ≡ attributes 15 tx plain_address none
attributes_fuel_example = attributes_fuel 12 15 tx plain_address none (omega arith) (omega arith)
