-- ===== src/Stun/Request.antt =====
-- Requests, and that requests and responses are not taken for one another.
use zeropentime.Netip.{AddrPort}
use zeropentime.Prelude.{ℕ, ◌≡◌, List, none, some, arith, length, take_all}
use zeropentime.Stun.{header, request, parse_request, response, parse_response}

-- The transaction ID of a request that `Request` builds is read back.
pub parse_request-request : (id : List ℕ) → length id ≡ 12 → parse_request (request id) ≡ some id
unfolding parse_request request
parse_request-request id h = ground (arith, take_all 12 id h)

-- A response is not taken for a request, nor a request for a response.
pub parse_request-response : (id : List ℕ) (to : AddrPort) → parse_request (response id to) ≡ none
unfolding parse_request response header
parse_request-response id to = ground arith

pub parse_response-request : (id : List ℕ) → parse_response (request id) ≡ none
unfolding parse_response request
parse_response-request id = ground arith
