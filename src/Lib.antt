-- ===== src/Lib.antt =====
-- zeropentime: a mesh VPN whose nodes join rooms, reach each other directly or through relays, and
-- carry a room's broadcasts. The library models the parts of the program that decide what a packet
-- may do and what goes over the wire.
--
-- Parts and files:
-- - Prelude: the library's names, tests, lists, words, texts, maps as association lists (Assoc), bit
--   laws (Bits), masks (Xor), checks of small numbers (Finite), and loops that look for a first
--   element (First).
-- - Netip: what the program uses of Go's net/netip.
-- - Acl: internal/acl. Acl/Policy is acl.go (`Policy.matches`, `any`, `Allowed`), Acl/Filter is
--   filter.go (`parse`, `rememberLocked`, `Outbound`, `Inbound`, `lastAddr`), with IPv4 packets by their
--   fields in Acl/Filter/Packets.
-- - Tunwrap: internal/tunwrap/broadcast.go. Tunwrap/Packet has `shouldForward`, `wrap`, `unwrap` and
--   `checksum`; Tunwrap/Device has `allow`, `Read`, `drainLocked` and `Write`.
-- - Stun: internal/stun/stun.go. Requests and responses with the address that a server saw.
-- - Obfs: internal/obfs/obfs.go. Obfs/Profile is `Secret.Derive`, Obfs/Tagger the hidden packet tag.
-- - Crypto: the nacl boxes, AES and SHA-256 as parameters, with the laws that the theorems rely on.
-- - Relay: internal/relay. Relay/Frame and Relay/Handshake are proto.go, Relay/Server is the
--   `Server` of server.go (`Handle`, `hello`, `allowed`), Relay/Expiry its `expireLoop`.
-- - Disco: internal/disco/disco.go. Disco has payloads, `Seal` and `Open`; Disco/Payload and
--   Disco/Opened their round trips.
-- - Vless: internal/vless/vless.go. The request header and the packets of a stream.
-- - Totp: internal/controller/totp.go. The codes (`totpCode`) and their check (`checkTOTP`).
-- - Sock: internal/magicsock. The one socket of a node: Sock/Endpoint has the addresses of relayed
--   paths, Sock/Rooms and Sock/Actions what each operation keeps, Sock/Delivery where a packet goes,
--   Sock/Answers what a STUN request gets.
-- - Paths: internal/node/disco.go. Paths/Peers has `setPeers`, `addHints` and `addGossipHints`,
--   Paths/Search `better`, `tick` and `handle`; Paths/Choice, Bounds, Answers, Confirmed, Exchange and
--   Mentioned are named for what they prove, Paths/Kept, Index and Messages for their lemmas.
-- - Bencode: internal/dht/bencode.go. Bencode/Number has the decimal numbers, Bencode/Sizes the values
--   that come back, Bencode/RoundTrip, Nested, Fuel and Overflow what is proved of them.
-- - Dht: internal/dht/dht.go. The lookup `GetPeers`; Dht/Contacts and Dht/Rounds have its lemmas,
--   Dht/Queries whom it asks.
-- - Netcheck: internal/netcheck. The verdict of `Check` from the answers of the STUN servers;
--   Netcheck/Verdict says what a verdict means.
-- - Signin: `loginLimiter` of internal/controller/auth.go; Signin/History compares it with a limiter
--   that forgets nothing.
-- - Zone: `Label` of internal/dnsfwd/zone.go; Zone/Label says what it gives.
-- - Update: the versions of internal/update/update.go; Update/Order shows that `Newer` is an order.
-- - Tests: runs, and each theorem at a concrete input.
--
-- How they interact: a Tunwrap device holds an Acl filter; its `read_loop` shows the filter what is
-- sent (`Outbound`) and its `write_one` asks the filter about what comes in (`Inbound`). Sock tests a
-- packet with the tags of Obfs and the answers of servers with Stun, and hands a packet with the node's
-- tag to disco; Paths opens and seals it with Disco, on addresses that Sock tells from relayed ones. Dht
-- reads the answers of nodes as the values of Bencode.
--
-- Conventions. A packet is the list of its bytes, a Go string too. A time is a number of nanoseconds;
-- `now.Sub(t)` is subtraction that stops at 0, and the tests on it come out as in Go because each
-- limit is positive. A map is an association list; a theorem that counts its entries also says that
-- each key stands once. A lock is not modelled: each operation is one step, as the mutex makes it.
-- The functions on texts of the Go library that a selector goes through (`netip.ParsePrefix`,
-- `netip.ParseAddr`, `strings.EqualFold`) are the fields of `Texts`, and the theorems hold for any.
-- What HKDF derives is the argument of `derive_profile`, and AES under a room's key the argument
-- `block` of the tagger. The loop over the attributes of a response has the length of the body as its
-- fuel; `attributes_fuel` shows that it is enough.
-- In the relay a session is shared by two maps; the sessions stand in a store, the maps hold
-- references. A datagram is one step of `handle`, at one time, with what the controller answers then;
-- that `Handle` releases its mutex between its parts, and what may happen there, is not modelled.
-- The base32 of node IDs is the parameter `NodeIds`, with no law.
-- The peers of `discoMgr` are shared by two maps too, and stand in a store in the same way. Times are
-- ℕ, so a time that was never set is 0, and the tests on it come out as in Go once 20 seconds have
-- passed since 0. A round trip is taken without bound: in Go its product with 10 is 64 bits wide.
-- The nesting of bencode is its depth counted down from 33, the loops over lists and dictionaries have the
-- length of the input as their fuel; `decode_at_ends` shows that it is enough. `int` has 64 bits.
-- The carry loop of `checksum` has fuel 4; `fold_carry-lt` shows that no carry is left behind it.
--
-- Not modelled: sockets, HTTP, the database, system calls, the text form of rules and configurations,
-- the queries of the DHT client, what the handlers of join messages do, gossip between nodes, and the
-- controller's rooms and accounts. internal/netstack and internal/wgfirewall are copies of other
-- projects' code.
pub mod Prelude
pub mod Netip
pub mod Acl
pub mod Tunwrap
pub mod Stun
pub mod Obfs
mod Tests
pub mod Crypto
pub mod Relay
pub mod Disco
pub mod Vless
pub mod Totp
pub mod Sock
pub mod Paths
pub mod Bencode
pub mod Dht
pub mod Netcheck
pub mod Signin
pub mod Zone
pub mod Update
