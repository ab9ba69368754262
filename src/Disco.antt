-- ===== src/Disco.antt =====
-- internal/disco/disco.go: path discovery messages. What is drawn at random is an argument, an error
-- is `none`.
pub mod Payload
pub mod Opened
use zeropentime.Crypto.{Primitives}
use zeropentime.Netip.{Addr, invalid, v4, v6, AddrPort, no_addr_port, unmap, as_16}
use zeropentime.Obfs.Tagger.{put, tag_len}
use zeropentime.Prelude.{
  ℕ, ◌+◌, ◌*◌, ◌^◌, Bool, true, false, not, ◌&&◌, ◌||◌, List, [], ◌∷◌, ◌++◌, Option, none, some,
  ltb, leb, ◌==◌, if◌then◌else◌, length, take, drop, replicate, byte_at, u16_at, u128_at, put_u16,
  put_u128, codes,
}

abbrev pub type_ping : ℕ
type_ping = 1

abbrev pub type_pong : ℕ
type_pong = 2

abbrev pub type_join : ℕ
type_join = 3

abbrev pub type_join_reply : ℕ
type_join_reply = 4

abbrev pub version : ℕ
version = 1

abbrev pub tx_len : ℕ
tx_len = 12

abbrev pub payload_len : ℕ
payload_len = 1 + 1 + tx_len + 18

abbrev pub max_len : ℕ
max_len = 1400

abbrev pub max_data : ℕ
max_data = 1000

-- `body` is the field `Data`.
pub record Msg : Type 0 where
  pub typ : ℕ
  pub tx : List ℕ
  pub src : AddrPort
  pub body : List ℕ

-- `Addr.IsUnspecified`.
abbrev pub is_unspecified : Addr → Bool
is_unspecified (v4 a) = a == 0
is_unspecified (v6 a []) = a == 0
is_unspecified _ = false

-- The address in a ping or a pong: 18 zeros stand for none.
abbrev pub source_bytes : AddrPort → List ℕ
source_bytes src = elim src.addr [
  | invalid ↦ replicate 18 0
  | _ ↦ as_16 src.addr ++ put_u16 src.port
]

-- `encodePayload`.
unfoldable pub encode_payload : Msg → List ℕ
encode_payload m =
    if m.typ == type_join || m.typ == type_join_reply
    then version ∷ m.typ ∷ (m.tx ++ m.body)
    else version ∷ m.typ ∷ (m.tx ++ source_bytes m.src)

unfoldable pub source_of : Addr → ℕ → AddrPort
source_of a port = if is_unspecified a then no_addr_port else record { addr = a; port = port }

unfoldable pub decode_join : List ℕ → Option Msg
decode_join p =
    if ltb (2 + tx_len + max_data) (length p)
    then none
    else some (record {
      typ = byte_at p 1;
      tx = take tx_len (drop 2 p);
      src = no_addr_port;
      body = drop (2 + tx_len) p;
    })

unfoldable pub decode_ping : List ℕ → Option Msg
decode_ping p =
    if not (length p == payload_len)
      || not (byte_at p 0 == version)
      || (not (byte_at p 1 == type_ping) && not (byte_at p 1 == type_pong))
    then none
    else some (record {
      typ = byte_at p 1;
      tx = take tx_len (drop 2 p);
      src = source_of (unmap (v6 (u128_at (take 16 (drop 14 p)) 0) [])) (u16_at (drop 30 p) 0);
      body = [];
    })

-- `decodePayload`.
unfoldable pub decode_payload : List ℕ → Option Msg
decode_payload p =
    if leb (2 + tx_len) (length p)
      && byte_at p 0 == version
      && (byte_at p 1 == type_join || byte_at p 1 == type_join_reply)
    then decode_join p
    else decode_ping p

module _ (c : Primitives) where
  unfoldable pub tag_key : List ℕ → List ℕ
  tag_key key = take 16 (c.sha256 (codes "zeropentime/disco-tag/v1" ++ key))

  -- `Seal`.
  unfoldable pub seal : Msg → List ℕ → List ℕ → List ℕ → List ℕ → List ℕ → List ℕ → List ℕ
  seal m priv pub_key to nonce seed fresh =
      let inner = c.box_seal (encode_payload m) nonce to priv in
      put (c.aes (tag_key to)) fresh ++ c.anonymous_seal (pub_key ++ nonce ++ inner) to seed

  unfoldable pub authenticated : List ℕ → Option (List ℕ) → Option (List ℕ × Msg)
  authenticated sender none = none
  authenticated sender (some payload) = elim (decode_payload payload) [
    | none ↦ none
    | some m ↦ some (sender, m)
  ]

  unfoldable pub opened : List ℕ → Option (List ℕ) → Option (List ℕ × Msg)
  opened priv none = none
  opened priv (some plain) =
      if ltb (length plain) (32 + 24)
      then none
      else authenticated (take 32 plain)
          (c.box_open (drop 56 plain) (take 24 (drop 32 plain)) (take 32 plain) priv)

  -- `Open`.
  unfoldable pub open_packet : List ℕ → List ℕ → List ℕ → Option (List ℕ × Msg)
  open_packet pkt priv pub_key =
      if ltb (length pkt) tag_len || ltb max_len (length pkt)
      then none
      else opened priv (c.anonymous_open (drop tag_len pkt) pub_key priv)
