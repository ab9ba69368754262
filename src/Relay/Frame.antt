-- ===== src/Relay/Frame.antt =====
-- internal/relay/proto.go: the frames of a session. What is drawn at random is an argument.
pub mod RoundTrip
use zeropentime.Crypto.{Primitives}
use zeropentime.Obfs.Tagger.{put, match, tag_len}
use zeropentime.Prelude.Xor.{xor_with}
use zeropentime.Prelude.{
  ℕ, ◌+◌, ◌-◌, Bool, ◌||◌, List, [], ◌∷◌, ◌++◌, Option, none, some, ltb, if◌then◌else◌, length,
  take, drop, get_or, codes,
}

abbrev pub type_send : ℕ
type_send = 1

abbrev pub type_recv : ℕ
type_recv = 2

abbrev pub type_ping : ℕ
type_ping = 3

abbrev pub node_id_len : ℕ
node_id_len = 10

abbrev pub sess_len : ℕ
sess_len = 8

abbrev pub nonce_len : ℕ
nonce_len = 24

abbrev pub header_len : ℕ
header_len = tag_len + sess_len + nonce_len

abbrev pub inner_hdr : ℕ
inner_hdr = 1 + node_id_len

-- `secretbox.Overhead` is 16.
abbrev pub overhead : ℕ
overhead = header_len + 16 + inner_hdr

abbrev pub max_frame : ℕ
max_frame = 65535

abbrev pub max_payload : ℕ
max_payload = max_frame - overhead

pub record Session : Type 0 where
  pub id : List ℕ
  pub key : List ℕ

-- The inside of a frame.
pub record Inner : Type 0 where
  pub typ : ℕ
  pub node : List ℕ
  pub payload : List ℕ

-- `Open` behind secretbox: the type, the node, the payload.
unfoldable pub inner_of : Option (List ℕ) → Option Inner
inner_of none = none
inner_of (some inner) =
    if ltb (length inner) inner_hdr
    then none
    else some (record {
      typ = get_or inner 0 0;
      node = take node_id_len (drop 1 inner);
      payload = drop inner_hdr inner;
    })

module _ (c : Primitives) where
  unfoldable pub tag_key : List ℕ → List ℕ
  tag_key relay_pub = take 16 (c.sha256 (codes "zeropentime/relay-tag/v1" ++ relay_pub))

  unfoldable pub mask : List ℕ → List ℕ → List ℕ
  mask tag relay_pub =
      take sess_len (c.sha256 (codes "zeropentime/relay-mask/v1" ++ relay_pub ++ tag))

  -- A tag for relay traffic, from its fresh nonce.
  unfoldable pub tag_of : List ℕ → List ℕ → List ℕ
  tag_of key fresh = put (c.aes key) fresh

  -- `Seal`.
  unfoldable pub seal : Session → List ℕ → ℕ → List ℕ → List ℕ → List ℕ → List ℕ → Option (List ℕ)
  seal s relay_pub typ node payload fresh nonce =
      let tag = tag_of (tag_key relay_pub) fresh in
      if ltb max_payload (length payload)
      then none
      else some (
          tag
          ++ xor_with s.id (mask tag relay_pub)
          ++ nonce
          ++ c.secret_seal (typ ∷ node ++ payload) nonce s.key)

  -- `SessionID`.
  unfoldable pub session_id : List ℕ → List ℕ → Option (List ℕ)
  session_id frame relay_pub =
      if ltb (length frame) overhead
      then none
      else some
          (xor_with (take sess_len (drop tag_len frame)) (mask (take tag_len frame) relay_pub))

  -- `Open`.
  unfoldable pub open_frame : Session → List ℕ → Option Inner
  unfolding inner_of
  open_frame s frame =
      if ltb (length frame) overhead || ltb max_frame (length frame)
      then none
      else inner_of (
          c.secret_open (drop header_len frame) (take nonce_len (drop (tag_len + sess_len) frame))
            s.key)
