-- ===== src/Relay/Handshake.antt =====
-- internal/relay/proto.go: the handshake. What is drawn at random is an argument.
pub mod Welcomed
use zeropentime.Crypto.{Primitives}
use zeropentime.Obfs.Tagger.{match, tag_len}
use zeropentime.Relay.Frame.{Session, sess_len, tag_of}
use zeropentime.Prelude.{
  ℕ, ◌+◌, Bool, not, ◌||◌, List, ◌∷◌, ◌++◌, Option, none, some, ltb, ◌==◌, if◌then◌else◌, length,
  take, drop, byte_at, codes,
}

abbrev pub hs_hello : ℕ
hs_hello = 0x11

abbrev pub hs_welcome : ℕ
hs_welcome = 0x12

-- A node's key out of an opened hello: its stamp, if it is authenticated, names nothing else.
unfoldable pub stamped : List ℕ → Option (List ℕ) → Option (List ℕ)
stamped node none = none
stamped node (some stamp) =
    if not (length stamp == 9) || not (byte_at stamp 0 == hs_hello) then none else some node

unfoldable pub welcomed : Option (List ℕ) → Option Session
welcomed none = none
welcomed (some msg) =
    if not (length msg == 1 + sess_len + 32) || not (byte_at msg 0 == hs_welcome)
    then none
    else some (record { id = take sess_len (drop 1 msg); key = drop (1 + sess_len) msg })

module _ (c : Primitives) where
  unfoldable pub hello_tag_key : List ℕ → List ℕ
  hello_tag_key relay_pub = take 16 (c.sha256 (codes "zeropentime/relay-hello/v1" ++ relay_pub))

  unfoldable pub welcome_tag_key : List ℕ → List ℕ
  welcome_tag_key node_pub = take 16 (c.sha256 (codes "zeropentime/relay-welcome/v1" ++ node_pub))

  -- `Hello`: the stamp is a byte and eight random ones.
  unfoldable pub hello : List ℕ → List ℕ → List ℕ → List ℕ → List ℕ → List ℕ → List ℕ → List ℕ
  hello node_priv node_pub relay_pub nonce stamp seed fresh =
      let inner = c.box_seal (hs_hello ∷ stamp) nonce relay_pub node_priv in
      let outer = c.anonymous_seal (node_pub ++ nonce ++ inner) relay_pub seed in
      tag_of c (hello_tag_key relay_pub) fresh ++ outer

  unfoldable pub is_hello : List ℕ → List ℕ → Bool
  is_hello pkt relay_pub = match (c.aes (hello_tag_key relay_pub)) pkt

  -- The inside of the outer box: the key, the nonce, the inner box.
  unfoldable pub hello_inside : List ℕ → Option (List ℕ) → Option (List ℕ)
  hello_inside relay_priv none = none
  hello_inside relay_priv (some plain) =
      let node = take 32 plain in
      if ltb (length plain) (32 + 24)
      then none
      else stamped node (c.box_open (drop 56 plain) (take 24 (drop 32 plain)) node relay_priv)

  -- `OpenHello`.
  unfoldable pub open_hello : List ℕ → List ℕ → List ℕ → Option (List ℕ)
  open_hello pkt relay_priv relay_pub =
      if ltb (length pkt) tag_len || ltb 512 (length pkt)
      then none
      else hello_inside relay_priv (c.anonymous_open (drop tag_len pkt) relay_pub relay_priv)

  -- `Welcome`.
  unfoldable pub welcome : Session → List ℕ → List ℕ → List ℕ → List ℕ → List ℕ
  welcome s relay_priv node_pub nonce fresh =
      let msg = hs_welcome ∷ (s.id ++ s.key) in
      tag_of c (welcome_tag_key node_pub) fresh
      ++ (nonce ++ c.box_seal msg nonce node_pub relay_priv)

  unfoldable pub is_welcome : List ℕ → List ℕ → Bool
  is_welcome pkt node_pub = match (c.aes (welcome_tag_key node_pub)) pkt

  -- `OpenWelcome`.
  unfoldable pub open_welcome : List ℕ → List ℕ → List ℕ → Option Session
  open_welcome pkt node_priv relay_pub =
      let nonce = take 24 (drop tag_len pkt) in
      if ltb (length pkt) (tag_len + 24)
      then none
      else welcomed (c.box_open (drop (tag_len + 24) pkt) nonce relay_pub node_priv)
