-- ===== src/Relay/Handshake/Welcomed.antt =====
-- A hello is recognised and names the node that made it; its answer brings the session to that node.
use zeropentime.Crypto.{Primitives, IsLawful, envelope_parts}
use zeropentime.Obfs.Tagger.{match-put}
use mathlib.Core.List.{append_assoc}
use zeropentime.Prelude.{
  ℕ, ◌≤◌, ◌≡◌, refl, sym, ◌∙◌, ap, true, List, ◌∷◌, ◌++◌, some, arith, length, take, drop,
  take-append_exact, drop-append_exact, length-append, byte_at,
}
use zeropentime.Relay.Frame.{Session, tag_of}
use zeropentime.Relay.Handshake.{
  hello, is_hello, open_hello, hello_inside, stamped, welcome, is_welcome, open_welcome, welcomed,
  hello_tag_key, welcome_tag_key,
}

open_hello_parts :
    (c : Primitives) (pkt outer plain relay_priv relay_pub stamp : List ℕ)
    → 8 ≤ length pkt
    → length pkt ≤ 512
    → drop 8 pkt ≡ outer
    → c.anonymous_open outer relay_pub relay_priv ≡ some plain
    → 56 ≤ length plain
    → c.box_open (drop 56 plain) (take 24 (drop 32 plain)) (take 32 plain) relay_priv ≡ some stamp
    → length stamp ≡ 9
    → byte_at stamp 0 ≡ 0x11
    → open_hello c pkt relay_priv relay_pub ≡ some (take 32 plain)
unfolding open_hello hello_inside stamped
open_hello_parts c pkt outer plain relay_priv relay_pub stamp long short e opened size unboxed nine
      typ =
    ground arith

-- The relay recognises the hello of a node and authenticates it as that node's.
pub open_hello-hello :
    (c : Primitives)
    → IsLawful c
    → (node_priv relay_priv nonce stamp seed fresh : List ℕ) → length nonce ≡ 24
    → length stamp ≡ 8
    → length fresh ≡ 4
    → let pkt =
        hello c node_priv (c.public node_priv) (c.public relay_priv) nonce stamp seed fresh in
      (is_hello c pkt (c.public relay_priv) ≡ true)
      × (open_hello c pkt relay_priv (c.public relay_priv) ≡ some (c.public node_priv))
unfolding hello is_hello tag_of
open_hello-hello c ok node_priv relay_priv nonce stamp seed fresh hnonce hstamp hfresh =
    let relay_pub = c.public relay_priv in
    let node_pub = c.public node_priv in
    let inner = c.box_seal (0x11 ∷ stamp) nonce relay_pub node_priv in
    let plain = node_pub ++ nonce ++ inner in
    let outer = c.anonymous_seal plain relay_pub seed in
    let tag = tag_of c (hello_tag_key c relay_pub) fresh in
    let (htag, matched) =
      match-put (c.aes (hello_tag_key c relay_pub)) fresh outer hfresh (ok.length-aes _) in
    let p = envelope_parts node_pub nonce inner (ok.length-public node_priv) hnonce in
    let size : length plain ≡ 81 =
      omega (arith, p, ok.length-box_seal (0x11 ∷ stamp) nonce relay_pub node_priv) in
    let whole : length (tag ++ outer) ≡ 137 =
      omega (arith, length-append tag outer, ok.length-anonymous_seal plain relay_pub seed) in
    (
      matched,
      open_hello_parts c (tag ++ outer) outer plain relay_priv relay_pub (0x11 ∷ stamp)
            (omega arith) (omega arith) (drop-append_exact 8 tag outer htag)
            (ok.anonymous_open-anonymous_seal plain relay_priv seed) (omega arith)
            (rw (p.0, p.1, p.2) (ok.box_open-box_seal (0x11 ∷ stamp) nonce node_priv relay_priv))
            (omega arith) refl
          ∙ ap some p.0,
    )

open_welcome_parts :
    (c : Primitives) (pkt box nonce msg node_priv relay_pub : List ℕ) (s : Session)
    → 32 ≤ length pkt
    → take 24 (drop 8 pkt) ≡ nonce
    → drop 32 pkt ≡ box
    → c.box_open box nonce relay_pub node_priv ≡ some msg
    → welcomed (some msg) ≡ some s
    → open_welcome c pkt node_priv relay_pub ≡ some s
unfolding open_welcome
open_welcome_parts c pkt box nonce msg node_priv relay_pub s long e_nonce e_box opened e =
    ground arith

welcomed_back :
    (id key : List ℕ)
    → length id ≡ 8
    → length key ≡ 32
    → welcomed (some (0x12 ∷ (id ++ key))) ≡ some (record { id = id; key = key })
unfolding welcomed
welcomed_back id key hid hkey =
    ground
      (arith, take-append_exact 8 id key hid, drop-append_exact 8 id key hid, length-append id key)

-- The node recognises the answer and gets the very session out of it.
pub open_welcome-welcome :
    (c : Primitives)
    → IsLawful c
    → (s : Session) (node_priv relay_priv nonce fresh : List ℕ) → length s.id ≡ 8
    → length s.key ≡ 32
    → length nonce ≡ 24
    → length fresh ≡ 4
    → let pkt = welcome c s relay_priv (c.public node_priv) nonce fresh in
      (is_welcome c pkt (c.public node_priv) ≡ true)
      × (open_welcome c pkt node_priv (c.public relay_priv) ≡ some s)
unfolding welcome is_welcome tag_of
open_welcome-welcome c ok s node_priv relay_priv nonce fresh hid hkey hnonce hfresh =
    let node_pub = c.public node_priv in
    let msg = 0x12 ∷ (s.id ++ s.key) in
    let box = c.box_seal msg nonce node_pub relay_priv in
    let tag = tag_of c (welcome_tag_key c node_pub) fresh in
    let (htag, matched) =
      match-put (c.aes (welcome_tag_key c node_pub)) fresh (nonce ++ box) hfresh
        (ok.length-aes _) in
    let cut = drop-append_exact 8 tag (nonce ++ box) htag in
    let flat : tag ++ (nonce ++ box) ≡ tag ++ nonce ++ box = sym (append_assoc tag nonce box) in
    (
      matched,
      open_welcome_parts c (tag ++ (nonce ++ box)) box nonce msg node_priv (c.public relay_priv) s
          (omega (arith, length-append tag (nonce ++ box), length-append nonce box))
          (ap (take 24) cut ∙ take-append_exact 24 nonce box hnonce)
          (ap (drop 32) flat
            ∙ drop-append_exact 32 (tag ++ nonce) box (omega (arith, length-append tag nonce)))
          (ok.box_open-box_seal msg nonce relay_priv node_priv) (welcomed_back s.id s.key hid hkey),
    )
