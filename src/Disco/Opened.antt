-- ===== src/Disco/Opened.antt =====
-- What one node seals, the addressee recognises and opens as that node's.
use zeropentime.Crypto.{Primitives, IsLawful, envelope_parts}
use zeropentime.Disco.{
  Msg, encode_payload, decode_payload, tag_key, seal, open_packet, opened, authenticated,
}
use zeropentime.Disco.Payload.{
  IsSendable, decoded, decode_payload-encode_payload, length-encode_payload,
}
use zeropentime.Obfs.Tagger.{put, match, match-put}
use zeropentime.Prelude.{
  ℕ, ◌+◌, ◌≤◌, ◌≡◌, ◌∙◌, ap, true, List, ◌++◌, some, arith, length, take, drop, drop-append_exact,
  length-append,
}

open_parts :
    (c : Primitives) (pkt outer plain priv pub_key payload : List ℕ) (m : Msg)
    → 8 ≤ length pkt
    → length pkt ≤ 1400
    → drop 8 pkt ≡ outer
    → c.anonymous_open outer pub_key priv ≡ some plain
    → 56 ≤ length plain
    → c.box_open (drop 56 plain) (take 24 (drop 32 plain)) (take 32 plain) priv ≡ some payload
    → decode_payload payload ≡ some m
    → open_packet c pkt priv pub_key ≡ some (take 32 plain, m)
unfolding open_packet opened authenticated
open_parts c pkt outer plain priv pub_key payload m long short e opened_outer size unboxed e_m =
    ground (arith, e, opened_outer, unboxed, e_m)

-- A sendable message sealed for a node carries that node's tag, and is opened by it as the sender's
-- message, its source unmapped.
pub open_packet-seal :
    (c : Primitives)
    → IsLawful c
    → (m : Msg) (from to nonce seed fresh : List ℕ) → IsSendable m
    → length nonce ≡ 24
    → length fresh ≡ 4
    → let pkt = seal c m from (c.public from) (c.public to) nonce seed fresh in
      (match (c.aes (tag_key c (c.public to))) pkt ≡ true)
      × (open_packet c pkt to (c.public to) ≡ some (c.public from, decoded m))
unfolding seal
open_packet-seal c ok m from to nonce seed fresh sendable hnonce hfresh =
    let receiver = c.public to in
    let sender = c.public from in
    let payload = encode_payload m in
    let inner = c.box_seal payload nonce receiver from in
    let plain = sender ++ nonce ++ inner in
    let outer = c.anonymous_seal plain receiver seed in
    let tag = put (c.aes (tag_key c receiver)) fresh in
    let (htag, matched) =
      match-put (c.aes (tag_key c receiver)) fresh outer hfresh (ok.length-aes _) in
    let p = envelope_parts sender nonce inner (ok.length-public from) hnonce in
    let size : length plain ≡ 72 + length payload =
      omega (arith, p, ok.length-box_seal payload nonce receiver from) in
    let whole : length (tag ++ outer) ≡ 128 + length payload =
      omega (arith, length-append tag outer, ok.length-anonymous_seal plain receiver seed) in
    let fits = length-encode_payload m sendable in
    (
      matched,
      open_parts c (tag ++ outer) outer plain to receiver payload (decoded m) (omega arith)
            (omega arith) (drop-append_exact 8 tag outer htag)
            (ok.anonymous_open-anonymous_seal plain to seed) (omega arith)
            (rw (p.0, p.1, p.2) (ok.box_open-box_seal payload nonce from to))
            (decode_payload-encode_payload m sendable)
          ∙ ap (λ (k : List ℕ). some (k, decoded m)) p.0,
    )
