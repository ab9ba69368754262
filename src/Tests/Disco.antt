-- ===== src/Tests/Disco.antt =====
-- A pong and a join message.
use zeropentime.Disco.{Msg, type_pong, type_join, tag_key, seal, open_packet}
use zeropentime.Disco.Opened.{open_packet-seal}
use zeropentime.Disco.Payload.{IsSendable, IsSource, decoded}
use zeropentime.Netip.{v4, no_addr_port}
use zeropentime.Obfs.Tagger.{match}
use zeropentime.Prelude.{◌≡◌, refl, inl, inr, true, [], some, arith, codes, replicate}
use zeropentime.Tests.Boxes.{zeros, plain_box, plain_box-IsLawful}

abbrev pong : Msg
pong = record {
  typ = type_pong;
  tx = replicate 12 7;
  src = record { addr = v4 0xcb007104; port = 4790 };
  body = [];
}

abbrev join : Msg
join = record { typ = type_join; tx = replicate 12 9; src = no_addr_port; body = codes "{}" }

pong-IsSendable : IsSendable pong
unfolding IsSendable IsSource
pong-IsSendable = (refl, inl (inr refl, refl, inr (omega arith, omega arith)))

join-IsSendable : IsSendable join
unfolding IsSendable
join-IsSendable = (refl, inr (inl refl, refl, omega arith))

open_packet-seal_example :
    let pkt = seal plain_box join (replicate 32 1) (zeros 32) (zeros 32) (zeros 24) [] (zeros 4) in
    (match (plain_box.aes (tag_key plain_box (zeros 32))) pkt ≡ true)
    × (open_packet plain_box pkt (replicate 32 2) (zeros 32) ≡ some (zeros 32, decoded join))
open_packet-seal_example =
    open_packet-seal plain_box plain_box-IsLawful join (replicate 32 1) (replicate 32 2) (zeros 24)
      [] (zeros 4) join-IsSendable refl refl
