-- ===== src/Disco/Payload.antt =====
-- A payload is decoded to the message that was encoded.
use mathlib.Core.List.{append_assoc}
use mathlib.Core.Path.{subst}
use zeropentime.Disco.{
  Msg, encode_payload, decode_payload, decode_join, decode_ping, source_of, source_bytes, max_data,
}
use zeropentime.Netip.{Addr, invalid, v4, v6, AddrPort, no_addr_port, unmap, as_16, IsPlain}
use zeropentime.Prelude.{
  ℕ, ◌+◌, ◌*◌, ◌^◌, ◌≤◌, ◌<◌, ◌≡◌, ◌⊎◌, refl, ap, sym, ◌∙◌, inl, inr, List, [], ◌∷◌, ◌++◌, some,
  arith, length, take, drop, take-append_exact, drop-append_exact, length-append, u128_at, u16_at,
  put_u16, u128_at-put_u128, u16_at-put_u16,
}

-- What the source of a decoded message is: the unmapped address, or none.
unfoldable pub decoded : Msg → Msg
decoded m = record m { src = source_of (unmap m.src.addr) m.src.port }

decode_payload-join :
    (typ : ℕ) (tx body : List ℕ)
    → (typ ≡ 3) ⊎ (typ ≡ 4)
    → length tx ≡ 12
    → length body ≤ max_data
    → decode_payload
        (encode_payload (record { typ = typ; tx = tx; src = no_addr_port; body = body }))
      ≡ some (record { typ = typ; tx = tx; src = no_addr_port; body = body })
unfolding decode_payload encode_payload decode_join
decode_payload-join typ tx body join htx fits = ground (
  arith,
  join,
  take-append_exact 12 tx body htx,
  drop-append_exact 12 tx body htx,
  length-append tx body,
)

address_back :
    (addr : Addr)
    → IsPlain addr
    → (length (as_16 addr) ≡ 16) × (unmap (v6 (u128_at (as_16 addr) 0) []) ≡ unmap addr)
unfolding unmap
address_back invalid h = absurd h
address_back (v4 a) h = (
  refl,
  ap (λ (n : ℕ). unfold unmap in unmap (v6 n []))
        (u128_at-put_u128 (0xffff * 2 ^ 32 + a) (omega arith))
      ∙ ground arith,
)
address_back (v6 a z) (h, e) =
    (refl, rw e (ap (λ (n : ℕ). unfold unmap in unmap (v6 n [])) (u128_at-put_u128 a h)))

decode_parts :
    (typ : ℕ) (tx x p w : List ℕ) (a : Addr) (port : ℕ)
    → (typ ≡ 1) ⊎ (typ ≡ 2)
    → length p ≡ 32
    → p ≡ 1 ∷ typ ∷ w
    → take 12 w ≡ tx
    → take 16 (drop 12 w) ≡ x
    → unmap (v6 (u128_at x 0) []) ≡ a
    → u16_at (drop 28 w) 0 ≡ port
    → decode_payload p ≡ some (record { typ = typ; tx = tx; src = source_of a port; body = [] })
unfolding decode_payload decode_ping
decode_parts typ tx x p w a port ping size e e_tx e_x e_a e_port =
    ground (arith, ping, e, e_tx, e_x, e_a, e_port)

-- A ping or a pong with a source.
decode_sourced :
    (typ : ℕ) (tx : List ℕ) (addr : Addr) (port : ℕ)
    → (typ ≡ 1) ⊎ (typ ≡ 2)
    → length tx ≡ 12
    → IsPlain addr
    → port < 2 ^ 16
    → decode_payload (1 ∷ typ ∷ (tx ++ (as_16 addr ++ put_u16 port)))
      ≡ some (record { typ = typ; tx = tx; src = source_of (unmap addr) port; body = [] })
decode_sourced typ tx addr port ping htx plain p16 =
    let (size, back) = address_back addr plain in
    let x = as_16 addr in
    let w = put_u16 port in
    let behind = drop-append_exact 12 tx (x ++ w) htx in
    decode_parts typ tx x _ (tx ++ (x ++ w)) (unmap addr) port ping
      (omega (arith, length-append tx (x ++ w), length-append x w)) refl
      (take-append_exact 12 tx (x ++ w) htx) (ap (take 16) behind ∙ take-append_exact 16 x w size)
      back
      (ap (λ (b : List ℕ). u16_at (drop 28 b) 0) (sym (append_assoc tx x w))
        ∙ ap (λ (b : List ℕ). u16_at b 0)
            (drop-append_exact 28 (tx ++ x) w (omega (arith, length-append tx x)))
        ∙ u16_at-put_u16 port p16)

-- A source is none, or a valid address with no zone and a port.
unfoldable pub IsSource : AddrPort → Type 0
IsSource src = (src ≡ no_addr_port) ⊎ (IsPlain src.addr × (src.port < 2 ^ 16))

-- A ping or pong with no data, or a join message with no source and data within the limit.
unfoldable pub IsSendable : Msg → Type 0
IsSendable m =
    (length m.tx ≡ 12)
    × ((((m.typ ≡ 1) ⊎ (m.typ ≡ 2)) × (m.body ≡ []) × IsSource m.src)
        ⊎ (((m.typ ≡ 3) ⊎ (m.typ ≡ 4)) × (m.src ≡ no_addr_port) × (length m.body ≤ max_data)))

encode_ping :
    (m : Msg)
    → (m.typ ≡ 1) ⊎ (m.typ ≡ 2)
    → encode_payload m ≡ 1 ∷ m.typ ∷ (m.tx ++ source_bytes m.src)
unfolding encode_payload
encode_ping m ping = ground (arith, ping)

source_bytes_plain :
    (addr : Addr) (port : ℕ)
    → IsPlain addr
    → source_bytes (record { addr = addr; port = port }) ≡ as_16 addr ++ put_u16 port
source_bytes_plain invalid port h = absurd h
source_bytes_plain (v4 a) port h = refl
source_bytes_plain (v6 a z) port h = refl

decode_unsourced :
    (typ : ℕ) (tx : List ℕ)
    → (typ ≡ 1) ⊎ (typ ≡ 2)
    → length tx ≡ 12
    → decode_payload (1 ∷ typ ∷ (tx ++ source_bytes no_addr_port))
      ≡ some (record { typ = typ; tx = tx; src = no_addr_port; body = [] })
unfolding unmap source_of
decode_unsourced typ tx ping htx =
    let behind = drop-append_exact 12 tx (source_bytes no_addr_port) htx in
    let x = as_16 invalid in
    decode_parts typ tx x _ (tx ++ source_bytes no_addr_port) (v6 0 []) 0 ping
      (omega (arith, length-append tx (source_bytes no_addr_port))) refl
      (take-append_exact 12 tx (source_bytes no_addr_port) htx) (ap (take 16) behind) refl
      (ap (λ (b : List ℕ). u16_at (drop 28 b) 0) (sym (append_assoc tx x (0 ∷ 0 ∷ [])))
        ∙ ap (λ (b : List ℕ). u16_at b 0)
            (drop-append_exact 28 (tx ++ x) (0 ∷ 0 ∷ []) (omega (arith, length-append tx x))))

-- A sendable message comes back, its source unmapped (and none where it is unspecified).
pub decode_payload-encode_payload :
    (m : Msg) → IsSendable m → decode_payload (encode_payload m) ≡ some (decoded m)
unfolding IsSendable IsSource decoded source_of unmap
decode_payload-encode_payload m (htx, inr (join, none_src, fits)) =
    subst
      (λ (s : AddrPort).
        decode_payload (encode_payload (record m { src = s }))
        ≡ some (decoded (record m { src = s })))
      (sym none_src) (decode_payload-join m.typ m.tx m.body join htx fits)
decode_payload-encode_payload m (htx, inl (ping, empty, inl none_src)) =
    ap decode_payload
      (encode_ping m ping ∙ ap (λ (s : AddrPort). 1 ∷ m.typ ∷ (m.tx ++ source_bytes s)) none_src)
    ∙ decode_unsourced m.typ m.tx ping htx
    ∙ ap (λ (b : List ℕ). some (record m { src = no_addr_port; body = b })) (sym empty)
    ∙ ap (λ (s : AddrPort). some (record m { src = source_of (unmap s.addr) s.port }))
        (sym none_src)
decode_payload-encode_payload m (htx, inl (ping, empty, inr (plain, p16))) =
    ap decode_payload (
      encode_ping m ping
      ∙ ap (λ (b : List ℕ). 1 ∷ m.typ ∷ (m.tx ++ b))
          (source_bytes_plain m.src.addr m.src.port plain))
    ∙ decode_sourced m.typ m.tx m.src.addr m.src.port ping htx plain p16
    ∙ ap
        (λ (b : List ℕ).
          some (record m { src = source_of (unmap m.src.addr) m.src.port; body = b }))
        (sym empty)

pub length-encode_payload : (m : Msg) → IsSendable m → length (encode_payload m) ≤ 14 + max_data
unfolding IsSendable IsSource encode_payload
length-encode_payload m (htx, inr (join, none_src, fits)) =
    ground (arith, length-append m.tx m.body)
length-encode_payload m (htx, inl (ping, empty, inl none_src)) =
    let size : length (source_bytes m.src) ≡ 18 =
      ap (λ (s : AddrPort). length (source_bytes s)) none_src in
    ground (arith, length-append m.tx (source_bytes m.src))
length-encode_payload m (htx, inl (ping, empty, inr (plain, p16))) =
    let size : length (source_bytes m.src) ≡ 18 =
      ap length (source_bytes_plain m.src.addr m.src.port plain)
      ∙ omega (
        arith,
        length-append (as_16 m.src.addr) (put_u16 m.src.port),
        address_back m.src.addr plain,
      ) in
    ground (arith, length-append m.tx (source_bytes m.src))
