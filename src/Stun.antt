-- ===== src/Stun.antt =====
-- internal/stun/stun.go: Binding requests and responses with the mapped address. A message is the
-- list of its bytes; an error is `none`.
pub mod Request
pub mod Response
pub mod Attributes
use Prim.Native.Nat.{bit_xor}
use zeropentime.Prelude.Xor.{xor_with}
use zeropentime.Netip.{Addr, invalid, v4, v6, AddrPort, unmap, as_slice, addr_from_slice}
use zeropentime.Prelude.{
  ℕ, zero, suc, ◌+◌, ◌*◌, ◌/◌, ◌^◌, Bool, true, false, not, ◌&&◌, ◌||◌, List, [], ◌∷◌, ◌++◌, Option,
  none, some, ltb, leb, ◌==◌, if◌then◌else◌, length, take, drop, replicate, byte_at, u16_at, u32_at,
  put_u16, put_u32,
}

abbrev pub header_len : ℕ
header_len = 20

abbrev pub magic_cookie : ℕ
magic_cookie = 0x2112A442

-- `magicCookie >> 16`, with which the port is masked.
abbrev pub port_mask : ℕ
port_mask = 0x2112

abbrev pub type_binding_request : ℕ
type_binding_request = 0x0001

abbrev pub type_binding_response : ℕ
type_binding_response = 0x0101

abbrev pub attr_mapped_address : ℕ
attr_mapped_address = 0x0001

abbrev pub attr_xor_mapped_address : ℕ
attr_xor_mapped_address = 0x0020

abbrev pub family_ipv4 : ℕ
family_ipv4 = 1

abbrev pub family_ipv6 : ℕ
family_ipv6 = 2

-- `Is`: the first two bits are zero, the cookie is in place, and the stated length fits.
unfoldable pub is_stun : List ℕ → Bool
is_stun b =
    leb header_len (length b)
    && byte_at b 0 / 64 == 0
    && u32_at b 4 == magic_cookie
    && leb (u16_at b 2 + header_len) (length b)

-- `header`.
unfoldable pub header : ℕ → ℕ → List ℕ → List ℕ
header typ body_len id = put_u16 typ ++ put_u16 body_len ++ put_u32 magic_cookie ++ id

unfoldable pub request : List ℕ → List ℕ
unfolding header
request id = header type_binding_request 0 id

-- The transaction ID of a message, `b[8:20]`.
abbrev pub tx_of : List ℕ → List ℕ
tx_of b = take 12 (drop 8 b)

unfoldable pub parse_request : List ℕ → Option (List ℕ)
unfolding is_stun
parse_request b =
    if not (is_stun b) || not (u16_at b 0 == type_binding_request) then none else some (tx_of b)

-- `xorIP`: the key is the cookie and the transaction ID.
unfoldable pub xor_ip : List ℕ → List ℕ → List ℕ
unfolding xor_with
xor_ip ip id = xor_with ip (put_u32 magic_cookie ++ id)

-- The bytes that an address takes: `ip.Is6()` after `Unmap`.
abbrev pub ip_len : Addr → ℕ
ip_len (v6 a z) = 16
ip_len _ = 4

abbrev pub family : Addr → ℕ
family (v6 a z) = family_ipv6
family _ = family_ipv4

-- The attribute of a response; what `xorIP` does not write of its 4 or 16 bytes is zero.
unfoldable pub attribute : List ℕ → Addr → ℕ → List ℕ
attribute id ip port =
    put_u16 attr_xor_mapped_address
    ++ put_u16 (4 + ip_len ip)
    ++ (0 ∷ family ip ∷ put_u16 (bit_xor port port_mask))
    ++ take (ip_len ip) (xor_ip (as_slice ip) id ++ replicate 16 0)

unfoldable pub response : List ℕ → AddrPort → List ℕ
response id to =
    let ip = unmap to.addr in
    header type_binding_response (4 + (4 + ip_len ip)) id ++ attribute id ip to.port

-- The length of an address by its family, 0 for another family.
unfoldable pub family_len : ℕ → ℕ
family_len f = if f == family_ipv4 then 4 else if f == family_ipv6 then 16 else 0

with_port : ℕ → Option Addr → Option AddrPort
with_port port none = none
with_port port (some a) = some (record { addr = unmap a; port = port })

-- `parseAddr`: the address in the value of an attribute.
unfoldable pub parse_addr : List ℕ → List ℕ → Bool → Option AddrPort
unfolding with_port
parse_addr v id xored =
    let len = family_len (byte_at v 1) in
    let port = u16_at v 2 in
    let ip = take len (drop 4 v) in
    if ltb (length v) 4
    then none
    else if len == 0 || ltb (length v) (4 + len)
    then none
    else if xored
    then with_port (bit_xor port port_mask) (addr_from_slice (xor_ip ip id))
    else with_port port (addr_from_slice ip)

-- `(n+3)&^3`: attributes are padded to 4 bytes.
abbrev pub padded : ℕ → ℕ
padded n = (n + 3) / 4 * 4

-- What one attribute does to the search: an answer, or the mapped address so far.
pub data Found : Type 0 where
  answer : AddrPort → Found
  so_far : Option AddrPort → Found

or_so_far : Option AddrPort → Option AddrPort → Found
or_so_far (some a) mapped = answer a
or_so_far none mapped = so_far mapped

newer : Option AddrPort → Option AddrPort → Option AddrPort
newer (some a) mapped = some a
newer none mapped = mapped

unfoldable pub read_attribute : List ℕ → ℕ → List ℕ → Option AddrPort → Found
unfolding or_so_far newer
read_attribute id typ v mapped =
    if typ == attr_xor_mapped_address
    then or_so_far (parse_addr v id true) mapped
    else if typ == attr_mapped_address
    then so_far (newer (parse_addr v id false) mapped)
    else so_far mapped

-- The loop over the attributes, with fuel.
unfoldable pub attributes : ℕ → List ℕ → List ℕ → Option AddrPort → Option AddrPort
attributes zero id body mapped = mapped
attributes (suc fuel) id body mapped =
    let n = u16_at body 2 in
    let next = 4 + padded n in
    elim (ltb (length body) 4 || ltb (length body) (4 + n)) [
      | true ↦ mapped
      | false ↦ elim (read_attribute id (u16_at body 0) (take n (drop 4 body)) mapped) [
        | answer a ↦ some a
        | so_far mapped' ↦ elim (ltb (length body) next) [
          | true ↦ mapped'
          | false ↦ attributes fuel id (drop next body) mapped'
        ]
      ]
    ]

with_tx : List ℕ → Option AddrPort → Option (List ℕ × AddrPort)
with_tx id none = none
with_tx id (some a) = some (id, a)

unfoldable pub parse_response : List ℕ → Option (List ℕ × AddrPort)
unfolding with_tx
parse_response b =
    let body = take (u16_at b 2) (drop header_len b) in
    if not (is_stun b) || not (u16_at b 0 == type_binding_response)
    then none
    else with_tx (tx_of b) (attributes (length body) (tx_of b) body none)
