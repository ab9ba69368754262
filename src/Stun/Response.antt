-- ===== src/Stun/Response.antt =====
-- The mapped address that a response carries is the one that it was built for.
use Prim.Native.Nat.{bit_xor}
use zeropentime.Netip.{
  Addr, invalid, v4, v6, AddrPort, unmap, as_slice, addr_from_slice, IsPlain,
  addr_from_slice-as_slice, unmap-IsPlain, unmap_idem,
}
use zeropentime.Prelude.Xor.{xor_with_cancel, length-xor_with}
use zeropentime.Prelude.Bits.{xor_cancel, bit_xor-lt}
use zeropentime.Prelude.{
  ℕ, suc, ◌+◌, ◌^◌, ◌≤◌, ◌<◌, ◌≡◌, refl, ap, ◌∙◌, List, ◌∷◌, ◌++◌, Option, none, some, arith,
  length, true, take, drop, take_all, take-append_exact, drop-append_exact, length-append, u16_at,
  put_u16, put_u32, u16_at-put_u16, replicate, byte_at,
}
use zeropentime.Stun.{
  magic_cookie, port_mask, is_stun, header, xor_ip, ip_len, family, family_len, attribute, response,
  parse_addr, read_attribute, attributes, parse_response, tx_of,
}

xor_ip_cancel : (ip id : List ℕ) → length ip ≤ 16 → length id ≡ 12 → xor_ip (xor_ip ip id) id ≡ ip
unfolding xor_ip
xor_ip_cancel ip id short h = xor_with_cancel ip (put_u32 magic_cookie ++ id) (omega arith)

length-xor_ip : (ip id : List ℕ) → length (xor_ip ip id) ≡ length ip
unfolding xor_ip
length-xor_ip ip id = length-xor_with ip (put_u32 magic_cookie ++ id)

length-as_slice : (ip : Addr) → IsPlain ip → length (as_slice ip) ≡ ip_len ip
length-as_slice invalid h = absurd h
length-as_slice (v4 a) h = refl
length-as_slice (v6 a z) h = refl

ip_len_cases :
    (ip : Addr) → (ip_len ip ≤ 16) × (family_len (family ip) ≡ ip_len ip) × (4 ≤ ip_len ip)
unfolding family_len
ip_len_cases invalid = omega arith
ip_len_cases (v4 a) = (omega arith, refl, omega arith)
ip_len_cases (v6 a z) = (omega arith, refl, omega arith)

-- What `parseAddr` does with a value that holds an address under the mask.
parse_addr_xored :
    (v id : List ℕ) (ip : Addr) (len : ℕ) (x : List ℕ) (port : ℕ)
    → family_len (byte_at v 1) ≡ len
    → 4 ≤ len
    → length v ≡ 4 + len
    → take len (drop 4 v) ≡ x
    → addr_from_slice (xor_ip x id) ≡ some ip
    → bit_xor (u16_at v 2) port_mask ≡ port
    → parse_addr v id true ≡ some (record { addr = unmap ip; port = port })
unfolding parse_addr
parse_addr_xored v id ip len x port fam pos size bytes addr mask = ground arith

-- An attribute that answers ends the loop.
attributes_first :
    (fuel : ℕ) (body id : List ℕ) (mapped : Option AddrPort) (n : ℕ) (a : AddrPort)
    → u16_at body 2 ≡ n
    → 4 + n ≤ length body
    → u16_at body 0 ≡ 0x0020
    → parse_addr (take n (drop 4 body)) id true ≡ some a
    → attributes (suc fuel) id body mapped ≡ some a
unfolding attributes read_attribute
attributes_first fuel body id mapped n a len fits typ parsed = ground arith

framed_answer :
    (fuel : ℕ) (v id : List ℕ) (mapped : Option AddrPort) (n : ℕ) (a : AddrPort)
    → length v ≡ n
    → n < 2 ^ 16
    → parse_addr v id true ≡ some a
    → attributes (suc fuel) id (put_u16 0x0020 ++ put_u16 n ++ v) mapped ≡ some a
framed_answer fuel v id mapped n a size small parsed =
    let len : u16_at (put_u16 n) 0 ≡ n = u16_at-put_u16 n small in
    attributes_first fuel (put_u16 0x0020 ++ put_u16 n ++ v) id mapped n a len (omega arith) refl
      (ap (λ (x : List ℕ). parse_addr x id true) (take_all n v size) ∙ parsed)

module _ (id : List ℕ) (ip : Addr) (port : ℕ) (h : length id ≡ 12) (plain : IsPlain ip)
    (p16 : port < 2 ^ 16) where
  masked : List ℕ
  masked = xor_ip (as_slice ip) id

  address : addr_from_slice (xor_ip masked id) ≡ some ip
  unfolding masked
  address =
      ap (λ (b : List ℕ). addr_from_slice b)
        (xor_ip_cancel (as_slice ip) id (omega (arith, length-as_slice ip plain, ip_len_cases ip))
          h)
      ∙ addr_from_slice-as_slice ip plain

  -- The value of the attribute of the response.
  value : List ℕ
  unfolding masked
  value = (0 ∷ family ip ∷ put_u16 (bit_xor port port_mask)) ++ masked

  length-masked : length masked ≡ ip_len ip
  unfolding masked
  length-masked = length-xor_ip (as_slice ip) id ∙ length-as_slice ip plain

  attribute-value : attribute id ip port ≡ put_u16 0x0020 ++ put_u16 (4 + ip_len ip) ++ value
  unfolding attribute value
  attribute-value =
      ap
        (λ (x : List ℕ).
          put_u16 0x0020
          ++ put_u16 (4 + ip_len ip)
          ++ ((0 ∷ family ip ∷ put_u16 (bit_xor port port_mask)) ++ x))
        (take-append_exact (ip_len ip) masked (replicate 16 0) length-masked)

  port_back : bit_xor (u16_at (put_u16 (bit_xor port port_mask)) 0) port_mask ≡ port
  port_back =
      ap (λ (t : ℕ). bit_xor t port_mask)
        (u16_at-put_u16 (bit_xor port port_mask) (bit_xor-lt 16 port port_mask p16 (omega arith)))
      ∙ xor_cancel port port_mask

  parse_addr_value : parse_addr value id true ≡ some (record { addr = unmap ip; port = port })
  unfolding value
  parse_addr_value =
      let (short, same, long) = ip_len_cases ip in
      parse_addr_xored value id ip (ip_len ip) masked port same long (omega (arith, length-masked))
        (take_all (ip_len ip) masked length-masked) address port_back

  value_size : length value ≡ 4 + ip_len ip
  unfolding value
  value_size = omega (arith, length-masked)

  attribute_size : length (attribute id ip port) ≡ 8 + ip_len ip
  unfolding value
  attribute_size = rw attribute-value (omega (arith, length-masked))

  -- The first attribute of the response is the answer.
  attributes_answer :
      attributes (length (attribute id ip port)) id (attribute id ip port) none
      ≡ some (record { addr = unmap ip; port = port })
  attributes_answer =
      let n : ℕ = 7 + ip_len ip in
      let size : length (attribute id ip port) ≡ suc n = omega (arith, attribute_size) in
      ap (λ (t : ℕ). attributes t id (attribute id ip port) none) size
      ∙ ap (λ (b : List ℕ). attributes (suc n) id b none) attribute-value
      ∙ framed_answer n value id none (4 + ip_len ip) _ value_size (omega (arith, ip_len_cases ip))
          parse_addr_value

-- What `ParseResponse` does with a header, a transaction ID and the attributes behind it.
parse_response_reads :
    (b id body : List ℕ) (a : AddrPort)
    → is_stun b ≡ true
    → u16_at b 0 ≡ 0x0101
    → tx_of b ≡ id
    → take (u16_at b 2) (drop 20 b) ≡ body
    → attributes (length body) id body none ≡ some a
    → parse_response b ≡ some (id, a)
unfolding parse_response
parse_response_reads b id body a ok typ tx rest found = rw (ok, typ, tx, rest) (rw found refl)

framed_response :
    (n : ℕ) (id body : List ℕ) (a : AddrPort)
    → length id ≡ 12
    → length body ≡ n
    → n < 2 ^ 16
    → attributes (length body) id body none ≡ some a
    → parse_response (header 0x0101 n id ++ body) ≡ some (id, a)
unfolding header is_stun
framed_response n id body a h size small found =
    let len : u16_at (put_u16 n) 0 ≡ n = u16_at-put_u16 n small in
    let cut : drop 12 (id ++ body) ≡ body = drop-append_exact 12 id body h in
    parse_response_reads (header 0x0101 n id ++ body) id body a
      (ground (arith, length-append id body, len)) refl (take-append_exact 12 id body h)
      (rw (len, cut) (take_all n body size)) found

-- A response built for a valid address with no zone gives back the transaction ID, the address (an
-- IPv4-mapped one as IPv4) and the port.
pub parse_response-response :
    (id : List ℕ) (addr : Addr) (port : ℕ)
    → length id ≡ 12
    → IsPlain addr
    → port < 2 ^ 16
    → parse_response (response id (record { addr = addr; port = port }))
      ≡ some (id, record { addr = unmap addr; port = port })
unfolding response
parse_response-response id addr port h plain p16 =
    let ip = unmap addr in
    let ok = unmap-IsPlain addr plain in
    let size = attribute_size id ip port h ok p16 in
    framed_response (4 + (4 + ip_len ip)) id (attribute id ip port)
      (record { addr = ip; port = port }) h (omega arith) (omega (arith, ip_len_cases ip))
      (attributes_answer id ip port h ok p16
        ∙ ap (λ (x : Addr). some (record { addr = x; port = port })) (unmap_idem addr))
