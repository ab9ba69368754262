-- ===== src/Acl/Filter/Packets.antt =====
-- IPv4 packets by their fields, and what `parse` of internal/acl/filter.go reads off one.
use zeropentime.Acl.Filter.{Header, parse}
use zeropentime.Acl.Policy.{tcp, udp}
use zeropentime.Netip.{v4}
use zeropentime.Prelude.{
  ℕ, zero, suc, ◌+◌, ◌*◌, ◌/◌, ◌%◌, ◌^◌, ◌≤◌, ◌<◌, ◌≡◌, ◌≢◌, ◌⊎◌, inl, inr, refl, ap, sym, subst,
  ◌∙◌, true, false, List, [], ◌∷◌, ◌++◌, arith, length, length-append, get_or, byte_at, u16_at,
  u32_at, put_u16, put_u32,
}

-- What stands behind the header: ports and the rest of a segment, or bytes that hold no ports.
pub data Content : Type 0 where
  ports : ℕ → ℕ → List ℕ → Content
  raw : List ℕ → Content

-- An IPv4 packet, with its options in 32-bit words.
pub record Ip4 : Type 0 where
  pub words : ℕ
  pub tos : ℕ
  pub total : ℕ
  pub ident : ℕ
  pub flags : ℕ
  pub offset : ℕ
  pub ttl : ℕ
  pub proto : ℕ
  pub sum : ℕ
  pub src : ℕ
  pub dst : ℕ
  pub options : List ℕ
  pub content : Content

abbrev pub content_bytes : Content → List ℕ
content_bytes (ports sport dport rest) = put_u16 sport ++ put_u16 dport ++ rest
content_bytes (raw body) = body

abbrev pub head_bytes : Ip4 → List ℕ
head_bytes k =
    ((0x40 + (5 + k.words)) ∷ k.tos ∷ put_u16 k.total)
    ++ put_u16 k.ident
    ++ put_u16 (k.flags * 2 ^ 13 + k.offset)
    ++ (k.ttl ∷ k.proto ∷ put_u16 k.sum)
    ++ put_u32 k.src
    ++ put_u32 k.dst
    ++ k.options

-- The packet as it is sent.
abbrev pub bytes : Ip4 → List ℕ
bytes k = head_bytes k ++ content_bytes k.content

abbrev pub IsContent : ℕ → Content → Type 0
IsContent proto (ports sport dport rest) =
    ((proto ≡ tcp) ⊎ (proto ≡ udp)) × (sport < 2 ^ 16) × (dport < 2 ^ 16)
IsContent proto (raw body) = ((proto ≢ tcp) × (proto ≢ udp)) ⊎ (length body < 4)

-- The fields are in their ranges, and TCP and UDP hold ports where there are four bytes for them.
pub record IsIp4 (k : Ip4) : Type 0 where
  pub words_small : k.words ≤ 10
  pub options_size : length k.options ≡ 4 * k.words
  pub flags_small : k.flags < 8
  pub offset_small : k.offset < 2 ^ 13
  pub src_small : k.src < 2 ^ 32
  pub dst_small : k.dst < 2 ^ 32
  pub content_fits : IsContent k.proto k.content

abbrev pub sport_of : Content → ℕ
sport_of (ports sport dport rest) = sport
sport_of (raw body) = 0

abbrev pub dport_of : Content → ℕ
dport_of (ports sport dport rest) = dport
dport_of (raw body) = 0

-- The fields of a packet that is no later fragment, as the filter names them.
abbrev pub header_of : Ip4 → Header
header_of k = record {
  is_ok = true;
  proto = k.proto;
  src = v4 k.src;
  dst = v4 k.dst;
  sport = sport_of k.content;
  dport = dport_of k.content;
  first = true;
}

get_or-append :
    (xs ys : List ℕ) (i n : ℕ) → n ≡ length xs + i → get_or (xs ++ ys) n 0 ≡ get_or ys i 0
get_or-append [] ys i n e = ap (λ (t : ℕ). get_or ys t 0) (omega arith)
get_or-append (x ∷ xs) ys i zero e = absurd (omega arith)
get_or-append (x ∷ xs) ys i (suc n) e = get_or-append xs ys i n (omega arith)

-- `parse` on bytes whose header is known.
module _ (pkt : List ℕ) (long : 20 ≤ length pkt) (ver : byte_at pkt 0 / 16 ≡ 4) where
  parse_later : 0 < u16_at pkt 6 % 2 ^ 13 → ((parse pkt).is_ok ≡ true) × ((parse pkt).first ≡ false)
  unfolding parse
  parse_later later = ground arith

  read_header : ℕ → ℕ → Header
  read_header sport dport = record {
    is_ok = true;
    proto = byte_at pkt 9;
    src = v4 (u32_at pkt 12);
    dst = v4 (u32_at pkt 16);
    sport = sport;
    dport = dport;
    first = true;
  }

  parse_ports :
      u16_at pkt 6 % 2 ^ 13 ≡ 0
      → (byte_at pkt 9 ≡ tcp) ⊎ (byte_at pkt 9 ≡ udp)
      → byte_at pkt 0 % 16 * 4 + 4 ≤ length pkt
      → parse pkt
        ≡ read_header
            (u16_at pkt (byte_at pkt 0 % 16 * 4))
            (u16_at pkt (byte_at pkt 0 % 16 * 4 + 2))
  unfolding parse read_header
  parse_ports whole proto room = ground arith

  parse_raw :
      u16_at pkt 6 % 2 ^ 13 ≡ 0
      → ((byte_at pkt 9 ≢ tcp) × (byte_at pkt 9 ≢ udp)) ⊎ (length pkt < byte_at pkt 0 % 16 * 4 + 4)
      → parse pkt ≡ read_header 0 0
  unfolding parse read_header
  parse_raw whole none = ground arith

module _ (k : Ip4) (valid : IsIp4 k) where
  head_size : length (head_bytes k) ≡ 20 + 4 * k.words
  head_size = omega (arith, valid.options_size)

  u16_at-bytes :
      (i n : ℕ) → n ≡ 20 + 4 * k.words + i → u16_at (bytes k) n ≡ u16_at (content_bytes k.content) i
  u16_at-bytes i n e =
      let one =
        get_or-append (head_bytes k) (content_bytes k.content) i n (omega (arith, head_size)) in
      let two =
        get_or-append (head_bytes k) (content_bytes k.content) (i + 1) (n + 1)
          (omega (arith, head_size)) in
      omega (arith, one, two)

  fields :
      (byte_at (bytes k) 0 / 16 ≡ 4)
      × (byte_at (bytes k) 0 % 16 * 4 ≡ 20 + 4 * k.words)
      × (u16_at (bytes k) 6 % 2 ^ 13 ≡ k.offset)
      × (u32_at (bytes k) 12 ≡ k.src)
      × (u32_at (bytes k) 16 ≡ k.dst)
  fields = (
    omega (arith, valid.words_small),
    omega (arith, valid.words_small),
    omega (arith, valid.flags_small, valid.offset_small),
    omega (arith, valid.src_small),
    omega (arith, valid.dst_small),
  )

  bytes_size : length (bytes k) ≡ 20 + 4 * k.words + length (content_bytes k.content)
  bytes_size = omega (arith, length-append (head_bytes k) (content_bytes k.content), head_size)

  long : 20 ≤ length (bytes k)
  long = omega (arith, bytes_size)

  -- A later fragment is read as one.
  pub parse-bytes_later :
      0 < k.offset → ((parse (bytes k)).is_ok ≡ true) × ((parse (bytes k)).first ≡ false)
  parse-bytes_later later =
      let (ver, ihl, off, src, dst) = fields in parse_later (bytes k) long ver (omega (arith, off))

  same_header :
      (sport dport : ℕ)
      → sport ≡ sport_of k.content
      → dport ≡ dport_of k.content
      → read_header (bytes k) long fields.0 sport dport ≡ header_of k
  unfolding read_header
  same_header sport dport e e' = let (ver, ihl, off, src, dst) = fields in cc

  parse-bytes_of : (c : Content) → k.content ≡ c → k.offset ≡ 0 → parse (bytes k) ≡ header_of k
  parse-bytes_of (ports sport dport rest) e whole =
      let (ver, ihl, off, src, dst) = fields in
      let (proto, small, small') : IsContent k.proto (ports sport dport rest) =
        subst (IsContent k.proto) e valid.content_fits in
      let room : 4 ≤ length (content_bytes k.content) = rw e (omega arith) in
      let from : u16_at (content_bytes k.content) 0 ≡ sport = rw e (omega arith) in
      let to : u16_at (content_bytes k.content) 2 ≡ dport = rw e (omega arith) in
      parse_ports (bytes k) long ver (off ∙ whole) proto (omega (arith, ihl, room, bytes_size))
      ∙ same_header (u16_at (bytes k) (byte_at (bytes k) 0 % 16 * 4))
          (u16_at (bytes k) (byte_at (bytes k) 0 % 16 * 4 + 2))
          (u16_at-bytes 0 (byte_at (bytes k) 0 % 16 * 4) (omega (arith, ihl))
            ∙ from
            ∙ ap sport_of (sym e))
          (u16_at-bytes 2 (byte_at (bytes k) 0 % 16 * 4 + 2) (omega (arith, ihl))
            ∙ to
            ∙ ap dport_of (sym e))
  parse-bytes_of (raw body) e whole =
      let (ver, ihl, off, src, dst) = fields in
      let fits : IsContent k.proto (raw body) = subst (IsContent k.proto) e valid.content_fits in
      let size : length (content_bytes k.content) ≡ length body =
        ap (λ (c : Content). length (content_bytes c)) e in
      parse_raw (bytes k) long ver (off ∙ whole) (elim fits [
        | inl other ↦ inl other
        | inr short ↦ inr (omega (arith, ihl, size, short, bytes_size))
      ])
      ∙ same_header 0 0 (ap sport_of (sym e)) (ap dport_of (sym e))

  -- Any other packet is read as its fields.
  pub parse-bytes : k.offset ≡ 0 → parse (bytes k) ≡ header_of k
  parse-bytes whole = parse-bytes_of k.content refl whole
