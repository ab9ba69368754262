-- ===== src/Vless.antt =====
-- internal/vless/vless.go: the request header of a stream and the packets in it. A stream is the list
-- of its bytes; a reader returns what it read and the rest, `none` where it fails or the stream ends.
pub mod Stream
use zeropentime.Netip.{
  Addr, invalid, v4, v6, AddrPort, no_addr_port, unmap, as_slice, addr_from_slice,
}
use zeropentime.Prelude.{
  ℕ, ◌+◌, Bool, not, List, [], ◌∷◌, ◌++◌, Option, none, some, ltb, leb, ◌==◌, if◌then◌else◌, length,
  take, drop, byte_at, u16_at, put_u16,
}

abbrev pub version : ℕ
version = 0

abbrev pub addr_ipv4 : ℕ
addr_ipv4 = 1

abbrev pub addr_domain : ℕ
addr_domain = 2

abbrev pub addr_ipv6 : ℕ
addr_ipv6 = 3

abbrev pub max_packet : ℕ
max_packet = 65535

pub record Request : Type 0 where
  pub user : List ℕ
  pub command : ℕ
  pub dest : AddrPort

-- `io.ReadFull` and `Discard` of `n` bytes.
unfoldable pub read_full : ℕ → List ℕ → Option (List ℕ × List ℕ)
read_full n b = if ltb (length b) n then none else some (take n b, drop n b)

-- The type of an address, with its bytes.
abbrev pub dest_bytes : Addr → List ℕ
dest_bytes (v4 a) = addr_ipv4 ∷ as_slice (v4 a)
dest_bytes a = addr_ipv6 ∷ as_slice a

-- `WriteRequest`, what it writes.
unfoldable pub write_request : Request → List ℕ
write_request r =
    version ∷ (r.user ++ (0 ∷ r.command ∷ (put_u16 r.dest.port ++ dest_bytes (unmap r.dest.addr))))

-- The address of a request, 4 or 16 bytes.
unfoldable pub read_ip : List ℕ → ℕ → ℕ → ℕ → List ℕ → Option (Request × List ℕ)
read_ip user command port n b = elim (read_full n b) [
  | none ↦ none
  | some (ip, rest) ↦ elim (addr_from_slice ip) [
    | none ↦ some (
      record { user = user; command = command; dest = record { addr = invalid; port = port } },
      rest,
    )
    | some a ↦ some (
      record { user = user; command = command; dest = record { addr = unmap a; port = port } },
      rest,
    )
  ]
]

-- A domain is skipped: its destination is invalid.
unfoldable pub read_domain : List ℕ → ℕ → List ℕ → Option (Request × List ℕ)
read_domain user command [] = none
read_domain user command (l ∷ b) = elim (read_full l b) [
  | none ↦ none
  | some (name, rest) ↦ some (record { user = user; command = command; dest = no_addr_port }, rest)
]

unfoldable pub read_dest : List ℕ → List ℕ → List ℕ → Option (Request × List ℕ)
read_dest user cmd b =
    let typ = byte_at cmd 3 in
    let port = u16_at cmd 1 in
    if typ == addr_ipv4
    then read_ip user (byte_at cmd 0) port 4 b
    else if typ == addr_ipv6
    then read_ip user (byte_at cmd 0) port 16 b
    else if typ == addr_domain
    then read_domain user (byte_at cmd 0) b
    else none

unfoldable pub read_command : List ℕ → Option (List ℕ × List ℕ) → Option (Request × List ℕ)
read_command user none = none
read_command user (some (addons, b)) = elim (read_full 4 b) [
  | none ↦ none
  | some (cmd, rest) ↦ read_dest user cmd rest
]

-- `ReadRequest`.
unfoldable pub read_request : List ℕ → Option (Request × List ℕ)
read_request b = elim (read_full 18 b) [
  | none ↦ none
  | some (hdr, rest) ↦
      if not (byte_at hdr 0 == version)
      then none
      else read_command (take 16 (drop 1 hdr)) (read_full (byte_at hdr 17) rest)
]

-- `WritePacket`, what it writes.
unfoldable pub write_packet : List ℕ → Option (List ℕ)
write_packet b = if ltb max_packet (length b) then none else some (put_u16 (length b) ++ b)

unfoldable pub read_body : ℕ → Option (List ℕ × List ℕ) → Option (List ℕ × List ℕ)
read_body size none = none
read_body size (some (l, b)) = if ltb size (u16_at l 0) then none else read_full (u16_at l 0) b

-- `ReadPacket`, into a buffer of `size` bytes.
unfoldable pub read_packet : ℕ → List ℕ → Option (List ℕ × List ℕ)
read_packet size b = read_body size (read_full 2 b)
