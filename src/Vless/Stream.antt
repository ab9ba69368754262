-- ===== src/Vless/Stream.antt =====
-- What is written to a stream is read from it, with what follows left in place.
use mathlib.Core.List.{append_assoc}
use zeropentime.Netip.{
  Addr, invalid, v4, v6, unmap, as_slice, IsPlain, addr_from_slice-as_slice, unmap-IsPlain,
  unmap_idem,
}
use zeropentime.Prelude.{
  ℕ, ◌^◌, ◌≤◌, ◌<◌, ◌≡◌, refl, ap, sym, ◌∙◌, List, [], ◌∷◌, ◌++◌, some, arith, length, take, drop,
  take-append_exact, drop-append_exact, length-append, put_u16, u16_at-put_u16, get_or, byte_at,
  zero, suc,
}
use zeropentime.Vless.{
  read_full, dest_bytes, write_request, read_ip, read_dest, read_command, read_request,
  write_packet, read_body, read_packet, max_packet,
}

read_full-append : (xs ys : List ℕ) (n : ℕ) → length xs ≡ n → read_full n (xs ++ ys) ≡ some (xs, ys)
unfolding read_full
read_full-append xs ys n h =
    ground (arith, length-append xs ys, take-append_exact n xs ys h, drop-append_exact n xs ys h)

-- A packet that fits the buffer comes back, and the rest of the stream stays.
pub read_packet-write_packet :
    (p rest : List ℕ) (size : ℕ)
    → length p ≤ max_packet
    → length p ≤ size
    → (frame : List ℕ) × (write_packet p ≡ some frame)
      × (read_packet size (frame ++ rest) ≡ some (p, rest))
unfolding read_packet read_body write_packet
read_packet-write_packet p rest size fits room =
    let len = u16_at-put_u16 (length p) (omega arith) in
    (
      put_u16 (length p) ++ p,
      ground arith,
      rw (read_full-append (put_u16 (length p)) (p ++ rest) 2 refl)
          (ground (arith, len, read_full-append p rest (length p) refl)),
    )

get_or-append_exact : (xs ys : List ℕ) (y n d : ℕ) → length xs ≡ n → get_or (xs ++ (y ∷ ys)) n d ≡ y
get_or-append_exact [] ys y zero d h = refl
get_or-append_exact [] ys y (suc n) d h = absurd (omega arith)
get_or-append_exact (x ∷ xs) ys y zero d h = absurd (omega arith)
get_or-append_exact (x ∷ xs) ys y (suc n) d h = get_or-append_exact xs ys y n d (omega arith)

read_request_stages :
    (b hdr rest user cmd behind : List ℕ)
    → read_full 18 b ≡ some (hdr, rest)
    → byte_at hdr 0 ≡ 0
    → take 16 (drop 1 hdr) ≡ user
    → byte_at hdr 17 ≡ 0
    → read_full 0 rest ≡ some ([], rest)
    → read_full 4 rest ≡ some (cmd, behind)
    → read_request b ≡ read_dest user cmd behind
unfolding read_request read_command
read_request_stages b hdr rest user cmd behind head version own addons skipped command =
    ground (arith, head, version, own, addons, skipped, command)

-- The header, up to the address.
read_request_head :
    (user cmd b : List ℕ)
    → length user ≡ 16
    → length cmd ≡ 4
    → read_request ((0 ∷ (user ++ (0 ∷ []))) ++ (cmd ++ b)) ≡ read_dest user cmd b
read_request_head user cmd b huser hcmd =
    let hdr = 0 ∷ (user ++ (0 ∷ [])) in
    let head = read_full-append hdr (cmd ++ b) 18 (omega (arith, length-append user (0 ∷ []))) in
    let addons = get_or-append_exact user [] 0 16 0 huser in
    let own = take-append_exact 16 user (0 ∷ []) huser in
    read_request_stages _ hdr (cmd ++ b) user cmd b head refl own addons
      (read_full-append [] (cmd ++ b) 0 refl) (read_full-append cmd b 4 hcmd)

-- The address of a destination.
read_dest_plain :
    (user rest : List ℕ) (command port : ℕ) (ip : Addr)
    → IsPlain ip
    → port < 2 ^ 16
    → (typ : ℕ) × (bytes : List ℕ) × (dest_bytes ip ≡ typ ∷ bytes)
      × (read_dest user (command ∷ (put_u16 port ++ (typ ∷ []))) (bytes ++ rest)
          ≡ some (
            record {
              user = user;
              command = command;
              dest = record { addr = unmap ip; port = port };
            },
            rest,
          ))
unfolding read_dest read_ip
read_dest_plain user rest command port invalid h p16 = absurd h
read_dest_plain user rest command port (v4 a) h p16 =
    let back = addr_from_slice-as_slice (v4 a) h in
    (
      1,
      as_slice (v4 a),
      refl,
      ground (arith, back, u16_at-put_u16 port p16, read_full-append (as_slice (v4 a)) rest 4 refl),
    )
read_dest_plain user rest command port (v6 a z) h p16 =
    let back = addr_from_slice-as_slice (v6 a z) h in
    (
      3,
      as_slice (v6 a z),
      refl,
      ground
          (arith, back, u16_at-put_u16 port p16, read_full-append (as_slice (v6 a z)) rest 16 refl),
    )

-- A request for a valid address with no zone comes back, the address unmapped, and what follows it
-- stays in the stream.
pub read_request-write_request :
    (user rest : List ℕ) (command port : ℕ) (addr : Addr)
    → length user ≡ 16
    → IsPlain addr
    → port < 2 ^ 16
    → read_request (
        write_request
          (record { user = user; command = command; dest = record { addr = addr; port = port } })
        ++ rest)
      ≡ some (
        record { user = user; command = command; dest = record { addr = unmap addr; port = port } },
        rest,
      )
unfolding write_request
read_request-write_request user rest command port addr huser plain p16 =
    let (typ, bytes, e, found) =
      read_dest_plain user rest command port (unmap addr) (unmap-IsPlain addr plain) p16 in
    let cmd = command ∷ (put_u16 port ++ (typ ∷ [])) in
    ap (λ (d : List ℕ). read_request ((0 ∷ (user ++ (0 ∷ command ∷ (put_u16 port ++ d)))) ++ rest))
      e
    ∙ ap (λ (b : List ℕ). read_request (0 ∷ b))
        (append_assoc user (0 ∷ (cmd ++ bytes)) rest
          ∙ sym (append_assoc user (0 ∷ []) (cmd ++ (bytes ++ rest))))
    ∙ read_request_head user cmd (bytes ++ rest) huser refl
    ∙ found
    ∙ ap
        (λ (a : Addr). some (
          record { user = user; command = command; dest = record { addr = a; port = port } },
          rest,
        ))
        (unmap_idem addr)
