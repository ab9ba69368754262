-- ===== src/Netcheck.antt =====
-- internal/netcheck/netcheck.go: the kind of NAT in front of a node. The answers of the STUN servers are
-- an argument, in the order of their arrival.
pub mod Verdict
use zeropentime.Bencode.{lt_text}
use zeropentime.Netip.{has_addr, Addr, invalid, v4, v6, AddrPort, ◌=ip◌, ◌=addr◌}
use zeropentime.Prelude.{
  ℕ, suc, Bool, true, false, ◌&&◌, ◌||◌, List, [], ◌∷◌, ◌++◌, ltb, ◌==◌, if◌then◌else◌, length,
}

pub data Nat : Type 0 where
  nat_none nat_cone nat_symmetric nat_blocked nat_unknown : Nat

pub record Report : Type 0 where
  pub nat : Nat
  pub mapped : List AddrPort

pub record Answer : Type 0 where
  pub server : AddrPort
  pub mapped : AddrPort

-- `Addr.Compare(b) < 0`: the length of the address, its value, its zone.
unfoldable pub lt_addr : Addr → Addr → Bool
lt_addr a invalid = false
lt_addr invalid (v4 b) = true
lt_addr invalid (v6 b z) = true
lt_addr (v4 a) (v4 b) = ltb a b
lt_addr (v4 a) (v6 b z) = true
lt_addr (v6 a y) (v4 b) = false
lt_addr (v6 a y) (v6 b z) = if a == b then lt_text y z else ltb a b

-- `AddrPort.Compare(b) < 0`.
unfoldable pub lt_addr_port : AddrPort → AddrPort → Bool
lt_addr_port a b = if a.addr =ip b.addr then ltb a.port b.port else lt_addr a.addr b.addr

-- `slices.SortFunc`.
unfoldable pub insert_addr : AddrPort → List AddrPort → List AddrPort
insert_addr a [] = a ∷ []
insert_addr a (b ∷ list) =
    let rest = insert_addr a list in if lt_addr_port b a then b ∷ rest else a ∷ b ∷ list

unfoldable pub sort_addrs : List AddrPort → List AddrPort
sort_addrs [] = []
sort_addrs (a ∷ list) = insert_addr a (sort_addrs list)

-- The loop over the answers that collects the addresses.
unfoldable pub distinct_mapped : List AddrPort → List Answer → List AddrPort
distinct_mapped out [] = out
distinct_mapped out (a ∷ answers) =
    distinct_mapped (if has_addr out a.mapped then out else out ++ (a.mapped ∷ [])) answers

-- The size of `distinctServers` is more than one.
unfoldable pub has_other_server : AddrPort → List Answer → Bool
has_other_server s [] = false
has_other_server s (a ∷ answers) = if s =addr a.server then has_other_server s answers else true

unfoldable pub has_ip : List Addr → Addr → Bool
has_ip [] a = false
has_ip (b ∷ list) a = if b =ip a then true else has_ip list a

-- `first` is the address of this machine.
unfoldable pub is_local : ℕ → List Addr → AddrPort → Bool
is_local local_port local_addrs first = first.port == local_port && has_ip local_addrs first.addr

unfoldable pub classified : ℕ → List Addr → Answer → List Answer → Report
classified local_port local_addrs first more =
    let mapped = sort_addrs (distinct_mapped [] (first ∷ more)) in
    if is_local local_port local_addrs first.mapped
    then record { nat = nat_none; mapped = mapped }
    else if ltb 1 (length mapped)
    then record { nat = nat_symmetric; mapped = mapped }
    else if has_other_server first.server more
    then record { nat = nat_cone; mapped = mapped }
    else record { nat = nat_unknown; mapped = mapped }

-- `Check`, with whether there is a server to ask.
unfoldable pub check : Bool → ℕ → List Addr → List Answer → Report
check has_servers local_port local_addrs [] = record {
  nat = if has_servers then nat_blocked else nat_unknown;
  mapped = [];
}
check has_servers local_port local_addrs (first ∷ more) =
    if has_servers
    then classified local_port local_addrs first more
    else record { nat = nat_unknown; mapped = [] }
