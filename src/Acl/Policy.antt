-- ===== src/Acl/Policy.antt =====
-- internal/acl/acl.go: rules, members and the decision `Policy.Allowed`. A text is its bytes.
-- `netip.ParsePrefix`, `netip.ParseAddr` and `strings.EqualFold` are any functions: the theorems
-- hold whatever texts they accept.
pub mod First
use zeropentime.Netip.{Addr, Prefix, contains, ◌=ip◌}
use zeropentime.Prelude.{
  ℕ, ◌+◌, ◌≡◌, Bool, true, false, not, ◌&&◌, ◌||◌, List, [], ◌∷◌, Option, none, some, leb, ◌==◌,
  if◌then◌else◌, drop, codes, ◌=text◌, has_prefix, has_byte, has_text,
}

-- Protocol numbers.
abbrev pub icmp : ℕ
icmp = 1

abbrev pub tcp : ℕ
tcp = 6

abbrev pub udp : ℕ
udp = 17

-- A protocol with an inclusive port range.
pub record PortRange : Type 0 where
  pub proto : ℕ
  pub first : ℕ
  pub last : ℕ

-- Traffic `from` → `to` on `ports`; no ports: all.
pub record Rule : Type 0 where
  pub from : List (List ℕ)
  pub to : List (List ℕ)
  pub ports : List PortRange

pub record Member : Type 0 where
  pub name : List ℕ
  pub ip : Addr
  pub tags : List (List ℕ)

pub record Policy : Type 0 where
  pub rules : List Rule
  pub members : List Member
  pub subnet : Prefix

-- The functions on texts that the selectors go through.
pub record Texts : Type 0 where
  pub parse_prefix : List ℕ → Option Prefix
  pub parse_addr : List ℕ → Option Addr
  pub equal_fold : List ℕ → List ℕ → Bool

-- The first member with the address.
pub member : List Member → Addr → Option Member
member [] a = none
member (m ∷ ms) a = if m.ip =ip a then some m else member ms a

-- The index that `Allowed` returns beside its answer: -1 or a rule's.
pub data Index : Type 0 where
  minus_one : Index
  rule_at : ℕ → Index

module _ (t : Texts) (pol : Policy) where
  has_tag : Option Member → List ℕ → Bool
  has_tag none tag = false
  has_tag (some m) tag = has_text m.tags tag

  in_network : Option Prefix → Addr → Bool
  in_network none a = false
  in_network (some p) a = contains p a

  is_named : Option Member → List ℕ → Bool
  is_named none sel = false
  is_named (some m) sel = t.equal_fold m.name sel

  -- An address literal, else a member's name.
  is_addr_or_name : Option Addr → Option Member → List ℕ → Addr → Bool
  unfolding is_named
  is_addr_or_name (some a) m sel addr = a =ip addr
  is_addr_or_name none m sel addr = is_named m sel

  unfoldable pub matches : List ℕ → Addr → Bool → Bool
  unfolding has_prefix has_byte has_text member has_tag in_network is_addr_or_name
  matches sel addr to =
      let m = member pol.members addr in
      if sel =text codes "*"
      then true
      else if sel =text codes "internet"
      then to && not (contains pol.subnet addr)
      else if has_prefix sel (codes "tag:")
      then has_tag m (drop 4 sel)
      else if has_byte b'/' sel
      then in_network (t.parse_prefix sel) addr
      else is_addr_or_name (t.parse_addr sel) m sel addr

  unfoldable pub any : List (List ℕ) → Addr → Bool → Bool
  any [] a to = false
  any (s ∷ sels) a to = matches s a to || any sels a to

  module _ (src dst : Addr) (proto port : ℕ) where
    -- The loop over one rule's port ranges.
    unfoldable pub any_port : List PortRange → Bool
    any_port [] = false
    any_port (p ∷ ps) =
        p.proto == proto && (proto == icmp || (leb p.first port && leb port p.last)) || any_port ps

    unfoldable pub is_empty : List PortRange → Bool
    is_empty [] = true
    is_empty (p ∷ ps) = false

    -- The loop over the rules, from index `i` on.
    unfoldable pub allowed_from : ℕ → List Rule → Bool × Index
    unfolding is_empty
    allowed_from i [] = (false, minus_one)
    allowed_from i (r ∷ rs) =
        let rest = allowed_from (i + 1) rs in
        if not (any r.from src false) || not (any r.to dst true)
        then rest
        else if is_empty r.ports
        then (true, rule_at i)
        else if any_port r.ports
        then (true, rule_at i)
        else rest

    no_rules_or : List Rule → Bool × Index
    unfolding allowed_from
    no_rules_or [] = (true, minus_one)
    no_rules_or (r ∷ rs) = allowed_from 0 (r ∷ rs)

    unfoldable pub allowed : Bool × Index
    unfolding no_rules_or
    allowed = no_rules_or pol.rules
