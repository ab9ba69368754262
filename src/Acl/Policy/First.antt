-- ===== src/Acl/Policy/First.antt =====
-- `Allowed` against a description of which rule grants a packet.
use zeropentime.Acl.Policy.{
  icmp, PortRange, Rule, Policy, Texts, Index, minus_one, rule_at, matches, any, any_port, is_empty,
  allowed_from, no_rules_or, allowed,
}
use zeropentime.Netip.{Addr}
use zeropentime.Prelude.First.{IsFirst, NoneFits, find_from, find_from-some_iff, find_from-none_iff}
use zeropentime.Prelude.{
  Option, none, iff_trans, refl, sym, ◌∙◌, ℕ, ◌+◌, ◌≤◌, ◌≡◌, ◌≢◌, ◌↔◌, ◌⊎◌, Bool, true, false, ◌&&◌,
  ◌||◌, List, [], ◌∷◌, some, arith, Any, if◌then◌else◌,
}

module _ (t : Texts) (pol : Policy) where
  any_iff :
      (sels : List (List ℕ)) (a : Addr) (to : Bool)
      → (any t pol sels a to ≡ true) ↔ Any (λ s. matches t pol s a to ≡ true) sels
  unfolding any
  any_iff [] a to = ground arith
  any_iff (s ∷ sels) a to = ground (arith, any_iff sels a to)

  module _ (src dst : Addr) (proto port : ℕ) where
    abbrev pub PortFits : PortRange → Type 0
    PortFits p = (p.proto ≡ proto) × ((proto ≡ icmp) ⊎ ((p.first ≤ port) × (port ≤ p.last)))

    -- A rule grants a packet: some selector on each side fits, and the ports are open or fit.
    abbrev pub Grants : Rule → Type 0
    Grants r =
        Any (λ s. matches t pol s src false ≡ true) r.from
        × Any (λ s. matches t pol s dst true ≡ true) r.to
        × ((r.ports ≡ []) ⊎ Any PortFits r.ports)

    any_port_iff :
        (ps : List PortRange) → (any_port t pol src dst proto port ps ≡ true) ↔ Any PortFits ps
    unfolding any_port
    any_port_iff [] = ground arith
    any_port_iff (p ∷ ps) = ground (arith, any_port_iff ps)

    granted : Rule → Bool
    granted r =
        any t pol r.from src false
        && any t pol r.to dst true
        && (is_empty t pol src dst proto port r.ports || any_port t pol src dst proto port r.ports)

    is_empty_iff : (ps : List PortRange) → (is_empty t pol src dst proto port ps ≡ true) ↔ (ps ≡ [])
    unfolding is_empty
    is_empty_iff [] = ground arith
    is_empty_iff (p ∷ ps) = ground arith

    granted_iff : (r : Rule) → (granted r ≡ true) ↔ Grants r
    unfolding granted
    granted_iff r = ground (
      arith,
      any_iff r.from src false,
      any_iff r.to dst true,
      is_empty_iff r.ports,
      any_port_iff r.ports,
    )

    allowed_from_step :
        (i : ℕ) (r : Rule) (rs : List Rule)
        → allowed_from t pol src dst proto port i (r ∷ rs) ≡ (
            if granted r
            then (true, rule_at i)
            else allowed_from t pol src dst proto port (i + 1) rs)
    unfolding allowed_from granted
    allowed_from_step i r rs = ground arith

    found : Option ℕ → Bool × Index
    found none = (false, minus_one)
    found (some k) = (true, rule_at k)

    -- The loop is the search for the first rule that grants.
    allowed_from-find_from :
        (i : ℕ) (rules : List Rule)
        → allowed_from t pol src dst proto port i rules
          ≡ found (find_from Grants granted granted_iff i rules)
    unfolding find_from found
    allowed_from-find_from i [] = unfold allowed_from in refl
    allowed_from-find_from i (r ∷ rs) =
        ground (arith, allowed_from_step i r rs, allowed_from-find_from (i + 1) rs)

    found-some_iff : (o : Option ℕ) (k : ℕ) → (found o ≡ (true, rule_at k)) ↔ (o ≡ some k)
    unfolding found
    found-some_iff o k = ground arith

    found-none_iff : (o : Option ℕ) → (found o ≡ (false, minus_one)) ↔ (o ≡ none)
    unfolding found
    found-none_iff o = ground arith

    allowed-found :
        (rules : List Rule)
        → rules ≢ []
        → no_rules_or t pol src dst proto port rules
          ≡ found (find_from Grants granted granted_iff 0 rules)
    unfolding no_rules_or
    allowed-found [] h = absurd (h refl)
    allowed-found (r ∷ rs) h = allowed_from-find_from 0 (r ∷ rs)

    -- With rules, the answer `(true, k)` is given exactly when rule `k` is the first that grants the
    -- packet, and `(false, -1)` exactly when no rule grants it.
    pub allowed-IsFirst :
        pol.rules ≢ []
        → (k : ℕ)
        → ((allowed t pol src dst proto port ≡ (true, rule_at k)) ↔ IsFirst Grants k pol.rules)
          × ((allowed t pol src dst proto port ≡ (false, minus_one)) ↔ NoneFits Grants pol.rules)
    unfolding allowed
    allowed-IsFirst h k =
        let search = find_from Grants granted granted_iff 0 pol.rules in
        rw (allowed-found pol.rules h) (
          iff_trans (found-some_iff search k)
              (find_from-some_iff Grants granted granted_iff k pol.rules),
          iff_trans (found-none_iff search)
              (find_from-none_iff Grants granted granted_iff pol.rules),
        )

    -- The answer `(true, -1)` is given exactly when the room has no rules.
    pub allowed_open : (allowed t pol src dst proto port ≡ (true, minus_one)) ↔ (pol.rules ≡ [])
    unfolding allowed no_rules_or found
    allowed_open = open_iff pol.rules
      where
        open_iff :
            (rules : List Rule)
            → (no_rules_or t pol src dst proto port rules ≡ (true, minus_one)) ↔ (rules ≡ [])
        open_iff [] = (λ _. refl, λ _. refl)
        open_iff (r ∷ rs) = (
          λ e.
              not_found (find_from Grants granted granted_iff 0 (r ∷ rs))
                (sym (allowed_from-find_from 0 (r ∷ rs)) ∙ e),
          λ e. cc,
        )
          where
            not_found : {C : Type 0} (o : Option ℕ) → found o ≡ (true, minus_one) → C
            not_found none e = cc
            not_found (some k) e = cc
