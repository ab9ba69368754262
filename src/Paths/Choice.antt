-- ===== src/Paths/Choice.antt =====
-- `better` as an order on the paths of a peer.
use zeropentime.Netip.{AddrPort, Prefix, ◌=addr◌}
use zeropentime.Paths.{DiscoPath, is_stale}
use zeropentime.Paths.Search.{is_lan, better}
use zeropentime.Sock.Endpoint.{is_relay}
use zeropentime.Prelude.{ℕ, ◌+◌, ◌≡◌, true, false, List, arith, if◌then◌else◌}

-- How a path is ranked: 2 for a direct one, and 1 for an address of a local network.
abbrev pub rank : List Prefix → AddrPort → ℕ
rank lan a = (if is_relay a then 0 else 2) + (if is_lan lan a then 1 else 0)

-- Of two current paths, each that replaces the other is not replaced by it at that time.
pub better_asymmetric :
    (lan : List Prefix) (now : ℕ) (p cur : DiscoPath)
    → is_stale now p ≡ false
    → better lan now p cur ≡ true
    → is_stale now cur ≡ false
    → better lan now cur p ≡ false
unfolding better
better_asymmetric lan now p cur young h young' = ground arith

-- What replaces a path that replaces a third would replace the third, if it is another address.
pub better_transitive :
    (lan : List Prefix) (now : ℕ) (p q r : DiscoPath)
    → is_stale now q ≡ false
    → better lan now p q ≡ true
    → better lan now q r ≡ true
    → (p.addr =addr r.addr) ≡ false
    → better lan now p r ≡ true
unfolding better
better_transitive lan now p q r young h h' other = ground arith

-- A current direct path is replaced by a direct path only.
pub better-is_relay :
    (lan : List Prefix) (now : ℕ) (p cur : DiscoPath)
    → is_stale now cur ≡ false
    → is_relay cur.addr ≡ false
    → better lan now p cur ≡ true
    → is_relay p.addr ≡ false
unfolding better
better-is_relay lan now p cur young direct h = ground arith
