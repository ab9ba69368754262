-- ===== src/Relay/Expiry.antt =====
-- internal/relay/server.go: `expireLoop`, one tick of it.
pub mod Idle
use zeropentime.Prelude.Assoc.{lookup, erase}
use zeropentime.Prelude.{
  ℕ, ◌-◌, List, [], ◌∷◌, none, some, ltb, ◌==◌, if◌then◌else◌, ℕ_discrete, Bytes_discrete,
}
use zeropentime.Relay.Server.{Server, ServerSession, PermEntry, session_of_id, session_idle, minute}

-- `if s.byNode[ss.nodeID] == ss` of `expireLoop`.
unfoldable pub forget_node : List ℕ → ℕ → List (List ℕ × ℕ) → List (List ℕ × ℕ)
forget_node node r by_node = elim (lookup Bytes_discrete node by_node) [
  | none ↦ by_node
  | some q ↦ if q == r then erase Bytes_discrete node by_node else by_node
]

unfoldable pub drop_session : List ℕ → ℕ → ServerSession → Server → Server
drop_session id r e s = record s {
  by_id = erase Bytes_discrete id s.by_id;
  by_node = forget_node e.node_id r s.by_node;
}

-- One session of the loop in `expireLoop`; the loop does not see an ID that is deleted.
unfoldable pub expire_one : ℕ → List ℕ → Server → Server
expire_one now id s = elim (session_of_id s id) [
  | none ↦ s
  | some (r, e) ↦ if ltb session_idle (now - e.last) then drop_session id r e s else s
]

unfoldable pub expire_sessions : ℕ → List (List ℕ × ℕ) → Server → Server
expire_sessions now [] s = s
expire_sessions now ((id, r) ∷ m) s = expire_sessions now m (expire_one now id s)

unfoldable pub expire_perms :
    ℕ → List ((List ℕ × List ℕ) × PermEntry) → List ((List ℕ × List ℕ) × PermEntry)
expire_perms now [] = []
expire_perms now ((k, e) ∷ m) =
    let rest = expire_perms now m in if ltb minute (now - e.at) then rest else (k, e) ∷ rest

-- One tick of `expireLoop`.
unfoldable pub expire : ℕ → Server → Server
expire now s =
    let s' = expire_sessions now s.by_id s in record s' { perm = expire_perms now s'.perm }
