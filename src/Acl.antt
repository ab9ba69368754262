-- ===== src/Acl.antt =====
-- internal/acl: a room's access rules (Policy) and the stateful filter over them (Filter).
pub mod Policy
pub mod Filter
