-- ===== src/Obfs.antt =====
-- internal/obfs: what a room needs on the wire, from its secret.
pub mod Profile
pub mod Tagger
