-- ===== src/Udp.antt =====
-- CAT over UDP. `Codec` and `Session` are src/codec.rs and src/session.rs of cat-transport-udp;
-- `ServerDedup` is cat-server/src/dedup.rs.
pub mod Codec
pub mod Session
pub mod ServerDedup
mod Tests
