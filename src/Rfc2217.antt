-- ===== src/Rfc2217.antt =====
-- cat-transport-rfc2217: serial over TCP. `Codec` and `Decoder` are src/codec.rs, `Peer` is
-- src/server.rs of that crate.
pub mod Codec
pub mod Decoder
pub mod Peer
mod Tests
