-- ===== src/Cw.antt =====
-- The supervisor of CW transmission: cat-rigctl/src/native_bridge/cw.rs, over the keyer's
-- capabilities of cat-framework/src/capabilities.rs.
pub mod Text
pub mod Capability
pub mod State
pub mod Stopping
pub mod Planning
pub mod Requests
pub mod Driving
pub mod Queries
pub mod Calls
pub mod Aborting
pub mod Rounds
pub mod Chunks
pub mod Guard
mod Tests
