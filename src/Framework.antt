-- ===== src/Framework.antt =====
-- cat-framework: the generic CAT command engine. `Command` and `Process` are src/cat.rs,
-- `WireFormat` and `Ascii` src/wire_format.rs, `Civ` and `Bcd` src/civ.rs of that crate.
pub mod Command
pub mod WireFormat
pub mod Process
pub mod Ascii
pub mod Civ
pub mod Capabilities
pub mod Bcd
mod Tests
