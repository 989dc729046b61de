-- ===== src/Ui.antt =====
-- cat-ui: the state that every console shares.
pub mod Lanes
mod Tests
