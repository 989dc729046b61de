-- ===== src/Native.antt =====
-- cat-native/src/lib.rs: the commands and the state of the native protocol, by which consoles speak with a
-- server. Frames stand in Native/Frames.antt, a connection in Native/Session.antt, and the queue in
-- front of the radio (cat-rigctl/src/native_bridge.rs) in Native/Queue.antt.
use radio_cat_rs.Base.{ℕ, Bool, Option, none, some, List, find}
use radio_cat_rs.Cw.Text.{Text}
use radio_cat_rs.Rigctl.Dispatch.{ℤ}
use radio_cat_rs.Framework.Capabilities.{ModeId, MeterKind, same_meter}
pub mod Frames
pub mod Session
pub mod Server
pub mod Queue
mod Tests

pub record MeterSample : Type 0 where
  pub kind : MeterKind
  pub raw : ℕ

-- `RadioState`; `Whole` stands for the levels and the state of the keyer, which are handed on unread.
pub record RadioState (Whole : Type 0) : Type 0 where
  pub vfo_a_hz : ℕ
  pub vfo_b_hz : ℕ
  pub mode : ModeId
  pub split : Bool
  pub transmitting : Bool
  pub memory_channel : Option ℕ
  pub if_shift_hz : Option ℤ
  pub filter_width_hz : Option ℕ
  pub meters : List MeterSample
  pub levels : Option Whole
  pub cw : Option Whole

-- `RadioState::meter`.
unfoldable pub meter : {Whole : Type 0} → RadioState Whole → MeterKind → Option ℕ
meter state kind = elim (find (λ (m : MeterSample). same_meter m.kind kind) state.meters) [
  | none ↦ none
  | some m ↦ some m.raw
]

-- `Command`; the kind and the description of a device are a text.
pub data Command : Type 0 where
  set_frequency : (vfo hz : ℕ) → Command
  set_mode : (mode : ModeId) → Command
  set_split : (enabled : Bool) → Command
  set_memory_channel : (channel : ℕ) → Command
  set_filter_width : (hz : ℕ) → Command
  set_if_shift : (hz : ℤ) → Command
  read_meter : (kind : MeterKind) → Command
  retune : (hz : ℕ) → Command
  read_devices : Command
  attach_device : (device : Text) → Command
  read_state : Command
  set_keyer_speed : (wpm : ℕ) → Command
  arm_cw_transmit : (callsign : Text) (acknowledged : Bool) (key_down_cap_s : Option ℕ) → Command
  send_cw_text : (text : Text) → Command
  abort_cw : Command
  disarm_cw : Command
