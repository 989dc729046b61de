-- ===== src/Framework/Capabilities.antt =====
-- cat-framework/src/capabilities.rs: what a radio can do, as far as commands are checked against it.
use radio_cat_rs.Base.{ℕ, Bool, true, ◌&&◌, Option, List, ◌==◌, leb, any, ◌≡◌, ap, ==_iff, arith}
use radio_cat_rs.Cw.Capability.{CwCapability, Range}

-- `ModeId`.
pub data ModeId : Type 0 where
  lsb usb cw_upper cw_lower am am_narrow fm fm_narrow : ModeId
  rtty_lsb rtty_usb data_lsb data_usb data_fm c4fm : ModeId

abbrev mode_index : ModeId → ℕ
mode_index lsb = 0
mode_index usb = 1
mode_index cw_upper = 2
mode_index cw_lower = 3
mode_index am = 4
mode_index am_narrow = 5
mode_index fm = 6
mode_index fm_narrow = 7
mode_index rtty_lsb = 8
mode_index rtty_usb = 9
mode_index data_lsb = 10
mode_index data_usb = 11
mode_index data_fm = 12
mode_index c4fm = 13

-- The derived equality.
abbrev pub same_mode : ModeId → ModeId → Bool
same_mode a b = mode_index a == mode_index b

-- `MeterKind`.
pub data MeterKind : Type 0 where
  s_meter po swr alc id_meter vdd comp : MeterKind

meter_index : MeterKind → ℕ
meter_index s_meter = 0
meter_index po = 1
meter_index swr = 2
meter_index alc = 3
meter_index id_meter = 4
meter_index vdd = 5
meter_index comp = 6

unfoldable pub same_meter : MeterKind → MeterKind → Bool
unfolding meter_index
same_meter a b = meter_index a == meter_index b

pub same_meter_trans : (a b c : MeterKind) → same_meter a b ≡ true → same_meter a c ≡ same_meter b c
unfolding same_meter
same_meter_trans a b c same =
    let one : meter_index a ≡ meter_index b = (==_iff (meter_index a) (meter_index b)).0 same in
    ap (λ i. i == meter_index c) one

-- `contains` of `FrequencyRange` and of `WpmRange`.
unfoldable pub contains : Range → ℕ → Bool
contains r value = leb r.least value && leb value r.most

pub record VfoCapability : Type 0 where
  pub count : ℕ
  pub split : Bool

-- The limit of the shift, an i32 that is not negative, is a number.
pub record FilterCapability : Type 0 where
  pub if_shift_hz : Option ℕ
  pub widths_hz : Option (List ℕ)

-- `RadioCapabilities`, without what only a console shows: of a mode and a meter its name, of the memory
-- its channels.
pub record RadioCapabilities : Type 0 where
  pub vfos : VfoCapability
  pub modes : List ModeId
  pub rx_range : Range
  pub filters : FilterCapability
  pub meters : List MeterKind
  pub memory : Option Range
  pub cw : Option CwCapability

unfoldable pub supports_mode : RadioCapabilities → ModeId → Bool
supports_mode caps mode = any (λ (m : ModeId). same_mode m mode) caps.modes

-- `MeterSet::has`.
unfoldable pub has_meter : RadioCapabilities → MeterKind → Bool
has_meter caps kind = any (λ (m : MeterKind). same_meter m kind) caps.meters

pub same_meter_sym : (a b : MeterKind) → same_meter a b ≡ same_meter b a
unfolding same_meter
same_meter_sym a b = ground arith
