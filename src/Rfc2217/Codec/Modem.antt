-- ===== src/Rfc2217/Codec/Modem.antt =====
-- `mod modem` of cat-transport-rfc2217/src/codec.rs: the bits of NOTIFY-MODEMSTATE.
use radio_cat_rs.Base.{ℕ}
use Prim.Native.Nat.{bit_or}

abbrev pub cts : ℕ
cts = 0x10

abbrev pub dsr : ℕ
dsr = 0x20

abbrev pub ri : ℕ
ri = 0x40

abbrev pub dcd : ℕ
dcd = 0x80

abbrev pub delta_cts : ℕ
delta_cts = 0x01

abbrev pub delta_dsr : ℕ
delta_dsr = 0x02

abbrev pub trailing_edge_ri : ℕ
trailing_edge_ri = 0x04

abbrev pub delta_dcd : ℕ
delta_dcd = 0x08

abbrev pub all_levels : ℕ
all_levels = bit_or (bit_or (bit_or cts dsr) ri) dcd
