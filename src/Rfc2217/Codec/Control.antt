-- ===== src/Rfc2217/Codec/Control.antt =====
-- `mod control` of cat-transport-rfc2217/src/codec.rs: the values of SET-CONTROL.
use radio_cat_rs.Base.{ℕ}

abbrev pub request_flow : ℕ
request_flow = 0

abbrev pub flow_none : ℕ
flow_none = 1

abbrev pub flow_xon_xoff : ℕ
flow_xon_xoff = 2

abbrev pub flow_hardware : ℕ
flow_hardware = 3

abbrev pub break_request : ℕ
break_request = 4

abbrev pub break_on : ℕ
break_on = 5

abbrev pub break_off : ℕ
break_off = 6

abbrev pub dtr_request : ℕ
dtr_request = 7

abbrev pub dtr_on : ℕ
dtr_on = 8

abbrev pub dtr_off : ℕ
dtr_off = 9

abbrev pub rts_request : ℕ
rts_request = 10

abbrev pub rts_on : ℕ
rts_on = 11

abbrev pub rts_off : ℕ
rts_off = 12
