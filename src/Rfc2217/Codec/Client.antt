-- ===== src/Rfc2217/Codec/Client.antt =====
-- `mod client` of cat-transport-rfc2217/src/codec.rs: client-to-server command codes.
use radio_cat_rs.Base.{ℕ}

abbrev pub signature : ℕ
signature = 0

abbrev pub set_baudrate : ℕ
set_baudrate = 1

abbrev pub set_datasize : ℕ
set_datasize = 2

abbrev pub set_parity : ℕ
set_parity = 3

abbrev pub set_stopsize : ℕ
set_stopsize = 4

abbrev pub set_control : ℕ
set_control = 5

abbrev pub notify_linestate : ℕ
notify_linestate = 6

abbrev pub notify_modemstate : ℕ
notify_modemstate = 7

abbrev pub flowcontrol_suspend : ℕ
flowcontrol_suspend = 8

abbrev pub flowcontrol_resume : ℕ
flowcontrol_resume = 9

abbrev pub set_linestate_mask : ℕ
set_linestate_mask = 10

abbrev pub set_modemstate_mask : ℕ
set_modemstate_mask = 11

abbrev pub purge_data : ℕ
purge_data = 12
