-- ===== src/Rfc2217/Codec/Server.antt =====
-- `mod server` of cat-transport-rfc2217/src/codec.rs: server-to-client command codes.
use radio_cat_rs.Base.{ℕ, ◌+◌}
use radio_cat_rs.Rfc2217.Codec.Client

abbrev pub server_offset : ℕ
server_offset = 100

abbrev pub signature : ℕ
signature = Client.signature + server_offset

abbrev pub set_baudrate : ℕ
set_baudrate = Client.set_baudrate + server_offset

abbrev pub set_datasize : ℕ
set_datasize = Client.set_datasize + server_offset

abbrev pub set_parity : ℕ
set_parity = Client.set_parity + server_offset

abbrev pub set_stopsize : ℕ
set_stopsize = Client.set_stopsize + server_offset

abbrev pub set_control : ℕ
set_control = Client.set_control + server_offset

abbrev pub notify_linestate : ℕ
notify_linestate = Client.notify_linestate + server_offset

abbrev pub notify_modemstate : ℕ
notify_modemstate = Client.notify_modemstate + server_offset

abbrev pub flowcontrol_suspend : ℕ
flowcontrol_suspend = Client.flowcontrol_suspend + server_offset

abbrev pub flowcontrol_resume : ℕ
flowcontrol_resume = Client.flowcontrol_resume + server_offset

abbrev pub set_linestate_mask : ℕ
set_linestate_mask = Client.set_linestate_mask + server_offset

abbrev pub set_modemstate_mask : ℕ
set_modemstate_mask = Client.set_modemstate_mask + server_offset

abbrev pub purge_data : ℕ
purge_data = Client.purge_data + server_offset
