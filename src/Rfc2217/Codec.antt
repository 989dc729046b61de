-- ===== src/Rfc2217/Codec.antt =====
-- cat-transport-rfc2217/src/codec.rs: the constants and the encoding half. A `u8` is a number below
-- 256, and `&mut Vec<u8>` is passed in and returned.
pub mod Client
pub mod Server
pub mod Control
pub mod Modem
use radio_cat_rs.Base.{ℕ, ◌+◌, Bool, not, List, [], ◌∷◌, ◌++◌, ◌==◌, if◌then◌else◌}
use radio_cat_rs.Base.Bytes.{Bytes, to_be_bytes}
use Prim.Native.Nat.{bit_and}

abbrev pub iac : ℕ
iac = 255

abbrev pub se : ℕ
se = 240

abbrev pub sb : ℕ
sb = 250

abbrev pub will : ℕ
will = 251

abbrev pub wont : ℕ
wont = 252

abbrev pub do_verb : ℕ
do_verb = 253

abbrev pub dont : ℕ
dont = 254

abbrev pub opt_binary : ℕ
opt_binary = 0

abbrev pub opt_suppress_go_ahead : ℕ
opt_suppress_go_ahead = 3

abbrev pub opt_com_port : ℕ
opt_com_port = 44

unfoldable pub modem_cts : ℕ → Bool
modem_cts state = not (bit_and state Modem.cts == 0)

unfoldable pub modem_dsr : ℕ → Bool
modem_dsr state = not (bit_and state Modem.dsr == 0)

unfoldable pub modem_dcd : ℕ → Bool
modem_dcd state = not (bit_and state Modem.dcd == 0)

-- `escape(bytes, out)`: `out` with the escaped bytes behind it.
unfoldable pub escape : Bytes → Bytes → Bytes
escape [] out = out
escape (b ∷ bs) out =
    let pushed = out ++ (b ∷ []) in escape bs (if b == iac then pushed ++ (iac ∷ []) else pushed)

unfoldable pub encode_data : Bytes → Bytes
unfolding escape
encode_data bs = escape bs []

unfoldable pub negotiate : ℕ → ℕ → Bytes
negotiate verb option = iac ∷ verb ∷ option ∷ []

unfoldable pub com_port : ℕ → Bytes → Bytes
unfolding escape
com_port command params = escape params (iac ∷ sb ∷ opt_com_port ∷ command ∷ []) ++ (iac ∷ se ∷ [])

unfoldable pub set_control : ℕ → Bytes
unfolding com_port
set_control value = com_port Client.set_control (value ∷ [])

unfoldable pub set_baud_rate : ℕ → Bytes
unfolding com_port
set_baud_rate baud = com_port Client.set_baudrate (to_be_bytes 4 baud)

unfoldable pub notify_modem_state : ℕ → Bytes
unfolding com_port
notify_modem_state state = com_port Server.notify_modemstate (state ∷ [])
