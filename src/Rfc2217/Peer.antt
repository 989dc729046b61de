-- ===== src/Rfc2217/Peer.antt =====
-- cat-transport-rfc2217/src/server.rs: `Rfc2217Peer`, the device-server half of one connection.
-- `&mut self`, `events` and `reply` travel in a `Turn`.
pub mod Outcome
pub mod Chunks
pub mod LineState
pub mod Replies
pub mod Notify
use Prim.Native.Nat.{bit_and, bit_or, bit_xor}
use radio_cat_rs.Base.{
  ℕ, ◌+◌, Bool, true, false, not, ◌||◌, Option, none, some, List, [], ◌∷◌, ◌++◌, ◌==◌,
  if◌then◌else◌,
}
use radio_cat_rs.Base.Bytes.{Bytes}
use radio_cat_rs.Rfc2217.Codec.{
  will, wont, do_verb, dont, opt_binary, opt_suppress_go_ahead, opt_com_port, com_port,
  notify_modem_state,
}
use radio_cat_rs.Rfc2217.Codec
use radio_cat_rs.Rfc2217.Codec.Client
use radio_cat_rs.Rfc2217.Codec.Server
use radio_cat_rs.Rfc2217.Codec.Control
use radio_cat_rs.Rfc2217.Codec.Modem
use radio_cat_rs.Rfc2217.Decoder
use radio_cat_rs.Rfc2217.Decoder.{Decoder, Event}

pub data PeerEvent : Type 0 where
  heard : Bytes → PeerEvent
  dtr : Bool → PeerEvent
  rts : Bool → PeerEvent
  break_signal : Bool → PeerEvent

-- The lines and the subscription; the decoder stands beside them in `Rfc2217Peer`.
pub record Lines : Type 0 where
  pub dtr : Bool
  pub rts : Bool
  pub modem_mask : ℕ
  pub last_notified : Option ℕ

pub record Rfc2217Peer : Type 0 where
  pub decoder : Decoder
  pub lines : Lines

abbrev pub new : Rfc2217Peer
new = record {
  decoder = Decoder.new;
  lines = record { dtr = false; rts = true; modem_mask = 0; last_notified = none };
}

-- What the loop of `push` changes: the peer's lines, `events` and `reply`.
pub record Turn : Type 0 where
  pub lines : Lines
  pub events : List PeerEvent
  pub reply : Bytes

abbrev supported : ℕ → Bool
supported option = option == opt_binary || option == opt_suppress_go_ahead || option == opt_com_port

-- `none` where no answer is given.
unfoldable pub answer_verb : ℕ → ℕ → Option ℕ
answer_verb verb option =
    if verb == will
    then some (if supported option then do_verb else dont)
    else if verb == do_verb
    then some (if supported option then will else wont)
    else none

abbrev say : Turn → Bytes → Turn
say t bytes = record t { reply = t.reply ++ bytes }

unfoldable pub answer_negotiation : ℕ → ℕ → Turn → Turn
unfolding answer_verb
answer_negotiation verb option t = elim (answer_verb verb option) [
  | none ↦ t
  | some answer ↦ say t (Codec.negotiate answer option)
]

abbrev pub control_echo : ℕ → Bytes
control_echo value = com_port Server.set_control (value ∷ [])

abbrev tell : Turn → PeerEvent → Turn
tell t e = record t { events = t.events ++ (e ∷ []) }

abbrev set_dtr : Turn → Bool → Turn
set_dtr t on = record t { lines = record (t.lines) { dtr = on } }

abbrev set_rts : Turn → Bool → Turn
set_rts t on = record t { lines = record (t.lines) { rts = on } }

-- The inner `match value` with the echo behind it.
unfoldable pub handle_control : ℕ → Turn → Turn
handle_control value t =
    if value == Control.dtr_on || value == Control.dtr_off
    then (let on = value == Control.dtr_on in
        say (tell (set_dtr t on) (PeerEvent.dtr on)) (control_echo value))
    else if value == Control.rts_on || value == Control.rts_off
    then (let on = value == Control.rts_on in
        say (tell (set_rts t on) (PeerEvent.rts on)) (control_echo value))
    else if value == Control.break_on || value == Control.break_off
    then say (tell t (break_signal (value == Control.break_on))) (control_echo value)
    else if value == Control.dtr_request
    then say t (control_echo (if t.lines.dtr then Control.dtr_on else Control.dtr_off))
    else if value == Control.rts_request
    then say t (control_echo (if t.lines.rts then Control.rts_on else Control.rts_off))
    else say t (control_echo Control.flow_none)

set_mask : ℕ → Turn → Turn
set_mask mask t =
    say (record t { lines = record (t.lines) { modem_mask = mask } })
      (com_port Server.set_modemstate_mask (mask ∷ []))

-- `params.first()`, and nothing is done where there is none.
on_first : Bytes → (ℕ → Turn → Turn) → Turn → Turn
on_first [] f t = t
on_first (value ∷ params) f t = f value t

unfoldable pub handle_com_port : ℕ → Bytes → Turn → Turn
unfolding handle_control set_mask on_first
handle_com_port command params t =
    if command == Client.set_control
    then on_first params handle_control t
    else if command == Client.set_modemstate_mask
    then on_first params set_mask t
    else if command == Client.set_baudrate
        || command == Client.set_datasize
        || command == Client.set_parity
        || command == Client.set_stopsize
    then say t (com_port (command + Server.server_offset) params)
    else if command == Client.signature
    then say t (com_port Server.signature params)
    else t

unfoldable pub handle_event : Event → Turn → Turn
unfolding answer_negotiation handle_com_port
handle_event (Event.data_run bs) t = tell t (heard bs)
handle_event (Event.negotiate verb option) t = answer_negotiation verb option t
handle_event (Event.com_port command params) t = handle_com_port command params t
handle_event (Event.other_subnegotiation option body) t = t

unfoldable pub handle_events : List Event → Turn → Turn
handle_events [] t = t
handle_events (e ∷ es) t = handle_events es (handle_event e t)

unfoldable pub push : Bytes → Rfc2217Peer → Rfc2217Peer × List PeerEvent × Bytes
unfolding handle_events
push bytes p =
    let (d, decoded) = Decoder.push bytes p.decoder [] in
    let t = handle_events decoded (record { lines = p.lines; events = []; reply = [] }) in
    (record { decoder = d; lines = t.lines }, t.events, t.reply)

abbrev flag : ℕ → ℕ → ℕ → ℕ → ℕ
flag changed line delta out = if not (bit_and changed line == 0) then bit_or out delta else out

-- The deltas of the lines that moved since `previous`.
unfoldable pub with_deltas : Option ℕ → ℕ → ℕ
with_deltas none masked = masked
with_deltas (some previous) masked =
    let changed = bit_xor previous masked in
    flag changed Modem.dcd Modem.delta_dcd
      (flag changed Modem.dsr Modem.delta_dsr (flag changed Modem.cts Modem.delta_cts masked))

abbrev mask_previous : Option ℕ → ℕ → Option ℕ
mask_previous none mask = none
mask_previous (some s) mask = some (bit_and s mask)

abbrev pub same_state : Option ℕ → ℕ → Bool
same_state none masked = false
same_state (some s) masked = s == masked

unfoldable pub modem_state : ℕ → Lines → Lines × Option Bytes
unfolding with_deltas
modem_state state l =
    let masked = bit_and state l.modem_mask in
    let previous = mask_previous l.last_notified l.modem_mask in
    if l.modem_mask == 0 then (l, none) else if same_state previous masked then (l, none) else (
      record l { last_notified = some masked },
      some (notify_modem_state (with_deltas previous masked)),
    )
