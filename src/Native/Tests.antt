-- ===== src/Native/Tests.antt =====
-- The native server at concrete inputs.
use radio_cat_rs.Base.{
  ℕ, ◌+◌, Bool, true, false, ◌≡◌, ◌≢◌, ◌↔◌, refl, List, [], ◌∷◌, Option, none, some, ok, arith,
  ◌==◌, if◌then◌else◌,
}
use mathlib.Core.List.{flatten}
use radio_cat_rs.Base.Bytes.{Bytes}
use radio_cat_rs.Framework.Capabilities.{RadioCapabilities, usb, s_meter}
use radio_cat_rs.Native.{
  Command, set_frequency, set_mode, set_split, set_memory_channel, set_filter_width, set_if_shift,
  read_meter, retune, read_devices, attach_device, read_state, set_keyer_speed, arm_cw_transmit,
  send_cw_text, abort_cw, disarm_cw,
}
use radio_cat_rs.Native.Frames.{
  incomplete, unknown_kind, decode_frame, decode_kind, encode_audio_payload, decode_audio_payload,
  AudioFrame,
}
use radio_cat_rs.Native.Frames.Payloads.{decode-encode_audio_payload}
use radio_cat_rs.Native.Session.{ClientMessage, hello, command, new_session, validate}
use radio_cat_rs.Native.Session.Allowed.{Within, IsAllowed, least_i32, validate_iff}
use radio_cat_rs.Native.Server.{RadioHost, Connection, serve_frames, serve, receive, serve_reads}
use radio_cat_rs.Native.Server.Kept.{serve_reads-Kept}
use radio_cat_rs.Native.Server.Chunks.{serve_reads-flatten, serve_reads-refused}
use radio_cat_rs.Native.Queue.{Pending, enqueue_all, latest, times, enqueue_all_lem}

abbrev shortwave : RadioCapabilities
shortwave = record {
  vfos = record { count = 2; split = true };
  modes = usb ∷ [];
  rx_range = record { least = 30000; most = 60000000 };
  filters = record { if_shift_hz = some 1200; widths_hz = none };
  meters = s_meter ∷ [];
  memory = none;
  cw = none;
}

-- A radio that is its dial.
abbrev turned : Command → ℕ → ℕ
turned (set_frequency vfo hz) dial = hz
turned (retune hz) dial = hz
turned (set_mode mode) dial = dial
turned (set_split enabled) dial = dial
turned (set_memory_channel channel) dial = dial
turned (set_filter_width hz) dial = dial
turned (set_if_shift hz) dial = dial
turned (read_meter kind) dial = dial
turned read_state dial = dial
turned read_devices dial = dial
turned (attach_device device) dial = dial
turned (set_keyer_speed wpm) dial = dial
turned (arm_cw_transmit callsign acknowledged key_down_cap_s) dial = dial
turned (send_cw_text text) dial = dial
turned abort_cw dial = dial
turned disarm_cw dial = dial

abbrev receiver : RadioHost ℕ Bool
receiver = record {
  state_as = λ dial. record {
    vfo_a_hz = dial;
    vfo_b_hz = 7000000;
    mode = usb;
    split = false;
    transmitting = false;
    memory_channel = none;
    if_shift_hz = none;
    filter_width_hz = none;
    meters = [];
    levels = none;
    cw = none;
  };
  devices = λ dial. none;
  serves_cw = λ dial. false;
  apply_as = λ c dial. (turned c dial, none);
}

abbrev InRange : ℕ → Type 0
InRange = Within shortwave.rx_range

turned-InRange :
    (c : Command) (dial : ℕ) → IsAllowed shortwave false c → InRange dial → InRange (turned c dial)
turned-InRange (set_frequency vfo hz) dial allowed inside = allowed.1
turned-InRange (retune hz) dial allowed inside = allowed
turned-InRange (set_mode mode) dial allowed inside = inside
turned-InRange (set_split enabled) dial allowed inside = inside
turned-InRange (set_memory_channel channel) dial allowed inside = inside
turned-InRange (set_filter_width hz) dial allowed inside = inside
turned-InRange (set_if_shift hz) dial allowed inside = inside
turned-InRange (read_meter kind) dial allowed inside = inside
turned-InRange read_state dial allowed inside = inside
turned-InRange read_devices dial allowed inside = inside
turned-InRange (attach_device device) dial allowed inside = inside
turned-InRange (set_keyer_speed wpm) dial allowed inside = inside
turned-InRange (arm_cw_transmit callsign acknowledged key_down_cap_s) dial allowed inside = inside
turned-InRange (send_cw_text text) dial allowed inside = inside
turned-InRange abort_cw dial allowed inside = inside
turned-InRange disarm_cw dial allowed inside = inside

-- A message of one byte.
abbrev message : ℕ → Option ClientMessage
message b =
    if b == 1
    then some (hello 2 false false none)
    else if b == 2
    then some (command (set_frequency 0 14074000))
    else none

abbrev one_byte : Bytes → Option ClientMessage
one_byte (b ∷ []) = message b
one_byte _ = none

abbrev idle : Connection ℕ Bool
idle = record { session = new_session shortwave true; host = 7030000; replies = []; pending = [] }

-- A handshake and a frequency, cut within the second frame.
abbrev cut : List Bytes
cut = (1 ∷ 0 ∷ 0 ∷ 0 ∷ 1 ∷ 1 ∷ 1 ∷ 0 ∷ []) ∷ (0 ∷ 0 ∷ 1 ∷ 2 ∷ []) ∷ []

serve_reads-Kept_example : InRange (serve_reads receiver one_byte cut idle).host
serve_reads-Kept_example =
    serve_reads-Kept receiver one_byte shortwave InRange turned-InRange cut idle refl (omega arith)

serve_reads-flatten_example :
    serve_reads receiver one_byte cut idle
    ≡ serve receiver one_byte (receive receiver one_byte (flatten cut) idle)
unfolding serve serve_frames
serve_reads-flatten_example = serve_reads-flatten receiver one_byte cut idle refl

unknown-differs : (k : ℕ) → unknown_kind k ≢ incomplete
unknown-differs k same = cc

-- Nine is no kind of frame.
abbrev stuck : Connection ℕ Bool
stuck = record idle { pending = 9 ∷ 0 ∷ 0 ∷ 0 ∷ 0 ∷ [] }

serve_reads-refused_example :
    serve_reads receiver one_byte cut stuck ≡ receive receiver one_byte (flatten cut) stuck
unfolding decode_frame decode_kind
serve_reads-refused_example =
    serve_reads-refused receiver one_byte cut stuck refl (unknown-differs 9)

validate_iff_example :
    (validate shortwave false (set_if_shift least_i32) ≡ ok tt)
    ↔ IsAllowed shortwave false (set_if_shift least_i32)
validate_iff_example = validate_iff shortwave false (set_if_shift least_i32)

abbrev frame : AudioFrame
frame = record {
  sample_rate_hz = 48000;
  samples = 5 ∷ 0 ∷ [];
  scope_sequence = 7;
  start_hz = 0;
  span_hz = 4000;
  bins = 9 ∷ [];
  spectrum_sequence = 7;
}

decode-encode_audio_payload_example : decode_audio_payload (encode_audio_payload frame) ≡ some frame
decode-encode_audio_payload_example = decode-encode_audio_payload frame (
  omega arith,
  refl,
  omega arith,
  omega arith,
  omega arith,
  omega arith,
  omega arith,
  (omega arith, (omega arith, tt)),
  (omega arith, tt),
)

abbrev sent : List Pending
sent =
    record { command = retune 7000000; reply = 1 }
    ∷ record { command = read_state; reply = 2 }
    ∷ record { command = retune 7000100; reply = 3 }
    ∷ []

enqueue_all_lem_example :
    ((enqueue_all sent (record { waiting = []; told = [] })).waiting ≡ latest sent)
    × (times 1 (latest sent) + times 1 (enqueue_all sent (record { waiting = []; told = [] })).told
        ≡ times 1 sent)
enqueue_all_lem_example = enqueue_all_lem sent 1
