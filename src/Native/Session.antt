-- ===== src/Native/Session.antt =====
-- `NativeSession` of cat-native/src/lib.rs: one console's connection, its handshake, and the check of its
-- commands against what the radio can do. `Whole` stands for what is handed on unread: the layout with the
-- theme and the installation, a list of devices, levels, the state of the keyer. The text of an error is left out.
use radio_cat_rs.Base.{
  ℕ, suc, ◌+◌, ◌/◌, ◌^◌, Bool, true, false, not, ◌&&◌, ◌||◌, List, [], ◌∷◌, ltb, leb, ◌==◌,
  if◌then◌else◌, length, any, Option, none, some, Result, ok, err, ◌>>=◌, min, max,
}
use radio_cat_rs.Cw.Text.{Text, is_whitespace}
use radio_cat_rs.Cw.Capability.{CwCapability, CwSendText, accepts}
use radio_cat_rs.Rigctl.Dispatch.{ℤ, pos, negsuc}
use radio_cat_rs.Morse.{utf8_width}
use radio_cat_rs.Framework.Capabilities.{RadioCapabilities, supports_mode, has_meter, contains}
use radio_cat_rs.Native.{
  Command, set_frequency, set_mode, set_split, set_memory_channel, set_filter_width, set_if_shift,
  read_meter, retune, read_devices, attach_device, read_state, set_keyer_speed, arm_cw_transmit,
  send_cw_text, abort_cw, disarm_cw, RadioState, MeterSample, meter,
}
pub mod Allowed

abbrev pub protocol_version : ℕ
protocol_version = 2

abbrev pub max_cw_text_chars : ℕ
max_cw_text_chars = 256

pub data ErrorCode : Type 0 where
  not_ready version_mismatch unsupported out_of_range malformed forbidden : ErrorCode

-- `if bad { return Err(e) }`.
abbrev pub refuse_if : Bool → ErrorCode → Result ErrorCode (Unit {0})
refuse_if bad e = if bad then err e else ok tt

-- `i32::abs`, which in a release build leaves the least number as it is.
abbrev pub abs_i32 : ℤ → ℤ
abs_i32 (pos n) = pos n
abs_i32 (negsuc n) = if suc n == 2 ^ 31 then negsuc n else pos (suc n)

-- `shift > limit`.
abbrev pub exceeds : ℤ → ℕ → Bool
exceeds (pos n) limit = ltb limit n
exceeds (negsuc n) limit = false

abbrev is_letter : ℕ → Bool
is_letter c = (leb b'A' c && leb c b'Z') || (leb b'a' c && leb c b'z')

abbrev is_digit : ℕ → Bool
is_digit c = leb b'0' c && leb c b'9'

-- `str::len`.
abbrev pub len : Text → ℕ
len [] = 0
len (c ∷ text) = utf8_width c + len text

-- `is_callsign`.
unfoldable pub is_callsign : Text → Bool
is_callsign call =
    leb 3 (len call)
    && leb (len call) 10
    && not (any (λ (c : ℕ). not (is_letter c || is_digit c || (c == b'/'))) call)
    && any is_letter call
    && any is_digit call

-- `text.trim().is_empty()`.
abbrev pub is_blank : Text → Bool
is_blank text = not (any (λ (c : ℕ). not (is_whitespace c)) text)

abbrev pub has_value : ℕ → List ℕ → Bool
has_value value values = any (λ (v : ℕ). v == value) values

abbrev pub is_zero_cap : Option ℕ → Bool
is_zero_cap none = false
is_zero_cap (some seconds) = seconds == 0

-- `let Some(send) = cw.send_text else { … }`.
abbrev pub with_text :
    Option CwSendText → (CwSendText → Result ErrorCode (Unit {0})) → Result ErrorCode (Unit {0})
with_text none check = err unsupported
with_text (some send) check = check send

module _ (caps : RadioCapabilities) where
  unfoldable pub validate_send : CwSendText → Command → Result ErrorCode (Unit {0})
  unfolding is_callsign
  validate_send send (arm_cw_transmit callsign acknowledged key_down_cap_s) =
      refuse_if (not acknowledged) forbidden
      >>= (λ (u : Unit {0}). refuse_if (not (is_callsign callsign)) forbidden)
      >>= (λ (u : Unit {0}). refuse_if (not (accepts send callsign)) forbidden)
      >>= (λ (u : Unit {0}). refuse_if (is_zero_cap key_down_cap_s) out_of_range)
  validate_send send (send_cw_text text) =
      refuse_if (is_blank text) out_of_range
      >>= (λ (u : Unit {0}). refuse_if (ltb max_cw_text_chars (length text)) out_of_range)
      >>= (λ (u : Unit {0}). refuse_if (not (accepts send text)) out_of_range)
  validate_send send _ = ok tt

  -- `validate_cw` for the keyer's speed.
  unfoldable pub validate_speed : CwCapability → ℕ → Result ErrorCode (Unit {0})
  validate_speed cw wpm = elim cw.keyer_wpm [
    | none ↦ err unsupported
    | some range ↦
        if cw.keyer_wpm_writable
        then refuse_if (not (contains range wpm)) out_of_range
        else err unsupported
  ]

  unfoldable pub validate_with : CwCapability → Command → Result ErrorCode (Unit {0})
  unfolding validate_speed validate_send
  validate_with cw (set_keyer_speed wpm) = validate_speed cw wpm
  validate_with cw command = with_text cw.send_text (λ send. validate_send send command)

  unfoldable pub validate_cw : Bool → Command → Result ErrorCode (Unit {0})
  unfolding validate_with
  validate_cw serves_cw command = elim caps.cw [
    | none ↦ err unsupported
    | some cw ↦ if serves_cw then validate_with cw command else err unsupported
  ]

  unfoldable pub validate : Bool → Command → Result ErrorCode (Unit {0})
  unfolding validate_cw
  validate serves_cw (set_frequency vfo hz) =
      refuse_if (leb caps.vfos.count vfo) unsupported
      >>= (λ (u : Unit {0}). refuse_if (not (contains caps.rx_range hz)) out_of_range)
  validate serves_cw (retune hz) = refuse_if (not (contains caps.rx_range hz)) out_of_range
  validate serves_cw (set_mode mode) = refuse_if (not (supports_mode caps mode)) unsupported
  validate serves_cw (set_split enabled) = refuse_if (not caps.vfos.split) unsupported
  validate serves_cw (set_memory_channel channel) = elim caps.memory [
    | none ↦ err unsupported
    | some channels ↦
        refuse_if (ltb channel channels.least || ltb channels.most channel) out_of_range
  ]
  validate serves_cw (set_filter_width hz) = elim caps.filters.widths_hz [
    | none ↦ err unsupported
    | some widths ↦ refuse_if (not (has_value hz widths)) out_of_range
  ]
  validate serves_cw (set_if_shift hz) = elim caps.filters.if_shift_hz [
    | none ↦ err unsupported
    | some limit ↦ refuse_if (exceeds (abs_i32 hz) limit) out_of_range
  ]
  validate serves_cw (read_meter kind) = refuse_if (not (has_meter caps kind)) unsupported
  validate serves_cw read_state = ok tt
  validate serves_cw read_devices = ok tt
  validate serves_cw (attach_device device) = ok tt
  validate serves_cw abort_cw = ok tt
  validate serves_cw (set_keyer_speed wpm) = validate_cw serves_cw (set_keyer_speed wpm)
  validate serves_cw (arm_cw_transmit callsign acknowledged key_down_cap_s) =
      validate_cw serves_cw (arm_cw_transmit callsign acknowledged key_down_cap_s)
  validate serves_cw (send_cw_text text) = validate_cw serves_cw (send_cw_text text)
  validate serves_cw disarm_cw = validate_cw serves_cw disarm_cw

pub data ClientMessage : Type 0 where
  hello : (version : ℕ) (spectrum audio : Bool) (max_fps : Option ℕ) → ClientMessage
  command : (c : Command) → ClientMessage
  ping : ClientMessage

module _ (Whole : Type 0) where
  pub data ServerMessage : Type 0 where
    welcome :
        (version : ℕ) (capabilities : RadioCapabilities) (cw : Option CwCapability) (scene : Whole)
        → ServerMessage
    ack : ServerMessage
    pong : ServerMessage
    state : RadioState Whole → ServerMessage
    meter_sample : MeterSample → ServerMessage
    devices : Whole → ServerMessage
    error : ErrorCode → ServerMessage

  pub record NativeSession : Type 0 where
    pub capabilities : RadioCapabilities
    pub scene : Whole
    pub handshaken : Bool
    pub spectrum : Bool
    pub audio : Bool
    pub max_fps : Option ℕ
    pub published_state : Option (RadioState Whole)
    pub published_devices : Option Whole
    pub serves_cw : Bool

abbrev pub is_some {ℓ} : {A : Type ℓ} → Option A → Bool
is_some none = false
is_some (some a) = true

module _ {Whole : Type 0} where
  -- `with_installation`.
  abbrev pub new_session : RadioCapabilities → Whole → NativeSession Whole
  new_session capabilities scene = record {
    capabilities = capabilities;
    scene = scene;
    handshaken = false;
    spectrum = false;
    audio = false;
    max_fps = none;
    published_state = none;
    published_devices = none;
    serves_cw = false;
  }

  unfoldable pub reaches_host : NativeSession Whole → Command → Bool
  reaches_host s abort_cw = s.serves_cw && is_some s.capabilities.cw
  reaches_host s _ = true

  -- `frame_interval`, in microseconds.
  unfoldable pub frame_interval : NativeSession Whole → ℕ
  frame_interval s = elim s.max_fps [ none ↦ 100000 | some fps ↦ 1000000 / min (max fps 1) 60 ]

  abbrev pub wants_spectrum : NativeSession Whole → Bool
  wants_spectrum s = s.handshaken && s.spectrum

  abbrev pub wants_audio : NativeSession Whole → Bool
  wants_audio s = s.audio

  -- What a command that passed the check is answered with.
  unfoldable pub answer : NativeSession Whole → Command → ServerMessage Whole
  answer s read_state = elim s.published_state [ none ↦ error not_ready | some known ↦ state known ]
  answer s (read_meter kind) = elim s.published_state [
    | none ↦ error not_ready
    | some known ↦ elim (meter known kind) [
      | none ↦ error not_ready
      | some raw ↦ meter_sample (record { kind = kind; raw = raw })
    ]
  ]
  answer s read_devices = elim s.published_devices [
    | none ↦ error unsupported
    | some lists ↦ devices lists
  ]
  answer s _ = ack

  unfoldable pub handle :
      ClientMessage → NativeSession Whole → NativeSession Whole × ServerMessage Whole
  unfolding answer
  handle (hello version spectrum audio max_fps) s =
      if version == protocol_version
      then (
        record s { handshaken = true; spectrum = spectrum; audio = audio; max_fps = max_fps },
        welcome protocol_version s.capabilities (if s.serves_cw then s.capabilities.cw else none)
            s.scene,
      )
      else (s, error version_mismatch)
  handle ping s = if s.handshaken then (s, pong) else (s, error not_ready)
  handle (command c) s =
      if s.handshaken
      then elim (validate s.capabilities s.serves_cw c) [
        | err code ↦ (s, error code)
        | ok checked ↦ (s, answer s c)
      ]
      else (s, error not_ready)
