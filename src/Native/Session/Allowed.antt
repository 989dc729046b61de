-- ===== src/Native/Session/Allowed.antt =====
-- What the check of a command lets through: the commands that the radio can carry out.
use radio_cat_rs.Base.{
  ℕ, suc, ◌-◌, ◌^◌, ◌≤◌, ◌<◌, Bool, true, false, ◌≡◌, ◌≢◌, ◌⊎◌, ◌↔◌, inl, inr, refl, ap, List,
  length, Option, none, some, Result, ok, arith, Option-cases, Bool-cases, ◌==◌,
}
use radio_cat_rs.Cw.Text.{Text}
use radio_cat_rs.Cw.Capability.{CwCapability, CwSendText, accepts, Range}
use radio_cat_rs.Rigctl.Dispatch.{ℤ, pos, negsuc}
use radio_cat_rs.Framework.Capabilities.{RadioCapabilities, supports_mode, has_meter, contains}
use radio_cat_rs.Native.{
  Command, set_frequency, set_mode, set_split, set_memory_channel, set_filter_width, set_if_shift,
  read_meter, retune, read_devices, attach_device, read_state, set_keyer_speed, arm_cw_transmit,
  send_cw_text, abort_cw, disarm_cw,
}
use radio_cat_rs.Native.Session.{
  validate, validate_cw, validate_with, validate_send, is_callsign, is_blank, has_value, with_text,
  ErrorCode, max_cw_text_chars, exceeds, abs_i32,
}

abbrev pub Within : Range → ℕ → Type 0
Within range value = (range.least ≤ value) × (value ≤ range.most)

-- The least i32.
abbrev pub least_i32 : ℤ
least_i32 = negsuc (2 ^ 31 - 1)

abbrev pub IsShift : ℕ → ℤ → Type 0
IsShift limit (pos n) = n ≤ limit
IsShift limit (negsuc n) = suc n ≤ limit

-- The keyer of a radio whose server serves CW.
abbrev pub Serves : RadioCapabilities → Bool → CwCapability → Type 0
Serves caps serves_cw cw = (caps.cw ≡ some cw) × (serves_cw ≡ true)

abbrev pub Sends : RadioCapabilities → Bool → CwCapability → CwSendText → Type 0
Sends caps serves_cw cw send = (caps.cw ≡ some cw) × (serves_cw ≡ true) × (cw.send_text ≡ some send)

-- The commands that the radio can carry out as it describes itself; a shift by the least i32 stands beside
-- those within the limit.
abbrev pub IsAllowed : RadioCapabilities → Bool → Command → Type 0
IsAllowed caps serves_cw (set_frequency vfo hz) = (vfo < caps.vfos.count) × Within caps.rx_range hz
IsAllowed caps serves_cw (retune hz) = Within caps.rx_range hz
IsAllowed caps serves_cw (set_mode mode) = supports_mode caps mode ≡ true
IsAllowed caps serves_cw (set_split enabled) = caps.vfos.split ≡ true
IsAllowed caps serves_cw (set_memory_channel channel) =
    (channels : Range) × (caps.memory ≡ some channels) × Within channels channel
IsAllowed caps serves_cw (set_filter_width hz) =
    (widths : List ℕ) × (caps.filters.widths_hz ≡ some widths) × (has_value hz widths ≡ true)
IsAllowed caps serves_cw (set_if_shift hz) =
    (limit : ℕ) × (caps.filters.if_shift_hz ≡ some limit) × (IsShift limit hz ⊎ (hz ≡ least_i32))
IsAllowed caps serves_cw (read_meter kind) = has_meter caps kind ≡ true
IsAllowed caps serves_cw (set_keyer_speed wpm) =
    (cw : CwCapability) × (range : Range) × Serves caps serves_cw cw
    × (cw.keyer_wpm ≡ some range)
    × (cw.keyer_wpm_writable ≡ true)
    × Within range wpm
IsAllowed caps serves_cw (arm_cw_transmit callsign acknowledged key_down_cap_s) =
    (cw : CwCapability) × (send : CwSendText) × Sends caps serves_cw cw send
    × (acknowledged ≡ true)
    × (is_callsign callsign ≡ true)
    × (accepts send callsign ≡ true)
    × (key_down_cap_s ≢ some 0)
IsAllowed caps serves_cw (send_cw_text text) =
    (cw : CwCapability) × (send : CwSendText) × Sends caps serves_cw cw send
    × (is_blank text ≡ false)
    × (length text ≤ max_cw_text_chars)
    × (accepts send text ≡ true)
IsAllowed caps serves_cw disarm_cw =
    (cw : CwCapability) × (send : CwSendText) × Sends caps serves_cw cw send
IsAllowed caps serves_cw _ = Unit

exceeds_lem :
    (limit : ℕ) (hz : ℤ) → exceeds (abs_i32 hz) limit ≡ false → IsShift limit hz ⊎ (hz ≡ least_i32)
exceeds_lem limit (pos n) h = inl (ground arith)
exceeds_lem limit (negsuc n) h = elim (Bool-cases (suc n == 2 ^ 31)) [
  | inl e ↦ inr (ap negsuc (ground arith))
  | inr e ↦ inl (ground arith)
]

within_exceeds :
    (limit : ℕ) (hz : ℤ) → IsShift limit hz ⊎ (hz ≡ least_i32) → exceeds (abs_i32 hz) limit ≡ false
within_exceeds limit (pos n) (inl h) = ground arith
within_exceeds limit (negsuc n) (inl h) = ground arith
within_exceeds limit hz (inr h) = rw h refl

with_text-ok :
    (text : Option CwSendText) (check : CwSendText → Result ErrorCode (Unit {0}))
    → with_text text check ≡ ok tt
    → (send : CwSendText) × (text ≡ some send) × (check send ≡ ok tt)
with_text-ok none check h = cc
with_text-ok (some send) check h = (send, refl, h)

-- A keyer that is served, and what is asked of its text.
module _ (caps : RadioCapabilities) (serves_cw : Bool) (c : Command) where
  served :
      validate_cw caps serves_cw c ≡ ok tt
      → (cw : CwCapability) × (caps.cw ≡ some cw)
        × (serves_cw ≡ true)
        × (validate_with caps cw c ≡ ok tt)
  unfolding validate_cw
  served h = elim (Option-cases caps.cw) [
    | inl e ↦ cc
    | inr (cw, e) ↦ elim (Bool-cases serves_cw) [
      | inl on ↦ (cw, e, on, ground arith)
      | inr off ↦ cc
    ]
  ]

  serve :
      (cw : CwCapability)
      → Serves caps serves_cw cw
      → validate_with caps cw c ≡ ok tt
      → validate_cw caps serves_cw c ≡ ok tt
  unfolding validate_cw
  serve cw (e, on) h = rw (e, on) h

module _ (caps : RadioCapabilities) (send : CwSendText) where
  arm_checked :
      (callsign : Text) (acknowledged : Bool) (key_down_cap_s : Option ℕ)
      → (validate_send caps send (arm_cw_transmit callsign acknowledged key_down_cap_s) ≡ ok tt) ↔ (
          (acknowledged ≡ true)
          × (is_callsign callsign ≡ true)
          × (accepts send callsign ≡ true)
          × (key_down_cap_s ≢ some 0))
  unfolding validate_send
  arm_checked callsign acknowledged none = ground arith
  arm_checked callsign acknowledged (some seconds) = ground arith

  send_checked :
      (text : Text)
      → (validate_send caps send (send_cw_text text) ≡ ok tt)
        ↔ ((is_blank text ≡ false) × (length text ≤ max_cw_text_chars) × (accepts send text ≡ true))
  unfolding validate_send
  send_checked text = (λ h. ground arith, λ h. ground arith)

module _ (caps : RadioCapabilities) (serves_cw : Bool) where
  speed_checked :
      (cw : CwCapability) (wpm : ℕ)
      → validate_with caps cw (set_keyer_speed wpm) ≡ ok tt
      → (range : Range) × (cw.keyer_wpm ≡ some range)
        × (cw.keyer_wpm_writable ≡ true)
        × Within range wpm
  unfolding validate_with contains
  speed_checked cw wpm h = elim (Option-cases cw.keyer_wpm) [
    | inl e ↦ cc
    | inr (range, e) ↦ (range, e, ground arith, ground arith)
  ]

  validate_allows : (c : Command) → validate caps serves_cw c ≡ ok tt → IsAllowed caps serves_cw c
  unfolding validate contains
  validate_allows (set_frequency vfo hz) h = ground arith
  validate_allows (retune hz) h = ground arith
  validate_allows (set_mode mode) h = ground arith
  validate_allows (set_split enabled) h = ground arith
  validate_allows (set_memory_channel channel) h = elim (Option-cases caps.memory) [
    | inl e ↦ cc
    | inr (channels, e) ↦ (channels, e, ground arith)
  ]
  validate_allows (set_filter_width hz) h = elim (Option-cases caps.filters.widths_hz) [
    | inl e ↦ cc
    | inr (widths, e) ↦ (widths, e, ground arith)
  ]
  validate_allows (set_if_shift hz) h = elim (Option-cases caps.filters.if_shift_hz) [
    | inl e ↦ cc
    | inr (limit, e) ↦ (limit, e, exceeds_lem limit hz (ground arith))
  ]
  validate_allows (read_meter kind) h = ground arith
  validate_allows read_state h = tt
  validate_allows read_devices h = tt
  validate_allows (attach_device device) h = tt
  validate_allows abort_cw h = tt
  validate_allows (set_keyer_speed wpm) h =
      let (cw, e, on, passed) = served caps serves_cw (set_keyer_speed wpm) h in
      let (range, f, writable, inside) = speed_checked cw wpm passed in
      (cw, range, (e, on), f, writable, inside)
  validate_allows (arm_cw_transmit callsign acknowledged key_down_cap_s) h =
      let c = arm_cw_transmit callsign acknowledged key_down_cap_s in
      let (cw, e, on, passed) = served caps serves_cw c h in
      let (send, f, checked) = with_text-ok cw.send_text (λ s. validate_send caps s c) passed in
      let (a, b, d, z) = (arm_checked caps send callsign acknowledged key_down_cap_s).0 checked in
      (cw, send, (e, on, f), a, b, d, z)
  validate_allows (send_cw_text text) h =
      let (cw, e, on, passed) = served caps serves_cw (send_cw_text text) h in
      let (send, f, checked) =
        with_text-ok cw.send_text (λ s. validate_send caps s (send_cw_text text)) passed in
      let (a, b, d) = (send_checked caps send text).0 checked in (cw, send, (e, on, f), a, b, d)
  validate_allows disarm_cw h =
      let (cw, e, on, passed) = served caps serves_cw disarm_cw h in
      let (send, f, checked) =
        with_text-ok cw.send_text (λ s. validate_send caps s disarm_cw) passed in
      (cw, send, (e, on, f))

  allowed_validates : (c : Command) → IsAllowed caps serves_cw c → validate caps serves_cw c ≡ ok tt
  unfolding validate contains
  allowed_validates (set_frequency vfo hz) h = ground arith
  allowed_validates (retune hz) h = ground arith
  allowed_validates (set_mode mode) h = ground arith
  allowed_validates (set_split enabled) h = ground arith
  allowed_validates (set_memory_channel channel) (channels, e, inside) = ground arith
  allowed_validates (set_filter_width hz) (widths, e, one) = ground arith
  allowed_validates (set_if_shift hz) (limit, e, within) =
      ground (arith, within_exceeds limit hz within)
  allowed_validates (read_meter kind) h = ground arith
  allowed_validates read_state h = refl
  allowed_validates read_devices h = refl
  allowed_validates (attach_device device) h = refl
  allowed_validates abort_cw h = refl
  allowed_validates (set_keyer_speed wpm) (cw, range, serving, f, writable, inside) =
      serve caps serves_cw (set_keyer_speed wpm) cw serving (unfold validate_with in ground arith)
  allowed_validates (arm_cw_transmit callsign acknowledged key_down_cap_s)
        (cw, send, (e, on, f), a, b, d, z) =
      serve caps serves_cw (arm_cw_transmit callsign acknowledged key_down_cap_s) cw (e, on)
        (unfold validate_with in
          rw f ((arm_checked caps send callsign acknowledged key_down_cap_s).1 (a, b, d, z)))
  allowed_validates (send_cw_text text) (cw, send, (e, on, f), a, b, d) =
      serve caps serves_cw (send_cw_text text) cw (e, on)
        (unfold validate_with in rw f ((send_checked caps send text).1 (a, b, d)))
  allowed_validates disarm_cw (cw, send, (e, on, f)) =
      serve caps serves_cw disarm_cw cw (e, on) (unfold validate_with validate_send in rw f refl)

  -- A command passes the check exactly when it is one that the radio can carry out as it describes itself,
  -- or a shift of the IF by the least i32 on a radio that has a shift at all.
  pub validate_iff :
      (c : Command) → (validate caps serves_cw c ≡ ok tt) ↔ IsAllowed caps serves_cw c
  validate_iff c = (validate_allows c, allowed_validates c)
