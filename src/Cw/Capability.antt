-- ===== src/Cw/Capability.antt =====
-- The CW part of cat-framework/src/capabilities.rs: what a radio's keyer can do, and the check that a
-- description of it is coherent.
use radio_cat_rs.Base.{
  ℕ, Bool, true, false, not, ◌&&◌, ◌||◌, Option, none, some, List, ◌==◌, ltb, if◌then◌else◌, any,
  find, is_empty, Result, ok, err, ◌>>=◌,
}
use radio_cat_rs.Cw.Text.{Text, to_ascii_uppercase}

pub data BreakInKind : Type 0 where
  off : BreakInKind
  semi : BreakInKind
  full : BreakInKind

abbrev pub same_break_in : BreakInKind → BreakInKind → Bool
same_break_in off off = true
same_break_in semi semi = true
same_break_in full full = true
same_break_in _ _ = false

pub data CwPacing : Type 0 where
  buffer_flag : CwPacing
  estimated : CwPacing

pub data CwAbort : Type 0 where
  radio_stop : CwAbort
  drain_only : CwAbort

abbrev pub is_buffer_flag : CwPacing → Bool
is_buffer_flag buffer_flag = true
is_buffer_flag estimated = false

abbrev pub is_drain_only : CwAbort → Bool
is_drain_only drain_only = true
is_drain_only radio_stop = false

-- `RawRange`, `WpmRange` and `HzRange`.
pub record Range : Type 0 where
  pub least : ℕ
  pub most : ℕ

pub record CwSendText : Type 0 where
  pub max_chunk_chars : ℕ
  pub charset : Text
  pub pacing : CwPacing
  pub on_abort : CwAbort
  pub requires_break_in : Option BreakInKind

pub record TxGateCapability : Type 0 where
  pub low_power_raw : ℕ
  pub power_raw : Range

pub record CwCapability : Type 0 where
  pub pitch : Option Range
  pub pitch_writable : Bool
  pub keyer_wpm : Option Range
  pub keyer_wpm_writable : Bool
  pub break_in : List BreakInKind
  pub send_text : Option CwSendText
  pub tx_gate : Option TxGateCapability

unfoldable pub rejected_char : CwSendText → Text → Option ℕ
rejected_char sender text =
    find
      (λ (c : ℕ).
        not (c == b' ') && not (any (λ (k : ℕ). k == to_ascii_uppercase c) sender.charset))
      text

abbrev pub accepts : CwSendText → Text → Bool
accepts sender text = elim (rejected_char sender text) [ none ↦ true | some c ↦ false ]

pub data CwCapabilityError : Type 0 where
  empty_pitch_range : CwCapabilityError
  empty_wpm_range : CwCapabilityError
  writable_without_range : CwCapabilityError
  zero_chunk : CwCapabilityError
  empty_charset : CwCapabilityError
  charset_not_uppercase : CwCapabilityError
  required_break_in_not_selectable : CwCapabilityError
  send_without_tx_gate : CwCapabilityError
  low_power_out_of_range : CwCapabilityError

-- `if bad { return Err(e) }`.
abbrev pub refuse_if : Bool → CwCapabilityError → Result CwCapabilityError (Unit {0})
refuse_if bad e = if bad then err e else ok tt

abbrev pub is_missing {ℓ} : {A : Type ℓ} → Option A → Bool
is_missing none = true
is_missing (some a) = false

abbrev pub range_is_empty : Option Range → Bool
range_is_empty none = false
range_is_empty (some r) = ltb r.most r.least

-- `char::is_lowercase` is the parameter.
module _ (is_lowercase : ℕ → Bool) where
  unfoldable pub check_send : CwCapability → CwSendText → Result CwCapabilityError (Unit {0})
  check_send capability sender =
      refuse_if (sender.max_chunk_chars == 0) zero_chunk
      >>= (λ (u : Unit {0}). refuse_if (is_empty sender.charset) empty_charset)
      >>= (λ (u : Unit {0}). refuse_if (any is_lowercase sender.charset) charset_not_uppercase)
      >>= (λ (u : Unit {0}). elim sender.requires_break_in [
        | none ↦ ok tt
        | some kind ↦
            refuse_if (not (any (same_break_in kind) capability.break_in))
              required_break_in_not_selectable
      ])
      >>= (λ (u : Unit {0}). refuse_if (is_missing capability.tx_gate) send_without_tx_gate)

  unfoldable pub validate : CwCapability → Result CwCapabilityError (Unit {0})
  validate capability =
      refuse_if (range_is_empty capability.pitch) empty_pitch_range
      >>= (λ (u : Unit {0}). refuse_if (range_is_empty capability.keyer_wpm) empty_wpm_range)
      >>= (λ (u : Unit {0}).
          refuse_if
            ((capability.pitch_writable && is_missing capability.pitch)
              || (capability.keyer_wpm_writable && is_missing capability.keyer_wpm))
            writable_without_range)
      >>= (λ (u : Unit {0}). elim capability.send_text [
        | none ↦ ok tt
        | some sender ↦ check_send capability sender
      ])
      >>= (λ (u : Unit {0}). elim capability.tx_gate [
        | none ↦ ok tt
        | some gate ↦
            refuse_if
              (ltb gate.low_power_raw gate.power_raw.least
                || ltb gate.power_raw.most gate.low_power_raw)
              low_power_out_of_range
      ])
