-- ===== src/Rigctl/Tests.antt =====
-- The bridge at concrete inputs.
use radio_cat_rs.Base.{
  ℕ, ◌+◌, ◌-◌, ◌≤◌, ◌⊎◌, ◌&&◌, List, true, false, ◌≡◌, refl, [], ◌∷◌, Option, none, some,
  if◌then◌else◌, arith,
}
use radio_cat_rs.Base.Bytes.{Bytes}
use radio_cat_rs.Rigctl.Dispatch
use radio_cat_rs.Rigctl.Dispatch.{
  RigctlRadio, dispatch, dispatch_words, other_command, set_ptt, set_split_flag, words, split_words,
  space_len, parse_u8, confirm, rprt_err, rprt_ok,
}
use radio_cat_rs.Framework.Capabilities.{ModeId, usb}
use radio_cat_rs.Native.{RadioState, retune}
use radio_cat_rs.Rigctl.Shared.{
  Event, poll_begins, poll_ends, poll_answered, patched, applied, new_bridge, happen, replay,
  end_poll, publish_state, patch_state, measured_state,
}
use radio_cat_rs.Rigctl.Shared.Measured.{Measured, measured_state_lem}
use radio_cat_rs.Rigctl.Cached.{Cached, cached, set_and_patch, fresh_enough_to_skip}
use radio_cat_rs.Rigctl.Cached.Reads.{set_vfo_a_hz_lem}
use radio_cat_rs.Rigctl.Ptt.{gate, keys_words, dispatch_transmit, dispatch-gate}

-- A radio that counts how often it was keyed.
abbrev counter : RigctlRadio ℕ ℕ
counter = record {
  get_vfo_a_hz = λ r. (r, some 14074000);
  set_vfo_a_hz = λ hz r. (r, true);
  get_mode = λ r. (r, none);
  set_mode = λ mode r. (r, true);
  get_split = λ r. (r, some true);
  set_split = λ on r. (r, on);
  get_rit_hz = λ r. (r, some (Dispatch.negsuc 9));
  get_xit_hz = λ r. (r, none);
  get_transmitting = λ r. (r, some false);
  transmit = λ r. (r + 1, true);
  receive = λ r. (r, true);
  hamlib_mode_name = λ mode. b'U' ∷ [];
  hamlib_mode_from_name = λ name. none;
  dump_state = [];
}

abbrev no_float : Bytes → Option ℕ
no_float text = none

abbrev key_up : Bytes
key_up = b'T' ∷ b' ' ∷ b'3' ∷ []

dispatch_keyed : dispatch counter no_float key_up 4 ≡ (5, rprt_ok)
unfolding dispatch dispatch_words set_ptt words split_words space_len
dispatch_keyed = refl

dispatch_frequency :
    dispatch counter no_float (b'f' ∷ []) 4
    ≡ (4, b'1' ∷ b'4' ∷ b'0' ∷ b'7' ∷ b'4' ∷ b'0' ∷ b'0' ∷ b'0' ∷ b'\n' ∷ [])
unfolding dispatch dispatch_words other_command words split_words space_len
dispatch_frequency = refl

dispatch_rit : dispatch counter no_float (b'j' ∷ []) 4 ≡ (4, b'-' ∷ b'1' ∷ b'0' ∷ b'\n' ∷ [])
unfolding dispatch dispatch_words other_command words split_words space_len
dispatch_rit = refl

dispatch_split :
    dispatch counter no_float (b'S' ∷ b' ' ∷ b'+' ∷ b'1' ∷ b' ' ∷ b'V' ∷ []) 4 ≡ (4, rprt_ok)
unfolding dispatch dispatch_words other_command set_split_flag words split_words space_len parse_u8
dispatch_split = refl

-- A no-break space, and one that is three bytes.
words_unicode :
    words [] (b'f' ∷ 0xC2 ∷ 0xA0 ∷ b'1' ∷ 0xE2 ∷ 0x80 ∷ 0x83 ∷ b'2' ∷ [])
    ≡ (b'f' ∷ []) ∷ (b'1' ∷ []) ∷ (b'2' ∷ []) ∷ []
unfolding words split_words space_len
words_unicode = refl

dispatch_transmit_example :
    dispatch (record counter { transmit = λ r. (r, false) }) no_float key_up 4
    ≡ (if keys_words (words [] key_up) then (4, rprt_err) else dispatch counter no_float key_up 4)
dispatch_transmit_example = dispatch_transmit counter no_float key_up 4 (λ r. (r, false))

dispatch-gate_example : dispatch (gate true counter) no_float key_up 4 ≡ (
    if keys_words (words [] key_up) && true
    then (4, rprt_err)
    else dispatch counter no_float key_up 4)
dispatch-gate_example = dispatch-gate counter no_float key_up 4 true

abbrev answer : RadioState ℕ
answer = record {
  vfo_a_hz = 14074000;
  vfo_b_hz = 7074000;
  mode = usb;
  split = false;
  transmitting = false;
  memory_channel = none;
  if_shift_hz = none;
  filter_width_hz = none;
  meters = [];
  levels = none;
  cw = none;
}

-- A poll that a set overtook, one that was answered, and a command of a console, the latest event first.
abbrev polled : List (Event (RadioState ℕ))
polled =
    applied (retune 7000000)
    ∷ poll_answered (some answer) none
    ∷ poll_begins 900
    ∷ poll_ends none
    ∷ patched (λ s. s)
    ∷ poll_begins 100
    ∷ []

measured_state_lem_example : (t : ℕ) × (1000 - t ≤ 600) × Measured polled answer t
unfolding measured_state replay happen end_poll publish_state patch_state
measured_state_lem_example = measured_state_lem polled 600 1000 (omega arith) refl

abbrev remembering : Cached ℕ ℕ
remembering = record { inner = 4; shared = replay polled new_bridge; now = 1000; meanwhile = [] }

abbrev no_mode : ModeId → Option ℕ
no_mode mode = none

set_vfo_a_hz_lem_example :
    ((cached no_mode counter).set_vfo_a_hz 14074000 remembering
      ≡ set_and_patch
          (counter.set_vfo_a_hz 14074000)
          (λ s. record s { vfo_a_hz = 14074000 })
          remembering)
    ⊎ (((cached no_mode counter).set_vfo_a_hz 14074000 remembering ≡ (remembering, true))
        × ((s : RadioState ℕ) × (t : ℕ) × (s.vfo_a_hz ≡ 14074000)
            × (1000 - t ≤ fresh_enough_to_skip)
            × Measured polled s t))
set_vfo_a_hz_lem_example =
    set_vfo_a_hz_lem no_mode counter 14074000 remembering polled refl (omega arith)
