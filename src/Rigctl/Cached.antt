-- ===== src/Rigctl/Cached.antt =====
-- cat-rigctl/src/cached.rs: a radio that answers reads from the server's cache. While a call waits for
-- the radio, the pump and other clients go on: `meanwhile` is what they do to the cache. A time is a
-- number of milliseconds.
pub mod Reads
use radio_cat_rs.Base.{ℕ, Bool, true, false, List, [], ◌==◌, if◌then◌else◌, Option, none, some}
use radio_cat_rs.Rigctl.Dispatch.{RigctlRadio}
use radio_cat_rs.Framework.Capabilities.{ModeId}
use radio_cat_rs.Native.{RadioState}
use radio_cat_rs.Rigctl.Shared.{
  Event, patched, Bridge, happen, replay, recent_state, measured_state,
}

abbrev pub fresh_enough_to_skip : ℕ
fresh_enough_to_skip = 600

abbrev pub max_read_age : ℕ
max_read_age = 12000

-- A `Cached` radio at a time, with the cache that it shares.
pub record Cached (R Whole : Type 0) : Type 0 where
  pub inner : R
  pub shared : Bridge (RadioState Whole)
  pub now : ℕ
  pub meanwhile : List (Event (RadioState Whole))

abbrev pub holds_vfo : {Whole : Type 0} → ℕ → Option (RadioState Whole) → Bool
holds_vfo hz none = false
holds_vfo hz (some s) = s.vfo_a_hz == hz

module _ {R Whole : Type 0} where
  -- `self.inner.….await`.
  abbrev pub ask : {A : Type 0} → (R → R × A) → Cached R Whole → Cached R Whole × A
  ask call c =
      let (inner, answer) = call c.inner in
      (record c { inner = inner; shared = replay c.meanwhile c.shared; meanwhile = [] }, answer)

  -- `self.inner.….await?; self.shared.patch_state(…)`.
  unfoldable pub set_and_patch :
      (R → R × Bool)
      → (RadioState Whole → RadioState Whole)
      → Cached R Whole
      → Cached R Whole × Bool
  set_and_patch call change c =
      let (asked, succeeded) = ask call c in
      if succeeded
      then (record asked { shared = happen (patched change) asked.shared }, true)
      else (asked, false)

  -- The state that a read is answered from, and the one that a set is skipped for.
  abbrev pub recent : Cached R Whole → Option (RadioState Whole)
  recent c = recent_state max_read_age c.now c.shared.cache

  abbrev pub fresh : Cached R Whole → Option (RadioState Whole)
  fresh c = measured_state fresh_enough_to_skip c.now c.shared.cache

  -- A read from the cache, or else from the radio.
  abbrev pub read_or_ask :
      {A : Type 0}
      → (RadioState Whole → A)
      → (R → R × Option A)
      → Cached R Whole
      → Cached R Whole × Option A
  read_or_ask field call c = elim (recent c) [ some s ↦ (c, some (field s)) | none ↦ ask call c ]

  module _ {Mode : Type 0} (mode_from_id : ModeId → Option Mode) (radio : RigctlRadio R Mode) where
    unfoldable pub set_vfo_a_hz : ℕ → Cached R Whole → Cached R Whole × Bool
    set_vfo_a_hz hz c =
        if holds_vfo hz (fresh c)
        then (c, true)
        else set_and_patch (radio.set_vfo_a_hz hz) (λ s. record s { vfo_a_hz = hz }) c

    abbrev pub known_mode : Option (RadioState Whole) → Option Mode
    known_mode none = none
    known_mode (some s) = mode_from_id s.mode

    unfoldable pub get_mode : Cached R Whole → Cached R Whole × Option Mode
    get_mode c = elim (known_mode (measured_state max_read_age c.now c.shared.cache)) [
      | some mode ↦ (c, some mode)
      | none ↦ ask radio.get_mode c
    ]

    -- The `RigctlRadio` that `Cached` is.
    unfoldable pub cached : RigctlRadio (Cached R Whole) Mode
    cached = record {
      get_vfo_a_hz = read_or_ask (λ s. s.vfo_a_hz) radio.get_vfo_a_hz;
      set_vfo_a_hz = set_vfo_a_hz;
      get_mode = get_mode;
      set_mode = λ mode. set_and_patch (radio.set_mode mode) (λ s. s);
      get_split = read_or_ask (λ s. s.split) radio.get_split;
      set_split = λ on. set_and_patch (radio.set_split on) (λ s. record s { split = on });
      get_rit_hz = ask radio.get_rit_hz;
      get_xit_hz = ask radio.get_xit_hz;
      get_transmitting = ask radio.get_transmitting;
      transmit = set_and_patch radio.transmit (λ s. record s { transmitting = true });
      receive = set_and_patch radio.receive (λ s. record s { transmitting = false });
      hamlib_mode_name = radio.hamlib_mode_name;
      hamlib_mode_from_name = radio.hamlib_mode_from_name;
      dump_state = radio.dump_state;
    }
