-- ===== src/Cw/Calls.antt =====
-- The supervisor's methods as calls, each at a time, and what a sequence of them leaves. Each call is
-- made under the lock around the supervisor, so that calls of the consoles' threads and of the
-- pump come in some order, also between an action and the radio's answer to it.
use radio_cat_rs.Base.{
  ℕ, Bool, true, false, ◌||◌, ◌&&◌, Option, none, some, List, [], ◌∷◌, Result, ok, err, leb,
}
use radio_cat_rs.Cw.Text.{Text}
use radio_cat_rs.Cw.Capability.{CwCapability}
use radio_cat_rs.Cw.State.{CwSupervisor, CwConfig, CwAction, CwOutcome, HostRefusal, new}
use radio_cat_rs.Cw.Requests
use radio_cat_rs.Cw.Driving
use radio_cat_rs.Cw.Queries

pub data Call : Type 0 where
  arm : (owner : ℕ) (callsign : Text) (key_down_cap_s : Option ℕ) → Call
  send : (owner : ℕ) (text : Text) → Call
  abort : Call
  disarm : (owner : ℕ) → Call
  detached : (console : ℕ) → Call
  shutdown : Call
  next_action : Call
  complete : (outcome : CwOutcome) → Call
  take_notices : Call

-- Has the radio been asked for its power?
abbrev pub reads_power : Option CwAction → Bool
reads_power (some CwAction.read_power) = true
reads_power _ = false

-- Whether the radio, asked for its power, has answered at most the clamp since the last text was
-- queued, once one more answer is in.
abbrev pub checked_after : CwOutcome → CwSupervisor → Bool → Bool
checked_after outcome s checked = elim s.outstanding [
  | none ↦ checked
  | some asked ↦ elim outcome [
    | CwOutcome.power p ↦
        checked || (reads_power (Driving.action asked) && leb p (Requests.clamp_of s))
    | _ ↦ checked
  ]
]

abbrev pub after_send : Result HostRefusal ℕ → Bool → Bool
after_send (ok job) checked = false
after_send (err e) checked = checked

module _ (estimate : Text → ℕ → ℕ) where
  unfoldable pub apply : Call → ℕ → Bool × CwSupervisor → Bool × CwSupervisor
  apply (Call.arm owner callsign asked) now (checked, s) =
      (checked, (Requests.arm owner callsign asked s).0)
  apply (Call.send owner text) now (checked, s) =
      let (s', sent) = Requests.send estimate owner text now s in (after_send sent checked, s')
  apply Call.abort now (checked, s) = (checked, Requests.abort s)
  apply (Call.disarm owner) now (checked, s) = (checked, (Requests.disarm owner s).0)
  apply (Call.detached console) now (checked, s) = (checked, Requests.detached console s)
  apply Call.shutdown now (checked, s) = (checked, Requests.shutdown s)
  apply Call.next_action now (checked, s) = (checked, (Driving.next_action now s).0)
  apply (Call.complete outcome) now (checked, s) =
      (checked_after outcome s checked, Driving.complete estimate outcome now s)
  apply Call.take_notices now (checked, s) = (checked, (Queries.take_notices s).0)

  unfoldable pub run : List (ℕ × Call) → Bool × CwSupervisor → Bool × CwSupervisor
  run [] state = state
  run ((now, call) ∷ calls) state = run calls (apply call now state)

  -- What the calls leave of a supervisor that was just made.
  abbrev pub reached : CwCapability → CwConfig → List (ℕ × Call) → Bool × CwSupervisor
  reached capability config calls = run calls (false, new capability config)
