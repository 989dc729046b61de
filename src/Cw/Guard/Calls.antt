-- ===== src/Cw/Guard/Calls.antt =====
-- Every call keeps the supervisor well formed; what that means for the transmitter.
use radio_cat_rs.Base.{
  ℕ, Bool, true, false, ◌≡◌, refl, Option, none, some, List, [], ◌∷◌, any, inl, inr, Option-cases,
  map, arith,
}
use radio_cat_rs.Cw.Text.{Text, to_ascii_uppercase, split_whitespace}
use radio_cat_rs.Cw.Capability.{CwSendText, CwCapability, TxGateCapability}
use radio_cat_rs.Cw.State.{
  CwSupervisor, CwConfig, Activity, Arm, After, StopReason, DisarmReason, Message, ErrorCode, new,
}
use radio_cat_rs.Cw.Requests.{
  ticket, arm_steps, arm, send_words, send, abort, disarm, detached, shutdown,
}
use radio_cat_rs.Cw.Driving.{next_action}
use radio_cat_rs.Cw.Queries.{take_notices}
use radio_cat_rs.Cw.Calls.{Call, after_send, apply, run, reached}
use radio_cat_rs.Cw.Guard.{
  is_send, armed, runs_job, well_formed, begin_stop_wf, end_arm_wf, refuse_arm_wf,
}
use radio_cat_rs.Cw.Guard.Answers.{complete_wf}
use radio_cat_rs.Cw.Guard.Rounds.{keys, next_action_wf}

any_send-arm_steps :
    (sender : CwSendText) (gate : TxGateCapability) → any is_send (arm_steps sender gate) ≡ false
unfolding arm_steps
any_send-arm_steps sender gate = ground arith

arm_wf :
    (checked : Bool) (owner : ℕ) (callsign : Text) (asked : Option ℕ) (s : CwSupervisor)
    → well_formed checked s ≡ true
    → well_formed checked (arm owner callsign asked s).0 ≡ true
unfolding arm ticket
arm_wf checked owner callsign asked s wf = elim (Option-cases s.send_text) [
  | inl no_keyer ↦ ground arith
  | inr (sender, keyer) ↦ elim (Option-cases s.gate) [
    | inl no_gate ↦ ground arith
    | inr (gate, gated) ↦ ground (arith, any_send-arm_steps sender gate)
  ]
]

send_words_wf :
    (checked : Bool) (estimate : Text → ℕ → ℕ) (a : Arm) (sender : CwSendText) (words : List Text)
    (now : ℕ) (s : CwSupervisor)
    → well_formed checked s ≡ true
    → s.activity ≡ Activity.idle
    → s.arm ≡ some a
    → let (s', sent) = send_words estimate a sender words now s in
      well_formed (after_send sent checked) s' ≡ true
unfolding send_words
send_words_wf checked estimate a sender [] now s wf idle held = wf
send_words_wf checked estimate a sender (word ∷ words) now s wf idle held = ground arith

send_wf :
    (checked : Bool) (estimate : Text → ℕ → ℕ) (owner : ℕ) (text : Text) (now : ℕ)
    (s : CwSupervisor)
    → well_formed checked s ≡ true
    → let (s', sent) = send estimate owner text now s in
      well_formed (after_send sent checked) s' ≡ true
unfolding send
send_wf checked estimate owner text now s wf = elim (Option-cases s.send_text) [
  | inl no_keyer ↦ ground arith
  | inr (sender, keyer) ↦ elim (Option-cases s.arm) [
    | inl unarmed ↦ ground arith
    | inr (a, held) ↦ ground (
      arith,
      send_words_wf checked estimate a sender (map (map to_ascii_uppercase) (split_whitespace text))
          now s wf,
    )
  ]
]

abort_wf :
    (checked : Bool) (s : CwSupervisor)
    → well_formed checked s ≡ true
    → well_formed checked (abort s) ≡ true
unfolding abort
abort_wf checked s wf =
    ground (arith, begin_stop_wf checked StopReason.aborted none After.stay_armed s)

disarm_wf :
    (checked : Bool) (owner : ℕ) (s : CwSupervisor)
    → well_formed checked s ≡ true
    → well_formed checked (disarm owner s).0 ≡ true
unfolding disarm ticket
disarm_wf checked owner s wf = ground (
  arith,
  end_arm_wf checked DisarmReason.requested StopReason.aborted (some (ticket s).1) (ticket s).0,
)

detached_wf :
    (checked : Bool) (console : ℕ) (s : CwSupervisor)
    → well_formed checked s ≡ true
    → well_formed checked (detached console s) ≡ true
unfolding detached
detached_wf checked console s wf = ground (
  arith,
  refuse_arm_wf checked ErrorCode.forbidden Message.hung_up s,
  end_arm_wf checked DisarmReason.disconnected StopReason.disconnected none s,
)

shutdown_wf :
    (checked : Bool) (s : CwSupervisor)
    → well_formed checked s ≡ true
    → well_formed checked (shutdown s) ≡ true
unfolding shutdown
shutdown_wf checked s wf =
    let stopping = record s { shutting_down = true } in
    ground (
      arith,
      refuse_arm_wf checked ErrorCode.forbidden Message.server_stopping stopping,
      end_arm_wf checked DisarmReason.shutdown StopReason.aborted none stopping,
    )

pub apply_wf :
    (estimate : Text → ℕ → ℕ) (call : Call) (now : ℕ) (checked : Bool) (s : CwSupervisor)
    → well_formed checked s ≡ true
    → let (checked', s') = apply estimate call now (checked, s) in well_formed checked' s' ≡ true
unfolding apply take_notices
apply_wf estimate (Call.arm owner callsign asked) now checked s wf =
    arm_wf checked owner callsign asked s wf
apply_wf estimate (Call.send owner text) now checked s wf =
    send_wf checked estimate owner text now s wf
apply_wf estimate Call.abort now checked s wf = abort_wf checked s wf
apply_wf estimate (Call.disarm owner) now checked s wf = disarm_wf checked owner s wf
apply_wf estimate (Call.detached console) now checked s wf = detached_wf checked console s wf
apply_wf estimate Call.shutdown now checked s wf = shutdown_wf checked s wf
apply_wf estimate Call.next_action now checked s wf = (next_action_wf checked now s wf).0
apply_wf estimate (Call.complete outcome) now checked s wf =
    complete_wf checked estimate outcome now s wf
apply_wf estimate Call.take_notices now checked s wf = wf

pub run_wf :
    (estimate : Text → ℕ → ℕ) (calls : List (ℕ × Call)) (checked : Bool) (s : CwSupervisor)
    → well_formed checked s ≡ true
    → let (checked', s') = run estimate calls (checked, s) in well_formed checked' s' ≡ true
unfolding run
run_wf estimate [] checked s wf = wf
run_wf estimate ((now, call) ∷ calls) checked s wf =
    let (checked', s') = apply estimate call now (checked, s) in
    run_wf estimate calls checked' s' (apply_wf estimate call now checked s wf)

-- Whatever calls came, in whatever order: when the next action hands text to the keyer, a console
-- holds the arm, a job runs, and since that job was queued the radio, asked for its power, has
-- answered at most the clamp.
pub next_action-reached :
    (estimate : Text → ℕ → ℕ) (capability : CwCapability) (config : CwConfig)
    (calls : List (ℕ × Call)) (now : ℕ)
    → keys (next_action now (reached estimate capability config calls).1).1 ≡ true
    → let (checked, s) = reached estimate capability config calls in
      let s' = (next_action now s).0 in
      (armed s' ≡ true) × (runs_job s'.activity ≡ true) × (checked ≡ true)
next_action-reached estimate capability config calls now keyed =
    let (checked, s) = reached estimate capability config calls in
    let wf = run_wf estimate calls false (new capability config) refl in
    let (kept, allowed) = next_action_wf checked now s wf in
    (ground (arith, allowed, keyed), ground (arith, allowed, keyed), ground (arith, allowed, keyed))
