-- ===== src/Cw/Guard/Changes.antt =====
-- But for the next action, no call forgets that a setting of the radio was changed.
use radio_cat_rs.Base.{
  ℕ, Bool, true, false, ◌≡◌, refl, ◌∙◌, Option, none, some, List, [], ◌∷◌, map, inl, inr,
  Option-cases, arith,
}
use radio_cat_rs.Cw.Text.{Text, to_ascii_uppercase, split_whitespace}
use radio_cat_rs.Cw.Capability.{CwSendText}
use radio_cat_rs.Cw.State.{
  CwSupervisor, CwOutcome, Arm, Chunk, Step, After, StopReason, DisarmReason, Message, ErrorCode,
}
use radio_cat_rs.Cw.Stopping.{
  notify, plan_restore, start_restore, begin_stop, end_arm, refuse_arm, fail, owe_id, changed,
}
use radio_cat_rs.Cw.Planning.{
  on_status, on_speed, on_sent, replan, replace_plan, plan_chunks, set_watchdog, known_wpm, set_wpm,
}
use radio_cat_rs.Cw.Requests.{ticket, arm, send_words, send, abort, disarm, detached, shutdown}
use radio_cat_rs.Cw.Driving.{answer, complete}
use radio_cat_rs.Cw.Guard.{well_formed}

changed-start_restore :
    (reason : DisarmReason) (ticket : Option ℕ) (s : CwSupervisor)
    → changed (start_restore reason ticket s) ≡ changed s
unfolding start_restore plan_restore
changed-start_restore reason ticket s = refl

changed-begin_stop :
    (reason : StopReason) (message : Option Message) (next : After) (s : CwSupervisor)
    → changed (begin_stop reason message next s) ≡ changed s
unfolding begin_stop owe_id
changed-begin_stop reason message After.stay_armed s = ground arith
changed-begin_stop reason message (After.restore why ticket) s =
    ground (arith, changed-start_restore why ticket s)

changed-end_arm :
    (reason : DisarmReason) (why : StopReason) (ticket : Option ℕ) (s : CwSupervisor)
    → changed (end_arm reason why ticket s) ≡ changed s
unfolding end_arm
changed-end_arm reason why ticket s = ground (
  arith,
  changed-start_restore reason ticket s,
  changed-begin_stop why none (After.restore reason ticket) s,
)

changed-refuse_arm :
    (code : ErrorCode) (message : Message) (s : CwSupervisor)
    → changed s ≡ true
    → changed (refuse_arm code message s) ≡ true
unfolding refuse_arm notify start_restore plan_restore
changed-refuse_arm code message s h = ground (arith, h)

changed-fail :
    (error : Message) (now : ℕ) (s : CwSupervisor)
    → changed s ≡ true
    → changed (fail error now s) ≡ true
unfolding fail notify
changed-fail error now s h = ground (
  arith,
  h,
  changed-refuse_arm ErrorCode.out_of_range error s h,
  changed-begin_stop StopReason.error (some error) After.stay_armed s,
)

module _ (estimate : Text → ℕ → ℕ) where
  changed-on_status :
      (cw_mode transmitting : Bool) (wpm : Option ℕ) (s : CwSupervisor)
      → changed s ≡ true
      → changed (on_status estimate cw_mode transmitting wpm s) ≡ true
  unfolding on_status plan_chunks set_watchdog begin_stop owe_id
  changed-on_status cw_mode transmitting wpm s h = ground (
    arith,
    h,
    changed-refuse_arm ErrorCode.forbidden Message.not_in_cw_mode s h,
    changed-refuse_arm ErrorCode.forbidden Message.is_transmitting s h,
  )

  changed-replan :
      (wpm now : ℕ) (s : CwSupervisor)
      → changed s ≡ true
      → changed (replan estimate wpm now s) ≡ true
  unfolding replan replace_plan begin_stop owe_id
  changed-replan wpm now s h = ground (arith, h)

  changed-on_speed :
      (cw_mode : Bool) (reported : Option ℕ) (now : ℕ) (s : CwSupervisor)
      → changed s ≡ true
      → changed (on_speed estimate cw_mode reported now s) ≡ true
  unfolding on_speed
  changed-on_speed cw_mode reported now s h =
      let wpm = known_wpm s reported in
      ground (
        arith,
        h,
        changed-begin_stop StopReason.error (some Message.left_cw_mode) After.stay_armed s,
        changed-replan wpm now (set_wpm wpm s) (ground (arith, h)),
      )

  changed-on_sent :
      (chunk : Chunk) (now : ℕ) (s : CwSupervisor)
      → changed (on_sent estimate chunk now s) ≡ changed s
  unfolding on_sent
  changed-on_sent chunk now s = ground arith

  changed-answer :
      (asked : Step) (outcome : CwOutcome) (now : ℕ) (s : CwSupervisor)
      → changed s ≡ true
      → changed (answer estimate asked outcome now s) ≡ true
  unfolding answer
  changed-answer asked (CwOutcome.failed error) now s h =
      changed-fail (Message.from_radio error) now s h
  changed-answer Step.status (CwOutcome.status cw_mode transmitting wpm) now s h =
      changed-on_status cw_mode transmitting wpm s h
  changed-answer Step.check_speed (CwOutcome.status cw_mode transmitting wpm) now s h =
      changed-on_speed cw_mode wpm now s h
  changed-answer Step.snap_power (CwOutcome.power p) now s h = h
  changed-answer (Step.verify_power wanted) (CwOutcome.power p) now s h =
      ground (arith, h, changed-fail (Message.power_read_back p wanted) now s h)
  changed-answer (Step.power_at_most most) (CwOutcome.power p) now s h = ground (
    arith,
    h,
    changed-begin_stop StopReason.error (some (Message.power_above p most))
        (After.restore DisarmReason.power_above_clamp none) s,
  )
  changed-answer Step.snap_break_in (CwOutcome.break_in k) now s h = ground (arith, h)
  changed-answer (Step.verify_break_in wanted) (CwOutcome.break_in k) now s h =
      ground (arith, h, changed-fail (Message.break_in_read_back k wanted) now s h)
  changed-answer Step.stop CwOutcome.done now s h = ground (arith, h)
  changed-answer (Step.set_power raw) CwOutcome.done now s h = h
  changed-answer (Step.set_break_in kind) CwOutcome.done now s h = h
  changed-answer Step.wait_ready (CwOutcome.is_ready true) now s h = h
  changed-answer Step.wait_ready (CwOutcome.is_ready false) now s h = h
  changed-answer (Step.send chunk) CwOutcome.done now s h = changed-on_sent chunk now s ∙ h
  changed-answer asked outcome now s h =
      changed-fail (Message.unexpected_answer outcome asked) now s h

  pub changed-complete :
      (outcome : CwOutcome) (now : ℕ) (s : CwSupervisor)
      → changed s ≡ true
      → changed (complete estimate outcome now s) ≡ true
  unfolding complete
  changed-complete outcome now s h = elim (Option-cases s.outstanding) [
    | inl nothing ↦ ground (arith, h)
    | inr (first, asked) ↦
        ground (arith, changed-answer first outcome now (record s { outstanding = none }) h)
  ]

  changed-send_words :
      (a : Arm) (sender : CwSendText) (words : List Text) (now : ℕ) (s : CwSupervisor)
      → changed s ≡ true
      → changed (send_words estimate a sender words now s).0 ≡ true
  unfolding send_words
  changed-send_words a sender [] now s h = h
  changed-send_words a sender (word ∷ words) now s h = ground (arith, h)

  pub changed-send :
      (owner : ℕ) (text : Text) (now : ℕ) (s : CwSupervisor)
      → changed s ≡ true
      → changed (send estimate owner text now s).0 ≡ true
  unfolding send
  changed-send owner text now s h = elim (Option-cases s.send_text) [
    | inl no_keyer ↦ ground (arith, h)
    | inr (sender, keyer) ↦ elim (Option-cases s.arm) [
      | inl unarmed ↦ ground (arith, h)
      | inr (a, held) ↦ ground (
        arith,
        h,
        changed-send_words a sender (map (map to_ascii_uppercase) (split_whitespace text)) now s h,
      )
    ]
  ]

pub changed-arm :
    (checked : Bool) (owner : ℕ) (callsign : Text) (asked : Option ℕ) (s : CwSupervisor)
    → well_formed checked s ≡ true
    → changed s ≡ true
    → changed (arm owner callsign asked s).0 ≡ true
unfolding arm ticket
changed-arm checked owner callsign asked s wf h = elim (Option-cases s.send_text) [
  | inl no_keyer ↦ ground (arith, h)
  | inr (sender, keyer) ↦ elim (Option-cases s.gate) [
    | inl no_gate ↦ ground (arith, h)
    | inr (gate, gated) ↦ ground (arith, h, wf)
  ]
]

pub changed-abort : (s : CwSupervisor) → changed (abort s) ≡ changed s
unfolding abort
changed-abort s = ground (arith, changed-begin_stop StopReason.aborted none After.stay_armed s)

pub changed-disarm : (owner : ℕ) (s : CwSupervisor) → changed (disarm owner s).0 ≡ changed s
unfolding disarm ticket
changed-disarm owner s = ground (
  arith,
  changed-end_arm DisarmReason.requested StopReason.aborted (some (ticket s).1) (ticket s).0,
)

pub changed-detached :
    (console : ℕ) (s : CwSupervisor) → changed s ≡ true → changed (detached console s) ≡ true
unfolding detached
changed-detached console s h = ground (
  arith,
  h,
  changed-refuse_arm ErrorCode.forbidden Message.hung_up s h,
  changed-end_arm DisarmReason.disconnected StopReason.disconnected none s,
)

pub changed-shutdown : (s : CwSupervisor) → changed s ≡ true → changed (shutdown s) ≡ true
unfolding shutdown
changed-shutdown s h =
    let stopping = record s { shutting_down = true } in
    ground (
      arith,
      h,
      changed-refuse_arm ErrorCode.forbidden Message.server_stopping stopping h,
      changed-end_arm DisarmReason.shutdown StopReason.aborted none stopping,
    )
