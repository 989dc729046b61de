-- ===== src/Cw/Driving.antt =====
-- How the pump drives the supervisor: the next action for the radio, and the radio's answer to it.
use radio_cat_rs.Base.{
  ℕ, zero, suc, Bool, true, false, not, ◌+◌, ◌-◌, Option, none, some, List, [], ◌∷◌, ◌==◌, ltb, leb,
  if◌then◌else◌, ok,
}
use radio_cat_rs.Cw.Text.{Text}
use radio_cat_rs.Cw.Capability.{BreakInKind, same_break_in, is_drain_only}
use radio_cat_rs.Cw.State.{
  CwSupervisor, CwAction, CwOutcome, Activity, Step, Snapshot, no_snapshot, StopReason,
  DisarmReason, Message, After, CwNotice, SenderState,
}
use radio_cat_rs.Cw.Stopping.{notify, reply_if, start_restore, plan_restore, begin_stop, fail}
use radio_cat_rs.Cw.Planning.{on_status, on_speed, on_sent}
use radio_cat_rs.Cw.Requests.{clamp_of}

abbrev pub action : Step → Option CwAction
action Step.status = some CwAction.read_status
action Step.check_speed = some CwAction.read_status
action Step.snap_power = some CwAction.read_power
action (Step.verify_power raw) = some CwAction.read_power
action (Step.power_at_most most) = some CwAction.read_power
action Step.snap_break_in = some CwAction.read_break_in
action (Step.verify_break_in kind) = some CwAction.read_break_in
action (Step.set_power raw) = some (CwAction.set_power raw)
action (Step.set_break_in kind) = some (CwAction.set_break_in kind)
action Step.wait_ready = some CwAction.ready
action (Step.send chunk) = some (CwAction.send_chunk chunk.text)
action Step.stop = some CwAction.stop
action (Step.wait_keyed margin) = none

abbrev pub end_job : ℕ → StopReason → Option Message → CwSupervisor → CwSupervisor
end_job job reason message s = record (notify (CwNotice.job_ended job reason message) s) {
  last_sender = SenderState.stopped job reason message;
}

abbrev pub touch : ℕ → CwSupervisor → CwSupervisor
touch now s = elim s.arm [
  | none ↦ s
  | some a ↦ record s { arm = some (record a { last_activity = now }) }
]

unfoldable pub check_timers : ℕ → CwSupervisor → CwSupervisor
check_timers now s = elim s.activity [
  | Activity.sending job ↦
      if leb job.deadline now
      then begin_stop StopReason.key_down_cap (some (Message.watchdog_stopped (now - job.started)))
          (After.restore DisarmReason.key_down_cap none) s
      else s
  | Activity.idle ↦ elim s.arm [
    | none ↦ s
    | some a ↦
        if leb s.config.idle_ttl (now - a.last_activity)
        then start_restore DisarmReason.idle_timeout none s
        else s
  ]
  | _ ↦ s
]

abbrev pub set_arm : ℕ → Text → ℕ → ℕ → ℕ → CwSupervisor → CwSupervisor
set_arm owner callsign cap wpm now s = record s {
  arm = some (record {
    owner = owner;
    callsign = callsign;
    cap = cap;
    power_raw = clamp_of s;
    wpm = wpm;
    last_activity = now;
    last_id = none;
    id_first = false;
  });
}

-- The plan has run out: the supervisor, and whether there may be more to do.
unfoldable pub finish : ℕ → CwSupervisor → CwSupervisor × Bool
finish now s =
    let s' = record s { activity = Activity.idle } in
    elim s.activity [
      | Activity.idle ↦ (s', false)
      | Activity.arming ticket owner callsign cap wpm ↦ (
        reply_if (some ticket) (ok tt) (
            set_arm owner callsign cap wpm now
              (notify (CwNotice.armed owner callsign (clamp_of s)) s')),
        false,
      )
      | Activity.sending job ↦ (touch now (end_job job.id StopReason.completed none s'), true)
      | Activity.stopping job reason message next ↦ elim next [
        | After.stay_armed ↦ (touch now (end_job job reason message s'), true)
        | After.restore why ticket ↦
            (start_restore why ticket (end_job job reason message s'), true)
      ]
      | Activity.restoring reason ticket attempts last_error retry_at ↦ elim retry_at [
        | some at ↦
            if leb at now
            then (
              plan_restore (record s {
                activity = Activity.restoring reason ticket attempts last_error none;
              }),
              true,
            )
            else (s, false)
        | none ↦ (
          reply_if ticket (ok tt)
              (notify (CwNotice.restored reason) (record s' { snap = no_snapshot; arm = none })),
          false,
        )
      ]
    ]

-- A write counts as a change from the moment it is issued.
abbrev pub mark_changed : Step → Snapshot → Snapshot
mark_changed (Step.set_power raw) snap = record snap { power_changed = true }
mark_changed (Step.set_break_in kind) snap = record snap { break_in_changed = true }
mark_changed _ snap = snap

unfoldable pub issue : Step → List Step → CwSupervisor → CwSupervisor × Option CwAction
issue asked plan s = (
  record s { plan = plan; outstanding = some asked; snap = mark_changed asked s.snap },
  action asked,
)

abbrev pub is_before : ℕ → Option ℕ → ℕ → Bool
is_before now none margin = false
is_before now (some t) margin = ltb now (t + margin)

-- One round of the loop of `next_action`: what it returns, if it returns.
unfoldable pub round : ℕ → CwSupervisor → CwSupervisor × Option (Option CwAction)
round now s = elim s.plan [
  | [] ↦ let (s', more) = finish now s in (s', if more then none else some none)
  | Step.wait_keyed margin ∷ plan ↦
      if is_before now s.keyed_until margin
      then (s, some none)
      else (record s { plan = plan }, none)
  | Step.wait_ready ∷ plan ↦ if is_before now s.ready_retry_at 0 then (s, some none) else (
    record s { plan = plan; outstanding = some Step.wait_ready; ready_retry_at = none },
    some (some CwAction.ready),
  )
  | asked ∷ plan ↦ let (s', a) = issue asked plan s in (s', some a)
]

unfoldable pub rounds : ℕ → ℕ → CwSupervisor → CwSupervisor × Option CwAction
rounds zero now s = (s, none)
rounds (suc n) now s =
    let (s', returned) = round now s in elim returned [ some a ↦ (s', a) | none ↦ rounds n now s' ]

unfoldable pub next_action : ℕ → CwSupervisor → CwSupervisor × Option CwAction
next_action now s = elim s.outstanding [
  | some asked ↦ (s, none)
  | none ↦ rounds 64 now (check_timers now s)
]

-- `plan.retain` once the break-in is known to be as needed.
abbrev pub is_break_in_step : Step → Bool
is_break_in_step (Step.set_break_in k) = true
is_break_in_step (Step.verify_break_in k) = true
is_break_in_step _ = false

unfoldable pub without_break_in : List Step → List Step
without_break_in [] = []
without_break_in (asked ∷ plan) =
    let rest = without_break_in plan in if is_break_in_step asked then rest else asked ∷ rest

abbrev pub needs_break_in : CwSupervisor → Option BreakInKind
needs_break_in s = elim s.send_text [ none ↦ none | some sender ↦ sender.requires_break_in ]

abbrev pub snap_break_in : BreakInKind → CwSupervisor → CwSupervisor
snap_break_in k s =
    let s' = record s { snap = record (s.snap) { break_in = some k } } in
    elim (needs_break_in s) [
      | none ↦ s'
      | some wanted ↦
          if same_break_in wanted k then record s' { plan = without_break_in s.plan } else s'
    ]

abbrev pub stops_at_once : CwSupervisor → Bool
stops_at_once s = elim s.send_text [
  | none ↦ false
  | some sender ↦ not (is_drain_only sender.on_abort)
]

module _ (estimate : Text → ℕ → ℕ) where
  -- The answer to a asked; the pairs that do not fit are failures.
  unfoldable pub answer : Step → CwOutcome → ℕ → CwSupervisor → CwSupervisor
  answer asked (CwOutcome.failed error) now s = fail (Message.from_radio error) now s
  answer Step.status (CwOutcome.status cw_mode transmitting wpm) now s =
      on_status estimate cw_mode transmitting wpm s
  answer Step.check_speed (CwOutcome.status cw_mode transmitting wpm) now s =
      on_speed estimate cw_mode wpm now s
  answer Step.snap_power (CwOutcome.power p) now s = record s {
    snap = record (s.snap) { power = some p };
  }
  answer (Step.verify_power wanted) (CwOutcome.power p) now s =
      if p == wanted then s else fail (Message.power_read_back p wanted) now s
  answer (Step.power_at_most most) (CwOutcome.power p) now s =
      if ltb most p
      then begin_stop StopReason.error (some (Message.power_above p most))
          (After.restore DisarmReason.power_above_clamp none) s
      else s
  answer Step.snap_break_in (CwOutcome.break_in k) now s = snap_break_in k s
  answer (Step.verify_break_in wanted) (CwOutcome.break_in k) now s =
      if same_break_in k wanted then s else fail (Message.break_in_read_back k wanted) now s
  answer Step.stop CwOutcome.done now s =
      if stops_at_once s then record s { keyed_until = none } else s
  answer (Step.set_power raw) CwOutcome.done now s = s
  answer (Step.set_break_in kind) CwOutcome.done now s = s
  answer Step.wait_ready (CwOutcome.is_ready true) now s = s
  answer Step.wait_ready (CwOutcome.is_ready false) now s = record s {
    plan = Step.wait_ready ∷ s.plan;
    ready_retry_at = some (now + s.config.tick);
  }
  answer (Step.send chunk) CwOutcome.done now s = on_sent estimate chunk now s
  answer asked outcome now s = fail (Message.unexpected_answer outcome asked) now s

  unfoldable pub complete : CwOutcome → ℕ → CwSupervisor → CwSupervisor
  complete outcome now s = elim s.outstanding [
    | none ↦ s
    | some asked ↦ answer asked outcome now (record s { outstanding = none })
  ]
