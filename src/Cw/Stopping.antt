-- ===== src/Cw/Stopping.antt =====
-- How a send is stopped and an arm ends: `begin_stop`, `start_restore` and what stands between.
use radio_cat_rs.Base.{
  ℕ, Bool, true, false, not, ◌+◌, ◌%◌, ◌^◌, ◌&&◌, ◌||◌, Option, none, some, List, [], ◌∷◌, ◌++◌,
  if◌then◌else◌, Result, err,
}
use radio_cat_rs.Cw.State.{
  CwSupervisor, Activity, Step, Snapshot, no_snapshot, After, DisarmReason, StopReason, ErrorCode,
  Message, CwNotice, HostRefusal, refusal, Job,
}

unfoldable pub notify : CwNotice → CwSupervisor → CwSupervisor
notify notice s = record s { notices = s.notices ++ (notice ∷ []) }

abbrev pub reply : ℕ → Result HostRefusal (Unit {0}) → CwSupervisor → CwSupervisor
reply ticket result s = notify (CwNotice.reply ticket result) s

abbrev pub power_steps : Snapshot → List Step
power_steps snap =
    if snap.power_changed
    then (elim snap.power [ none ↦ [] | some p ↦ Step.set_power p ∷ Step.verify_power p ∷ [] ])
    else []

abbrev pub break_in_steps : Snapshot → List Step
break_in_steps snap =
    if snap.break_in_changed
    then (elim snap.break_in [
      | none ↦ []
      | some k ↦ Step.set_break_in k ∷ Step.verify_break_in k ∷ []
    ])
    else []

unfoldable pub plan_restore : CwSupervisor → CwSupervisor
plan_restore s = record s {
  plan = Step.wait_keyed s.config.pacing_margin ∷ (power_steps s.snap ++ break_in_steps s.snap);
}

-- The ID that is owed is reported when an arm ends.
abbrev pub owed_notice : CwSupervisor → DisarmReason → List CwNotice
owed_notice s reason = elim s.arm [
  | none ↦ []
  | some a ↦ elim s.id_owed [ none ↦ [] | some callsign ↦ CwNotice.id_owed callsign reason ∷ [] ]
]

unfoldable pub start_restore : DisarmReason → Option ℕ → CwSupervisor → CwSupervisor
start_restore reason ticket s = plan_restore (record s {
  notices = s.notices ++ owed_notice s reason;
  arm = none;
  ready_retry_at = none;
  activity = Activity.restoring reason ticket 0 none none;
})

-- An ID that the job owed and did not finish leads the next send; it is owed if text was keyed.
unfoldable pub owe_id : Job → CwSupervisor → CwSupervisor
owe_id job s =
    if job.has_id && not job.id_sent
    then (elim s.arm [
      | none ↦ s
      | some a ↦
          let keyed =
            job.chunk_in_radio || elim s.outstanding [ some (Step.send c) ↦ true | _ ↦ false ] in
          record s {
            arm = some (record a { id_first = true });
            id_owed = (if keyed then some a.callsign else s.id_owed);
          }
    ])
    else s

unfoldable pub begin_stop : StopReason → Option Message → After → CwSupervisor → CwSupervisor
begin_stop reason message next s = elim s.activity [
  | Activity.sending job ↦ record (owe_id job s) {
    plan = Step.stop ∷ Step.wait_keyed s.config.pacing_margin ∷ [];
    ready_retry_at = none;
    activity = Activity.stopping job.id reason message next;
  }
  | _ ↦ elim next [ After.restore why ticket ↦ start_restore why ticket s | After.stay_armed ↦ s ]
]

abbrev pub or_ticket : After → DisarmReason → Option ℕ → After
or_ticket After.stay_armed reason ticket = After.restore reason ticket
or_ticket (After.restore why none) reason ticket = After.restore why ticket
or_ticket (After.restore why (some t)) reason ticket = After.restore why (some t)

unfoldable pub end_arm : DisarmReason → StopReason → Option ℕ → CwSupervisor → CwSupervisor
end_arm reason why ticket s = elim s.activity [
  | Activity.sending job ↦ begin_stop why none (After.restore reason ticket) s
  | Activity.stopping job because message next ↦ record s {
    activity = Activity.stopping job because message (or_ticket next reason ticket);
  }
  | Activity.idle ↦ start_restore reason ticket s
  | Activity.arming _ _ _ _ _ ↦ s
  | Activity.restoring _ _ _ _ _ ↦ s
]

abbrev pub changed : CwSupervisor → Bool
changed s = s.snap.power_changed || s.snap.break_in_changed

abbrev pub refuse_reply : ErrorCode → Message → CwSupervisor → CwSupervisor
refuse_reply code message s = elim s.activity [
  | Activity.arming ticket _ _ _ _ ↦ reply ticket (err (refusal code message)) s
  | _ ↦ s
]

unfoldable pub refuse_arm : ErrorCode → Message → CwSupervisor → CwSupervisor
refuse_arm code message s =
    let cleared = record (refuse_reply code message s) { plan = []; activity = Activity.idle } in
    if changed cleared
    then start_restore DisarmReason.arm_failed none cleared
    else record cleared { snap = no_snapshot }

abbrev pub reply_if : Option ℕ → Result HostRefusal (Unit {0}) → CwSupervisor → CwSupervisor
reply_if none result s = s
reply_if (some ticket) result s = reply ticket result s

unfoldable pub fail : Message → ℕ → CwSupervisor → CwSupervisor
fail error now s = elim s.activity [
  | Activity.idle ↦ s
  | Activity.arming _ _ _ _ _ ↦ refuse_arm ErrorCode.out_of_range error s
  | Activity.sending job ↦ begin_stop StopReason.error (some error) After.stay_armed s
  | Activity.stopping _ _ _ _ ↦ record s {
    plan = Step.wait_keyed s.config.pacing_margin ∷ [];
    ready_retry_at = none;
  }
  | Activity.restoring reason ticket attempts last_error retry_at ↦
      let attempts' = (attempts + 1) % 2 ^ 32 in
      reply_if ticket (err (refusal ErrorCode.out_of_range (Message.restore_failed error))) (
        notify (CwNotice.restore_failed attempts' error) (record s {
          activity =
              Activity.restoring reason none attempts' (some error)
                (some (now + s.config.restore_retry));
          plan = [];
        }))
]
