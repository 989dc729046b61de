-- ===== src/Cw/Guard.antt =====
-- What holds of the supervisor between any two calls, and how what stops a send keeps it.
pub mod Plans
pub mod Answers
pub mod Rounds
pub mod Calls
pub mod Changes
pub mod Reports
pub mod Written
use radio_cat_rs.Base.{
  ℕ, Bool, true, false, not, ◌&&◌, ◌||◌, ◌≡◌, refl, ap, Option, none, some, List, [], ◌∷◌, ◌++◌,
  ◌==◌, any, if◌then◌else◌, leb, ◌⊎◌, inl, inr, is_empty, Bool-cases, arith,
}
use radio_cat_rs.Cw.Text.{Text}
use radio_cat_rs.Cw.Capability.{is_missing}
use radio_cat_rs.Cw.State.{
  CwSupervisor, CwAction, CwOutcome, Activity, Job, Step, After, StopReason, DisarmReason, Message,
  ErrorCode, Snapshot, no_snapshot,
}
use radio_cat_rs.Cw.Stopping.{
  notify, plan_restore, start_restore, begin_stop, end_arm, refuse_arm, fail, owe_id, changed,
  power_steps, break_in_steps, refuse_reply, reply, reply_if,
}
use radio_cat_rs.Cw.Requests.{clamp_of}

abbrev pub is_send : Step → Bool
is_send (Step.send chunk) = true
is_send _ = false

-- A write to the radio.
abbrev pub is_set : Step → Bool
is_set (Step.set_power raw) = true
is_set (Step.set_break_in kind) = true
is_set _ = false

-- A job's plan that has not passed its check of the power: the check comes before all but the
-- reading of the status.
abbrev pub guarded : ℕ → List Step → Bool
guarded clamp [] = false
guarded clamp (step ∷ plan) = elim step [
  | Step.status ↦ guarded clamp plan
  | Step.power_at_most most ↦ most == clamp
  | _ ↦ false
]

-- The same, with the step that the radio has been asked for.
abbrev pub unsent : ℕ → Option Step → List Step → Bool
unsent clamp none plan = guarded clamp plan
unsent clamp (some step) plan = guarded clamp (step ∷ plan)

abbrev pub armed : CwSupervisor → Bool
armed s = not (is_missing s.arm)

abbrev pub fits_activity : Bool → CwSupervisor → Activity → Bool
fits_activity checked s Activity.idle =
    not (any is_set s.plan)
    && (not (any is_send s.plan)
        && ((not (changed s) || armed s)
            && (not (armed s) || (is_missing s.outstanding && is_empty s.plan))))
fits_activity checked s (Activity.arming _ _ _ _ _) = not (any is_send s.plan) && not (armed s)
fits_activity checked s (Activity.sending _) =
    not (any is_set s.plan) && (armed s && (checked || unsent (clamp_of s) s.outstanding s.plan))
fits_activity checked s (Activity.stopping _ _ _ _) =
    not (any is_set s.plan) && (not (any is_send s.plan) && armed s)
fits_activity checked s (Activity.restoring _ _ _ _ _) = not (any is_send s.plan) && not (armed s)

abbrev pub well_formed : Bool → CwSupervisor → Bool
well_formed checked s = fits_activity checked s s.activity

pub power_steps_quiet :
    (snap : Snapshot) → any is_send (power_steps snap ++ break_in_steps snap) ≡ false
power_steps_quiet snap = ground arith

pub start_restore_wf :
    (checked : Bool) (reason : DisarmReason) (ticket : Option ℕ) (s : CwSupervisor)
    → well_formed checked (start_restore reason ticket s) ≡ true
unfolding start_restore plan_restore
start_restore_wf checked reason ticket s = ground (arith, power_steps_quiet s.snap)

pub begin_stop_wf :
    (checked : Bool) (reason : StopReason) (message : Option Message) (next : After)
    (s : CwSupervisor)
    → well_formed true s ≡ true
    → well_formed checked (begin_stop reason message next s) ≡ true
unfolding begin_stop owe_id
begin_stop_wf checked reason message After.stay_armed s wf = ground arith
begin_stop_wf checked reason message (After.restore why ticket) s wf =
    ground (arith, start_restore_wf checked why ticket s)

pub end_arm_wf :
    (checked : Bool) (reason : DisarmReason) (why : StopReason) (ticket : Option ℕ)
    (s : CwSupervisor)
    → well_formed true s ≡ true
    → well_formed checked (end_arm reason why ticket s) ≡ true
unfolding end_arm
end_arm_wf checked reason why ticket s wf = ground (
  arith,
  start_restore_wf checked reason ticket s,
  begin_stop_wf checked why none (After.restore reason ticket) s wf,
)

pub refuse_arm_wf :
    (checked : Bool) (code : ErrorCode) (message : Message) (s : CwSupervisor)
    → armed s ≡ false
    → well_formed checked (refuse_arm code message s) ≡ true
unfolding refuse_arm notify
refuse_arm_wf checked code message s unarmed =
    let cleared = record (refuse_reply code message s) { plan = []; activity = Activity.idle } in
    ground (arith, start_restore_wf checked DisarmReason.arm_failed none cleared)

pub fail_wf :
    (checked : Bool) (error : Message) (now : ℕ) (s : CwSupervisor)
    → well_formed true s ≡ true
    → well_formed checked (fail error now s) ≡ true
unfolding fail notify
fail_wf checked error now s wf = ground (
  arith,
  refuse_arm_wf checked ErrorCode.out_of_range error s,
  begin_stop_wf checked StopReason.error (some error) After.stay_armed s wf,
)

-- Does a job run?
abbrev pub runs_job : Activity → Bool
runs_job (Activity.sending job) = true
runs_job _ = false

Activity-cases : (a : Activity) → ((job : Job) × (a ≡ Activity.sending job)) ⊎ (runs_job a ≡ false)
Activity-cases (Activity.sending job) = inl (job, refl)
Activity-cases Activity.idle = inr refl
Activity-cases (Activity.arming _ _ _ _ _) = inr refl
Activity-cases (Activity.stopping _ _ _ _) = inr refl
Activity-cases (Activity.restoring _ _ _ _ _) = inr refl

pub is_sending :
    (s : CwSupervisor)
    → ((job : Job) × (s.activity ≡ Activity.sending job)) ⊎ (runs_job s.activity ≡ false)
is_sending s = Activity-cases s.activity
