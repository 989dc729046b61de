-- ===== src/Cw/Guard/Plans.antt =====
-- What the radio's status, its keyer speed and a chunk that it took do to the plan keeps the
-- supervisor well formed.
use radio_cat_rs.Base.{
  ℕ, Bool, true, false, not, ◌||◌, ◌≡◌, refl, Option, some, List, [], ◌∷◌, ◌++◌, any, ◌∙◌, inl, inr,
  ◌-◌, Option-cases, arith,
}
use radio_cat_rs.Cw.Text.{Text}
use radio_cat_rs.Cw.Capability.{CwSendText}
use radio_cat_rs.Cw.State.{
  CwSupervisor, Activity, Step, Chunk, After, StopReason, Message, ErrorCode, Job,
}
use radio_cat_rs.Cw.Planning.{
  chunk_steps, job_steps, cut_again, remaining, keying_time, paced, paced_first, plan_chunks,
  set_watchdog, set_wpm, replace_plan, replan, on_sent, on_status, on_speed, problem, known_wpm,
  cap_of,
}
use radio_cat_rs.Cw.Requests.{clamp_of}
use radio_cat_rs.Cw.Guard.{
  is_sending, runs_job, is_set, guarded, well_formed, begin_stop_wf, refuse_arm_wf,
}

any_set-append :
    (front back : List Step) → any is_set (front ++ back) ≡ (any is_set front || any is_set back)
any_set-append [] back = refl
any_set-append (first ∷ front) back = ground (arith, any_set-append front back)

guarded-append :
    (clamp : ℕ) (front back : List Step)
    → guarded clamp front ≡ true
    → guarded clamp (front ++ back) ≡ true
guarded-append clamp [] back h = cc
guarded-append clamp (Step.status ∷ front) back h = guarded-append clamp front back h
guarded-append clamp (first ∷ front) back h = ground (arith, guarded-append clamp front back)

any_set-chunk_steps :
    (sender : CwSendText) (pieces : List (Text × Bool))
    → any is_set (chunk_steps sender pieces) ≡ false
unfolding chunk_steps
any_set-chunk_steps sender [] = refl
any_set-chunk_steps sender (piece ∷ rest) = ground (arith, any_set-chunk_steps sender rest)

any_set-paced :
    (sender : CwSendText) (pieces : List Chunk) → any is_set (paced sender pieces) ≡ false
unfolding paced
any_set-paced sender [] = refl
any_set-paced sender (piece ∷ rest) = ground (arith, any_set-paced sender rest)

pub on_sent_wf :
    (checked : Bool) (estimate : Text → ℕ → ℕ) (chunk : Chunk) (now : ℕ) (s : CwSupervisor)
    → well_formed checked s ≡ true
    → well_formed checked (on_sent estimate chunk now s) ≡ true
unfolding on_sent
on_sent_wf checked estimate chunk now s wf = ground arith

set_wpm_wf :
    (checked : Bool) (wpm : ℕ) (s : CwSupervisor)
    → well_formed checked s ≡ true
    → well_formed checked (set_wpm wpm s) ≡ true
set_wpm_wf checked wpm s wf = ground arith

set_wpm_activity : (wpm : ℕ) (s : CwSupervisor) → (set_wpm wpm s).activity ≡ s.activity
set_wpm_activity wpm s = ground arith

-- Steps that write nothing may follow the plan of a job.
extend_wf :
    (checked : Bool) (more : List Step) (s : CwSupervisor) {job : Job}
    → any is_set more ≡ false
    → s.activity ≡ Activity.sending job
    → well_formed checked s ≡ true
    → well_formed checked (record s { plan = s.plan ++ more }) ≡ true
extend_wf checked more s quiet sends wf =
    ground (arith, any_set-append s.plan more, guarded-append (clamp_of s) s.plan more)

any_set-job_steps :
    (estimate : Text → ℕ → ℕ) (operator : Text) (id_text : Option Text) (id_first : Bool) (wpm : ℕ)
    (s : CwSupervisor) (sender : CwSendText)
    → any is_set (job_steps estimate operator id_text id_first wpm s sender) ≡ false
unfolding job_steps
any_set-job_steps estimate operator id_text id_first wpm s sender =
    rw (any_set-append _ _, any_set-chunk_steps sender _) refl

plan_chunks_wf :
    (checked : Bool) (estimate : Text → ℕ → ℕ) (operator : Text) (id_text : Option Text)
    (id_first : Bool) (wpm : ℕ) (s : CwSupervisor) {job : Job}
    → s.activity ≡ Activity.sending job
    → well_formed checked s ≡ true
    → well_formed checked (plan_chunks estimate operator id_text id_first wpm s) ≡ true
unfolding plan_chunks
plan_chunks_wf checked estimate operator id_text id_first wpm s sends wf =
    elim (Option-cases s.send_text) [
      | inl none_sends ↦ ground arith
      | inr (sender, keyer) ↦
          let steps = job_steps estimate operator id_text id_first wpm s sender in
          ground (
            arith,
            extend_wf checked steps s
                (any_set-job_steps estimate operator id_text id_first wpm s sender) sends wf,
          )
    ]

set_watchdog_wf :
    (checked : Bool) (keying : ℕ) (s : CwSupervisor)
    → well_formed checked s ≡ true
    → well_formed checked (set_watchdog keying s) ≡ true
unfolding set_watchdog
set_watchdog_wf checked keying s wf = ground arith

pub on_status_wf :
    (checked : Bool) (estimate : Text → ℕ → ℕ) (cw_mode transmitting : Bool) (wpm : Option ℕ)
    (s : CwSupervisor)
    → well_formed checked s ≡ true
    → well_formed checked (on_status estimate cw_mode transmitting wpm s) ≡ true
unfolding on_status
on_status_wf checked estimate cw_mode transmitting wpm s wf = elim (is_sending s) [
  | inl (job, sends) ↦
      let speed = known_wpm s wpm in
      let s' = set_wpm speed s in
      let planned = plan_chunks estimate job.operator job.id_text job.id_first speed s' in
      ground (
        arith,
        begin_stop_wf checked StopReason.error (problem estimate job cw_mode transmitting speed s)
            After.stay_armed s,
        set_watchdog_wf checked (estimate job.text speed) planned,
        plan_chunks_wf checked estimate job.operator job.id_text job.id_first speed s'
            (set_wpm_activity speed s ∙ sends) (set_wpm_wf checked speed s wf),
      )
  | inr other ↦ ground (
    arith,
    refuse_arm_wf checked ErrorCode.forbidden Message.not_in_cw_mode s,
    refuse_arm_wf checked ErrorCode.forbidden Message.is_transmitting s,
    other,
  )
]

replace_plan_wf :
    (estimate : Text → ℕ → ℕ) (sender : CwSendText) (pieces : List Chunk) (rest now : ℕ)
    (s : CwSupervisor) {job : Job}
    → s.activity ≡ Activity.sending job
    → well_formed true s ≡ true
    → well_formed true (replace_plan estimate sender pieces rest now s) ≡ true
unfolding replace_plan paced_first
replace_plan_wf estimate sender [] rest now s sends wf = ground arith
replace_plan_wf estimate sender (piece ∷ pieces) rest now s sends wf = ground (
  arith,
  any_set-append (paced sender pieces) (Step.wait_keyed s.config.pacing_margin ∷ []),
  any_set-paced sender pieces,
)

replan_wf :
    (estimate : Text → ℕ → ℕ) (wpm now : ℕ) (s : CwSupervisor) {job : Job}
    → s.activity ≡ Activity.sending job
    → well_formed true s ≡ true
    → well_formed true (replan estimate wpm now s) ≡ true
unfolding replan
replan_wf estimate wpm now s {job} sends wf = elim (Option-cases s.send_text) [
  | inl none_sends ↦ ground arith
  | inr (sender, keyer) ↦
      let pieces = cut_again estimate s sender wpm (remaining s.plan) in
      let rest = keying_time estimate pieces wpm in
      ground (
        arith,
        begin_stop_wf true StopReason.error
            (some (Message.speed_changed wpm (now - job.started) rest (cap_of s))) After.stay_armed
            s wf,
        replace_plan_wf estimate sender pieces rest now s sends wf,
      )
]

pub on_speed_wf :
    (checked : Bool) (estimate : Text → ℕ → ℕ) (cw_mode : Bool) (wpm : Option ℕ) (now : ℕ)
    (s : CwSupervisor)
    → (checked || not (runs_job s.activity)) ≡ true
    → well_formed true s ≡ true
    → well_formed checked (on_speed estimate cw_mode wpm now s) ≡ true
unfolding on_speed
on_speed_wf checked estimate cw_mode wpm now s known wf = elim (is_sending s) [
  | inl (job, sends) ↦
      let speed = known_wpm s wpm in
      ground (
        arith,
        begin_stop_wf checked StopReason.error (some Message.left_cw_mode) After.stay_armed s wf,
        replan_wf estimate speed now (set_wpm speed s) (set_wpm_activity speed s ∙ sends)
            (set_wpm_wf true speed s wf),
      )
  | inr other ↦ ground arith
]
