-- ===== src/Cw/Aborting.antt =====
-- An abort of a running send, between two actions and while the radio has an action to answer.
use radio_cat_rs.Base.{ℕ, ◌≡◌, false, none, some, [], ◌∷◌, arith}
use radio_cat_rs.Cw.Text.{Text}
use radio_cat_rs.Cw.State.{
  CwSupervisor, CwAction, CwOutcome, Activity, Job, Step, StopReason, After,
}
use radio_cat_rs.Cw.Stopping.{begin_stop, owe_id, fail}
use radio_cat_rs.Cw.Requests.{abort}
use radio_cat_rs.Cw.Driving.{check_timers, issue, round, rounds, next_action, answer, complete}

-- Between two actions: the next action after an abort is the stop, at any time; after it nothing is
-- left of the job's plan but the wait for what the radio holds.
pub next_action-abort :
    (s : CwSupervisor) (now : ℕ) {job : Job}
    → s.activity ≡ Activity.sending job
    → s.outstanding ≡ none
    → let (s', a) = next_action now (abort s) in
      (a ≡ some CwAction.stop)
      × (s'.plan ≡ Step.wait_keyed s.config.pacing_margin ∷ [])
      × (s'.activity ≡ Activity.stopping job.id StopReason.aborted none After.stay_armed)
unfolding next_action check_timers rounds round issue abort begin_stop owe_id
next_action-abort s now sends idle =
    (ground (arith, sends, idle), ground (arith, sends, idle), ground (arith, sends, idle))

-- While the radio has an action to answer: if it then fails, the plan of the aborted send holds no stop
-- any more, and the time until which the radio is taken to key stays as it was before; if
-- it was asked whether it is ready and is not, it is asked again before it is stopped.
pub complete-abort :
    (estimate : Text → ℕ → ℕ) (s : CwSupervisor) (now : ℕ) (asked : Step) (error : Text) {job : Job}
    → s.activity ≡ Activity.sending job
    → s.outstanding ≡ some asked
    → let failed = complete estimate (CwOutcome.failed error) now (abort s) in
      let busy =
        complete estimate
          (CwOutcome.is_ready false)
          now
          (abort (record s { outstanding = some Step.wait_ready })) in
      (failed.plan ≡ Step.wait_keyed s.config.pacing_margin ∷ [])
      × (failed.keyed_until ≡ s.keyed_until)
      × (failed.outstanding ≡ none)
      × (busy.plan ≡ Step.wait_ready ∷ Step.stop ∷ Step.wait_keyed s.config.pacing_margin ∷ [])
unfolding complete answer fail abort begin_stop owe_id
complete-abort estimate s now asked error sends waits = (
  ground (arith, sends, waits),
  ground (arith, sends, waits),
  ground (arith, sends, waits),
  ground (arith, sends),
)
