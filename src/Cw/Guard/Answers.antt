-- ===== src/Cw/Guard/Answers.antt =====
-- The radio's answers keep the supervisor well formed.
use radio_cat_rs.Base.{
  ℕ, Bool, true, false, ◌||◌, ◌≡◌, refl, none, some, List, [], ◌∷◌, leb, any, inl, inr,
  Option-cases, arith,
}
use radio_cat_rs.Cw.Text.{Text}
use radio_cat_rs.Cw.State.{CwSupervisor, CwOutcome, Step, After, StopReason, DisarmReason, Message}
use radio_cat_rs.Cw.Requests.{clamp_of}
use radio_cat_rs.Cw.Driving.{answer, complete, without_break_in}
use radio_cat_rs.Cw.Calls.{checked_after}
use radio_cat_rs.Cw.Guard.{is_send, is_set, well_formed, begin_stop_wf, fail_wf}
use radio_cat_rs.Cw.Guard.Plans.{on_sent_wf, on_status_wf, on_speed_wf}

-- The answer is taken off first.
abbrev pub taken : CwSupervisor → CwSupervisor
taken s = record s { outstanding = none }

taken_wf :
    (checked : Bool) (s : CwSupervisor)
    → well_formed checked s ≡ true
    → well_formed true (taken s) ≡ true
taken_wf checked s wf = ground arith

any_set-without_break_in :
    (plan : List Step) → any is_set plan ≡ false → any is_set (without_break_in plan) ≡ false
unfolding without_break_in
any_set-without_break_in [] quiet = refl
any_set-without_break_in (first ∷ plan) quiet = ground (arith, any_set-without_break_in plan)

any_send-without_break_in :
    (plan : List Step) → any is_send plan ≡ false → any is_send (without_break_in plan) ≡ false
unfolding without_break_in
any_send-without_break_in [] quiet = refl
any_send-without_break_in (first ∷ plan) quiet = ground (arith, any_send-without_break_in plan)

-- An answer of the radio, fitting or not.
pub answer_wf :
    (checked : Bool) (estimate : Text → ℕ → ℕ) (first : Step) (outcome : CwOutcome) (now : ℕ)
    (s : CwSupervisor)
    → s.outstanding ≡ some first
    → well_formed checked s ≡ true
    → well_formed (checked_after outcome s checked) (answer estimate first outcome now (taken s))
      ≡ true
unfolding answer
answer_wf checked estimate first (CwOutcome.failed error) now s asked wf =
    ground (arith, fail_wf checked (Message.from_radio error) now (taken s) (taken_wf checked s wf))
answer_wf checked estimate Step.status (CwOutcome.status cw_mode transmitting wpm) now s asked wf =
    ground (arith, on_status_wf checked estimate cw_mode transmitting wpm (taken s))
answer_wf checked estimate Step.check_speed (CwOutcome.status cw_mode transmitting wpm) now s asked
      wf =
    ground (
      arith,
      on_speed_wf checked estimate cw_mode wpm now (taken s) (ground arith) (taken_wf checked s wf),
    )
answer_wf checked estimate Step.snap_power (CwOutcome.power p) now s asked wf = ground arith
answer_wf checked estimate (Step.verify_power wanted) (CwOutcome.power p) now s asked wf = ground (
  arith,
  fail_wf (checked || leb p (clamp_of s)) (Message.power_read_back p wanted) now (taken s)
      (taken_wf checked s wf),
)
answer_wf checked estimate (Step.power_at_most most) (CwOutcome.power p) now s asked wf = ground (
  arith,
  begin_stop_wf (checked || leb p (clamp_of s)) StopReason.error (some (Message.power_above p most))
      (After.restore DisarmReason.power_above_clamp none) (taken s) (taken_wf checked s wf),
)
answer_wf checked estimate Step.snap_break_in (CwOutcome.break_in k) now s asked wf =
    ground (arith, any_set-without_break_in s.plan, any_send-without_break_in s.plan)
answer_wf checked estimate (Step.verify_break_in wanted) (CwOutcome.break_in k) now s asked wf =
    ground (
      arith,
      fail_wf checked (Message.break_in_read_back k wanted) now (taken s) (taken_wf checked s wf),
    )
answer_wf checked estimate Step.stop CwOutcome.done now s asked wf = ground arith
answer_wf checked estimate (Step.set_power raw) CwOutcome.done now s asked wf = ground arith
answer_wf checked estimate (Step.set_break_in kind) CwOutcome.done now s asked wf = ground arith
answer_wf checked estimate Step.wait_ready (CwOutcome.is_ready true) now s asked wf = ground arith
answer_wf checked estimate Step.wait_ready (CwOutcome.is_ready false) now s asked wf = ground arith
answer_wf checked estimate (Step.send chunk) CwOutcome.done now s asked wf =
    ground (arith, on_sent_wf checked estimate chunk now (taken s))
answer_wf checked estimate first outcome now s asked wf =
    fail_wf (checked_after outcome s checked) (Message.unexpected_answer outcome first) now
      (taken s) (taken_wf checked s wf)

pub complete_wf :
    (checked : Bool) (estimate : Text → ℕ → ℕ) (outcome : CwOutcome) (now : ℕ) (s : CwSupervisor)
    → well_formed checked s ≡ true
    → well_formed (checked_after outcome s checked) (complete estimate outcome now s) ≡ true
unfolding complete
complete_wf checked estimate outcome now s wf = elim (Option-cases s.outstanding) [
  | inl nothing ↦ ground arith
  | inr (first, asked) ↦ ground (arith, answer_wf checked estimate first outcome now s asked wf)
]
