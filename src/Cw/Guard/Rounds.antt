-- ===== src/Cw/Guard/Rounds.antt =====
-- The pump's next action keeps the supervisor well formed, and what a chunk that is sent shows.
use radio_cat_rs.Base.{
  ℕ, zero, suc, Bool, true, false, not, ◌&&◌, ◌||◌, ◌≡◌, refl, Option, none, some, List, [], ◌∷◌,
  if◌then◌else◌, ◌⊎◌, inl, inr, Option-cases, ◌-◌, arith,
}
use radio_cat_rs.Cw.Capability.{is_missing}
use radio_cat_rs.Cw.State.{CwSupervisor, CwAction, Step, After, StopReason, DisarmReason, Message}
use radio_cat_rs.Cw.Stopping.{notify, plan_restore, start_restore, begin_stop, owe_id}
use radio_cat_rs.Cw.Driving.{check_timers, finish, issue, round, rounds, next_action}
use radio_cat_rs.Cw.Guard.{
  armed, runs_job, well_formed, begin_stop_wf, start_restore_wf, is_sending, power_steps_quiet,
}

check_timers_wf :
    (checked : Bool) (now : ℕ) (s : CwSupervisor)
    → well_formed checked s ≡ true
    → well_formed checked (check_timers now s) ≡ true
unfolding check_timers
check_timers_wf checked now s wf = elim (is_sending s) [
  | inl (job, sends) ↦ ground (
    arith,
    begin_stop_wf checked StopReason.key_down_cap
        (some (Message.watchdog_stopped (now - job.started)))
        (After.restore DisarmReason.key_down_cap none) s,
  )
  | inr other ↦ ground (arith, start_restore_wf checked DisarmReason.idle_timeout none s)
]

check_timers_outstanding :
    (now : ℕ) (s : CwSupervisor) → s.outstanding ≡ none → (check_timers now s).outstanding ≡ none
unfolding check_timers begin_stop owe_id start_restore plan_restore
check_timers_outstanding now s idle = ground arith

-- Nothing is outstanding, and the plan has run out.
finish_wf :
    (checked : Bool) (now : ℕ) (s : CwSupervisor)
    → s.outstanding ≡ none
    → s.plan ≡ []
    → well_formed checked s ≡ true
    → (well_formed checked (finish now s).0 ≡ true) × ((finish now s).0.outstanding ≡ none)
unfolding finish notify start_restore plan_restore
finish_wf checked now s idle empty wf = (ground (arith, power_steps_quiet s.snap), ground arith)

pub List-cases :
    (plan : List Step) → (plan ≡ []) ⊎ ((first : Step) × (rest : List Step) × (plan ≡ first ∷ rest))
List-cases [] = inl refl
List-cases (first ∷ rest) = inr (first, rest, refl)

-- Does the action hand text to the keyer?
abbrev pub keys : Option CwAction → Bool
keys (some (CwAction.send_chunk text)) = true
keys _ = false

-- What goes with an action: text goes with an armed console's job and a power that was checked.
abbrev pub allows : Bool → CwSupervisor → Option CwAction → Bool
allows checked s a = not (keys a) || (checked && (runs_job s.activity && armed s))

abbrev round_sound : Bool → CwSupervisor × Option (Option CwAction) → Bool
round_sound checked (s, none) = well_formed checked s && is_missing s.outstanding
round_sound checked (s, some a) = well_formed checked s && allows checked s a

pub round-empty :
    (now : ℕ) (s : CwSupervisor)
    → s.plan ≡ []
    → round now s ≡ ((finish now s).0, if (finish now s).1 then none else some none)
unfolding round
round-empty now s empty = ground arith

round_lem :
    (checked : Bool) (now : ℕ) (s : CwSupervisor)
    → s.outstanding ≡ none
    → well_formed checked s ≡ true
    → round_sound checked (round now s) ≡ true
unfolding round issue
round_lem checked now s idle wf = elim (List-cases s.plan) [
  | inl empty ↦
      let (kept, still) = finish_wf checked now s idle empty wf in
      rw (round-empty now s empty) (ground (arith, kept, still))
  | inr (first, plan, planned) ↦ ground arith
]

rounds_lem :
    (n : ℕ) (checked : Bool) (now : ℕ) (s : CwSupervisor)
    → s.outstanding ≡ none
    → well_formed checked s ≡ true
    → let (s', a) = rounds n now s in (well_formed checked s' ≡ true) × (allows checked s' a ≡ true)
unfolding rounds
rounds_lem zero checked now s idle wf = (wf, refl)
rounds_lem (suc n) checked now s idle wf =
    let sound = round_lem checked now s idle wf in
    let s' = (round now s).0 in
    elim (Option-cases (round now s).1) [
      | inl more ↦
          let (kept, allowed) =
            rounds_lem n checked now s' (ground (arith, sound)) (ground (arith, sound)) in
          ground (arith, kept, allowed)
      | inr (a, returned) ↦ ground (arith, sound)
    ]

pub next_action_wf :
    (checked : Bool) (now : ℕ) (s : CwSupervisor)
    → well_formed checked s ≡ true
    → let (s', a) = next_action now s in
      (well_formed checked s' ≡ true) × (allows checked s' a ≡ true)
unfolding next_action
next_action_wf checked now s wf = elim (Option-cases s.outstanding) [
  | inl idle ↦
      let (kept, allowed) =
        rounds_lem 64 checked now (check_timers now s) (check_timers_outstanding now s idle)
          (check_timers_wf checked now s wf) in
      (ground (arith, kept), ground (arith, allowed))
  | inr (first, asked) ↦ (ground (arith, wf), ground arith)
]
