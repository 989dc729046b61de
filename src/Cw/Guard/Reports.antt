-- ===== src/Cw/Guard/Reports.antt =====
-- The next action forgets a change of the radio's settings only with the report that they are restored.
use radio_cat_rs.Base.{
  ℕ, zero, suc, ◌+◌, Bool, true, false, not, ◌&&◌, ◌||◌, ◌≡◌, refl, Option, none, some, List, [],
  ◌∷◌, ◌++◌, ltb, leb, inl, inr, Option-cases, arith, ok,
}
use radio_cat_rs.Cw.State.{
  CwSupervisor, CwAction, CwNotice, Activity, After, StopReason, DisarmReason,
}
use radio_cat_rs.Cw.Stopping.{
  notify, plan_restore, start_restore, begin_stop, owe_id, changed, owed_notice,
}
use radio_cat_rs.Cw.Requests.{clamp_of, ticket}
use radio_cat_rs.Cw.Driving.{check_timers, end_job, finish, issue, round, rounds, next_action}
use radio_cat_rs.Cw.Guard.Rounds.{List-cases, round-empty}

-- How often a restore was reported as done.
abbrev pub restored_count : List CwNotice → ℕ
restored_count [] = 0
restored_count (CwNotice.restored reason ∷ notices) = suc (restored_count notices)
restored_count (_ ∷ notices) = restored_count notices

-- Does the action write a setting of the radio?
abbrev pub writes : Option CwAction → Bool
writes (some (CwAction.set_power raw)) = true
writes (some (CwAction.set_break_in kind)) = true
writes _ = false

-- Of two supervisors in turn: no report is lost, and a change is still known or was reported restored.
abbrev pub kept : CwSupervisor → CwSupervisor → Bool
kept s s' =
    leb (restored_count s.notices) (restored_count s'.notices)
    && (not (changed s)
        || (changed s' || ltb (restored_count s.notices) (restored_count s'.notices)))

restored_count-append :
    (a b : List CwNotice) → restored_count (a ++ b) ≡ restored_count a + restored_count b
restored_count-append [] b = omega arith
restored_count-append (CwNotice.restored reason ∷ a) b = omega (arith, restored_count-append a b)
restored_count-append (CwNotice.reply to result ∷ a) b = restored_count-append a b
restored_count-append (CwNotice.armed owner callsign raw ∷ a) b = restored_count-append a b
restored_count-append (CwNotice.job_ended job reason message ∷ a) b = restored_count-append a b
restored_count-append (CwNotice.restore_failed attempts error ∷ a) b = restored_count-append a b
restored_count-append (CwNotice.id_owed callsign reason ∷ a) b = restored_count-append a b

kept_trans : (s s' s'' : CwSupervisor) → kept s s' ≡ true → kept s' s'' ≡ true → kept s s'' ≡ true
kept_trans s s' s'' h h' = ground (arith, h, h')

start_restore-kept :
    (reason : DisarmReason) (ticket : Option ℕ) (s : CwSupervisor)
    → kept s (start_restore reason ticket s) ≡ true
unfolding start_restore plan_restore
start_restore-kept reason ticket s =
    ground (arith, restored_count-append s.notices (owed_notice s reason))

check_timers-kept : (now : ℕ) (s : CwSupervisor) → kept s (check_timers now s) ≡ true
unfolding check_timers begin_stop owe_id
check_timers-kept now s = ground (arith, start_restore-kept DisarmReason.idle_timeout none s)

notify-kept : (notice : CwNotice) (s : CwSupervisor) → kept s (notify notice s) ≡ true
unfolding notify
notify-kept notice s = ground (arith, restored_count-append s.notices (notice ∷ []))

finish_as :
    (a : Activity) (now : ℕ) (s : CwSupervisor) → s.activity ≡ a → kept s (finish now s).0 ≡ true
unfolding finish notify
finish_as Activity.idle now s e = ground (arith, e)
finish_as (Activity.arming to owner callsign cap wpm) now s e =
    let armed = CwNotice.armed owner callsign (clamp_of s) ∷ [] in
    let said : List CwNotice = CwNotice.reply to (ok tt) ∷ [] in
    ground (
      arith,
      e,
      restored_count-append s.notices armed,
      restored_count-append (s.notices ++ armed) said,
    )
finish_as (Activity.sending job) now s e = ground (
  arith,
  e,
  restored_count-append s.notices (CwNotice.job_ended job.id StopReason.completed none ∷ []),
)
finish_as (Activity.stopping job reason message After.stay_armed) now s e =
    ground (arith, e, restored_count-append s.notices (CwNotice.job_ended job reason message ∷ []))
finish_as (Activity.stopping job reason message (After.restore why to)) now s e =
    let ended = end_job job reason message (record s { activity = Activity.idle }) in
    ground (
      arith,
      e,
      restored_count-append s.notices (CwNotice.job_ended job reason message ∷ []),
      start_restore-kept why to ended,
    )
finish_as (Activity.restoring reason to attempts error (some at)) now s e =
    unfold plan_restore in ground (arith, e)
finish_as (Activity.restoring reason none attempts error none) now s e =
    ground (arith, e, restored_count-append s.notices (CwNotice.restored reason ∷ []))
finish_as (Activity.restoring reason (some to) attempts error none) now s e =
    let said : List CwNotice = CwNotice.reply to (ok tt) ∷ [] in
    ground (
      arith,
      e,
      restored_count-append s.notices (CwNotice.restored reason ∷ []),
      restored_count-append (s.notices ++ (CwNotice.restored reason ∷ [])) said,
    )

-- What a round comes to: a write that it hands out is known as a change.
abbrev round_keeps : CwSupervisor → CwSupervisor × Option (Option CwAction) → Bool
round_keeps s (s', none) = kept s s'
round_keeps s (s', some a) = kept s s' && (not (writes a) || changed s')

round_keeps_lem : (now : ℕ) (s : CwSupervisor) → round_keeps s (round now s) ≡ true
unfolding round issue
round_keeps_lem now s = elim (List-cases s.plan) [
  | inl empty ↦ rw (round-empty now s empty) (ground (arith, finish_as s.activity now s refl))
  | inr (first, plan, planned) ↦ ground arith
]

rounds-kept :
    (n now : ℕ) (s : CwSupervisor)
    → let (s', a) = rounds n now s in (kept s s' ≡ true) × ((not (writes a) || changed s') ≡ true)
unfolding rounds
rounds-kept zero now s = (ground arith, refl)
rounds-kept (suc n) now s =
    let sound = round_keeps_lem now s in
    let s' = (round now s).0 in
    elim (Option-cases (round now s).1) [
      | inl more ↦
          let (later, known) = rounds-kept n now s' in
          let first : kept s s' ≡ true = ground (arith, sound, more) in
          let whole = kept_trans s s' (rounds n now s').0 first later in
          (ground (arith, more, whole), ground (arith, more, known))
      | inr (a, returned) ↦ (ground (arith, sound, returned), ground (arith, sound, returned))
    ]

pub next_action-kept :
    (now : ℕ) (s : CwSupervisor)
    → let (s', a) = next_action now s in
      (kept s s' ≡ true) × ((not (writes a) || changed s') ≡ true)
unfolding next_action
next_action-kept now s = elim (Option-cases s.outstanding) [
  | inl idle ↦
      let timed = check_timers now s in
      let (later, known) = rounds-kept 64 now timed in
      let whole = kept_trans s timed (rounds 64 now timed).0 (check_timers-kept now s) later in
      (ground (arith, idle, whole), ground (arith, idle, known))
  | inr (first, asked) ↦ (ground (arith, asked), ground (arith, asked))
]
