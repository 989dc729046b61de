-- ===== src/Cw/Queries.antt =====
-- What the consoles, the rigctl bridge and the pump are told of the supervisor.
use radio_cat_rs.Base.{
  ℕ, Bool, true, false, not, ◌&&◌, ◌||◌, Option, none, some, List, [], ◌==◌, is_empty, ltb,
  if◌then◌else◌,
}
use radio_cat_rs.Cw.Text.{Text}
use radio_cat_rs.Cw.Capability.{is_missing}
use radio_cat_rs.Cw.State.{CwSupervisor, Activity, CwNotice, Message, SenderState}

abbrev pub is_idle : Activity → Bool
is_idle Activity.idle = true
is_idle _ = false

unfoldable pub blocks_external_ptt : CwSupervisor → Bool
blocks_external_ptt s = not (is_missing s.arm) || not (is_idle s.activity)

unfoldable pub is_live : CwSupervisor → Bool
is_live s = not (is_idle s.activity) || (not (is_empty s.plan) || not (is_missing s.outstanding))

unfoldable pub is_settled : CwSupervisor → Bool
is_settled s = is_missing s.arm && not (is_live s)

pub record ArmedState : Type 0 where
  pub callsign : Text
  pub power_raw : ℕ
  pub mine : Bool

abbrev pub armed_state : ℕ → CwSupervisor → Option ArmedState
armed_state viewer s = elim s.arm [
  | none ↦ none
  | some a ↦
      some (record { callsign = a.callsign; power_raw = a.power_raw; mine = a.owner == viewer })
]

unfoldable pub sender : CwSupervisor → SenderState
sender s = elim s.activity [
  | Activity.sending job ↦ SenderState.sending job.id job.sent job.total
  | Activity.stopping job reason message next ↦ SenderState.draining job
  | _ ↦ s.last_sender
]

pub record RestoreStatus : Type 0 where
  pub attempts : ℕ
  pub last_error : Message

abbrev pub restore_status : CwSupervisor → Option RestoreStatus
restore_status s = elim s.activity [
  | Activity.restoring _ _ attempts last_error _ ↦ elim last_error [
    | none ↦ none
    | some e ↦
        if ltb 0 attempts then some (record { attempts = attempts; last_error = e }) else none
  ]
  | _ ↦ none
]

unfoldable pub take_notices : CwSupervisor → CwSupervisor × List CwNotice
take_notices s = (record s { notices = [] }, s.notices)
