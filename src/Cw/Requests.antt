-- ===== src/Cw/Requests.antt =====
-- What the consoles and the server ask of the supervisor.
use radio_cat_rs.Base.{
  ℕ, Bool, true, false, not, ◌+◌, ◌-◌, ◌%◌, ◌^◌, min, ◌*◌, ◌&&◌, Option, none, some, List, [], ◌∷◌,
  ◌++◌, ◌==◌, ltb, leb, if◌then◌else◌, map, length, Result, ok, err,
}
use radio_cat_rs.Cw.Text.{Text, to_ascii_uppercase, split_whitespace, join}
use radio_cat_rs.Cw.Capability.{CwSendText, TxGateCapability, rejected_char}
use radio_cat_rs.Cw.State.{
  CwSupervisor, Activity, Step, Arm, StopReason, DisarmReason, ErrorCode, Message, After,
  HostRefusal, refusal, no_snapshot,
}
use radio_cat_rs.Cw.Stopping.{begin_stop, end_arm, refuse_arm}
use radio_cat_rs.Cw.Planning.{watchdog_for}

abbrev pub Answer : Type 0 → Type 0
Answer A = CwSupervisor × Result HostRefusal A

abbrev pub refuse : {A : Type 0} → ErrorCode → Message → CwSupervisor → Answer A
refuse code message s = (s, err (refusal code message))

-- A ticket, and the supervisor that gives the next one.
unfoldable pub ticket : CwSupervisor → CwSupervisor × ℕ
ticket s = (record s { next_ticket = (s.next_ticket + 1) % 2 ^ 64 }, s.next_ticket)

-- The steps of arming: what there was is read before anything is set, and what is set is read back.
unfoldable pub arm_steps : CwSendText → TxGateCapability → List Step
arm_steps sender gate =
    (Step.status ∷ Step.snap_power ∷ [])
    ++ ((elim sender.requires_break_in [ none ↦ [] | some kind ↦ Step.snap_break_in ∷ [] ])
        ++ ((Step.set_power gate.low_power_raw ∷ Step.verify_power gate.low_power_raw ∷ [])
            ++ elim sender.requires_break_in [
              | none ↦ []
              | some kind ↦ Step.set_break_in kind ∷ Step.verify_break_in kind ∷ []
            ]))

abbrev pub holder : CwSupervisor → Option ℕ
holder s = elim s.arm [
  | some a ↦ some a.owner
  | none ↦ elim s.activity [ Activity.arming _ owner _ _ _ ↦ some owner | _ ↦ none ]
]

-- The ceiling of the configuration holds for what the console asks.
abbrev pub cap_for : Option ℕ → CwSupervisor → ℕ
cap_for asked s =
    min (elim asked [ none ↦ s.config.key_down_cap | some seconds ↦ seconds * 1000000000 ])
      s.config.key_down_cap

abbrev pub start_arming :
    ℕ → Text → Option ℕ → CwSendText → TxGateCapability → CwSupervisor → Answer ℕ
start_arming owner callsign asked sender gate s =
    let (s', t) = ticket s in
    (
      record s' {
        snap = no_snapshot;
        plan = arm_steps sender gate;
        activity =
            Activity.arming t owner (map to_ascii_uppercase callsign) (cap_for asked s)
              s.slowest_wpm;
      },
      ok t,
    )

-- The arm, once the radio is known to have a keyer and a gate.
abbrev pub arm_gated : ℕ → Text → Option ℕ → CwSendText → TxGateCapability → CwSupervisor → Answer ℕ
arm_gated owner callsign asked sender gate s =
    if s.shutting_down
    then refuse ErrorCode.forbidden Message.server_stopping s
    else elim s.activity [
      | Activity.restoring _ _ _ last_error _ ↦ elim last_error [
        | some e ↦ refuse ErrorCode.forbidden (Message.restore_unverified e) s
        | none ↦ refuse ErrorCode.forbidden Message.still_restoring s
      ]
      | _ ↦ elim (holder s) [
        | some held ↦
            refuse ErrorCode.forbidden
              (if held == owner then Message.already_armed else Message.held_by_another) s
        | none ↦ start_arming owner callsign asked sender gate s
      ]
    ]

unfoldable pub arm : ℕ → Text → Option ℕ → CwSupervisor → Answer ℕ
arm owner callsign asked s = elim s.send_text [
  | none ↦ refuse ErrorCode.unsupported Message.cannot_send_text s
  | some sender ↦ elim s.gate [
    | none ↦ refuse ErrorCode.unsupported Message.cannot_send_text s
    | some gate ↦ arm_gated owner callsign asked sender gate s
  ]
]

-- `DE <CALL>`.
abbrev pub id_of : Arm → Text
id_of a = b'D' ∷ b'E' ∷ b' ' ∷ a.callsign

abbrev pub id_due : Arm → ℕ → CwSupervisor → Bool
id_due a now s = elim a.last_id [ none ↦ true | some t ↦ leb s.config.id_interval (now - t) ]

abbrev pub clamp_of : CwSupervisor → ℕ
clamp_of s = elim s.gate [ none ↦ 0 | some g ↦ g.low_power_raw ]

-- Operator text and ID together.
abbrev pub full_text : Text → Bool → Bool → Arm → Text
full_text operator due first a =
    if not due
    then operator
    else if first
    then id_of a ++ (b' ' ∷ operator)
    else operator ++ (b' ' ∷ id_of a)

abbrev pub queue_job : Text → Text → Bool → Bool → ℕ → Arm → ℕ → CwSupervisor → Answer ℕ
queue_job operator full due first keying a now s = (
  record s {
    next_job = (s.next_job + 1) % 2 ^ 32;
    plan = Step.status ∷ Step.power_at_most (clamp_of s) ∷ [];
    arm = some (record a { last_activity = now });
    activity = Activity.sending (record {
      id = s.next_job;
      text = full;
      operator = operator;
      id_text = (if due then some (id_of a) else none);
      total = length full % 2 ^ 32;
      sent = 0;
      started = now;
      deadline = now + watchdog_for keying s;
      has_id = due;
      id_first = first;
      id_sent = false;
      chunk_in_radio = false;
    });
  },
  ok s.next_job,
)

module _ (estimate : Text → ℕ → ℕ) where
  -- The text that the keyer can send, within the cap.
  unfoldable pub send_words : Arm → CwSendText → List Text → ℕ → CwSupervisor → Answer ℕ
  send_words a sender [] now s = refuse ErrorCode.out_of_range Message.nothing_to_send s
  send_words a sender (word ∷ words) now s =
      let operator = join (word ∷ words) in
      elim (rejected_char sender operator) [
        | some c ↦ refuse ErrorCode.out_of_range (Message.cannot_send_char c) s
        | none ↦
            let due = id_due a now s in
            let first = due && a.id_first in
            let full = full_text operator due first a in
            let keying = estimate full a.wpm in
            if ltb a.cap keying
            then refuse ErrorCode.out_of_range (Message.over_cap keying a.wpm due a.cap) s
            else queue_job operator full due first keying a now s
      ]

  unfoldable pub send : ℕ → Text → ℕ → CwSupervisor → Answer ℕ
  send owner text now s = elim s.send_text [
    | none ↦ refuse ErrorCode.unsupported Message.cannot_send_text s
    | some sender ↦ elim s.arm [
      | none ↦ refuse ErrorCode.forbidden Message.not_armed s
      | some a ↦
          if not (a.owner == owner)
          then refuse ErrorCode.forbidden Message.held_by_another s
          else elim s.activity [
            | Activity.idle ↦
                send_words a sender (map (map to_ascii_uppercase) (split_whitespace text)) now s
            | _ ↦ refuse ErrorCode.forbidden Message.send_in_progress s
          ]
    ]
  ]

unfoldable pub abort : CwSupervisor → CwSupervisor
abort s = elim s.activity [
  | Activity.sending job ↦ begin_stop StopReason.aborted none After.stay_armed s
  | _ ↦ s
]

abbrev pub is_disarming : Activity → Bool
is_disarming (Activity.stopping _ _ _ (After.restore _ (some t))) = true
is_disarming _ = false

unfoldable pub disarm : ℕ → CwSupervisor → Answer ℕ
disarm owner s = elim s.arm [
  | some a ↦
      if not (a.owner == owner)
      then refuse ErrorCode.forbidden Message.held_by_another s
      else if is_disarming s.activity
      then refuse ErrorCode.forbidden Message.already_disarming s
      else let (s', t) = ticket s in
        (end_arm DisarmReason.requested StopReason.aborted (some t) s', ok t)
  | none ↦
      refuse ErrorCode.forbidden
        (elim s.activity [
          | Activity.arming _ _ _ _ _ ↦ Message.arming_in_progress
          | _ ↦ Message.not_armed
        ])
        s
]

abbrev pub end_arm_of : ℕ → CwSupervisor → CwSupervisor
end_arm_of console s = elim s.arm [
  | none ↦ s
  | some a ↦
      if a.owner == console
      then end_arm DisarmReason.disconnected StopReason.disconnected none s
      else s
]

unfoldable pub detached : ℕ → CwSupervisor → CwSupervisor
detached console s = elim s.activity [
  | Activity.arming _ owner _ _ _ ↦
      if owner == console then refuse_arm ErrorCode.forbidden Message.hung_up s else s
  | _ ↦ end_arm_of console s
]

abbrev pub end_any_arm : CwSupervisor → CwSupervisor
end_any_arm s = elim s.arm [
  | none ↦ s
  | some a ↦ end_arm DisarmReason.shutdown StopReason.aborted none s
]

unfoldable pub shutdown : CwSupervisor → CwSupervisor
shutdown s =
    let stopping = record s { shutting_down = true } in
    elim s.activity [
      | Activity.arming _ _ _ _ _ ↦ refuse_arm ErrorCode.forbidden Message.server_stopping stopping
      | _ ↦ end_any_arm stopping
    ]
