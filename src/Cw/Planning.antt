-- ===== src/Cw/Planning.antt =====
-- How a send is planned: the chunks of a job and the waits between them, and what the radio's
-- status and keyer speed change of the plan. `estimate` is a parameter: the source computes the time
-- that a text keys at a speed in floating point.
use radio_cat_rs.Base.{
  ℕ, Bool, true, false, not, ◌+◌, ◌-◌, ◌*◌, ◌/◌, ◌%◌, ◌^◌, max, min, Option, none, some, List, [],
  ◌∷◌, ◌++◌, ◌==◌, ltb, if◌then◌else◌, map, length,
}
use radio_cat_rs.Cw.Text.{Text, chunks}
use radio_cat_rs.Cw.Capability.{CwSendText, is_buffer_flag, is_drain_only}
use radio_cat_rs.Cw.State.{
  CwSupervisor, Activity, Step, Chunk, Job, StopReason, ErrorCode, Message, After,
}
use radio_cat_rs.Cw.Stopping.{begin_stop, refuse_arm}

abbrev pub send_steps : List Step → ℕ
send_steps [] = 0
send_steps (Step.send c ∷ plan) = 1 + send_steps plan
send_steps (_ ∷ plan) = send_steps plan

abbrev pub remaining : List Step → List Chunk
remaining [] = []
remaining (Step.send c ∷ plan) = c ∷ remaining plan
remaining (_ ∷ plan) = remaining plan

abbrev pub watchdog_for : ℕ → CwSupervisor → ℕ
watchdog_for keying s = keying + keying / 5 + s.config.watchdog_margin

-- What the waits between the chunks of the plan may cost.
abbrev pub pacing_cost : CwSupervisor → List Step → ℕ
pacing_cost s plan = (s.config.tick * 4 + s.config.pacing_margin) * send_steps plan

abbrev pub set_deadline : ℕ → Job → CwSupervisor → CwSupervisor
set_deadline deadline job s = record s {
  activity = Activity.sending (record job { deadline = deadline });
}

unfoldable pub set_watchdog : ℕ → CwSupervisor → CwSupervisor
set_watchdog keying s = elim s.activity [
  | Activity.sending job ↦
      set_deadline (job.started + (watchdog_for keying s + pacing_cost s s.plan)) job s
  | _ ↦ s
]

abbrev pub ready_steps : CwSendText → List Step
ready_steps sender = if is_buffer_flag sender.pacing then Step.wait_ready ∷ [] else []

-- The steps of the first plan of a job, chunk by chunk.
unfoldable pub chunk_steps : CwSendText → List (Text × Bool) → List Step
chunk_steps sender [] = []
chunk_steps sender ((text, ends_id) ∷ rest) =
    (Step.wait_keyed 0 ∷ ready_steps sender)
    ++ ((if is_drain_only sender.on_abort then Step.check_speed ∷ [] else [])
        ++ (Step.send (record {
          text = text;
          is_last = (elim rest [ [] ↦ true | next ∷ more ↦ false ]);
          ends_id = ends_id;
        })
            ∷ chunk_steps sender rest))

abbrev pub mark_last : List Text → List (Text × Bool)
mark_last [] = []
mark_last (text ∷ []) = (text, true) ∷ []
mark_last (text ∷ next ∷ texts) = (text, false) ∷ mark_last (next ∷ texts)

abbrev pub unmarked : Text → Text × Bool
unmarked text = (text, false)

abbrev pub bound_of : CwSupervisor → CwSendText → Option ℕ
bound_of s sender = if is_drain_only sender.on_abort then some s.config.drain_bound else none

abbrev pub set_wpm : ℕ → CwSupervisor → CwSupervisor
set_wpm wpm s = elim s.arm [ none ↦ s | some a ↦ record s { arm = some (record a { wpm = wpm }) } ]

abbrev pub cap_of : CwSupervisor → ℕ
cap_of s = elim s.arm [ none ↦ 0 | some a ↦ a.cap ]

-- The pieces of one chunk: what the chunk ends, its last piece ends.
abbrev pub cut : Chunk → List Text → List Chunk
cut chunk [] = []
cut chunk (text ∷ []) =
    record { text = text; is_last = chunk.is_last; ends_id = chunk.ends_id } ∷ []
cut chunk (text ∷ next ∷ texts) =
    record { text = text; is_last = false; ends_id = false } ∷ cut chunk (next ∷ texts)

abbrev pub known_wpm : CwSupervisor → Option ℕ → ℕ
known_wpm s wpm = max (elim wpm [ none ↦ s.slowest_wpm | some w ↦ w ]) 1

-- The steps of a plan made again: the first chunk goes at once.
unfoldable pub paced : CwSendText → List Chunk → List Step
paced sender [] = []
paced sender (chunk ∷ rest) =
    (Step.wait_keyed 0 ∷ ready_steps sender)
    ++ (Step.check_speed ∷ Step.send chunk ∷ paced sender rest)

unfoldable pub paced_first : CwSendText → List Chunk → List Step
paced_first sender [] = []
paced_first sender (chunk ∷ rest) = Step.send chunk ∷ paced sender rest

unfoldable pub on_sent : (Text → ℕ → ℕ) → Chunk → ℕ → CwSupervisor → CwSupervisor
on_sent estimate chunk now s =
    let wpm : ℕ = (elim s.arm [ none ↦ s.slowest_wpm | some a ↦ a.wpm ]) in
    let start : ℕ = (elim s.keyed_until [ none ↦ now | some t ↦ if ltb now t then t else now ]) in
    let keyed = record s { keyed_until = some (start + estimate chunk.text wpm) } in
    elim s.activity [
      | Activity.sending job ↦
          let sent : ℕ =
            if chunk.is_last
            then job.total
            else min ((job.sent + length chunk.text + 1) % 2 ^ 32) job.total in
          let job' = record job { chunk_in_radio = true; sent = sent } in
          if chunk.ends_id
          then record keyed {
            activity = Activity.sending (record job' { id_sent = true });
            id_owed = none;
            arm = (elim s.arm [
              | none ↦ none
              | some a ↦ some (record a { last_id = some now; id_first = false })
            ]);
          }
          else record keyed { activity = Activity.sending job' }
      | _ ↦ keyed
    ]

module _ (estimate : Text → ℕ → ℕ) where
  -- The steps that key a job: the operator's text and the ID are cut apart.
  unfoldable pub job_steps : Text → Option Text → Bool → ℕ → CwSupervisor → CwSendText → List Step
  job_steps operator id_text id_first wpm s sender =
      let piece =
        λ (text : Text). chunks estimate sender.max_chunk_chars (bound_of s sender) wpm text in
      let operator_pieces = map unmarked (piece operator) in
      let id_pieces : List (Text × Bool) = (elim id_text [
        | none ↦ []
        | some id ↦ mark_last (piece id)
      ]) in
      chunk_steps sender
        (if id_first then id_pieces ++ operator_pieces else operator_pieces ++ id_pieces)
      ++ (Step.wait_keyed s.config.pacing_margin ∷ [])

  unfoldable pub plan_chunks : Text → Option Text → Bool → ℕ → CwSupervisor → CwSupervisor
  plan_chunks operator id_text id_first wpm s = elim s.send_text [
    | none ↦ s
    | some sender ↦ record s { plan = s.plan ++ job_steps operator id_text id_first wpm s sender }
  ]

  unfoldable pub keying_time : List Chunk → ℕ → ℕ
  keying_time [] wpm = 0
  keying_time (c ∷ rest) wpm = estimate c.text wpm + keying_time rest wpm

  unfoldable pub cut_again : CwSupervisor → CwSendText → ℕ → List Chunk → List Chunk
  cut_again s sender wpm [] = []
  cut_again s sender wpm (c ∷ rest) =
      cut c (chunks estimate sender.max_chunk_chars (bound_of s sender) wpm c.text)
      ++ cut_again s sender wpm rest

  -- What is left of the job, once it is known to end within the cap.
  unfoldable pub replace_plan : CwSendText → List Chunk → ℕ → ℕ → CwSupervisor → CwSupervisor
  replace_plan sender pieces rest now s =
      let plan = paced_first sender pieces ++ (Step.wait_keyed s.config.pacing_margin ∷ []) in
      let planned = record s { plan = plan } in
      elim s.activity [
        | Activity.sending job ↦
            set_deadline (now + (watchdog_for rest s + pacing_cost s plan)) job planned
        | _ ↦ planned
      ]

  unfoldable pub replan : ℕ → ℕ → CwSupervisor → CwSupervisor
  replan wpm now s = elim s.send_text [
    | none ↦ s
    | some sender ↦
        let pieces = cut_again s sender wpm (remaining s.plan) in
        let rest = keying_time pieces wpm in
        let started : ℕ = (elim s.activity [ Activity.sending job ↦ job.started | _ ↦ now ]) in
        let elapsed = now - started in
        if ltb (cap_of s) (elapsed + rest)
        then begin_stop StopReason.error (some (Message.speed_changed wpm elapsed rest (cap_of s)))
            After.stay_armed s
        else replace_plan sender pieces rest now s
  ]

  -- Why a job cannot be keyed as the radio stands.
  abbrev pub problem : Job → Bool → Bool → ℕ → CwSupervisor → Option Message
  problem job cw_mode transmitting wpm s =
      if not cw_mode
      then some Message.left_cw_mode
      else if transmitting
      then some Message.already_transmitting
      else if ltb (cap_of s) (estimate job.text wpm)
      then some (Message.takes_too_long wpm (estimate job.text wpm) (cap_of s))
      else none

  unfoldable pub on_status : Bool → Bool → Option ℕ → CwSupervisor → CwSupervisor
  on_status cw_mode transmitting reported s =
      let wpm = known_wpm s reported in
      elim s.activity [
        | Activity.arming ticket owner callsign cap w ↦
            if not cw_mode
            then refuse_arm ErrorCode.forbidden Message.not_in_cw_mode s
            else if transmitting
            then refuse_arm ErrorCode.forbidden Message.is_transmitting s
            else record s { activity = Activity.arming ticket owner callsign cap wpm }
        | Activity.sending job ↦ elim (problem job cw_mode transmitting wpm s) [
          | some message ↦ begin_stop StopReason.error (some message) After.stay_armed s
          | none ↦
              set_watchdog (estimate job.text wpm)
                (plan_chunks job.operator job.id_text job.id_first wpm (set_wpm wpm s))
        ]
        | _ ↦ s
      ]

  unfoldable pub on_speed : Bool → Option ℕ → ℕ → CwSupervisor → CwSupervisor
  on_speed cw_mode reported now s =
      let wpm = known_wpm s reported in
      elim s.activity [
        | Activity.sending job ↦
            if not cw_mode
            then begin_stop StopReason.error (some Message.left_cw_mode) After.stay_armed s
            else if elim s.arm [ none ↦ false | some a ↦ a.wpm == wpm ]
            then s
            else replan wpm now (set_wpm wpm s)
        | _ ↦ s
      ]
