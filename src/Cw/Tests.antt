-- ===== src/Cw/Tests.antt =====
-- The supervisor at concrete inputs: a radio whose power reads 100 and is clamped to 5.
use radio_cat_rs.Base.{
  arith, ℕ, ◌*◌, true, false, ◌≡◌, refl, none, some, List, [], ◌∷◌, length, All,
}
use radio_cat_rs.Cw.Text.{
  Text, chunks, fits, split_word, place_word, add_word, add_words, words_from, join,
}
use radio_cat_rs.Cw.Capability.{CwPacing, CwAbort, CwSendText, CwCapability, rejected_char}
use radio_cat_rs.Cw.State.{
  CwSupervisor, CwConfig, CwAction, CwOutcome, Activity, Step, Job, After, StopReason, new,
}
use radio_cat_rs.Cw.Stopping.{notify}
use radio_cat_rs.Cw.Planning.{
  on_status, on_speed, job_steps, plan_chunks, chunk_steps, set_watchdog,
}
use radio_cat_rs.Cw.Requests.{arm_steps, ticket, arm, send, send_words, abort}
use radio_cat_rs.Cw.Driving.{
  check_timers, finish, issue, round, rounds, next_action, answer, complete,
}
use radio_cat_rs.Cw.Queries.{blocks_external_ptt}
use radio_cat_rs.Cw.Calls.{Call, apply, run, reached}
use radio_cat_rs.Cw.Guard.{armed, runs_job}
use radio_cat_rs.Cw.Guard.Calls.{next_action-reached}
use radio_cat_rs.Cw.Guard.Written.{written, blocks_external_ptt-reached}
use radio_cat_rs.Cw.Rounds.{leaves, rounds_enough}
use radio_cat_rs.Cw.Aborting.{next_action-abort, complete-abort}
use radio_cat_rs.Cw.Chunks.{IsPiece}
use radio_cat_rs.Cw.Chunks.Content.{unspaced, flat, chunks_lem}

-- A character keys for three units of time.
abbrev units : Text → ℕ → ℕ
units text wpm = 3 * length text

abbrev keyer : CwSendText
keyer = record {
  max_chunk_chars = 4;
  charset = b'C' ∷ b'D' ∷ b'E' ∷ b'Q' ∷ b'K' ∷ [];
  pacing = CwPacing.buffer_flag;
  on_abort = CwAbort.drain_only;
  requires_break_in = none;
}

abbrev radio : CwCapability
radio = record {
  pitch = none;
  pitch_writable = false;
  keyer_wpm = some (record { least = 10; most = 50 });
  keyer_wpm_writable = true;
  break_in = [];
  send_text = some keyer;
  tx_gate = some (record { low_power_raw = 5; power_raw = record { least = 5; most = 100 } });
}

abbrev config : CwConfig
config = record {
  key_down_cap = 100;
  drain_bound = 20;
  idle_ttl = 600;
  id_interval = 600;
  tick = 1;
  pacing_margin = 2;
  watchdog_margin = 30;
  restore_retry = 5;
}

abbrev answered : CwOutcome → List (ℕ × Call) → List (ℕ × Call)
answered outcome rest = (1, Call.next_action) ∷ (1, Call.complete outcome) ∷ rest

-- Console 7 arms, queues `cq` and has the radio answer until the first chunk is due.
abbrev arming_calls : List (ℕ × Call)
arming_calls =
    (0, Call.arm 7 (b'K' ∷ []) none)
    ∷ answered (CwOutcome.status true false (some 20))
        (answered (CwOutcome.power 100) (answered CwOutcome.done []))

abbrev keying_calls : List (ℕ × Call)
keying_calls =
    (0, Call.arm 7 (b'K' ∷ []) none)
    ∷ answered (CwOutcome.status true false (some 20)) (
        answered (CwOutcome.power 100) (
          answered CwOutcome.done (
            answered (CwOutcome.power 5) (
              (1, Call.next_action)
              ∷ (1, Call.send 7 (b'c' ∷ b'q' ∷ []))
              ∷ answered (CwOutcome.status true false (some 20)) (
                  answered (CwOutcome.power 5) (
                    answered (CwOutcome.is_ready true)
                      (answered (CwOutcome.status true false (some 20)) [])))))))

next_action-reached_example :
    (armed (next_action 1 (reached units radio config keying_calls).1).0 ≡ true)
    × (runs_job (next_action 1 (reached units radio config keying_calls).1).0.activity ≡ true)
    × ((reached units radio config keying_calls).0 ≡ true)
unfolding run apply arm ticket arm_steps send send_words words_from join rejected_char next_action
    check_timers rounds round issue finish notify complete answer on_status plan_chunks job_steps
    chunk_steps set_watchdog chunks add_words add_word place_word split_word fits on_speed
next_action-reached_example = next_action-reached units radio config keying_calls 1 refl

blocks_external_ptt-reached_example :
    blocks_external_ptt (reached units radio config arming_calls).1 ≡ true
unfolding written run apply arm ticket arm_steps next_action check_timers rounds round issue
    complete answer on_status
blocks_external_ptt-reached_example =
    blocks_external_ptt-reached units radio config arming_calls refl

abbrev job : Job
job = record {
  id = 1;
  text = b'C' ∷ b'Q' ∷ [];
  operator = b'C' ∷ b'Q' ∷ [];
  id_text = none;
  total = 2;
  sent = 0;
  started = 0;
  deadline = 100;
  has_id = false;
  id_first = false;
  id_sent = false;
  chunk_in_radio = false;
}

abbrev sending : CwSupervisor
sending = record (new radio config) { activity = Activity.sending job }

next_action-abort_example :
    ((next_action 3 (abort sending)).1 ≡ some CwAction.stop)
    × ((next_action 3 (abort sending)).0.plan ≡ Step.wait_keyed 2 ∷ [])
    × ((next_action 3 (abort sending)).0.activity
        ≡ Activity.stopping 1 StopReason.aborted none After.stay_armed)
next_action-abort_example = next_action-abort sending 3 refl refl

-- The stop was answered, and the key is waited for before the send ends.
abbrev stopping : CwSupervisor
stopping = record sending {
  activity = Activity.stopping 1 StopReason.aborted none After.stay_armed;
  plan = Step.wait_keyed 2 ∷ [];
}

rounds_enough_example :
    (leaves 64 3 stopping ≡ true) × (rounds 65 3 stopping ≡ rounds 64 3 stopping)
rounds_enough_example = rounds_enough 1 3 stopping (omega arith)

abbrev waiting : CwSupervisor
waiting = record sending { outstanding = some Step.check_speed }

complete-abort_example :
    ((complete units (CwOutcome.failed []) 3 (abort waiting)).plan ≡ Step.wait_keyed 2 ∷ [])
    × ((complete units (CwOutcome.failed []) 3 (abort waiting)).keyed_until ≡ none)
    × ((complete units (CwOutcome.failed []) 3 (abort waiting)).outstanding ≡ none)
    × ((complete units
          (CwOutcome.is_ready false)
          3
          (abort (record waiting { outstanding = some Step.wait_ready }))).plan
        ≡ Step.wait_ready ∷ Step.stop ∷ Step.wait_keyed 2 ∷ [])
complete-abort_example = complete-abort units waiting 3 Step.check_speed [] refl refl

abbrev long_text : Text
long_text = b'C' ∷ b'Q' ∷ b' ' ∷ b'D' ∷ b'E' ∷ b'D' ∷ b'E' ∷ b'K' ∷ []

-- Five characters do not fit: they are cut at the fourth.
chunks-long_text :
    chunks units 4 none 20 long_text
    ≡ (b'C' ∷ b'Q' ∷ []) ∷ (b'D' ∷ b'E' ∷ b'D' ∷ b'E' ∷ []) ∷ (b'K' ∷ []) ∷ []
unfolding chunks add_words add_word place_word split_word fits words_from
chunks-long_text = refl

chunks_lem_example :
    All (IsPiece units 4 none 20) (chunks units 4 none 20 long_text)
    × (flat (chunks units 4 none 20 long_text) ≡ unspaced long_text)
chunks_lem_example = chunks_lem units 4 none 20 long_text
