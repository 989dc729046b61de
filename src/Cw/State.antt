-- ===== src/Cw/State.antt =====
-- The state of the CW supervisor, and what it exchanges with the radio and the consoles. A time and
-- a duration is a number of nanoseconds; a `ConsoleId` and a `Ticket` is its number.
use radio_cat_rs.Base.{ℕ, Bool, false, max, Option, none, some, List, [], Result}
use radio_cat_rs.Cw.Text.{Text}
use radio_cat_rs.Cw.Capability.{BreakInKind, CwSendText, TxGateCapability, CwCapability}

pub record CwConfig : Type 0 where
  pub key_down_cap : ℕ
  pub drain_bound : ℕ
  pub idle_ttl : ℕ
  pub id_interval : ℕ
  pub tick : ℕ
  pub pacing_margin : ℕ
  pub watchdog_margin : ℕ
  pub restore_retry : ℕ

pub data CwAction : Type 0 where
  read_status : CwAction
  read_power : CwAction
  set_power : (raw : ℕ) → CwAction
  read_break_in : CwAction
  set_break_in : (kind : BreakInKind) → CwAction
  ready : CwAction
  send_chunk : (text : Text) → CwAction
  stop : CwAction

pub data CwOutcome : Type 0 where
  done : CwOutcome
  status : (cw_mode transmitting : Bool) (wpm : Option ℕ) → CwOutcome
  power : (raw : ℕ) → CwOutcome
  break_in : (kind : BreakInKind) → CwOutcome
  is_ready : Bool → CwOutcome
  failed : (error : Text) → CwOutcome

pub data DisarmReason : Type 0 where
  requested : DisarmReason
  disconnected : DisarmReason
  key_down_cap : DisarmReason
  power_above_clamp : DisarmReason
  idle_timeout : DisarmReason
  shutdown : DisarmReason
  arm_failed : DisarmReason

-- `StopReason`, `SenderState` and `ErrorCode` are those of cat-native/src/lib.rs.
pub data StopReason : Type 0 where
  completed : StopReason
  aborted : StopReason
  key_down_cap : StopReason
  disconnected : StopReason
  error : StopReason

pub data ErrorCode : Type 0 where
  not_ready : ErrorCode
  version_mismatch : ErrorCode
  unsupported : ErrorCode
  out_of_range : ErrorCode
  malformed : ErrorCode
  forbidden : ErrorCode

pub record Chunk : Type 0 where
  pub text : Text
  pub is_last : Bool
  pub ends_id : Bool

pub data Step : Type 0 where
  status : Step
  snap_power : Step
  snap_break_in : Step
  set_power : (raw : ℕ) → Step
  verify_power : (raw : ℕ) → Step
  set_break_in : (kind : BreakInKind) → Step
  verify_break_in : (kind : BreakInKind) → Step
  power_at_most : (most : ℕ) → Step
  wait_ready : Step
  wait_keyed : (margin : ℕ) → Step
  check_speed : Step
  send : (chunk : Chunk) → Step
  stop : Step

-- The messages for the operator: one constructor for each, with the values that it shows.
pub data Message : Type 0 where
  from_radio : (error : Text) → Message
  power_read_back : (read wanted : ℕ) → Message
  power_above : (read most : ℕ) → Message
  break_in_read_back : (read wanted : BreakInKind) → Message
  unexpected_answer : (answer : CwOutcome) (step : Step) → Message
  left_cw_mode : Message
  already_transmitting : Message
  takes_too_long : (wpm keying cap : ℕ) → Message
  speed_changed : (wpm elapsed rest cap : ℕ) → Message
  watchdog_stopped : (elapsed : ℕ) → Message
  cannot_send_text : Message
  server_stopping : Message
  restore_unverified : (last : Message) → Message
  still_restoring : Message
  already_armed : Message
  held_by_another : Message
  not_armed : Message
  send_in_progress : Message
  nothing_to_send : Message
  cannot_send_char : (c : ℕ) → Message
  over_cap : (keying wpm : ℕ) (with_id : Bool) (cap : ℕ) → Message
  arming_in_progress : Message
  already_disarming : Message
  hung_up : Message
  not_in_cw_mode : Message
  is_transmitting : Message
  restore_failed : (error : Message) → Message

pub record HostRefusal : Type 0 where
  pub code : ErrorCode
  pub message : Message

abbrev pub refusal : ErrorCode → Message → HostRefusal
refusal code message = record { code = code; message = message }

pub data CwNotice : Type 0 where
  reply : (ticket : ℕ) (result : Result HostRefusal (Unit {0})) → CwNotice
  armed : (owner : ℕ) (callsign : Text) (power_raw : ℕ) → CwNotice
  job_ended : (job : ℕ) (reason : StopReason) (message : Option Message) → CwNotice
  restore_failed : (attempts : ℕ) (error : Message) → CwNotice
  restored : (reason : DisarmReason) → CwNotice
  id_owed : (callsign : Text) (reason : DisarmReason) → CwNotice

pub data SenderState : Type 0 where
  idle : SenderState
  sending : (job sent_chars total_chars : ℕ) → SenderState
  draining : (job : ℕ) → SenderState
  stopped : (job : ℕ) (reason : StopReason) (message : Option Message) → SenderState

pub record Snapshot : Type 0 where
  pub power : Option ℕ
  pub break_in : Option BreakInKind
  pub power_changed : Bool
  pub break_in_changed : Bool

pub record Arm : Type 0 where
  pub owner : ℕ
  pub callsign : Text
  pub cap : ℕ
  pub power_raw : ℕ
  pub wpm : ℕ
  pub last_activity : ℕ
  pub last_id : Option ℕ
  pub id_first : Bool

pub record Job : Type 0 where
  pub id : ℕ
  pub text : Text
  pub operator : Text
  pub id_text : Option Text
  pub total : ℕ
  pub sent : ℕ
  pub started : ℕ
  pub deadline : ℕ
  pub has_id : Bool
  pub id_first : Bool
  pub id_sent : Bool
  pub chunk_in_radio : Bool

pub data After : Type 0 where
  stay_armed : After
  restore : (reason : DisarmReason) (ticket : Option ℕ) → After

pub data Activity : Type 0 where
  idle : Activity
  arming : (ticket owner : ℕ) (callsign : Text) (cap wpm : ℕ) → Activity
  sending : (job : Job) → Activity
  stopping : (job : ℕ) (reason : StopReason) (message : Option Message) (next : After) → Activity
  restoring :
      (reason : DisarmReason) (ticket : Option ℕ) (attempts : ℕ) (last_error : Option Message)
      (retry_at : Option ℕ)
      → Activity

pub record CwSupervisor : Type 0 where
  pub send_text : Option CwSendText
  pub gate : Option TxGateCapability
  pub slowest_wpm : ℕ
  pub config : CwConfig
  pub arm : Option Arm
  pub activity : Activity
  pub plan : List Step
  pub outstanding : Option Step
  pub ready_retry_at : Option ℕ
  pub snap : Snapshot
  pub keyed_until : Option ℕ
  pub notices : List CwNotice
  pub next_ticket : ℕ
  pub next_job : ℕ
  pub last_sender : SenderState
  pub shutting_down : Bool
  pub id_owed : Option Text

-- `Snapshot::default()`.
abbrev pub no_snapshot : Snapshot
no_snapshot = record {
  power = none;
  break_in = none;
  power_changed = false;
  break_in_changed = false;
}

abbrev pub new : CwCapability → CwConfig → CwSupervisor
new capability config = record {
  send_text = capability.send_text;
  gate = capability.tx_gate;
  slowest_wpm = (elim capability.keyer_wpm [ none ↦ 5 | some r ↦ max r.least 1 ]);
  config = config;
  arm = none;
  activity = Activity.idle;
  plan = [];
  outstanding = none;
  ready_retry_at = none;
  snap = no_snapshot;
  keyed_until = none;
  notices = [];
  next_ticket = 1;
  next_job = 1;
  last_sender = SenderState.idle;
  shutting_down = false;
  id_owed = none;
}
