-- ===== src/Ui/Lanes.antt =====
-- `CatLane` of cat-ui/src/lanes.rs: the commands that a console has sent and not yet heard of, and the meter
-- readings. The values that are only stored, such as the dial, are left out. A token has no upper bound.
use radio_cat_rs.Base.{
  ℕ, ◌+◌, Bool, true, false, List, [], ◌∷◌, ◌++◌, ltb, ◌==◌, if◌then◌else◌, length, drop, any,
  Option, none, some,
}
use radio_cat_rs.Framework.Capabilities.{MeterKind, same_meter}
pub mod Settling
pub mod History

-- `Control`.
pub data Control : Type 0 where
  vfo_frequency : (vfo : ℕ) → Control
  mode split filter_width if_shift notch memory_channel : Control
  meter : (kind : MeterKind) → Control

abbrev pub same_control : Control → Control → Bool
same_control (vfo_frequency a) (vfo_frequency b) = a == b
same_control (meter a) (meter b) = same_meter a b
same_control mode mode = true
same_control split split = true
same_control filter_width filter_width = true
same_control if_shift if_shift = true
same_control notch notch = true
same_control memory_channel memory_channel = true
same_control _ _ = false

pub data Outcome : Type 0 where
  confirmed rejected clamped : Outcome

pub record Pending : Type 0 where
  pub token : ℕ
  pub control : Control

pub record CatLane : Type 0 where
  pub in_flight : List Pending
  pub next_token : ℕ
  pub last_outcome : List (Control × Outcome)
  pub meters : List (MeterKind × ℕ)
  pub meter_history : List (MeterKind × List ℕ)
  pub history_len : ℕ

abbrev pub with_history : ℕ → CatLane
with_history history_len = record {
  in_flight = [];
  next_token = 0;
  last_outcome = [];
  meters = [];
  meter_history = [];
  history_len = history_len;
}

unfoldable pub begin : Control → CatLane → CatLane × ℕ
begin control lane =
    let token = lane.next_token + 1 in
    (
      record lane {
        next_token = token;
        in_flight = lane.in_flight ++ (record { token = token; control = control } ∷ []);
      },
      token,
    )

-- `position` and `remove`: the command with the token, and the rest.
unfoldable pub remove : ℕ → List Pending → Option (Control × List Pending)
remove token [] = none
remove token (p ∷ pending) =
    let rest = remove token pending in
    if p.token == token
    then some (p.control, pending)
    else elim rest [ none ↦ none | some (control, others) ↦ some (control, p ∷ others) ]

unfoldable pub note : Control → Outcome → List (Control × Outcome) → List (Control × Outcome)
note control outcome [] = (control, outcome) ∷ []
note control outcome ((c, o) ∷ outcomes) = elim (same_control c control) [
  | true ↦ (c, outcome) ∷ outcomes
  | false ↦ (c, o) ∷ note control outcome outcomes
]

unfoldable pub resolve : ℕ → Outcome → CatLane → CatLane × Option Control
unfolding remove note
resolve token outcome lane = elim (remove token lane.in_flight) [
  | none ↦ (lane, none)
  | some (control, others) ↦ (
    record lane { in_flight = others; last_outcome = note control outcome lane.last_outcome },
    some control,
  )
]

unfoldable pub is_pending : Control → CatLane → Bool
is_pending control lane = any (λ (p : Pending). same_control p.control control) lane.in_flight

unfoldable pub outcome_in : Control → List (Control × Outcome) → Option Outcome
outcome_in control [] = none
outcome_in control ((c, o) ∷ outcomes) = elim (same_control c control) [
  | true ↦ some o
  | false ↦ outcome_in control outcomes
]

-- `outcome`.
abbrev pub outcome : Control → CatLane → Option Outcome
outcome control lane = outcome_in control lane.last_outcome

unfoldable pub store : MeterKind → ℕ → List (MeterKind × ℕ) → List (MeterKind × ℕ)
store kind raw [] = (kind, raw) ∷ []
store kind raw ((k, v) ∷ meters) = elim (same_meter k kind) [
  | true ↦ (k, raw) ∷ meters
  | false ↦ (k, v) ∷ store kind raw meters
]

-- `entry.1.push(raw)`, and the oldest goes when there are too many.
unfoldable pub push_reading : ℕ → ℕ → List ℕ → List ℕ
push_reading history_len raw readings =
    let longer = readings ++ (raw ∷ []) in
    if ltb history_len (length longer) then drop 1 longer else longer

unfoldable pub push_history :
    ℕ → MeterKind → ℕ → List (MeterKind × List ℕ) → List (MeterKind × List ℕ)
unfolding push_reading
push_history history_len kind raw [] = (kind, push_reading history_len raw []) ∷ []
push_history history_len kind raw ((k, readings) ∷ history) = elim (same_meter k kind) [
  | true ↦ (k, push_reading history_len raw readings) ∷ history
  | false ↦ (k, readings) ∷ push_history history_len kind raw history
]

unfoldable pub set_meter : MeterKind → ℕ → CatLane → CatLane
unfolding store push_history
set_meter kind raw lane =
    let stored = record lane { meters = store kind raw lane.meters } in
    if lane.history_len == 0
    then stored
    else record stored { meter_history = push_history lane.history_len kind raw lane.meter_history }

unfoldable pub history_in : MeterKind → List (MeterKind × List ℕ) → List ℕ
history_in kind [] = []
history_in kind ((k, readings) ∷ history) = elim (same_meter k kind) [
  | true ↦ readings
  | false ↦ history_in kind history
]

-- `meter_history`.
abbrev pub readings_of : MeterKind → CatLane → List ℕ
readings_of kind lane = history_in kind lane.meter_history
