-- ===== src/Rigctl/Shared.antt =====
-- cat-rigctl/src/native_bridge.rs: the cached reading of the radio, `Cache` of `NativeShared`, which the
-- pump refreshes and every client of the radio reads. Its mutex is held through each operation. A time
-- is a number of milliseconds, and `elapsed` of a time to come is 0.
pub mod Measured
use radio_cat_rs.Base.{
  ℕ, ◌+◌, ◌-◌, ◌%◌, ◌^◌, Bool, true, false, not, ◌&&◌, List, [], ◌∷◌, ltb, leb, ◌==◌, if◌then◌else◌,
  Option, none, some,
}
use radio_cat_rs.Native.{RadioState, Command}

pub record Cache (State : Type 0) : Type 0 where
  pub state : Option State
  pub taken : Option ℕ
  pub assumed : Bool
  pub generation : ℕ

abbrev pub u64_mod : ℕ
u64_mod = 2 ^ 64

-- `Some(taken) if taken.elapsed() <= max_age`.
abbrev pub is_recent : Option ℕ → ℕ → ℕ → Bool
is_recent none max_age now = false
is_recent (some taken) max_age now = leb (now - taken) max_age

module _ {State : Type 0} where
  abbrev pub empty_cache : Cache State
  empty_cache = record { state = none; taken = none; assumed = false; generation = 0 }

  -- `publish_state`.
  unfoldable pub publish_state : Option State → ℕ → ℕ → Cache State → Cache State
  publish_state none taken_at generation c = c
  publish_state (some state) taken_at generation c =
      if c.generation == generation
      then record c { state = some state; taken = some taken_at; assumed = false }
      else c

  abbrev pub change_some : (State → State) → Option State → Option State
  change_some change none = none
  change_some change (some state) = some (change state)

  -- `patch_state`, whose generation wraps.
  unfoldable pub patch_state : (State → State) → Cache State → Cache State
  patch_state change c = record c {
    generation = (c.generation + 1) % u64_mod;
    assumed = true;
    state = change_some change c.state;
  }

  -- `recent_state`, at the time `now`.
  unfoldable pub recent_state : ℕ → ℕ → Cache State → Option State
  recent_state max_age now c = if is_recent c.taken max_age now then c.state else none

  -- `measured_state`, at the time `now`.
  unfoldable pub measured_state : ℕ → ℕ → Cache State → Option State
  measured_state max_age now c =
      if c.assumed then none else if is_recent c.taken max_age now then c.state else none

-- `poll_interval`.
unfoldable pub poll_interval : {Whole : Type 0} → ℕ → Cache (RadioState Whole) → ℕ → ℕ → ℕ
poll_interval consoles c watching idle =
    let transmitting : Bool = elim c.state [ none ↦ false | some s ↦ s.transmitting ] in
    if ltb 0 consoles && not transmitting then watching else idle

-- What happens: the pump begins a poll (`pump_once` notes the generation and the time), the radio answers
-- it, a client of the cached radio that set something patches the state, and the pump applies a
-- console's command to the radio, which the cache hears nothing of until the next poll.
pub data Event (State : Type 0) : Type 0 where
  poll_begins : (now : ℕ) → Event State
  poll_ends : (answer : Option State) → Event State
  patched : (change : State → State) → Event State
  applied : (command : Command) → Event State

-- What the radio answered to a poll, with the levels that the pump keeps put in their place.
abbrev pub poll_answered :
    {Whole : Type 0} → Option (RadioState Whole) → Option Whole → Event (RadioState Whole)
poll_answered none levels = poll_ends none
poll_answered (some state) levels = poll_ends (some (record state { levels = levels }))

-- The cache, and the time and generation of the poll that is on the wire.
pub record Bridge (State : Type 0) : Type 0 where
  pub cache : Cache State
  pub poll : Option (ℕ × ℕ)

module _ {State : Type 0} where
  abbrev pub new_bridge : Bridge State
  new_bridge = record { cache = empty_cache; poll = none }

  -- `pump_once` around `radio.state()`: one poll at a time, filed as of its begin.
  unfoldable pub end_poll : Option State → Option (ℕ × ℕ) → Cache State → Cache State
  end_poll answer none c = c
  end_poll answer (some (taken_at, generation)) c = publish_state answer taken_at generation c

  unfoldable pub happen : Event State → Bridge State → Bridge State
  unfolding end_poll
  happen (poll_begins now) b = record b { poll = some (now, b.cache.generation) }
  happen (poll_ends answer) b = record b { cache = end_poll answer b.poll b.cache; poll = none }
  happen (patched change) b = record b { cache = patch_state change b.cache }
  happen (applied command) b = b

  -- A log of events, the latest first.
  unfoldable pub replay : List (Event State) → Bridge State → Bridge State
  replay [] b = b
  replay (event ∷ log) b = happen event (replay log b)
