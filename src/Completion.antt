-- ===== src/Completion.antt =====
-- cat-transport-core/src/completion.rs: a slot through which a thread hands one value to a future. The
-- sender and the receiver run on two threads; a move holds one of the two locks, once.
pub mod Delivery
mod Tests
use radio_cat_rs.Base.{Bool, true, false, Option, none, some, List, [], ◌∷◌, Result, ok, err}

pub data Slot (A : Type 0) : Type 0 where
  empty : Slot A
  value : A → Slot A
  canceled : Slot A

-- `Completion`: whether a waker is registered, and the slot.
pub record Shared (A : Type 0) : Type 0 where
  pub slot : Slot A
  pub waker : Bool

pub data Canceled : Type 0 where
  was_canceled : Canceled

-- Where the sender stands: with the handle, in `send` before the wake, at the end of `send` before the
-- drop of the handle, in the drop before the wake, and behind it.
pub data Sender : Type 0 where
  holding : Sender
  stored : Sender
  dropping : Sender
  canceling : Sender
  gone : Sender

-- Where the receiver stands: about to poll, in `poll` between the look at the slot and the registration of
-- its waker, suspended, and done. A suspended task is polled again once it was woken.
pub data Receiver (A : Type 0) : Type 0 where
  polling : Receiver A
  found_empty : Receiver A
  suspended : (woken : Bool) → Receiver A
  done : Result Canceled A → Receiver A

pub record System (A : Type 0) : Type 0 where
  pub shared : Shared A
  pub sender : Sender
  pub receiver : Receiver A

-- `channel`.
abbrev pub channel : {A : Type 0} → System A
channel = record {
  shared = record { slot = Slot.empty; waker = false };
  sender = holding;
  receiver = polling;
}

pub data Move (A : Type 0) : Type 0 where
  stores : A → Move A
  wakes : Move A
  drops : Move A
  polls : Move A
  registers : Move A
  resumes : Move A

abbrev pub wake_task : {A : Type 0} → Receiver A → Receiver A
wake_task (suspended woken) = suspended true
wake_task polling = polling
wake_task found_empty = found_empty
wake_task (done result) = done result

-- `wake_if_registered`: the waker is taken.
unfoldable pub wake_if_registered : {A : Type 0} → Sender → System A → System A
wake_if_registered next s = elim s.shared.waker [
  | true ↦ record {
    shared = record (s.shared) { waker = false };
    sender = next;
    receiver = wake_task s.receiver;
  }
  | false ↦ record s { sender = next }
]

-- `Drop::drop`: an empty slot is canceled.
unfoldable pub drop_sender : {A : Type 0} → System A → System A
drop_sender s = elim s.shared.slot [
  | Slot.empty ↦ record s {
    shared = record (s.shared) { slot = Slot.canceled };
    sender = canceling;
  }
  | Slot.value a ↦ record s { sender = gone }
  | Slot.canceled ↦ record s { sender = gone }
]

-- The look of `poll`: what is in the slot is taken out of it.
unfoldable pub poll : {A : Type 0} → System A → System A
poll s =
    let emptied = record (s.shared) { slot = Slot.empty } in
    elim s.shared.slot [
      | Slot.empty ↦ record s { shared = emptied; receiver = found_empty }
      | Slot.value a ↦ record s { shared = emptied; receiver = done (ok a) }
      | Slot.canceled ↦ record s { shared = emptied; receiver = done (err was_canceled) }
    ]

-- A move, where the thread that makes it stands at it.
unfoldable pub step : {A : Type 0} → Move A → System A → Option (System A)
step (stores a) s = elim s.sender [
  | holding ↦
      some (record s { shared = record (s.shared) { slot = Slot.value a }; sender = stored })
  | _ ↦ none
]
step wakes s = elim s.sender [
  | stored ↦ some (wake_if_registered dropping s)
  | canceling ↦ some (wake_if_registered gone s)
  | _ ↦ none
]
step drops s = elim s.sender [
  | holding ↦ some (drop_sender s)
  | dropping ↦ some (drop_sender s)
  | _ ↦ none
]
step polls s = elim s.receiver [ polling ↦ some (poll s) | _ ↦ none ]
step registers s = elim s.receiver [
  | found_empty ↦
      some (record s { shared = record (s.shared) { waker = true }; receiver = suspended false })
  | _ ↦ none
]
step resumes s = elim s.receiver [
  | suspended woken ↦ elim woken [ true ↦ some (record s { receiver = polling }) | false ↦ none ]
  | _ ↦ none
]

unfoldable pub run : {A : Type 0} → List (Move A) → System A → Option (System A)
run [] s = some s
run (move ∷ moves) s = elim (step move s) [ none ↦ none | some s' ↦ run moves s' ]
