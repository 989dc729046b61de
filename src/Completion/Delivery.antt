-- ===== src/Completion/Delivery.antt =====
-- What the receiver gets, and when it gets nothing.
use radio_cat_rs.Base.{
  Bool, true, false, ◌≡◌, refl, subst, Option, none, some, List, [], ◌∷◌, ◌||◌, ◌⊎◌, Result, ok,
  err, Option-cases, inl, inr, arith,
}
use radio_cat_rs.Completion.{
  Slot, Canceled, was_canceled, Sender, holding, canceling, gone, Receiver, suspended, done, System,
  channel, Move, stores, wakes, drops, polls, registers, resumes, wake_if_registered, drop_sender,
  poll, step, run,
}

-- The value that has been stored.
abbrev pub stored_after : {A : Type 0} → Move A → Option A → Option A
stored_after (stores a) sent = some a
stored_after _ sent = sent

unfoldable pub stored_by : {A : Type 0} → List (Move A) → Option A → Option A
stored_by [] sent = sent
stored_by (move ∷ moves) sent = stored_by moves (stored_after move sent)

-- What a poll that ends the wait gives.
abbrev pub outcome : {A : Type 0} → Option A → Result Canceled A
outcome (some a) = ok a
outcome none = err was_canceled

abbrev is_holding : Sender → Bool
is_holding holding = true
is_holding _ = false

-- Behind a drop that canceled.
abbrev has_ended : Sender → Bool
has_ended canceling = true
has_ended gone = true
has_ended _ = false

abbrev is_canceling : Sender → Bool
is_canceling canceling = true
is_canceling _ = false

abbrev waits : {A : Type 0} → Receiver A → Bool
waits (done result) = false
waits _ = true

abbrev pub got : {A : Type 0} → Receiver A → Option (Result Canceled A)
got (done result) = some result
got _ = none

-- A receiver that waits has before it what the sender put there; one that is done has taken it.
abbrev Stands : {A : Type 0} → Option A → System A → Type 0
Stands (some a) s =
    ((waits s.receiver ≡ true)
      × (s.shared.slot ≡ Slot.value a)
      × ((is_holding s.sender || is_canceling s.sender) ≡ false))
    ⊎ ((got s.receiver ≡ some (ok a)) × (is_holding s.sender ≡ false))
Stands none s =
    ((waits s.receiver ≡ true) × (s.sender ≡ holding) × (s.shared.slot ≡ Slot.empty))
    ⊎ (((waits s.receiver ≡ true) × (has_ended s.sender ≡ true) × (s.shared.slot ≡ Slot.canceled))
        ⊎ ((got s.receiver ≡ some (err was_canceled))
            × (has_ended s.sender ≡ true)
            × (s.shared.slot ≡ Slot.empty)))

step-Stands :
    {A : Type 0} (move : Move A) (sent : Option A) (s : System A) {s' : System A}
    → Stands sent s
    → step move s ≡ some s'
    → Stands (stored_after move sent) s'
unfolding step wake_if_registered drop_sender poll
step-Stands (stores a) none s stands moved = ground arith
step-Stands (stores a) (some b) s stands moved = ground arith
step-Stands wakes none s stands moved = ground arith
step-Stands wakes (some b) s stands moved = ground arith
step-Stands drops none s stands moved = ground arith
step-Stands drops (some b) s stands moved = ground arith
step-Stands polls none s stands moved = ground arith
step-Stands polls (some b) s stands moved = ground arith
step-Stands registers none s stands moved = ground arith
step-Stands registers (some b) s stands moved = ground arith
step-Stands resumes none s stands moved = ground arith
step-Stands resumes (some b) s stands moved = ground arith

some_inj : {A : Type 0} {x y : A} → ◌≡◌ {A = Option A} (some x) (some y) → x ≡ y
some_inj h = cc

Stands-got :
    {A : Type 0} (sent : Option A) (s : System A)
    → Stands sent s
    → (got s.receiver ≡ none) ⊎ (got s.receiver ≡ some (outcome sent))
Stands-got none s stands = ground arith
Stands-got (some a) s stands = ground arith

run-Stands :
    {A : Type 0} (moves : List (Move A)) (sent : Option A) (s : System A) {s' : System A}
    → Stands sent s
    → run moves s ≡ some s'
    → Stands (stored_by moves sent) s'
unfolding run stored_by
run-Stands [] sent s stands ran = subst (Stands sent) (some_inj ran) stands
run-Stands (move ∷ moves) sent s stands ran = elim (Option-cases (step move s)) [
  | inl stuck ↦ ground (arith, stuck, ran)
  | inr (next, moved) ↦
      run-Stands moves (stored_after move sent) next (step-Stands move sent s stands moved)
        (ground (arith, moved, ran))
]

-- However the two threads take turns: a receiver that is done got the value that was stored, and a
-- cancellation only where none was.
pub run_delivers :
    {A : Type 0} (moves : List (Move A)) {s : System A}
    → run moves channel ≡ some s
    → (got s.receiver ≡ none) ⊎ (got s.receiver ≡ some (outcome (stored_by moves none)))
run_delivers moves {s} ran =
    Stands-got (stored_by moves none) s (run-Stands moves none channel (inl (refl, refl, refl)) ran)

-- The turns in which the sender stores, wakes and drops while the receiver, which has found the slot empty,
-- has not yet registered its waker.
abbrev pub unlucky : {A : Type 0} → A → List (Move A)
unlucky a = polls ∷ stores a ∷ wakes ∷ drops ∷ registers ∷ []

-- What they leave.
abbrev asleep : {A : Type 0} → A → System A
asleep a = record {
  shared = record { slot = Slot.value a; waker = true };
  sender = gone;
  receiver = suspended false;
}

step-asleep : {A : Type 0} (a : A) (move : Move A) → step move (asleep a) ≡ none
unfolding step
step-asleep a (stores b) = refl
step-asleep a wakes = refl
step-asleep a drops = refl
step-asleep a polls = refl
step-asleep a registers = refl
step-asleep a resumes = refl

-- A lost wake-up, with every value: in these turns the value ends in the slot, the sender is gone, the
-- receiver is suspended, and no thread has a move any more.
pub run_unlucky :
    {A : Type 0} (a : A)
    → (s : System A) × (run (unlucky a) channel ≡ some s)
      × (s.shared.slot ≡ Slot.value a)
      × (s.sender ≡ gone)
      × (s.receiver ≡ suspended false)
      × ((move : Move A) → step move s ≡ none)
unfolding run step wake_if_registered drop_sender poll
run_unlucky a = (asleep a, refl, refl, refl, refl, step-asleep a)
