-- ===== src/Completion/Tests.antt =====
-- The slot in turns that deliver.
use radio_cat_rs.Base.{ℕ, false, ◌≡◌, ◌⊎◌, refl, none, some, List, [], ◌∷◌, ok}
use radio_cat_rs.Completion.{
  Slot, gone, suspended, done, System, channel, Move, stores, wakes, drops, polls, registers,
  resumes, wake_if_registered, drop_sender, poll, step, run,
}
use radio_cat_rs.Completion.Delivery.{stored_by, outcome, got, run_delivers, unlucky, run_unlucky}

abbrev lucky : List (Move ℕ)
lucky = polls ∷ registers ∷ stores 7 ∷ wakes ∷ resumes ∷ polls ∷ drops ∷ wakes ∷ []

-- The drop comes behind the poll, which emptied the slot, and cancels it.
abbrev delivered : System ℕ
delivered = record {
  shared = record { slot = Slot.canceled; waker = false };
  sender = gone;
  receiver = done (ok 7);
}

run_lucky : run lucky channel ≡ some delivered
unfolding run step wake_if_registered drop_sender poll
run_lucky = refl

run_delivers_example :
    (got delivered.receiver ≡ none)
    ⊎ (got delivered.receiver ≡ some (outcome (stored_by lucky none)))
run_delivers_example = run_delivers lucky run_lucky

run_unlucky_example :
    (s : System ℕ) × (run (unlucky 7) channel ≡ some s)
    × (s.shared.slot ≡ Slot.value 7)
    × (s.sender ≡ gone)
    × (s.receiver ≡ suspended false)
    × ((move : Move ℕ) → step move s ≡ none)
run_unlucky_example = run_unlucky 7
