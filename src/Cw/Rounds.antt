-- ===== src/Cw/Rounds.antt =====
-- The loop of `next_action` ends by itself.
use radio_cat_rs.Base.{
  ℕ, zero, suc, ◌+◌, ◌≤◌, ◌<◌, Bool, true, false, ◌≡◌, refl, none, some, List, [], ◌∷◌, ◌++◌,
  Option-cases, inl, inr, ◌⊎◌, arith,
}
use radio_cat_rs.Cw.State.{CwSupervisor, Activity, Step, Snapshot}
use radio_cat_rs.Cw.Stopping.{notify, plan_restore, start_restore, power_steps, break_in_steps}
use radio_cat_rs.Cw.Driving.{finish, issue, round, rounds}

-- The waits in front of a plan.
abbrev pub waits : List Step → ℕ
waits (Step.wait_keyed margin ∷ plan) = suc (waits plan)
waits _ = 0

-- What the activities that may follow without a step for the radio can take.
abbrev phase : Activity → ℕ
phase Activity.idle = 1
phase (Activity.arming _ _ _ _ _) = 1
phase (Activity.sending _) = 2
phase (Activity.stopping _ _ _ _) = 4
phase (Activity.restoring _ _ _ _ none) = 1
phase (Activity.restoring _ _ _ _ (some at)) = 3

abbrev left : CwSupervisor → ℕ
left s = waits s.plan + phase s.activity

waits-restore : (snap : Snapshot) → waits (power_steps snap ++ break_in_steps snap) ≡ 0
waits-restore snap = ground arith

-- A plan that has run out.
left-finish :
    (now : ℕ) (s : CwSupervisor)
    → s.plan ≡ []
    → (finish now s).1 ≡ true
    → left (finish now s).0 < left s
unfolding finish notify start_restore plan_restore
left-finish now s empty more = ground (arith, waits-restore s.snap)

List-cases :
    (plan : List Step) → (plan ≡ []) ⊎ ((first : Step) × (rest : List Step) × (plan ≡ first ∷ rest))
List-cases [] = inl refl
List-cases (first ∷ rest) = inr (first, rest, refl)

left-round : (now : ℕ) (s : CwSupervisor) → (round now s).1 ≡ none → left (round now s).0 < left s
unfolding round issue
left-round now s more = elim (List-cases s.plan) [
  | inl empty ↦ ground (arith, left-finish now s empty)
  | inr (first, plan, planned) ↦ ground arith
]

phase_pos : (a : Activity) → 0 < phase a
phase_pos Activity.idle = ground arith
phase_pos (Activity.arming _ _ _ _ _) = ground arith
phase_pos (Activity.sending _) = ground arith
phase_pos (Activity.stopping _ _ _ _) = ground arith
phase_pos (Activity.restoring _ _ _ _ none) = ground arith
phase_pos (Activity.restoring _ _ _ _ (some at)) = ground arith

-- Whether one of the next rounds leaves the loop.
unfoldable pub leaves : ℕ → ℕ → CwSupervisor → Bool
leaves zero now s = false
leaves (suc n) now s =
    let (s', returned) = round now s in
    let later = leaves n now s' in elim returned [ some _ ↦ true | none ↦ later ]

rounds-left : (n k now : ℕ) (s : CwSupervisor) → left s ≤ n → rounds (n + k) now s ≡ rounds n now s
unfolding rounds
rounds-left zero k now s enough = absurd (ground (arith, phase_pos s.activity))
rounds-left (suc n) k now s enough = elim (Option-cases (round now s).1) [
  | inl more ↦ grind (arith, left-round now s more, rounds-left n k now (round now s).0)
  | inr (a, returned) ↦ grind arith
]

leaves-left : (n now : ℕ) (s : CwSupervisor) → left s ≤ n → leaves n now s ≡ true
unfolding leaves
leaves-left zero now s enough = absurd (ground (arith, phase_pos s.activity))
leaves-left (suc n) now s enough = elim (Option-cases (round now s).1) [
  | inl more ↦ grind (arith, left-round now s more, leaves-left n now (round now s).0)
  | inr (a, returned) ↦ grind arith
]

phase_bound : (a : Activity) → phase a ≤ 4
phase_bound Activity.idle = ground arith
phase_bound (Activity.arming _ _ _ _ _) = ground arith
phase_bound (Activity.sending _) = ground arith
phase_bound (Activity.stopping _ _ _ _) = ground arith
phase_bound (Activity.restoring _ _ _ _ none) = ground arith
phase_bound (Activity.restoring _ _ _ _ (some at)) = ground arith

-- From a supervisor with at most 60 waits for the key in front of its plan, a round among the
-- first 64 leaves the loop of `next_action`, and more rounds than 64 change nothing.
pub rounds_enough :
    (k now : ℕ) (s : CwSupervisor)
    → waits s.plan ≤ 60
    → (leaves 64 now s ≡ true) × (rounds (64 + k) now s ≡ rounds 64 now s)
rounds_enough k now s short =
    let enough : left s ≤ 64 = ground (arith, phase_bound s.activity) in
    (leaves-left 64 now s enough, rounds-left 64 k now s enough)
