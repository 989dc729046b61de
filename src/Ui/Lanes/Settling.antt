-- ===== src/Ui/Lanes/Settling.antt =====
-- Which commands of a console are still open.
use radio_cat_rs.Base.{
  ℕ, ◌+◌, ◌≤◌, ◌<◌, Bool, true, false, ◌||◌, ◌≡◌, refl, sym, ap, ◌∙◌, List, [], ◌∷◌, ◌++◌,
  append_assoc, append-nil, ◌==◌, if◌then◌else◌, any, Option, none, some, arith, Bool-cases,
  Option-cases, inl, inr,
}
use radio_cat_rs.Ui.Lanes.{
  Control, Outcome, Pending, CatLane, with_history, begin, remove, resolve, is_pending,
  same_control,
}

-- What happens to the lane: a command is sent, or the outcome for a token is heard.
pub data Event : Type 0 where
  sends : Control → Event
  hears : (token : ℕ) → Outcome → Event

unfoldable pub happen : Event → CatLane → CatLane
happen (sends control) lane = (begin control lane).0
happen (hears token outcome) lane = (resolve token outcome lane).0

unfoldable pub run : List Event → CatLane → CatLane
unfolding happen
run [] lane = lane
run (event ∷ log) lane = run log (happen event lane)

-- Whether an outcome for the token comes.
abbrev pub is_heard : ℕ → List Event → Bool
is_heard token [] = false
is_heard token (sends control ∷ log) = is_heard token log
is_heard token (hears t outcome ∷ log) = (t == token) || is_heard token log

-- The commands sent from the token behind `n` on for which no outcome comes later.
abbrev pub unheard : ℕ → List Event → List Pending
unheard n [] = []
unheard n (sends control ∷ log) =
    if is_heard (n + 1) log
    then unheard (n + 1) log
    else record { token = n + 1; control = control } ∷ unheard (n + 1) log
unheard n (hears t outcome ∷ log) = unheard n log

-- Those of some commands for which no outcome comes.
still_open : List Event → List Pending → List Pending
still_open log [] = []
still_open log (p ∷ pending) =
    if is_heard p.token log then still_open log pending else p ∷ still_open log pending

still_open-append :
    (log : List Event) (a b : List Pending)
    → still_open log (a ++ b) ≡ still_open log a ++ still_open log b
unfolding still_open
still_open-append log [] b = refl
still_open-append log (p ∷ a) b = elim (Bool-cases (is_heard p.token log)) [
  | inl e ↦ rw e (still_open-append log a b)
  | inr e ↦ rw e (ap (◌∷◌ p) (still_open-append log a b))
]

still_open-sends :
    (control : Control) (log : List Event) (pending : List Pending)
    → still_open (sends control ∷ log) pending ≡ still_open log pending
unfolding still_open
still_open-sends control log [] = refl
still_open-sends control log (p ∷ pending) =
    ap (λ r. if is_heard p.token log then r else p ∷ r) (still_open-sends control log pending)

still_open-one :
    (p : Pending) (log : List Event) (tail : List Pending)
    → still_open log (p ∷ []) ++ tail ≡ (if is_heard p.token log then tail else p ∷ tail)
unfolding still_open
still_open-one p log tail = elim (Bool-cases (is_heard p.token log)) [
  | inl e ↦ rw e refl
  | inr e ↦ rw e refl
]

still_open-nil : (pending : List Pending) → still_open [] pending ≡ pending
unfolding still_open
still_open-nil [] = refl
still_open-nil (p ∷ pending) = ap (◌∷◌ p) (still_open-nil pending)

-- Tokens that grow, from above one bound and up to another.
Grows : ℕ → ℕ → List Pending → Type 0
Grows low high [] = low ≤ high
Grows low high (p ∷ pending) = (low < p.token) × Grows p.token high pending

Grows-append :
    (low high : ℕ) (pending : List Pending) (control : Control)
    → Grows low high pending
    → Grows low (high + 1) (pending ++ (record { token = high + 1; control = control } ∷ []))
unfolding Grows
Grows-append low high [] control grows = (omega arith, omega arith)
Grows-append low high (p ∷ pending) control (lt, grows) =
    (lt, Grows-append p.token high pending control grows)

Grows-lower :
    (low low' high : ℕ) (pending : List Pending)
    → low' ≤ low
    → Grows low high pending
    → Grows low' high pending
unfolding Grows
Grows-lower low low' high [] le grows = omega arith
Grows-lower low low' high (p ∷ pending) le (lt, grows) = (omega arith, grows)

-- What an answer leaves.
abbrev others : Option (Control × List Pending) → List Pending → List Pending
others none pending = pending
others (some (control, rest)) pending = rest

others_lem :
    (token : ℕ) (p : Pending) (pending : List Pending)
    → (p.token == token) ≡ false
    → others (remove token (p ∷ pending)) (p ∷ pending) ≡ p ∷ others (remove token pending) pending
unfolding remove
others_lem token p pending other = elim (Option-cases (remove token pending)) [
  | inl e ↦ rw (other, remove) (rw (e, remove) refl)
  | inr ((control, rest), e) ↦ rw (other, remove) (rw (e, remove) refl)
]

others_here :
    (token : ℕ) (p : Pending) (pending : List Pending)
    → (p.token == token) ≡ true
    → others (remove token (p ∷ pending)) (p ∷ pending) ≡ pending
unfolding remove
others_here token p pending here = rw (here, remove) refl

-- An answer to a token below all of them is for none.
still_open-below :
    (token low high : ℕ) (outcome : Outcome) (log : List Event) (pending : List Pending)
    → token ≤ low
    → Grows low high pending
    → still_open (hears token outcome ∷ log) pending ≡ still_open log pending
unfolding still_open Grows
still_open-below token low high outcome log [] below grows = refl
still_open-below token low high outcome log (p ∷ pending) below (lt, grows) =
    let rest = still_open-below token p.token high outcome log pending (omega arith) grows in
    let other : (token == p.token) ≡ false = ground arith in
    rw other (ap (λ r. if is_heard p.token log then r else p ∷ r) rest)

Grows-others :
    (token low high : ℕ) (pending : List Pending)
    → Grows low high pending
    → Grows low high (others (remove token pending) pending)
unfolding Grows
Grows-others token low high [] grows = unfold remove in grows
Grows-others token low high (p ∷ pending) (lt, grows) = elim (Bool-cases (p.token == token)) [
  | inl here ↦
      rw (others_here token p pending here)
        (Grows-lower p.token low high pending (omega arith) grows)
  | inr other ↦
      rw (others_lem token p pending other) (lt, Grows-others token p.token high pending grows)
]

still_open-others :
    (token low high : ℕ) (outcome : Outcome) (log : List Event) (pending : List Pending)
    → Grows low high pending
    → still_open log (others (remove token pending) pending)
      ≡ still_open (hears token outcome ∷ log) pending
unfolding still_open Grows
still_open-others token low high outcome log [] grows = unfold remove in refl
still_open-others token low high outcome log (p ∷ pending) (lt, grows) =
    elim (Bool-cases (p.token == token)) [
      | inl here ↦
          let here' : (token == p.token) ≡ true = ground arith in
          rw (others_here token p pending here) (
            rw here'
              (sym (still_open-below token p.token high outcome log pending (ground arith) grows)))
      | inr other ↦
          let other' : (token == p.token) ≡ false = ground arith in
          rw (others_lem token p pending other) (
            rw other' (
              ap (λ r. if is_heard p.token log then r else p ∷ r)
                (still_open-others token p.token high outcome log pending grows)))
    ]

resolve-in_flight :
    (token : ℕ) (outcome : Outcome) (lane : CatLane)
    → ((resolve token outcome lane).0.in_flight
        ≡ others (remove token lane.in_flight) lane.in_flight)
      × ((resolve token outcome lane).0.next_token ≡ lane.next_token)
unfolding resolve
resolve-in_flight token outcome lane = elim (Option-cases (remove token lane.in_flight)) [
  | inl e ↦ (rw (e, resolve) refl, rw (e, resolve) refl)
  | inr ((control, rest), e) ↦ (rw (e, resolve) refl, rw (e, resolve) refl)
]

run-in_flight :
    (log : List Event) (lane : CatLane)
    → Grows 0 lane.next_token lane.in_flight
    → (run log lane).in_flight ≡ still_open log lane.in_flight ++ unheard lane.next_token log
unfolding run begin
run-in_flight [] lane grows =
    sym (append-nil (still_open [] lane.in_flight) ∙ still_open-nil lane.in_flight)
run-in_flight (sends control ∷ log) lane grows =
    let n = lane.next_token in
    let p : Pending = record { token = n + 1; control = control } in
    let tail = unheard (n + 1) log in
    run-in_flight log (begin control lane).0 (Grows-append 0 n lane.in_flight control grows)
    ∙ ap (λ o. o ++ tail) (still_open-append log lane.in_flight (p ∷ []))
    ∙ append_assoc (still_open log lane.in_flight) (still_open log (p ∷ [])) tail
    ∙ ap (λ o. o ++ (still_open log (p ∷ []) ++ tail))
        (sym (still_open-sends control log lane.in_flight))
    ∙ ap (λ o. still_open (sends control ∷ log) lane.in_flight ++ o) (still_open-one p log tail)
run-in_flight (hears token outcome ∷ log) lane grows =
    let after = (resolve token outcome lane).0 in
    let (left, next) = resolve-in_flight token outcome lane in
    run-in_flight log after
      (rw (left, next) (Grows-others token 0 lane.next_token lane.in_flight grows))
    ∙ rw (left, next)
        (ap (λ o. o ++ unheard lane.next_token log)
          (still_open-others token 0 lane.next_token outcome log lane.in_flight grows))

-- Whatever commands are sent and answers heard, answers to unknown and to settled tokens among them: in
-- flight are, in order, the commands for which no answer has come since they were sent, and a control
-- is pending exactly while one of those is for it.
pub run-unheard :
    (log : List Event) (history_len : ℕ) (control : Control)
    → let lane = run log (with_history history_len) in
      (lane.in_flight ≡ unheard 0 log)
      × (is_pending control lane
          ≡ any (λ (p : Pending). same_control p.control control) (unheard 0 log))
unfolding is_pending Grows still_open
run-unheard log history_len control =
    let same = run-in_flight log (with_history history_len) (omega arith) in
    (same, ap (any (λ (p : Pending). same_control p.control control)) same)
