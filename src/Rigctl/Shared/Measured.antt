-- ===== src/Rigctl/Shared/Measured.antt =====
-- What `measured_state` hands out: an answer of the radio to a poll that no patch has overtaken.
use radio_cat_rs.Base.{
  ℕ, suc, ◌+◌, ◌-◌, ◌%◌, ◌≤◌, ◌<◌, false, ◌≡◌, ◌≢◌, ◌⊎◌, refl, ap, sym, ◌∙◌, List, [], ◌∷◌, ◌++◌,
  ◌==◌, Option, none, some, All, All-append, append_assoc, Bool, true, arith, Bool-cases, inl, inr,
  Option-cases,
}
use radio_cat_rs.Rigctl.Shared.{
  Cache, Event, poll_begins, poll_ends, patched, applied, Bridge, new_bridge, replay, happen,
  end_poll, publish_state, patch_state, measured_state, u64_mod,
}

module _ {State : Type 0} where
  abbrev pub IsQuiet : Event State → Type 0
  IsQuiet (patched change) = ⊥
  IsQuiet _ = Unit

  -- The sets of a log that its clients made through the cache, each of which patches it.
  abbrev pub sets : List (Event State) → ℕ
  sets [] = 0
  sets (patched change ∷ log) = suc (sets log)
  sets (poll_begins now ∷ log) = sets log
  sets (poll_ends answer ∷ log) = sets log
  sets (applied command ∷ log) = sets log

  pub sets-append : (a b : List (Event State)) → sets (a ++ b) ≡ sets a + sets b
  sets-append [] b = omega arith
  sets-append (patched change ∷ a) b = omega (arith, sets-append a b)
  sets-append (poll_begins now ∷ a) b = sets-append a b
  sets-append (poll_ends answer ∷ a) b = sets-append a b
  sets-append (applied command ∷ a) b = sets-append a b

  sets-IsQuiet : (log : List (Event State)) → sets log ≡ 0 → All IsQuiet log
  sets-IsQuiet [] h = tt
  sets-IsQuiet (patched change ∷ log) h = absurd (omega arith)
  sets-IsQuiet (poll_begins now ∷ log) h = (tt, sets-IsQuiet log h)
  sets-IsQuiet (poll_ends answer ∷ log) h = (tt, sets-IsQuiet log h)
  sets-IsQuiet (applied command ∷ log) h = (tt, sets-IsQuiet log h)

  end_poll-generation :
      (answer : Option State) (poll : Option (ℕ × ℕ)) (c : Cache State)
      → (end_poll answer poll c).generation ≡ c.generation
  unfolding end_poll publish_state
  end_poll-generation answer none c = refl
  end_poll-generation none (some (taken_at, generation)) c = refl
  end_poll-generation (some state) (some (taken_at, generation)) c = ground arith

  generation_lem :
      (log : List (Event State)) → (replay log new_bridge).cache.generation ≡ sets log % u64_mod
  unfolding replay happen patch_state
  generation_lem [] = refl
  generation_lem (poll_begins now ∷ log) = generation_lem log
  generation_lem (applied command ∷ log) = generation_lem log
  generation_lem (patched change ∷ log) = omega (arith, generation_lem log)
  generation_lem (poll_ends answer ∷ log) =
      let b = replay log new_bridge in
      end_poll-generation answer b.poll b.cache ∙ generation_lem log

  -- A poll that began at `t` when the generation was `g`, and has not ended.
  abbrev Pending : List (Event State) → ℕ → ℕ → Type 0
  Pending log t g =
      (since before : List (Event State)) × (log ≡ since ++ (poll_begins t ∷ before))
      × (g ≡ sets before % u64_mod)

  pending_lem :
      (log : List (Event State)) {t g : ℕ}
      → (replay log new_bridge).poll ≡ some (t, g)
      → Pending log t g
  unfolding replay happen
  pending_lem [] h = cc
  pending_lem (poll_begins now ∷ log) {t} {g} h =
      let time : now ≡ t = ground (arith, h) in
      let old : (replay log new_bridge).cache.generation ≡ g = ground (arith, h) in
      ([], log, ap (λ (n : ℕ). poll_begins n ∷ log) time, sym old ∙ generation_lem log)
  pending_lem (patched change ∷ log) h =
      let (since, before, e, f) = pending_lem log h in
      (patched change ∷ since, before, ap (◌∷◌ (patched change)) e, f)
  pending_lem (applied command ∷ log) h =
      let (since, before, e, f) = pending_lem log h in
      (applied command ∷ since, before, ap (◌∷◌ (applied command)) e, f)
  pending_lem (poll_ends answer ∷ log) h = cc

  -- The log has an answer `s` to a poll that began at `t`, and no set through the cache since that poll
  -- began; a console's command may have been applied since.
  abbrev pub Measured : List (Event State) → State → ℕ → Type 0
  Measured log s t =
      (after during before : List (Event State)) × (log
        ≡ after ++ (poll_ends (some s) ∷ (during ++ (poll_begins t ∷ before))))
      × All IsQuiet after
      × All IsQuiet during

  Measured-later :
      (event : Event State) (log : List (Event State)) {s : State} {t : ℕ}
      → IsQuiet event
      → Measured log s t
      → Measured (event ∷ log) s t
  Measured-later event log quiet (after, during, before, e, a, d) =
      (event ∷ after, during, before, ap (◌∷◌ event) e, (quiet, a), d)

  Measured-published :
      (log : List (Event State)) (s : State) {t g : ℕ}
      → sets log < u64_mod
      → (replay log new_bridge).poll ≡ some (t, g)
      → (replay log new_bridge).cache.generation ≡ g
      → Measured (poll_ends (some s) ∷ log) s t
  Measured-published log s {t} {g} few waits same =
      let (since, before, e, f) = pending_lem log waits in
      let whole : sets log ≡ sets since + sets before =
        ap sets e ∙ sets-append since (poll_begins t ∷ before) in
      (
        [],
        since,
        before,
        ap (◌∷◌ (poll_ends (some s))) e,
        tt,
        sets-IsQuiet since (omega (arith, generation_lem log)),
      )

  -- The end of a poll changes nothing, or publishes its answer.
  end_poll_cases :
      (answer : Option State) (poll : Option (ℕ × ℕ)) (c : Cache State)
      → (end_poll answer poll c ≡ c)
        ⊎ ((s : State) × (t : ℕ) × (answer ≡ some s)
            × (poll ≡ some (t, c.generation))
            × (end_poll answer poll c
                ≡ record c { state = some s; taken = some t; assumed = false }))
  unfolding end_poll publish_state
  end_poll_cases answer none c = inl refl
  end_poll_cases none (some (t, g)) c = inl refl
  end_poll_cases (some s) (some (t, g)) c = elim (Bool-cases (c.generation == g)) [
    | inl e ↦ inr (s, t, refl, ground arith, rw e refl)
    | inr e ↦ inl (rw e refl)
  ]

  Measured-cache :
      (log : List (Event State)) {s : State} {t : ℕ}
      → sets log < u64_mod
      → (replay log new_bridge).cache.assumed ≡ false
      → (replay log new_bridge).cache.state ≡ some s
      → (replay log new_bridge).cache.taken ≡ some t
      → Measured log s t
  unfolding replay happen patch_state
  Measured-cache [] few sure held time = cc
  Measured-cache (poll_begins now ∷ log) few sure held time =
      Measured-later (poll_begins now) log tt (Measured-cache log few sure held time)
  Measured-cache (applied command ∷ log) few sure held time =
      Measured-later (applied command) log tt (Measured-cache log few sure held time)
  Measured-cache (patched change ∷ log) few sure held time = cc
  Measured-cache (poll_ends answer ∷ log) {s} {t} few sure held time =
      let b = replay log new_bridge in
      elim (end_poll_cases answer b.poll b.cache) [
        | inl same ↦ Measured-later (poll_ends answer) log tt (
            Measured-cache log few (ap (λ (c : Cache State). c.assumed) (sym same) ∙ sure)
              (ap (λ (c : Cache State). c.state) (sym same) ∙ held)
              (ap (λ (c : Cache State). c.taken) (sym same) ∙ time))
        | inr (s', t', is_answer, is_poll, published) ↦
            let held' : some s' ≡ some s =
              ap (λ (c : Cache State). c.state) (sym published) ∙ held in
            let time' : some t' ≡ some t =
              ap (λ (c : Cache State). c.taken) (sym published) ∙ time in
            let state : s' ≡ s = cc in
            let when : t' ≡ t = cc in
            rw (is_answer, state) (Measured-published log s few (rw (← when) is_poll) refl)
      ]

  measured_never :
      (c : Cache State) (max_age now : ℕ) {s : State}
      → c.taken ≡ none
      → measured_state max_age now c ≢ some s
  unfolding measured_state
  measured_never c max_age now never handed = ground (arith, never, handed)

  measured_parts :
      (c : Cache State) (max_age now : ℕ) {s : State} {t : ℕ}
      → c.taken ≡ some t
      → measured_state max_age now c ≡ some s
      → (c.assumed ≡ false) × (now - t ≤ max_age) × (c.state ≡ some s)
  unfolding measured_state
  measured_parts c max_age now taken handed = (ground arith, ground arith, ground arith)

  -- Whatever polls, sets through the cache and consoles' commands came, in whatever order, fewer than 2^64
  -- sets: what `measured_state` hands out is the answer to a poll that began at most `max_age` ago, and
  -- nothing was set through the cache since that poll began. Consoles' commands are no such sets.
  pub measured_state_lem :
      (log : List (Event State)) (max_age now : ℕ) {s : State}
      → sets log < u64_mod
      → measured_state max_age now (replay log new_bridge).cache ≡ some s
      → (t : ℕ) × (now - t ≤ max_age) × Measured log s t
  measured_state_lem log max_age now {s} few handed =
      let c = (replay log new_bridge).cache in
      elim (Option-cases c.taken) [
        | inl never ↦ absurd (measured_never c max_age now never handed)
        | inr (t, taken) ↦
            let (sure, young, held) = measured_parts c max_age now taken handed in
            (t, young, Measured-cache log few sure held taken)
      ]

  -- Whether the latest of the sets and the begins of a poll is a set.
  set_since_poll : List (Event State) → Bool
  set_since_poll [] = false
  set_since_poll (poll_begins now ∷ log) = false
  set_since_poll (patched change ∷ log) = true
  set_since_poll (poll_ends answer ∷ log) = set_since_poll log
  set_since_poll (applied command ∷ log) = set_since_poll log

  quiet_begins :
      (front : List (Event State)) (t : ℕ) (before : List (Event State))
      → All IsQuiet front
      → set_since_poll (front ++ (poll_begins t ∷ before)) ≡ false
  unfolding set_since_poll
  quiet_begins [] t before quiet = refl
  quiet_begins (poll_begins now ∷ front) t before quiet = refl
  quiet_begins (patched change ∷ front) t before quiet = absurd quiet.0
  quiet_begins (poll_ends answer ∷ front) t before quiet = quiet_begins front t before quiet.1
  quiet_begins (applied command ∷ front) t before quiet = quiet_begins front t before quiet.1

  Measured-no_set :
      (log : List (Event State)) {s : State} {t : ℕ} → Measured log s t → set_since_poll log ≡ false
  Measured-no_set log {s} {t} (after, during, before, e, quiet, quiet_too) =
      ap set_since_poll
        (e ∙ sym (append_assoc after (poll_ends (some s) ∷ during) (poll_begins t ∷ before)))
      ∙ quiet_begins (after ++ (poll_ends (some s) ∷ during)) t before
          (All-append IsQuiet after (poll_ends (some s) ∷ during) quiet (tt, quiet_too))

  -- No poll begins here.
  abbrev pub NoPoll : Event State → Type 0
  NoPoll (poll_begins now) = ⊥
  NoPoll _ = Unit

  set_since_poll-append :
      (since : List (Event State)) (change : State → State) (log : List (Event State))
      → All NoPoll since
      → set_since_poll (since ++ (patched change ∷ log)) ≡ true
  unfolding set_since_poll
  set_since_poll-append [] change log unpolled = refl
  set_since_poll-append (poll_begins now ∷ since) change log unpolled = absurd unpolled.0
  set_since_poll-append (patched other ∷ since) change log unpolled = refl
  set_since_poll-append (applied command ∷ since) change log unpolled =
      set_since_poll-append since change log unpolled.1
  set_since_poll-append (poll_ends answer ∷ since) change log unpolled =
      set_since_poll-append since change log unpolled.1

  pub replay-append :
      (later log : List (Event State)) (b : Bridge State)
      → replay (later ++ log) b ≡ replay later (replay log b)
  unfolding replay
  replay-append [] log b = refl
  replay-append (event ∷ later) log b = ap (happen event) (replay-append later log b)

  -- Behind a set there is no measurement until a poll has begun.
  pub measured_state-set :
      (since : List (Event State)) (change : State → State) (log : List (Event State))
      (max_age now : ℕ)
      → All NoPoll since
      → sets since + sets log + 1 < u64_mod
      → measured_state max_age now (replay (since ++ (patched change ∷ log)) new_bridge).cache
        ≡ none
  measured_state-set since change log max_age now unpolled few =
      let whole = since ++ (patched change ∷ log) in
      elim (Option-cases (measured_state max_age now (replay whole new_bridge).cache)) [
        | inl e ↦ e
        | inr (s, e) ↦
            let count = sets-append since (patched change ∷ log) in
            let (t, young, seen) = measured_state_lem whole max_age now (omega arith) e in
            let no_set = Measured-no_set whole seen in
            let set = set_since_poll-append since change log unpolled in cc
      ]
