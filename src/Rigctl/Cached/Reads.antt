-- ===== src/Rigctl/Cached/Reads.antt =====
-- What a client of the cached radio reads behind its own sets, and when a set is not sent.
use radio_cat_rs.Base.{
  All, ℕ, ◌^◌, ◌+◌, ◌-◌, ◌≤◌, ◌<◌, Bool, true, ◌≡◌, ◌⊎◌, inl, inr, refl, sym, ap, ◌∙◌, List, ◌∷◌,
  ◌++◌, Option, none, some, arith, Bool-cases, Option-cases, ==_iff,
}
use radio_cat_rs.Rigctl.Dispatch.{RigctlRadio}
use radio_cat_rs.Framework.Capabilities.{ModeId}
use radio_cat_rs.Native.{RadioState}
use radio_cat_rs.Rigctl.Shared.{
  Cache, Event, patched, Bridge, new_bridge, happen, replay, patch_state, recent_state,
  measured_state,
}
use radio_cat_rs.Rigctl.Shared.Measured.{
  sets, Measured, measured_state_lem, NoPoll, replay-append, measured_state-set, sets-append,
}
use radio_cat_rs.Rigctl.Cached.{
  Cached, ask, set_and_patch, read_or_ask, recent, fresh, holds_vfo, set_vfo_a_hz, get_mode, cached,
  fresh_enough_to_skip, max_read_age,
}

module _ {Whole : Type 0} where
  -- Every state that the cache holds is on that frequency.
  abbrev Dials : ℕ → Cache (RadioState Whole) → Type 0
  Dials hz c = (s : RadioState Whole) → c.state ≡ some s → s.vfo_a_hz ≡ hz

  measured-state :
      (c : Cache (RadioState Whole)) (max_age now : ℕ) (s : RadioState Whole)
      → measured_state max_age now c ≡ some s
      → c.state ≡ some s
  unfolding measured_state
  measured-state c max_age now s e = ground arith

  holds_vfo-fresh :
      (hz max_age now : ℕ) (c : Cache (RadioState Whole))
      → holds_vfo hz (measured_state max_age now c) ≡ true
      → (s : RadioState Whole) × (measured_state max_age now c ≡ some s)
        × (s.vfo_a_hz ≡ hz)
        × (c.state ≡ some s)
  holds_vfo-fresh hz max_age now c holds = elim (Option-cases (measured_state max_age now c)) [
    | inl e ↦ absurd (cc)
    | inr (s, e) ↦
        let same : holds_vfo hz (some s) ≡ true = ap (holds_vfo hz) (sym e) ∙ holds in
        (s, e, (==_iff s.vfo_a_hz hz).0 same, measured-state c max_age now s e)
  ]

  recent-state :
      (c : Cache (RadioState Whole)) (max_age now : ℕ) (s : RadioState Whole)
      → recent_state max_age now c ≡ some s
      → c.state ≡ some s
  unfolding recent_state
  recent-state c max_age now s e = ground arith

  patched-Dials :
      (hz : ℕ) (c : Cache (RadioState Whole))
      → Dials hz (patch_state (λ s. record s { vfo_a_hz = hz }) c)
  unfolding patch_state
  patched-Dials hz c s e = ground arith

module _ {R A Whole : Type 0} (field : RadioState Whole → A) (call : R → R × Option A)
    (c : Cached R Whole) where
  read_or_ask-none : recent c ≡ none → read_or_ask field call c ≡ ask call c
  read_or_ask-none old = ground (arith, old)

  read_or_ask-some :
      (s : RadioState Whole) → recent c ≡ some s → read_or_ask field call c ≡ (c, some (field s))
  read_or_ask-some s e = ground (arith, e)

module _ {R Mode Whole : Type 0} (mode_from_id : ModeId → Option Mode)
    (radio : RigctlRadio R Mode) where
  -- Behind fewer than 2^64 sets through the cache: a set that is not sent leaves everything alone, and
  -- then the radio itself, asked at most 600 ms ago with nothing set through the cache since, said that
  -- it is on that frequency; any other set is sent to the radio. A console's command that the pump has
  -- applied since is not seen.
  pub set_vfo_a_hz_lem :
      (hz : ℕ) (c : Cached R Whole) (log : List (Event (RadioState Whole)))
      → c.shared ≡ replay log new_bridge
      → sets log < 2 ^ 64
      → ((cached mode_from_id radio).set_vfo_a_hz hz c
          ≡ set_and_patch (radio.set_vfo_a_hz hz) (λ s. record s { vfo_a_hz = hz }) c)
        ⊎ (((cached mode_from_id radio).set_vfo_a_hz hz c ≡ (c, true))
            × ((s : RadioState Whole) × (t : ℕ) × (s.vfo_a_hz ≡ hz)
                × (c.now - t ≤ fresh_enough_to_skip)
                × Measured log s t))
  unfolding cached set_vfo_a_hz
  set_vfo_a_hz_lem hz c log history few = elim (Bool-cases (holds_vfo hz (fresh c))) [
    | inl skip ↦
        let (s, measured, on, held) =
          holds_vfo-fresh hz fresh_enough_to_skip c.now c.shared.cache skip in
        let past =
          ap (λ (b : Bridge (RadioState Whole)). measured_state fresh_enough_to_skip c.now b.cache)
            (sym history)
          ∙ measured in
        let (t, young, seen) = measured_state_lem log fresh_enough_to_skip c.now few past in
        inr (rw skip refl, (s, t, on, young, seen))
    | inr send ↦ inl (rw send refl)
  ]

  set_and_patch-Dials :
      (hz : ℕ) (call : R → R × Bool) (c c' : Cached R Whole)
      → set_and_patch call (λ s. record s { vfo_a_hz = hz }) c ≡ (c', true)
      → Dials hz c'.shared.cache
  unfolding set_and_patch happen
  set_and_patch-Dials hz call c c' set s held = elim (Bool-cases (call c.inner).1) [
    | inl done ↦
        let asked = (ask call c).0 in
        let whole : c' ≡ record asked {
          shared = happen (patched (λ s. record s { vfo_a_hz = hz })) asked.shared;
        } =
          cc in
        patched-Dials hz asked.shared.cache s
          (ap (λ (x : Cached R Whole). x.shared.cache.state) (sym whole) ∙ held)
    | inr failed ↦ cc
  ]

  set-Dials :
      (hz : ℕ) (c c' : Cached R Whole)
      → set_vfo_a_hz mode_from_id radio hz c ≡ (c', true)
      → Dials hz c'.shared.cache
  unfolding set_vfo_a_hz
  set-Dials hz c c' set s held = elim (Bool-cases (holds_vfo hz (fresh c))) [
    | inl skip ↦
        let (s', measured, on, was_held) =
          holds_vfo-fresh hz fresh_enough_to_skip c.now c.shared.cache skip in
        let same : c ≡ c' = cc in
        let one : some s ≡ some s' =
          sym held ∙ ap (λ (x : Cached R Whole). x.shared.cache.state) (sym same) ∙ was_held in
        let one' : s ≡ s' = cc in ap (λ (x : RadioState Whole). x.vfo_a_hz) one' ∙ on
    | inr send ↦ set_and_patch-Dials hz (radio.set_vfo_a_hz hz) c c' (cc) s held
  ]

  -- The dial, read at any later time behind a set that reported success, whatever happened while the
  -- set was on the wire: what was set, or else what the radio itself answers.
  get-set_vfo_a_hz :
      (hz later : ℕ) (c c' : Cached R Whole)
      → (cached mode_from_id radio).set_vfo_a_hz hz c ≡ (c', true)
      → let then_ = record c' { now = later } in
        ((cached mode_from_id radio).get_vfo_a_hz then_ ≡ (then_, some hz))
        ⊎ ((cached mode_from_id radio).get_vfo_a_hz then_ ≡ ask radio.get_vfo_a_hz then_)
  unfolding cached
  get-set_vfo_a_hz hz later c c' set =
      elim (Option-cases (recent_state max_read_age later c'.shared.cache)) [
        | inl old ↦
            inr (
              read_or_ask-none (λ s. s.vfo_a_hz) radio.get_vfo_a_hz (record c' { now = later }) old)
        | inr (s, e) ↦
            let on =
              set-Dials hz c c' set s (recent-state c'.shared.cache max_read_age later s e) in
            inl (
              read_or_ask-some (λ s. s.vfo_a_hz) radio.get_vfo_a_hz (record c' { now = later }) s e
              ∙ ap (λ (dial : ℕ). (record c' { now = later }, some dial)) on)
      ]

  set_and_patch-shared :
      (call : R → R × Bool) (change : RadioState Whole → RadioState Whole) (c c' : Cached R Whole)
      → set_and_patch call change c ≡ (c', true)
      → c'.shared ≡ replay (patched change ∷ c.meanwhile) c.shared
  unfolding set_and_patch replay
  set_and_patch-shared call change c c' set = elim (Bool-cases (call c.inner).1) [
    | inl done ↦ ground (arith, done, set)
    | inr failed ↦ cc
  ]

  get_mode-none :
      (c : Cached R Whole)
      → measured_state max_read_age c.now c.shared.cache ≡ none
      → get_mode mode_from_id radio c ≡ ask radio.get_mode c
  unfolding get_mode
  get_mode-none c none_measured = ground (arith, none_measured)

  -- A mode that was set is not in the cache: until a poll has begun behind the set, whatever else happened
  -- at and behind it, the mode is asked from the radio.
  get-set_mode :
      (mode : Mode) (later : ℕ) (c c' : Cached R Whole)
      (log since : List (Event (RadioState Whole)))
      → c.shared ≡ replay log new_bridge
      → (cached mode_from_id radio).set_mode mode c ≡ (c', true)
      → All NoPoll since
      → sets since + (sets c.meanwhile + sets log) + 1 < 2 ^ 64
      → let then_ = record c' { now = later; shared = replay since c'.shared } in
        (cached mode_from_id radio).get_mode then_ ≡ ask radio.get_mode then_
  unfolding cached
  get-set_mode mode later c c' log since history set unpolled few =
      let event = patched (λ (s : RadioState Whole). s) in
      let shared = set_and_patch-shared (radio.set_mode mode) (λ s. s) c c' set in
      let whole : replay since c'.shared
          ≡ replay (since ++ (event ∷ (c.meanwhile ++ log))) new_bridge =
        ap (replay since) (
          shared
          ∙ ap (replay (event ∷ c.meanwhile)) history
          ∙ sym (replay-append (event ∷ c.meanwhile) log new_bridge))
        ∙ sym (replay-append since (event ∷ (c.meanwhile ++ log)) new_bridge) in
      get_mode-none (record c' { now = later; shared = replay since c'.shared })
        (ap (λ (x : Bridge (RadioState Whole)). measured_state max_read_age later x.cache) whole
          ∙ measured_state-set since (λ s. s) (c.meanwhile ++ log) max_read_age later unpolled
              (omega (arith, sets-append c.meanwhile log)))
