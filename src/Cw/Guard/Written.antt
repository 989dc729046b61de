-- ===== src/Cw/Guard/Written.antt =====
-- While a setting that was written is not reported as restored, external transmission is blocked.
use radio_cat_rs.Base.{
  ℕ, Bool, true, false, ◌&&◌, ◌||◌, ◌≡◌, refl, ◌∙◌, List, [], ◌∷◌, leb, inl, inr, Bool-cases, arith,
}
use radio_cat_rs.Cw.Text.{Text}
use radio_cat_rs.Cw.Capability.{CwCapability}
use radio_cat_rs.Cw.State.{CwSupervisor, CwConfig, new}
use radio_cat_rs.Cw.Stopping.{changed}
use radio_cat_rs.Cw.Driving.{next_action}
use radio_cat_rs.Cw.Queries.{blocks_external_ptt, take_notices}
use radio_cat_rs.Cw.Calls.{Call, apply, run, reached}
use radio_cat_rs.Cw.Guard.{well_formed}
use radio_cat_rs.Cw.Guard.Reports.{restored_count, writes, next_action-kept}
use radio_cat_rs.Cw.Guard.Changes.{
  changed-complete, changed-send, changed-arm, changed-abort, changed-disarm, changed-detached,
  changed-shutdown,
}
use radio_cat_rs.Cw.Guard.Calls.{apply_wf, run_wf}

-- Whether the radio was handed a write of its power or break-in setting that was not reported as restored
-- since, once one more call is made. It reads the actions and the notices alone.
abbrev pub written_after : Call → ℕ → CwSupervisor → Bool → Bool
written_after Call.next_action now s written =
    let (s', a) = next_action now s in
    writes a || (written && leb (restored_count s'.notices) (restored_count s.notices))
written_after _ now s written = written

module _ (estimate : Text → ℕ → ℕ) where
  unfoldable pub written : List (ℕ × Call) → Bool × CwSupervisor → Bool → Bool
  written [] state before = before
  written ((now, call) ∷ calls) state before =
      written calls (apply estimate call now state) (written_after call now state.1 before)

  changed-written_after :
      (call : Call) (now : ℕ) (checked before : Bool) (s : CwSupervisor)
      → well_formed checked s ≡ true
      → (before ≡ true → changed s ≡ true)
      → written_after call now s before ≡ true
      → changed (apply estimate call now (checked, s)).1 ≡ true
  unfolding apply take_notices
  changed-written_after (Call.arm owner callsign asked) now checked before s wf known w =
      changed-arm checked owner callsign asked s wf (known w)
  changed-written_after (Call.send owner text) now checked before s wf known w =
      changed-send estimate owner text now s (known w)
  changed-written_after Call.abort now checked before s wf known w = changed-abort s ∙ known w
  changed-written_after (Call.disarm owner) now checked before s wf known w =
      changed-disarm owner s ∙ known w
  changed-written_after (Call.detached console) now checked before s wf known w =
      changed-detached console s (known w)
  changed-written_after Call.shutdown now checked before s wf known w = changed-shutdown s (known w)
  changed-written_after Call.next_action now checked before s wf known w =
      let (still, handed) = next_action-kept now s in
      elim (Bool-cases before) [
        | inl e ↦ ground (arith, still, handed, w, known e)
        | inr e ↦ ground (arith, handed, w, e)
      ]
  changed-written_after (Call.complete outcome) now checked before s wf known w =
      changed-complete estimate outcome now s (known w)
  changed-written_after Call.take_notices now checked before s wf known w = known w

  changed-run :
      (calls : List (ℕ × Call)) (checked before : Bool) (s : CwSupervisor)
      → well_formed checked s ≡ true
      → (before ≡ true → changed s ≡ true)
      → written calls (checked, s) before ≡ true
      → changed (run estimate calls (checked, s)).1 ≡ true
  unfolding written run
  changed-run [] checked before s wf known w = known w
  changed-run ((now, call) ∷ calls) checked before s wf known w =
      let (checked', s') = apply estimate call now (checked, s) in
      changed-run calls checked' (written_after call now s before) s'
        (apply_wf estimate call now checked s wf)
        (changed-written_after call now checked before s wf known) w

-- Whatever calls came: from the action that hands the radio a write of its power or break-in setting, up
-- to the notice that the settings are restored, external transmission is blocked.
pub blocks_external_ptt-reached :
    (estimate : Text → ℕ → ℕ) (capability : CwCapability) (config : CwConfig)
    (calls : List (ℕ × Call))
    → written estimate calls (false, new capability config) false ≡ true
    → blocks_external_ptt (reached estimate capability config calls).1 ≡ true
unfolding blocks_external_ptt
blocks_external_ptt-reached estimate capability config calls w =
    let s = (reached estimate capability config calls).1 in
    let wf = run_wf estimate calls false (new capability config) refl in
    let known =
      changed-run estimate calls false false (new capability config) refl (λ h. absurd (cc)) w in
    ground (arith, wf, known)
