-- ===== src/Rigctl/Ptt.antt =====
-- cat-rigctl/src/ptt_gate.rs, and what a line of a client can do to the transmitter.
use radio_cat_rs.Base.{
  ℕ, Bool, ◌&&◌, ◌∙◌, true, false, ◌≡◌, refl, List, [], ◌∷◌, if◌then◌else◌, Option, Bool-cases, inl,
  inr, arith,
}
use radio_cat_rs.Base.Bytes.{Bytes, bytes_eq}
use radio_cat_rs.Rigctl.Dispatch.{
  RigctlRadio, keys_on, words, set_ptt, other_command, dispatch_words, dispatch, confirm, rprt_err,
}

-- `PttGate`: while `blocked` holds, a request to transmit fails and does not reach the radio.
unfoldable pub gate : {R Mode : Type 0} → Bool → RigctlRadio R Mode → RigctlRadio R Mode
gate blocked radio = record radio {
  transmit = λ r. if blocked then (r, false) else radio.transmit r;
}

-- A line that asks for the transmitter: `T` with 1, 2 or 3.
abbrev pub keys_words : List Bytes → Bool
keys_words (command ∷ arg ∷ args) = if bytes_eq command (b'T' ∷ []) then keys_on arg else false
keys_words _ = false

other_command_same :
    {R Mode : Type 0} (radio : RigctlRadio R Mode) (parse_hz : Bytes → Option ℕ) (command : Bytes)
    (args : List Bytes) (r : R) (other : R → R × Bool)
    → other_command (record radio { transmit = other }) parse_hz command args r
      ≡ other_command radio parse_hz command args r
unfolding other_command
other_command_same radio parse_hz command [] r other = refl
other_command_same radio parse_hz command (arg ∷ args) r other = refl

dispatch_words_other :
    {R Mode : Type 0} (radio : RigctlRadio R Mode) (parse_hz : Bytes → Option ℕ)
    (tokens : List Bytes) (r : R) (other : R → R × Bool)
    → dispatch_words (record radio { transmit = other }) parse_hz tokens r
      ≡ (if keys_words tokens then confirm (other r) else dispatch_words radio parse_hz tokens r)
unfolding dispatch_words set_ptt
dispatch_words_other radio parse_hz [] r other = refl
dispatch_words_other radio parse_hz (command ∷ []) r other =
    rw (other_command_same radio parse_hz command [] r other) refl
dispatch_words_other radio parse_hz (command ∷ arg ∷ args) r other =
    rw (other_command_same radio parse_hz command (arg ∷ args) r other)
      (elim (Bool-cases (bytes_eq command (b'T' ∷ []))) [
        | inl e ↦ rw e (elim (Bool-cases (keys_on arg)) [ inl k ↦ rw k refl | inr k ↦ rw k refl ])
        | inr e ↦ rw e refl
      ])

module _ {R Mode : Type 0} (radio : RigctlRadio R Mode) (parse_hz : Bytes → Option ℕ) (line : Bytes)
    (r : R) where
  -- With any `transmit` in the place of the radio's own: `T 1`, `T 2` and `T 3` call it, once, and report
  -- what it says; every other line does what it did before.
  pub dispatch_transmit :
      (other : R → R × Bool)
      → dispatch (record radio { transmit = other }) parse_hz line r
        ≡ (if keys_words (words [] line) then confirm (other r) else dispatch radio parse_hz line r)
  unfolding dispatch
  dispatch_transmit other = dispatch_words_other radio parse_hz (words [] line) r other

  -- Behind the gate, a line that asks for the transmitter is refused and changes nothing while the
  -- gate is closed; every other line, and every line while it is open, does what it does
  -- without the gate.
  pub dispatch-gate :
      (blocked : Bool)
      → dispatch (gate blocked radio) parse_hz line r ≡ (
          if keys_words (words [] line) && blocked
          then (r, rprt_err)
          else dispatch radio parse_hz line r)
  unfolding gate
  dispatch-gate true = dispatch_transmit (λ r. (r, false)) ∙ ground arith
  dispatch-gate false = elim (Bool-cases (keys_words (words [] line))) [
    | inl k ↦ rw k refl
    | inr k ↦ rw k refl
  ]
