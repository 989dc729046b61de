-- ===== src/Serial/Frames.antt =====
-- What a call over a serial line leaves: the first whole frame, or nothing behind a failure.
use radio_cat_rs.Base.{
  ℕ, zero, suc, ◌+◌, ◌≤◌, ◌<◌, Bool, true, false, ◌≡◌, ◌⊎◌, refl, ap, ◌∙◌, [], ◌∷◌, ◌++◌,
  append_assoc, leb, length, length-append, Option, none, some, Result, ok, err, subst, Bool-cases,
  inl, inr, arith,
}
use radio_cat_rs.Base.Bytes.{Bytes}
use radio_cat_rs.Serial.{
  TransportError, Transport, response_written, max_frame_len, read_timeout_ms, Outcome, read_frame,
  put, execute, Pass, returns, continues, took, answered, read_pass,
}

module _ {T : Type 0} (line : Transport T) (frame_complete : Bytes → Bool) where
  -- A call that returns an answer leaves at most 64 bytes; one that fails leaves none, and has flushed
  -- what was still to come.
  abbrev pub IsTidy : Outcome T → Type 0
  IsTidy (t, response, ok disposition) = length response ≤ max_frame_len
  IsTidy (t, response, err e) = (response ≡ []) × ((before : T) × (t ≡ line.flush_rx before))

  abbrev PassTidy : ℕ → Pass T → Type 0
  PassTidy len (returns outcome) = IsTidy outcome
  PassTidy len (continues t response) =
      (length response ≡ suc len) × (length response < max_frame_len)

  took-PassTidy :
      (t : T) (response : Bytes) (b : ℕ)
      → length response < max_frame_len
      → PassTidy (length response) (took line frame_complete t (response ++ (b ∷ [])))
  unfolding took
  took-PassTidy t response b short =
      let more = response ++ (b ∷ []) in
      let longer = length-append response (b ∷ []) in
      elim (Bool-cases (frame_complete more)) [
        | inl whole ↦ rw whole (omega (arith, longer))
        | inr part ↦ elim (Bool-cases (leb max_frame_len (length more))) [
          | inl long ↦ rw part (rw long (refl, (t, refl)))
          | inr room ↦ rw part (rw room (omega (arith, longer), ground (arith, room)))
        ]
      ]

  answered-PassTidy :
      (r : Result TransportError (Option ℕ)) (t : T) (response : Bytes)
      → length response < max_frame_len
      → PassTidy (length response) (answered line frame_complete r t response)
  unfolding answered
  answered-PassTidy (err e) t response short = (refl, (t, refl))
  answered-PassTidy (ok none) t response short = omega arith
  answered-PassTidy (ok (some b)) t response short = took-PassTidy t response b short

  read_pass-PassTidy :
      (deadline : ℕ) (t : T) (response : Bytes)
      → length response < max_frame_len
      → PassTidy (length response) (read_pass line frame_complete deadline t response)
  unfolding read_pass
  read_pass-PassTidy deadline t response short = elim (Bool-cases (leb deadline (line.now t))) [
    | inl late ↦ rw late (refl, (t, refl))
    | inr time ↦ rw time (answered-PassTidy (line.read t).1 (line.read t).0 response short)
  ]

  Pass-cases :
      (pass : Pass T)
      → ((o : Outcome T) × (pass ≡ returns o))
        ⊎ ((t : T) × (response : Bytes) × (pass ≡ continues t response))
  Pass-cases (returns o) = inl (o, refl)
  Pass-cases (continues t response) = inr (t, response, refl)

  read_frame-continues :
      (fuel deadline : ℕ) (t : T) (response : Bytes) {t' : T} {more : Bytes}
      → read_pass line frame_complete deadline t response ≡ continues t' more
      → read_frame line frame_complete (suc fuel) deadline t response
        ≡ read_frame line frame_complete fuel deadline t' more
  unfolding read_frame
  read_frame-continues fuel deadline t response e = rw (e, read_frame) refl

  read_frame-IsTidy :
      (fuel deadline : ℕ) (t : T) (response : Bytes)
      → max_frame_len ≤ fuel + length response
      → length response < max_frame_len
      → (o : Outcome T) × (read_frame line frame_complete fuel deadline t response ≡ some o)
        × IsTidy o
  unfolding read_frame
  read_frame-IsTidy zero deadline t response enough short = absurd (omega arith)
  read_frame-IsTidy (suc fuel) deadline t response enough short =
      let pass = read_pass line frame_complete deadline t response in
      let tidy = read_pass-PassTidy deadline t response short in
      elim (Pass-cases pass) [
        | inl (o, e) ↦ (o, rw (e, read_frame) refl, subst (PassTidy (length response)) e tidy)
        | inr (t', more, e) ↦
            let (longer, room) = subst (PassTidy (length response)) e tidy in
            let (o, returned, is_tidy) =
              read_frame-IsTidy fuel deadline t' more (omega arith) room in
            (o, read_frame-continues fuel deadline t response e ∙ returned, is_tidy)
      ]

  -- A call with an empty buffer whose request goes out always returns: with at most 64 bytes, or, where
  -- it fails, with none, and the line flushed.
  pub execute-IsTidy :
      (request : Bytes) (t : T)
      → (put line frame_complete request (line.drain t)).1 ≡ ok tt
      → (o : Outcome T) × (execute line frame_complete request [] t ≡ some o) × IsTidy o
  unfolding execute
  execute-IsTidy request t sent =
      let out = (put line frame_complete request (line.drain t)).0 in
      rw (sent, execute)
        (read_frame-IsTidy max_frame_len (line.now out + read_timeout_ms) out [] (omega arith)
          (omega arith))

  -- The line hands out these bytes in time, one by one, and is then as stated.
  abbrev pub Delivers : ℕ → T → Bytes → T → Type 0
  Delivers deadline t [] after = t ≡ after
  Delivers deadline t (b ∷ bytes) after =
      (line.now t < deadline)
      × ((line.read t).1 ≡ ok (some b))
      × Delivers deadline (line.read t).0 bytes after

  -- A frame behind bytes already read: complete with its last byte and not before.
  abbrev pub IsFrame : Bytes → Bytes → Type 0
  IsFrame before [] = ⊥
  IsFrame before (b ∷ []) = frame_complete (before ++ (b ∷ [])) ≡ true
  IsFrame before (b ∷ c ∷ rest) =
      (frame_complete (before ++ (b ∷ [])) ≡ false) × IsFrame (before ++ (b ∷ [])) (c ∷ rest)

  read_pass-byte :
      (deadline : ℕ) (t : T) (before : Bytes) {b : ℕ}
      → line.now t < deadline
      → (line.read t).1 ≡ ok (some b)
      → read_pass line frame_complete deadline t before
        ≡ took line frame_complete (line.read t).0 (before ++ (b ∷ []))
  unfolding read_pass
  read_pass-byte deadline t before time got =
      let early : leb deadline (line.now t) ≡ false = ground arith in rw early (rw got refl)

  took-whole :
      (t : T) (before : Bytes) (b : ℕ)
      → frame_complete (before ++ (b ∷ [])) ≡ true
      → took line frame_complete t (before ++ (b ∷ []))
        ≡ returns (t, before ++ (b ∷ []), ok response_written)
  unfolding took
  took-whole t [] b whole = rw whole refl
  took-whole t (x ∷ before) b whole = rw whole refl

  took-part :
      (t : T) (more : Bytes)
      → frame_complete more ≡ false
      → length more < max_frame_len
      → took line frame_complete t more ≡ continues t more
  unfolding took
  took-part t more part room =
      let short : leb max_frame_len (length more) ≡ false = ground arith in rw part (rw short refl)

  read_frame-frame :
      (fuel deadline : ℕ) (t after : T) (before frame : Bytes)
      → length frame ≤ fuel
      → length before + length frame ≤ max_frame_len
      → IsFrame before frame
      → Delivers deadline t frame after
      → read_frame line frame_complete fuel deadline t before
        ≡ some (after, before ++ frame, ok response_written)
  unfolding read_frame
  read_frame-frame fuel deadline t after before [] enough fits whole came = absurd whole
  read_frame-frame zero deadline t after before (b ∷ frame) enough fits whole came =
      absurd (omega arith)
  read_frame-frame (suc fuel) deadline t after before (b ∷ []) enough fits whole (time, got, left) =
      rw
        (
          read_pass-byte deadline t before time got ∙ took-whole (line.read t).0 before b whole,
          read_frame,
        )
        (ap (λ x. some (x, before ++ (b ∷ []), ok response_written)) left)
  read_frame-frame (suc fuel) deadline t after before (b ∷ c ∷ frame) enough fits (part, whole)
        (time, got, left) =
      let next = before ++ (b ∷ []) in
      let longer = length-append before (b ∷ []) in
      rw
        (
          read_pass-byte deadline t before time got
              ∙ took-part (line.read t).0 next part (omega (arith, longer)),
          read_frame,
        )
        (read_frame-frame fuel deadline (line.read t).0 after next (c ∷ frame) (omega arith)
            (omega (arith, longer)) whole left
          ∙ ap (λ x. some (after, x, ok response_written))
              (append_assoc before (b ∷ []) (c ∷ frame)))

  -- Where the line, once it was drained and the request is out, hands out in time a frame of at most 64
  -- bytes, the call returns this frame and leaves what follows on the line.
  pub execute-frame :
      (request frame : Bytes) (t after : T)
      → (put line frame_complete request (line.drain t)).1 ≡ ok tt
      → length frame ≤ max_frame_len
      → IsFrame [] frame
      → Delivers
          (line.now (put line frame_complete request (line.drain t)).0 + read_timeout_ms)
          (put line frame_complete request (line.drain t)).0
          frame
          after
      → execute line frame_complete request [] t ≡ some (after, frame, ok response_written)
  unfolding execute
  execute-frame request frame t after sent fits whole came =
      let out = (put line frame_complete request (line.drain t)).0 in
      rw (sent, execute)
        (read_frame-frame max_frame_len (line.now out + read_timeout_ms) out after [] frame
          (omega arith) (omega arith) whole came)
