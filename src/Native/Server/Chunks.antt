-- ===== src/Native/Server/Chunks.antt =====
-- However the network cuts what a console sends, the server ends with the same answers.
use radio_cat_rs.Base.{
  ℕ, zero, suc, ◌+◌, ◌-◌, ◌≤◌, ◌<◌, ◌≡◌, ◌≢◌, refl, sym, ap, ◌∙◌, List, [], ◌∷◌, ◌++◌, append-nil,
  append_assoc, length, drop, length-append, length-drop, take-append_le, drop-append_le, Option,
  none, some, ok, err, Result-cases, inl, inr, arith, Bool-cases,
}
use mathlib.Core.List.{flatten}
use radio_cat_rs.Base.Bytes.{Bytes, from_be_bytes}
use radio_cat_rs.Native.Frames.{
  FrameKind, from_u8, FrameError, incomplete, is_control, decode_frame, decode_kind, decode_body,
}
use radio_cat_rs.Native.Session.{ClientMessage}
use radio_cat_rs.Native.Server.{
  RadioHost, Connection, take_frame, serve_frames, serve, receive, serve_reads,
}

-- A frame that was decoded is decoded in front of more bytes too, and has at least one byte.
body_stable :
    (kind : FrameKind) (len : ℕ) (body more : Bytes) {found : FrameKind} {payload : Bytes}
    {used : ℕ}
    → decode_body kind len body ≡ ok (found, payload, used)
    → (decode_body kind len (body ++ more) ≡ ok (found, payload, used))
      × (0 < used)
      × (used ≤ 5 + length body)
unfolding decode_body
body_stable kind len body more h =
    ground (arith, length-append body more, take-append_le len body more)

kind_stable :
    (k : ℕ) (kind : Option FrameKind) (len : ℕ) (body more : Bytes) {found : FrameKind}
    {payload : Bytes} {used : ℕ}
    → decode_kind k kind len body ≡ ok (found, payload, used)
    → (decode_kind k kind len (body ++ more) ≡ ok (found, payload, used))
      × (0 < used)
      × (used ≤ 5 + length body)
unfolding decode_kind
kind_stable k none len body more h = cc
kind_stable k (some kind) len body more h = body_stable kind len body more h

decode_stable :
    (pending more : Bytes) {found : FrameKind} {payload : Bytes} {used : ℕ}
    → decode_frame pending ≡ ok (found, payload, used)
    → (decode_frame (pending ++ more) ≡ ok (found, payload, used))
      × (0 < used)
      × (used ≤ length pending)
unfolding decode_frame
decode_stable [] more h = cc
decode_stable (k ∷ []) more h = cc
decode_stable (k ∷ a ∷ []) more h = cc
decode_stable (k ∷ a ∷ b ∷ []) more h = cc
decode_stable (k ∷ a ∷ b ∷ c ∷ []) more h = cc
decode_stable (k ∷ a ∷ b ∷ c ∷ d ∷ body) more h =
    let (stable, some_bytes, fits) =
      kind_stable k (from_u8 k) (from_be_bytes 0 (a ∷ b ∷ c ∷ d ∷ [])) body more h in
    (stable, some_bytes, omega arith)

body_refused :
    (kind : FrameKind) (len : ℕ) (body more : Bytes) {e : FrameError}
    → decode_body kind len body ≡ err e
    → e ≢ incomplete
    → decode_body kind len (body ++ more) ≡ err e
unfolding decode_body
body_refused kind len body more h final = ground (arith, h, final)

kind_refused :
    (k : ℕ) (kind : Option FrameKind) (len : ℕ) (body more : Bytes) {e : FrameError}
    → decode_kind k kind len body ≡ err e
    → e ≢ incomplete
    → decode_kind k kind len (body ++ more) ≡ err e
unfolding decode_kind
kind_refused k none len body more h final = h
kind_refused k (some kind) len body more h final = body_refused kind len body more h final

-- A refusal stands, whatever comes behind.
decode_refused :
    (pending more : Bytes) {e : FrameError}
    → decode_frame pending ≡ err e
    → e ≢ incomplete
    → decode_frame (pending ++ more) ≡ err e
unfolding decode_frame
decode_refused [] more h final = absurd (final (cc))
decode_refused (k ∷ []) more h final = absurd (final (cc))
decode_refused (k ∷ a ∷ []) more h final = absurd (final (cc))
decode_refused (k ∷ a ∷ b ∷ []) more h final = absurd (final (cc))
decode_refused (k ∷ a ∷ b ∷ c ∷ []) more h final = absurd (final (cc))
decode_refused (k ∷ a ∷ b ∷ c ∷ d ∷ body) more h final =
    kind_refused k (from_u8 k) (from_be_bytes 0 (a ∷ b ∷ c ∷ d ∷ [])) body more h final

module _ {H Whole : Type 0} (radio : RadioHost H Whole) (parse : Bytes → Option ClientMessage) where
  take_frame-pending :
      (kind : FrameKind) (payload : Bytes) (used : ℕ) (c : Connection H Whole)
      → (take_frame radio parse kind payload used c).pending ≡ drop used c.pending
  unfolding take_frame
  take_frame-pending kind payload used c = elim (Bool-cases (is_control kind)) [
    | inl e ↦ rw e refl
    | inr e ↦ rw e refl
  ]

  take_frame-receive :
      (kind : FrameKind) (payload : Bytes) (used : ℕ) (more : Bytes) (c : Connection H Whole)
      → used ≤ length c.pending
      → take_frame radio parse kind payload used (receive radio parse more c)
        ≡ receive radio parse more (take_frame radio parse kind payload used c)
  unfolding take_frame
  take_frame-receive kind payload used more c fits = elim (Bool-cases (is_control kind)) [
    | inl e ↦ rw (e, drop-append_le used c.pending more (omega arith)) refl
    | inr e ↦ rw (e, drop-append_le used c.pending more (omega arith)) refl
  ]

  serve_frames-found :
      (fuel : ℕ) (c : Connection H Whole) {kind : FrameKind} {payload : Bytes} {used : ℕ}
      → decode_frame c.pending ≡ ok (kind, payload, used)
      → serve_frames radio parse (suc fuel) c
        ≡ serve_frames radio parse fuel (take_frame radio parse kind payload used c)
  unfolding serve_frames
  serve_frames-found fuel c e = rw (e, serve_frames) refl

  serve_frames-stop :
      (fuel : ℕ) (c : Connection H Whole) {e : FrameError}
      → decode_frame c.pending ≡ err e
      → serve_frames radio parse fuel c ≡ c
  unfolding serve_frames
  serve_frames-stop zero c e = refl
  serve_frames-stop (suc fuel) c e = rw (e, serve_frames) refl

  serve_frames-zero : (c : Connection H Whole) → serve_frames radio parse zero c ≡ c
  unfolding serve_frames
  serve_frames-zero c = refl

  serve-stop :
      (c : Connection H Whole) {e : FrameError}
      → decode_frame c.pending ≡ err e
      → serve radio parse c ≡ c
  unfolding serve
  serve-stop c e = serve_frames-stop (length c.pending) c e

  serve_frames-nothing :
      (fuel : ℕ) (c : Connection H Whole)
      → length c.pending ≤ 0
      → serve_frames radio parse fuel c ≡ serve_frames radio parse zero c
  serve_frames-nothing fuel c nothing = elim (Result-cases (decode_frame c.pending)) [
    | inl ((kind, payload, used), e) ↦
        let (stable, some_bytes, fits) = decode_stable c.pending [] e in absurd (omega arith)
    | inr (failure, e) ↦ serve_frames-stop fuel c e ∙ sym (serve_frames-stop zero c e)
  ]

  -- Fuel for the bytes that wait is enough.
  serve_frames-enough :
      (m n : ℕ) (c : Connection H Whole)
      → length c.pending ≤ m
      → length c.pending ≤ n
      → serve_frames radio parse m c ≡ serve_frames radio parse n c
  serve_frames-enough zero n c below below' = sym (serve_frames-nothing n c below)
  serve_frames-enough (suc m) zero c below below' = serve_frames-nothing (suc m) c below'
  serve_frames-enough (suc m) (suc n) c below below' =
      elim (Result-cases (decode_frame c.pending)) [
        | inl ((kind, payload, used), e) ↦
            let (stable, some_bytes, fits) = decode_stable c.pending [] e in
            let next = take_frame radio parse kind payload used c in
            let left : length next.pending ≡ length c.pending - used =
              ap length (take_frame-pending kind payload used c) ∙ length-drop used c.pending in
            serve_frames-found m c e
            ∙ serve_frames-enough m n next (omega arith) (omega arith)
            ∙ sym (serve_frames-found n c e)
        | inr (failure, e) ↦ serve_frames-stop (suc m) c e ∙ sym (serve_frames-stop (suc n) c e)
      ]

  serve-found :
      (c : Connection H Whole) {kind : FrameKind} {payload : Bytes} {used : ℕ}
      → decode_frame c.pending ≡ ok (kind, payload, used)
      → serve radio parse c ≡ serve radio parse (take_frame radio parse kind payload used c)
  unfolding serve
  serve-found c {kind} {payload} {used} e =
      let next = take_frame radio parse kind payload used c in
      let left : length next.pending ≡ length c.pending - used =
        ap length (take_frame-pending kind payload used c) ∙ length-drop used c.pending in
      serve_frames-enough (length c.pending) (suc (length c.pending)) c (omega arith) (omega arith)
      ∙ serve_frames-found (length c.pending) c e
      ∙ serve_frames-enough (length c.pending) (length next.pending) next (omega arith)
          (omega arith)

  -- Bytes that come behind frames already served are served as if they had come before.
  serve-receive_frames :
      (fuel : ℕ) (more : Bytes) (c : Connection H Whole)
      → serve radio parse (receive radio parse more (serve_frames radio parse fuel c))
        ≡ serve radio parse (receive radio parse more c)
  serve-receive_frames zero more c =
      ap (λ x. serve radio parse (receive radio parse more x)) (serve_frames-zero c)
  serve-receive_frames (suc fuel) more c = elim (Result-cases (decode_frame c.pending)) [
    | inl ((kind, payload, used), e) ↦
        let (stable, some_bytes, fits) = decode_stable c.pending more e in
        let next = take_frame radio parse kind payload used c in
        ap (λ x. serve radio parse (receive radio parse more x)) (serve_frames-found fuel c e)
        ∙ serve-receive_frames fuel more next
        ∙ ap (serve radio parse) (sym (take_frame-receive kind payload used more c fits))
        ∙ sym (serve-found (receive radio parse more c) stable)
    | inr (failure, e) ↦
        ap (λ x. serve radio parse (receive radio parse more x)) (serve_frames-stop (suc fuel) c e)
  ]

  serve-receive :
      (more : Bytes) (c : Connection H Whole)
      → serve radio parse (receive radio parse more (serve radio parse c))
        ≡ serve radio parse (receive radio parse more c)
  unfolding serve
  serve-receive more c = serve-receive_frames (length c.pending) more c

  receive-append :
      (first more : Bytes) (c : Connection H Whole)
      → receive radio parse more (receive radio parse first c)
        ≡ receive radio parse (first ++ more) c
  receive-append first more c =
      ap (λ p. record c { pending = p }) (append_assoc c.pending first more)

  receive-nil : (c : Connection H Whole) → receive radio parse [] c ≡ c
  receive-nil c = ap (λ p. record c { pending = p }) (append-nil c.pending)

  serve-serve :
      (c : Connection H Whole) → serve radio parse (serve radio parse c) ≡ serve radio parse c
  serve-serve c =
      ap (serve radio parse) (sym (receive-nil (serve radio parse c)))
      ∙ serve-receive [] c
      ∙ ap (serve radio parse) (receive-nil c)

  -- However the bytes are cut into reads, a connection on which no frame waits ends as if
  -- they had come in one: the same answers, the same host, the same bytes left over.
  pub serve_reads-flatten :
      (reads : List Bytes) (c : Connection H Whole)
      → serve radio parse c ≡ c
      → serve_reads radio parse reads c ≡ serve radio parse (receive radio parse (flatten reads) c)
  unfolding serve_reads flatten
  serve_reads-flatten [] c idle = sym (ap (serve radio parse) (receive-nil c) ∙ idle)
  serve_reads-flatten (bytes ∷ reads) c idle =
      serve_reads-flatten reads (serve radio parse (receive radio parse bytes c))
        (serve-serve (receive radio parse bytes c))
      ∙ serve-receive (flatten reads) (receive radio parse bytes c)
      ∙ ap (serve radio parse) (receive-append bytes (flatten reads) c)

  -- A frame of an unknown kind, or a control frame beyond the bound, blocks the connection: whatever
  -- comes behind it is kept, and nothing is answered.
  pub serve_reads-refused :
      (reads : List Bytes) (c : Connection H Whole) {e : FrameError}
      → decode_frame c.pending ≡ err e
      → e ≢ incomplete
      → serve_reads radio parse reads c ≡ receive radio parse (flatten reads) c
  unfolding serve_reads flatten
  serve_reads-refused [] c bad final = sym (receive-nil c)
  serve_reads-refused (bytes ∷ reads) c bad final =
      let still = decode_refused c.pending bytes bad final in
      ap (serve_reads radio parse reads) (serve-stop (receive radio parse bytes c) still)
      ∙ serve_reads-refused reads (receive radio parse bytes c) still final
      ∙ receive-append bytes (flatten reads) c
