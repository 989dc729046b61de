-- ===== src/Native/Server/Kept.antt =====
-- What a console can make the host do, whatever bytes it sends.
use radio_cat_rs.Base.{
  ℕ, zero, suc, true, ◌≡◌, refl, sym, ap, ◌∙◌, List, [], ◌∷◌, Option, ok, Result-cases,
  Option-cases, inl, inr, Bool-cases, arith, length,
}
use radio_cat_rs.Base.Bytes.{Bytes}
use radio_cat_rs.Framework.Capabilities.{RadioCapabilities}
use radio_cat_rs.Native.{Command}
use radio_cat_rs.Native.Frames.{FrameKind, is_control, decode_frame}
use radio_cat_rs.Native.Session.{
  NativeSession, ServerMessage, ack, ClientMessage, hello, command, ping, handle, validate,
  reaches_host,
}
use radio_cat_rs.Native.Session.Allowed.{IsAllowed, validate_iff}
use radio_cat_rs.Native.Server.{
  RadioHost, Connection, refresh, settle, on_message, on_payload, take_frame, serve_frames, serve,
  receive, serve_reads,
}

module _ {Whole : Type 0} where
  -- A command leaves the session alone, and is acknowledged only if it passed the check behind a
  -- handshake.
  handle-command :
      (c : Command) (s : NativeSession Whole)
      → ((handle (command c) s).0 ≡ s)
        × ((handle (command c) s).1 ≡ ack
            → (validate s.capabilities s.serves_cw c ≡ ok tt) × (s.handshaken ≡ true))
  unfolding handle
  handle-command c s = elim (Bool-cases s.handshaken) [
    | inl ready ↦ elim (Result-cases (validate s.capabilities s.serves_cw c)) [
      | inl (checked, e) ↦ (ground (arith, ready, e), λ h. (e, ready))
      | inr (code, e) ↦ (ground (arith, ready, e), λ h. absurd (ground (arith, ready, e, h)))
    ]
    | inr early ↦ (ground (arith, early), λ h. absurd (ground (arith, early, h)))
  ]

  handle-capabilities :
      (message : ClientMessage) (s : NativeSession Whole)
      → (handle message s).0.capabilities ≡ s.capabilities
  handle-capabilities (hello version spectrum audio max_fps) s = unfold handle in ground arith
  handle-capabilities (command c) s =
      ap (λ (x : NativeSession Whole). x.capabilities) (handle-command c s).0
  handle-capabilities ping s = unfold handle in ground arith

module _ {H Whole : Type 0} (radio : RadioHost H Whole) (parse : Bytes → Option ClientMessage)
    (caps : RadioCapabilities) (Holds : H → Type 0)
    (kept : (c : Command) (h : H)
      → IsAllowed caps (radio.serves_cw h) c
      → Holds h
      → Holds (radio.apply_as c h).0) where
  -- The session is of this radio, and the host as it should be.
  abbrev Fine : NativeSession Whole → H → Type 0
  Fine s h = (s.capabilities ≡ caps) × Holds h

  settle-Holds :
      (c : Command) (reply : ServerMessage Whole) (s : NativeSession Whole) (h : H)
      → (reply ≡ ack → IsAllowed caps (radio.serves_cw h) c)
      → Holds h
      → Holds (settle radio parse (command c) reply s h).0
  unfolding settle
  settle-Holds c ack s h allowed holds = elim (Bool-cases (reaches_host s c)) [
    | inl e ↦ rw e (kept c h (allowed refl) holds)
    | inr e ↦ rw e holds
  ]
  settle-Holds c _ s h allowed holds = holds

  on_message-Fine :
      (message : ClientMessage) (s : NativeSession Whole) (h : H)
      → Fine s h
      → Fine (on_message radio parse message s h).0 (on_message radio parse message s h).1
  unfolding on_message refresh
  on_message-Fine (command c) s h (same, holds) =
      let s' = refresh radio parse h s in
      (
        handle-capabilities (command c) s' ∙ same,
        settle-Holds c (handle (command c) s').1 (handle (command c) s').0 h
            (λ acked. (validate_iff caps (radio.serves_cw h) c).0 (
              ap (λ (k : RadioCapabilities). validate k (radio.serves_cw h) c) (sym same)
              ∙ ((handle-command c s').1 acked).0))
            holds,
      )
  on_message-Fine (hello version spectrum audio max_fps) s h (same, holds) = (
    handle-capabilities (hello version spectrum audio max_fps) (refresh radio parse h s) ∙ same,
    holds,
  )
  on_message-Fine ping s h (same, holds) =
      (handle-capabilities ping (refresh radio parse h s) ∙ same, holds)

  on_payload-Fine :
      (payload : Bytes) (s : NativeSession Whole) (h : H)
      → Fine s h
      → Fine (on_payload radio parse payload s h).0 (on_payload radio parse payload s h).1
  unfolding on_payload
  on_payload-Fine payload s h fine = elim (Option-cases (parse payload)) [
    | inl e ↦ rw (e, on_payload) fine
    | inr (message, e) ↦ rw (e, on_payload) (on_message-Fine message s h fine)
  ]

  take_frame-Fine :
      (kind : FrameKind) (payload : Bytes) (used : ℕ) (c : Connection H Whole)
      → Fine c.session c.host
      → Fine
          (take_frame radio parse kind payload used c).session
          (take_frame radio parse kind payload used c).host
  unfolding take_frame
  take_frame-Fine kind payload used c fine = elim (Bool-cases (is_control kind)) [
    | inl e ↦ rw e (on_payload-Fine payload c.session c.host fine)
    | inr e ↦ rw e fine
  ]

  serve_frames-Fine :
      (fuel : ℕ) (c : Connection H Whole)
      → Fine c.session c.host
      → Fine (serve_frames radio parse fuel c).session (serve_frames radio parse fuel c).host
  unfolding serve_frames
  serve_frames-Fine zero c fine = fine
  serve_frames-Fine (suc fuel) c fine = elim (Result-cases (decode_frame c.pending)) [
    | inl ((kind, payload, used), e) ↦
        rw (e, serve_frames)
          (serve_frames-Fine fuel (take_frame radio parse kind payload used c)
            (take_frame-Fine kind payload used c fine))
    | inr (failure, e) ↦ rw (e, serve_frames) fine
  ]

  -- Whatever a console sends, however cut: what every command that passes the check keeps of the host,
  -- the connection keeps. Those are the commands that the radio can carry out and, on a radio with a
  -- shift of the IF, the shift by the least i32.
  pub serve_reads-Kept :
      (reads : List Bytes) (c : Connection H Whole)
      → c.session.capabilities ≡ caps
      → Holds c.host
      → Holds (serve_reads radio parse reads c).host
  unfolding serve_reads serve
  serve_reads-Kept [] c same holds = holds
  serve_reads-Kept (bytes ∷ reads) c same holds =
      let received = receive radio parse bytes c in
      let (same', holds') = serve_frames-Fine (length received.pending) received (same, holds) in
      serve_reads-Kept reads (serve radio parse received) same' holds'
