-- ===== src/Serial.antt =====
-- `SerialCatSession` of cat-transport-serial/src/session.rs over any byte transport, which is a record of its
-- calls, and any format, which is its test of a complete frame. A clock is read in milliseconds.
use radio_cat_rs.Base.{
  ℕ, zero, suc, ◌+◌, Bool, [], ◌∷◌, ◌++◌, leb, if◌then◌else◌, length, is_empty, Option, none, some,
  Result, ok, err,
}
use radio_cat_rs.Base.Bytes.{Bytes}
pub mod Frames
mod Tests

pub data TransportError : Type 0 where
  read_timeout : TransportError
  too_long : TransportError
  other : ℕ → TransportError

-- `Transport`; `read` of one byte gives `none` at the end of the stream.
pub record Transport (T : Type 0) : Type 0 where
  pub drain : T → T
  pub write : Bytes → T → T × Result TransportError (Unit {0})
  pub flush : T → T × Result TransportError (Unit {0})
  pub read : T → T × Result TransportError (Option ℕ)
  pub flush_rx : T → T
  pub now : T → ℕ

pub data Disposition : Type 0 where
  no_response response_written : Disposition

abbrev pub max_frame_len : ℕ
max_frame_len = 64

abbrev pub read_timeout_ms : ℕ
read_timeout_ms = 2000

-- What a call leaves: the transport, the caller's buffer, and what it returns.
abbrev pub Outcome : Type 0 → Type 0
Outcome T = T × Bytes × Result TransportError Disposition

abbrev pub finish : {T : Type 0} → T → Bytes → Outcome T
finish t response = (t, response, ok (if is_empty response then no_response else response_written))

-- A pass of the loop: it returns, or goes on with the bytes so far.
pub data Pass (T : Type 0) : Type 0 where
  returns : Outcome T → Pass T
  continues : T → Bytes → Pass T

module _ {T : Type 0} (line : Transport T) (frame_complete : Bytes → Bool) where
  -- `flush_rx(); response.clear(); return Err(e)`.
  abbrev pub abandon : T → TransportError → Outcome T
  abandon t e = (line.flush_rx t, [], err e)

  -- Behind a byte that was added.
  unfoldable pub took : T → Bytes → Pass T
  took t response =
      if frame_complete response
      then returns (finish t response)
      else if leb max_frame_len (length response)
      then returns (abandon t too_long)
      else continues t response

  unfoldable pub answered : Result TransportError (Option ℕ) → T → Bytes → Pass T
  unfolding took
  answered (err e) t response = returns (abandon t e)
  answered (ok none) t response = returns (finish t response)
  answered (ok (some b)) t response = took t (response ++ (b ∷ []))

  unfoldable pub read_pass : ℕ → T → Bytes → Pass T
  unfolding answered
  read_pass deadline t response =
      if leb deadline (line.now t)
      then returns (abandon t read_timeout)
      else answered (line.read t).1 (line.read t).0 response

  -- The loop, a byte at a time; `none` when the fuel runs out.
  unfoldable pub read_frame : ℕ → ℕ → T → Bytes → Option (Outcome T)
  unfolding read_pass
  read_frame zero deadline t response = none
  read_frame (suc fuel) deadline t response = elim (read_pass deadline t response) [
    | returns outcome ↦ some outcome
    | continues t' response' ↦ read_frame fuel deadline t' response'
  ]

  -- `write(…)?; flush()?`.
  unfoldable pub put : Bytes → T → T × Result TransportError (Unit {0})
  put request t = elim (line.write request t).1 [
    | err e ↦ ((line.write request t).0, err e)
    | ok done ↦ line.flush (line.write request t).0
  ]

  -- The deadline is taken once the request is out. Each pass of the loop adds a byte or leaves it, so the
  -- fuel is the length of the longest frame.
  unfoldable pub execute : Bytes → Bytes → T → Option (Outcome T)
  unfolding put read_frame
  execute request response t =
      let sent = put request (line.drain t) in
      elim sent.1 [
        | err e ↦ some (sent.0, response, err e)
        | ok done ↦ read_frame max_frame_len (line.now sent.0 + read_timeout_ms) sent.0 response
      ]

  unfoldable pub send : Bytes → T → T × Result TransportError (Unit {0})
  unfolding put
  send request t =
      let sent = put request t in
      elim sent.1 [ err e ↦ (sent.0, err e) | ok done ↦ (line.drain sent.0, ok tt) ]
