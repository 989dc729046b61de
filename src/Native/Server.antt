-- ===== src/Native/Server.antt =====
-- `serve_one` of cat-native/src/server.rs: what a server does with the bytes of one console. The host is
-- a record of what it is asked; `parse` stands for `serde_json::from_slice`. A reply is the message
-- itself: writing it as JSON is not modelled, nor are the pictures.
use radio_cat_rs.Base.{
  ℕ, zero, suc, Bool, List, [], ◌∷◌, ◌++◌, if◌then◌else◌, length, drop, Option, none, some, ok, err,
}
use radio_cat_rs.Base.Bytes.{Bytes}
use radio_cat_rs.Native.{Command, RadioState}
use radio_cat_rs.Native.Frames.{FrameKind, is_control, decode_frame}
use radio_cat_rs.Native.Session.{
  NativeSession, ServerMessage, ack, error, ErrorCode, malformed, ClientMessage, command, handle,
  reaches_host,
}
pub mod Kept
pub mod Chunks

-- `RadioHost`; a command is applied, or refused with a code.
pub record RadioHost (H Whole : Type 0) : Type 0 where
  pub state_as : H → RadioState Whole
  pub devices : H → Option Whole
  pub serves_cw : H → Bool
  pub apply_as : Command → H → H × Option ErrorCode

-- A connection: what has been answered so far, and the bytes that wait.
pub record Connection (H Whole : Type 0) : Type 0 where
  pub session : NativeSession Whole
  pub host : H
  pub replies : List (ServerMessage Whole)
  pub pending : Bytes

module _ {H Whole : Type 0} (radio : RadioHost H Whole) (parse : Bytes → Option ClientMessage) where
  abbrev pub or_old : Option Whole → Option Whole → Option Whole
  or_old (some new) old = some new
  or_old none old = old

  -- What the session is told in front of every message.
  unfoldable pub refresh : H → NativeSession Whole → NativeSession Whole
  refresh h s = record s {
    published_state = some (radio.state_as h);
    published_devices = or_old (radio.devices h) s.published_devices;
    serves_cw = radio.serves_cw h;
  }

  abbrev pub reply_of : Option ErrorCode → ServerMessage Whole
  reply_of none = ack
  reply_of (some code) = error code

  -- `if let Some(command) = applies`.
  unfoldable pub settle :
      ClientMessage → ServerMessage Whole → NativeSession Whole → H → H × ServerMessage Whole
  settle (command c) ack s h =
      if reaches_host s c
      then (let (h', refused) = radio.apply_as c h in (h', reply_of refused))
      else (h, ack)
  settle message reply s h = (h, reply)

  unfoldable pub on_message :
      ClientMessage → NativeSession Whole → H → NativeSession Whole × H × ServerMessage Whole
  unfolding refresh settle
  on_message message s h =
      let (s', reply) = handle message (refresh h s) in
      let (h', last) = settle message reply s' h in (s', h', last)

  unfoldable pub on_payload :
      Bytes → NativeSession Whole → H → NativeSession Whole × H × ServerMessage Whole
  unfolding on_message
  on_payload payload s h = elim (parse payload) [
    | none ↦ (s, h, error malformed)
    | some message ↦ on_message message s h
  ]

  -- A frame that was decoded; only a control frame is answered.
  unfoldable pub take_frame : FrameKind → Bytes → ℕ → Connection H Whole → Connection H Whole
  unfolding on_payload
  take_frame kind payload used c =
      if is_control kind
      then (let (s', h', reply) = on_payload payload c.session c.host in
          record {
            session = s';
            host = h';
            replies = c.replies ++ (reply ∷ []);
            pending = drop used c.pending;
          })
      else record c { pending = drop used c.pending }

  -- The loop over the frames that wait. A frame has at least one byte, so the fuel is their number.
  unfoldable pub serve_frames : ℕ → Connection H Whole → Connection H Whole
  serve_frames zero c = c
  serve_frames (suc fuel) c = elim (decode_frame c.pending) [
    | err e ↦ c
    | ok (kind, payload, used) ↦ serve_frames fuel (take_frame kind payload used c)
  ]

  unfoldable pub serve : Connection H Whole → Connection H Whole
  unfolding serve_frames
  serve c = serve_frames (length c.pending) c

  abbrev pub receive : Bytes → Connection H Whole → Connection H Whole
  receive bytes c = record c { pending = c.pending ++ bytes }

  -- Reads of the socket, each served before the next.
  unfoldable pub serve_reads : List Bytes → Connection H Whole → Connection H Whole
  unfolding serve
  serve_reads [] c = c
  serve_reads (bytes ∷ reads) c = serve_reads reads (serve (receive bytes c))
