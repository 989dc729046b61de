-- ===== src/Udp/Session.antt =====
-- cat-transport-udp/src/session.rs: a session that sends one envelope and waits for its answer. What the
-- socket reports while the session waits is a list, in the order it is read: a datagram, its error, or the
-- end of the response time-out.
pub mod Answers
pub mod Execute
use radio_cat_rs.Base.{
  ℕ, ◌+◌, ◌%◌, ◌^◌, Bool, true, false, List, [], ◌∷◌, ◌++◌, ◌==◌, if◌then◌else◌, take, is_empty,
  Option, none, some, Result, ok, err,
}
use radio_cat_rs.Base.Bytes.{Bytes}
use radio_cat_rs.Udp.Codec.{
  SocketAddr, UdpSessionError, timeout, io, encode_envelope, decode_envelope, RequestIdCache,
  remember_completed, is_known_duplicate, max_datagram_size,
}

pub record UdpCatSession : Type 0 where
  pub peer_addr : SocketAddr
  pub session_id : ℕ
  pub next_request_id : ℕ
  pub dedup_cache : RequestIdCache
  pub response_timeout : ℕ

-- The session id is drawn by the caller.
abbrev pub new : SocketAddr → ℕ → ℕ → UdpCatSession
new peer_addr session_id response_timeout = record {
  peer_addr = peer_addr;
  session_id = session_id;
  next_request_id = 0;
  dedup_cache = [];
  response_timeout = response_timeout;
}

pub data Arrival : Type 0 where
  datagram : SocketAddr → Bytes → Arrival
  failed : Arrival
  elapsed : Arrival

pub data ResponseDisposition : Type 0 where
  response_written no_response : ResponseDisposition

-- Where `execute` stands when the arrivals are read: `result` is none while it still waits. `sent` is the
-- datagram given to the socket, `unread` what the socket reports to a later call.
pub record Execution : Type 0 where
  pub session : UdpCatSession
  pub sent : Option Bytes
  pub response : Bytes
  pub result : Option (Result UdpSessionError ResponseDisposition)
  pub unread : List Arrival

abbrev pub finished :
    UdpCatSession
    → Bytes
    → Bytes
    → Result UdpSessionError ResponseDisposition
    → List Arrival
    → Execution
finished s bytes response result unread = record {
  session = s;
  sent = some bytes;
  response = response;
  result = some result;
  unread = unread;
}

-- The branches of the loop on a datagram: the payload of the answer, or none to go on waiting. The
-- receive buffer cuts a datagram to its own size.
unfoldable pub accept : UdpCatSession → ℕ → SocketAddr → Bytes → Option Bytes
accept s request_id from bytes =
    if from == s.peer_addr
    then elim (decode_envelope (take max_datagram_size bytes)) [
      | none ↦ none
      | some (incoming_session_id, incoming_request_id, payload) ↦
          if incoming_session_id == s.session_id
          then (if incoming_request_id == request_id then some payload else none)
          else none
    ]
    else none

abbrev pub remember : UdpCatSession → ℕ → UdpCatSession
remember s request_id = record s { dedup_cache = remember_completed request_id s.dedup_cache }

abbrev pub disposition : Bytes → ResponseDisposition
disposition payload = if is_empty payload then no_response else response_written

unfoldable pub wait : UdpCatSession → ℕ → Bytes → List Arrival → Bytes → Execution
wait s request_id bytes [] response = record {
  session = s;
  sent = some bytes;
  response = response;
  result = none;
  unread = [];
}
wait s request_id bytes (failed ∷ arrivals) response = finished s bytes response (err io) arrivals
wait s request_id bytes (elapsed ∷ arrivals) response =
    finished s bytes response (err (timeout s.peer_addr s.response_timeout)) arrivals
wait s request_id bytes (datagram from incoming ∷ arrivals) response =
    let rest = wait s request_id bytes arrivals response in
    elim (accept s request_id from incoming) [
      | none ↦ rest
      | some payload ↦
          finished (remember s request_id) bytes (response ++ payload) (ok (disposition payload))
            arrivals
    ]

-- `wrapping_add` on a word of 64 bits.
abbrev pub next_id : UdpCatSession → ℕ
next_id s = (s.next_request_id + 1) % 2 ^ 64

abbrev pub advance : UdpCatSession → UdpCatSession
advance s = record s { next_request_id = next_id s }

-- `send_ok` is false where the socket refuses the datagram.
unfoldable pub execute : UdpCatSession → Bytes → Bool → List Arrival → Bytes → Execution
execute s request send_ok arrivals response =
    elim (encode_envelope s.session_id (next_id s) request) [
      | err e ↦ record {
        session = advance s;
        sent = none;
        response = response;
        result = some (err e);
        unread = arrivals;
      }
      | ok bytes ↦
          let rest = wait (advance s) (next_id s) bytes arrivals response in
          if send_ok then rest else finished (advance s) bytes response (err io) arrivals
    ]
