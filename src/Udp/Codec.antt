-- ===== src/Udp/Codec.antt =====
-- cat-transport-udp/src/codec.rs: the envelope and the client's cache of completed requests.
pub mod Laws
use radio_cat_rs.Base.{
  ℕ, ◌+◌, Bool, List, [], ◌∷◌, ◌++◌, ltb, leb, ◌==◌, if◌then◌else◌, length, take, drop, any, Option,
  none, some, Result, ok, err,
}
use radio_cat_rs.Base.Bytes.{Bytes, to_be_bytes, from_be_bytes}

abbrev pub session_id_len : ℕ
session_id_len = 8

abbrev pub request_id_len : ℕ
request_id_len = 8

abbrev pub envelope_header_len : ℕ
envelope_header_len = session_id_len + request_id_len

abbrev pub max_payload_size : ℕ
max_payload_size = 1024

abbrev pub max_datagram_size : ℕ
max_datagram_size = envelope_header_len + max_payload_size

abbrev pub dedup_cache_capacity : ℕ
dedup_cache_capacity = 32

-- Of a socket address the code uses the equality only: a number tells it.
abbrev pub SocketAddr : Type 0
SocketAddr = ℕ

-- `io` stands for the socket's own error; a time-out names the peer and the milliseconds.
pub data UdpSessionError : Type 0 where
  io : UdpSessionError
  timeout : SocketAddr → ℕ → UdpSessionError
  payload_too_large : ℕ → ℕ → UdpSessionError

unfoldable pub encode_envelope : ℕ → ℕ → Bytes → Result UdpSessionError Bytes
encode_envelope session_id request_id payload =
    if ltb max_payload_size (length payload)
    then err (payload_too_large (length payload) max_payload_size)
    else ok (
        to_be_bytes session_id_len session_id ++ (to_be_bytes request_id_len request_id ++ payload))

unfoldable pub decode_envelope : Bytes → Option (ℕ × ℕ × Bytes)
decode_envelope datagram =
    if ltb (length datagram) envelope_header_len
    then none
    else some (
      from_be_bytes 0 (take session_id_len datagram),
      from_be_bytes 0 (take request_id_len (drop session_id_len datagram)),
      drop envelope_header_len datagram,
    )

-- The entries of `RequestIdCache`, oldest first.
abbrev pub RequestIdCache : Type 0
RequestIdCache = List ℕ

unfoldable pub remember_completed : ℕ → RequestIdCache → RequestIdCache
remember_completed request_id entries =
    (if leb dedup_cache_capacity (length entries) then drop 1 entries else entries)
    ++ (request_id ∷ [])

unfoldable pub is_known_duplicate : ℕ → RequestIdCache → Bool
is_known_duplicate request_id entries = any (λ e. e == request_id) entries
