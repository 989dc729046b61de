-- ===== src/Tcp.antt =====
-- cat-transport-tcp/src/codec.rs: frames with their length in front.
pub mod Frames
pub mod Session
pub mod Answers
mod Tests
use radio_cat_rs.Base.{
  ℕ, ◌-◌, ◌*◌, ◌^◌, min, ◌++◌, ltb, if◌then◌else◌, length, Result, ok, err, ◌>>=◌,
}
use radio_cat_rs.Base.Bytes.{Bytes, to_be_bytes, from_be_bytes}

abbrev pub max_frame_size : ℕ
max_frame_size = 64 * 1024

abbrev pub u32_max : ℕ
u32_max = 2 ^ 32 - 1

-- `io` is the error of the connection.
pub data TcpSessionError : Type 0 where
  io : TcpSessionError
  frame_too_large : ℕ → ℕ → TcpSessionError

unfoldable pub check_frame_len : ℕ → Result TcpSessionError (Unit {0})
check_frame_len len =
    if ltb max_frame_size len then err (frame_too_large len max_frame_size) else ok tt

-- A length that is no u32 counts as the largest.
unfoldable pub encode_frame : Bytes → Result TcpSessionError Bytes
encode_frame payload =
    let len = min (length payload) u32_max in
    check_frame_len len >>= λ _. ok (to_be_bytes 4 len ++ payload)

unfoldable pub decode_len_prefix : Bytes → Result TcpSessionError ℕ
decode_len_prefix len_buf = let len = from_be_bytes 0 len_buf in check_frame_len len >>= λ _. ok len
