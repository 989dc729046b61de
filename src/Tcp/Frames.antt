-- ===== src/Tcp/Frames.antt =====
-- Frames written and their lengths read, on both sides of the limit.
use radio_cat_rs.Base.{
  ℕ, ◌^◌, ◌≤◌, ◌<◌, min, ◌≡◌, ◌++◌, length, take, drop, ok, err, arith, take-length_append,
  drop-length_append,
}
use radio_cat_rs.Base.Bytes.{Bytes, to_be_bytes, length-to_be_bytes, from-to_be_bytes}
use radio_cat_rs.Tcp.{
  max_frame_size, u32_max, frame_too_large, check_frame_len, encode_frame, decode_len_prefix,
}

take_prefix : (n : ℕ) (xs ys : Bytes) → length xs ≡ n → take n (xs ++ ys) ≡ xs
take_prefix n xs ys e = rw (← e) (take-length_append xs ys)

drop_prefix : (n : ℕ) (xs ys : Bytes) → length xs ≡ n → drop n (xs ++ ys) ≡ ys
drop_prefix n xs ys e = rw (← e) (drop-length_append xs ys)

pub decode_prefix :
    (len : ℕ) → len ≤ max_frame_size → decode_len_prefix (to_be_bytes 4 len) ≡ ok len
unfolding decode_len_prefix check_frame_len
decode_prefix len h = rw (from-to_be_bytes 4 len (omega arith)) (ground arith)

-- A payload of at most 65536 bytes is written as a frame whose first four bytes are read as the
-- payload's length, with the payload behind them.
decode_len_prefix-encode_frame :
    (payload : Bytes)
    → length payload ≤ max_frame_size
    → (frame : Bytes) × (encode_frame payload ≡ ok frame)
      × (decode_len_prefix (take 4 frame) ≡ ok (length payload))
      × (drop 4 frame ≡ payload)
unfolding encode_frame check_frame_len
decode_len_prefix-encode_frame payload h =
    let prefix = to_be_bytes 4 (length payload) in
    (
      prefix ++ payload,
      ground arith,
      rw (take_prefix 4 prefix payload (length-to_be_bytes 4 (length payload)))
          (decode_prefix (length payload) h),
      drop_prefix 4 prefix payload (length-to_be_bytes 4 (length payload)),
    )

-- A larger payload is not written, and a prefix that declares a larger length is refused before
-- anything behind it is read: the error names the length, clamped to a u32, and the limit.
pub encode_frame_refused :
    (payload : Bytes) (len : ℕ)
    → max_frame_size < length payload
    → max_frame_size < len
    → len < 2 ^ 32
    → (encode_frame payload ≡ err (frame_too_large (min (length payload) u32_max) max_frame_size))
      × (decode_len_prefix (to_be_bytes 4 len) ≡ err (frame_too_large len max_frame_size))
unfolding encode_frame decode_len_prefix check_frame_len
encode_frame_refused payload len hp hl word =
    (ground arith, rw (from-to_be_bytes 4 len (omega arith)) (ground arith))
