-- ===== src/Native/Frames.antt =====
-- The binary framing of cat-native/src/lib.rs and the payloads of its spectrum and audio frames. An f32 is
-- its bits, which is what `to_be_bytes` writes.
use radio_cat_rs.Base.{
  ℕ, ◌+◌, ◌*◌, ◌^◌, Bool, true, false, ◌&&◌, List, [], ◌∷◌, ◌++◌, ltb, ◌==◌, if◌then◌else◌, length,
  take, drop, Option, none, some, Result, ok, err,
}
use radio_cat_rs.Base.Bytes.{Bytes, to_be_bytes, from_be_bytes}
pub mod RoundTrip
pub mod Payloads

pub data FrameKind : Type 0 where
  control spectrum audio : FrameKind

-- `kind as u8`.
abbrev pub kind_byte : FrameKind → ℕ
kind_byte control = 1
kind_byte spectrum = 2
kind_byte audio = 3

abbrev pub from_u8 : ℕ → Option FrameKind
from_u8 v =
    if v == 1
    then some control
    else if v == 2
    then some spectrum
    else if v == 3
    then some audio
    else none

abbrev pub is_control : FrameKind → Bool
is_control control = true
is_control _ = false

abbrev pub max_control_bytes : ℕ
max_control_bytes = 2 ^ 20

pub data FrameError : Type 0 where
  incomplete : FrameError
  unknown_kind : ℕ → FrameError
  too_large : ℕ → FrameError

-- `payload.len() as u32` is the low four bytes.
unfoldable pub encode_frame : FrameKind → Bytes → Bytes
encode_frame kind payload = kind_byte kind ∷ (to_be_bytes 4 (length payload) ++ payload)

-- Behind the five bytes of the header.
unfoldable pub decode_body : FrameKind → ℕ → Bytes → Result FrameError (FrameKind × Bytes × ℕ)
decode_body kind len body =
    if is_control kind && ltb max_control_bytes len
    then err (too_large len)
    else if ltb (length body) len
    then err incomplete
    else ok (kind, take len body, 5 + len)

-- Behind the kind that the first byte stands for.
unfoldable pub decode_kind :
    ℕ → Option FrameKind → ℕ → Bytes → Result FrameError (FrameKind × Bytes × ℕ)
unfolding decode_body
decode_kind k none len body = err (unknown_kind k)
decode_kind k (some kind) len body = decode_body kind len body

unfoldable pub decode_frame : Bytes → Result FrameError (FrameKind × Bytes × ℕ)
unfolding decode_kind
decode_frame (k ∷ a ∷ b ∷ c ∷ d ∷ body) =
    decode_kind k (from_u8 k) (from_be_bytes 0 (a ∷ b ∷ c ∷ d ∷ [])) body
decode_frame _ = err incomplete

-- A word of `n` bytes in front of a payload.
abbrev word_at : ℕ → ℕ → Bytes → ℕ
word_at at n payload = from_be_bytes 0 (take n (drop at payload))

-- `for x in xs { out.extend_from_slice(&x.to_be_bytes()) }`.
unfoldable pub put_floats : List ℕ → Bytes
put_floats [] = []
put_floats (x ∷ xs) = to_be_bytes 4 x ++ put_floats xs

-- `chunks_exact(4)` over `count` floats.
unfoldable pub floats : ℕ → Bytes → List ℕ
floats ℕ.zero payload = []
floats (ℕ.suc count) payload = from_be_bytes 0 (take 4 payload) ∷ floats count (drop 4 payload)

pub record SpectrumFrame : Type 0 where
  pub center_hz : ℕ
  pub span_hz : ℕ
  pub ref_level_dbm : ℕ
  pub bins : List ℕ
  pub sequence : ℕ

unfoldable pub encode_spectrum_payload : SpectrumFrame → Bytes
unfolding put_floats
encode_spectrum_payload frame =
    to_be_bytes 8 frame.center_hz
    ++ (to_be_bytes 4 frame.span_hz
        ++ (to_be_bytes 4 frame.ref_level_dbm
            ++ (to_be_bytes 8 frame.sequence
                ++ (to_be_bytes 4 (length frame.bins) ++ put_floats frame.bins))))

unfoldable pub decode_spectrum_payload : Bytes → Option SpectrumFrame
unfolding floats
decode_spectrum_payload payload =
    let count = word_at 24 4 payload in
    if ltb (length payload) 28
    then none
    else if ltb (length payload) (28 + count * 4)
    then none
    else some (record {
      center_hz = word_at 0 8 payload;
      span_hz = word_at 8 4 payload;
      ref_level_dbm = word_at 12 4 payload;
      bins = floats count (drop 28 payload);
      sequence = word_at 16 8 payload;
    })

-- `AudioFrame`: the scope and the spectrum, each with its own sequence number.
pub record AudioFrame : Type 0 where
  pub sample_rate_hz : ℕ
  pub samples : List ℕ
  pub scope_sequence : ℕ
  pub start_hz : ℕ
  pub span_hz : ℕ
  pub bins : List ℕ
  pub spectrum_sequence : ℕ

unfoldable pub encode_audio_payload : AudioFrame → Bytes
unfolding put_floats
encode_audio_payload frame =
    to_be_bytes 8 frame.scope_sequence
    ++ (to_be_bytes 4 frame.sample_rate_hz
        ++ (to_be_bytes 4 frame.start_hz
            ++ (to_be_bytes 4 frame.span_hz
                ++ (to_be_bytes 4 (length frame.samples)
                    ++ (to_be_bytes 4 (length frame.bins)
                        ++ (put_floats frame.samples ++ put_floats frame.bins))))))

unfoldable pub decode_audio_payload : Bytes → Option AudioFrame
unfolding floats
decode_audio_payload payload =
    let samples = word_at 20 4 payload in
    let bins = word_at 24 4 payload in
    let sequence = word_at 0 8 payload in
    if ltb (length payload) 28
    then none
    else if ltb (length payload) (28 + samples * 4 + bins * 4)
    then none
    else some (record {
      sample_rate_hz = word_at 8 4 payload;
      samples = floats samples (drop 28 payload);
      scope_sequence = sequence;
      start_hz = word_at 12 4 payload;
      span_hz = word_at 16 4 payload;
      bins = floats bins (drop (28 + samples * 4) payload);
      spectrum_sequence = sequence;
    })
