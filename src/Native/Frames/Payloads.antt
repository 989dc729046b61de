-- ===== src/Native/Frames/Payloads.antt =====
-- The payloads of spectrum and audio frames are read back as they were written.
use radio_cat_rs.Base.{
  ℕ, ◌+◌, ◌*◌, ◌^◌, ◌<◌, ◌≡◌, refl, ap, ◌∙◌, List, [], ◌∷◌, ◌++◌, ltb, if◌then◌else◌, length, drop,
  length-append, drop-length_append, append-nil, Option, none, some, arith, All,
}
use radio_cat_rs.Base.Bytes.{Bytes, from-to_be_bytes}
use radio_cat_rs.Native.Frames.{
  put_floats, floats, SpectrumFrame, AudioFrame, encode_spectrum_payload, decode_spectrum_payload,
  encode_audio_payload, decode_audio_payload,
}

-- The spectrum payload, its numbers within their words.
abbrev pub IsWord32 : ℕ → Type 0
IsWord32 x = x < 2 ^ 32

length-put_floats : (xs : List ℕ) → length (put_floats xs) ≡ 4 * length xs
unfolding put_floats
length-put_floats [] = refl
length-put_floats (x ∷ xs) = omega (arith, length-put_floats xs)

floats-put_floats :
    (xs : List ℕ) (rest : Bytes) → All IsWord32 xs → floats (length xs) (put_floats xs ++ rest) ≡ xs
unfolding floats put_floats
floats-put_floats [] rest words = refl
floats-put_floats (x ∷ xs) rest words =
    ap (λ (first : ℕ). first ∷ floats (length xs) (put_floats xs ++ rest))
      (from-to_be_bytes 4 x words.0)
    ∙ ap (◌∷◌ x) (floats-put_floats xs rest words.1)

abbrev pub IsSpectrumFrame : SpectrumFrame → Type 0
IsSpectrumFrame frame =
    (frame.center_hz < 2 ^ 64)
    × (frame.span_hz < 2 ^ 32)
    × (frame.ref_level_dbm < 2 ^ 32)
    × (frame.sequence < 2 ^ 64)
    × (length frame.bins < 2 ^ 32)
    × All IsWord32 frame.bins

-- `decode_spectrum_payload` behind its header.
spectrum_of : (count center_hz span_hz ref_level_dbm sequence : ℕ) → Bytes → Option SpectrumFrame
spectrum_of count center_hz span_hz ref_level_dbm sequence payload =
    if ltb (length payload) 28
    then none
    else if ltb (length payload) (28 + count * 4)
    then none
    else some (record {
      center_hz = center_hz;
      span_hz = span_hz;
      ref_level_dbm = ref_level_dbm;
      bins = floats count (drop 28 payload);
      sequence = sequence;
    })

spectrum_of_lem :
    (frame : SpectrumFrame)
    → All IsWord32 frame.bins
    → spectrum_of
        (length frame.bins)
        frame.center_hz
        frame.span_hz
        frame.ref_level_dbm
        frame.sequence
        (encode_spectrum_payload frame)
      ≡ some frame
unfolding spectrum_of encode_spectrum_payload
spectrum_of_lem frame words =
    let bins = floats-put_floats frame.bins [] words in
    ground (arith, length-put_floats frame.bins, append-nil (put_floats frame.bins), bins)

-- A spectrum frame whose numbers fit their words is read back from its payload.
decode-encode_spectrum_payload :
    (frame : SpectrumFrame)
    → IsSpectrumFrame frame
    → decode_spectrum_payload (encode_spectrum_payload frame) ≡ some frame
unfolding decode_spectrum_payload encode_spectrum_payload spectrum_of
decode-encode_spectrum_payload frame (center, span, level, sequence, count, words) =
    (λ i.
      spectrum_of (from-to_be_bytes 4 (length frame.bins) count i)
        (from-to_be_bytes 8 frame.center_hz center i) (from-to_be_bytes 4 frame.span_hz span i)
        (from-to_be_bytes 4 frame.ref_level_dbm level i)
        (from-to_be_bytes 8 frame.sequence sequence i) (encode_spectrum_payload frame))
    ∙ spectrum_of_lem frame words

-- An audio frame whose halves are of one block, its numbers within their words.
abbrev pub IsAudioFrame : AudioFrame → Type 0
IsAudioFrame frame =
    (frame.scope_sequence < 2 ^ 64)
    × (frame.spectrum_sequence ≡ frame.scope_sequence)
    × (frame.sample_rate_hz < 2 ^ 32)
    × (frame.start_hz < 2 ^ 32)
    × (frame.span_hz < 2 ^ 32)
    × (length frame.samples < 2 ^ 32)
    × (length frame.bins < 2 ^ 32)
    × All IsWord32 frame.samples
    × All IsWord32 frame.bins

-- `decode_audio_payload` behind its header.
audio_of : (samples bins sequence sample_rate_hz start_hz span_hz : ℕ) → Bytes → Option AudioFrame
audio_of samples bins sequence sample_rate_hz start_hz span_hz payload =
    if ltb (length payload) 28
    then none
    else if ltb (length payload) (28 + samples * 4 + bins * 4)
    then none
    else some (record {
      sample_rate_hz = sample_rate_hz;
      samples = floats samples (drop 28 payload);
      scope_sequence = sequence;
      start_hz = start_hz;
      span_hz = span_hz;
      bins = floats bins (drop (28 + samples * 4) payload);
      spectrum_sequence = sequence;
    })

drop-put_floats : (xs : List ℕ) (rest : Bytes) → drop (length xs * 4) (put_floats xs ++ rest) ≡ rest
drop-put_floats xs rest =
    ap (λ n. drop n (put_floats xs ++ rest)) (omega (arith, length-put_floats xs))
    ∙ drop-length_append (put_floats xs) rest

audio_of_lem :
    (frame : AudioFrame)
    → frame.spectrum_sequence ≡ frame.scope_sequence
    → All IsWord32 frame.samples
    → All IsWord32 frame.bins
    → audio_of
        (length frame.samples)
        (length frame.bins)
        frame.scope_sequence
        frame.sample_rate_hz
        frame.start_hz
        frame.span_hz
        (encode_audio_payload frame)
      ≡ some frame
unfolding audio_of encode_audio_payload
audio_of_lem frame one samples bins =
    let scope = floats-put_floats frame.samples (put_floats frame.bins) samples in
    let bars = floats-put_floats frame.bins [] bins in
    ground (
      arith,
      length-put_floats frame.samples,
      length-put_floats frame.bins,
      length-append (put_floats frame.samples) (put_floats frame.bins),
      append-nil (put_floats frame.bins),
      drop-put_floats frame.samples (put_floats frame.bins),
      one,
      scope,
      bars,
    )

-- An audio frame is read back from its payload, samples and bins each on their side.
pub decode-encode_audio_payload :
    (frame : AudioFrame)
    → IsAudioFrame frame
    → decode_audio_payload (encode_audio_payload frame) ≡ some frame
unfolding decode_audio_payload encode_audio_payload audio_of
decode-encode_audio_payload frame (sequence, one, rate, start, span, count, width, samples, bins) =
    (λ i.
      audio_of (from-to_be_bytes 4 (length frame.samples) count i)
        (from-to_be_bytes 4 (length frame.bins) width i)
        (from-to_be_bytes 8 frame.scope_sequence sequence i)
        (from-to_be_bytes 4 frame.sample_rate_hz rate i) (from-to_be_bytes 4 frame.start_hz start i)
        (from-to_be_bytes 4 frame.span_hz span i) (encode_audio_payload frame))
    ∙ audio_of_lem frame one samples bins
