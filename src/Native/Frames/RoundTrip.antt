-- ===== src/Native/Frames/RoundTrip.antt =====
-- Frames are read back as they were written.
use radio_cat_rs.Base.{
  ℕ, zero, suc, ◌+◌, ◌^◌, ◌≤◌, ◌<◌, true, ◌≡◌, refl, sym, ap, ◌∙◌, ◌∷◌, ◌++◌, length, take,
  length-append, take-length_append, ok, err, arith, length-take,
}
use radio_cat_rs.Base.Bytes.{Bytes, to_be_bytes, from-to_be_bytes}
use radio_cat_rs.Native.Frames.{
  FrameKind, kind_byte, control, spectrum, audio, is_control, max_control_bytes, incomplete,
  encode_frame, decode_frame, decode_body,
}

-- A payload that a frame carries: its length fits a u32, and that of a control frame the bound.
abbrev pub Fits : FrameKind → Bytes → Type 0
Fits control payload = length payload ≤ max_control_bytes
Fits _ payload = length payload < 2 ^ 32

Fits-bound : (kind : FrameKind) (payload : Bytes) → Fits kind payload → length payload < 2 ^ 32
Fits-bound control payload fits = omega arith
Fits-bound spectrum payload fits = fits
Fits-bound audio payload fits = fits

decode_body-append :
    (kind : FrameKind) (payload rest : Bytes)
    → Fits kind payload
    → decode_body kind (length payload) (payload ++ rest) ≡ ok (kind, payload, 5 + length payload)
unfolding decode_body
decode_body-append control payload rest fits =
    ground (arith, length-append payload rest, take-length_append payload rest)
decode_body-append spectrum payload rest fits =
    ground (arith, length-append payload rest, take-length_append payload rest)
decode_body-append audio payload rest fits =
    ground (arith, length-append payload rest, take-length_append payload rest)

header_lem :
    (kind : FrameKind) (len : ℕ) (body : Bytes)
    → len < 2 ^ 32
    → decode_frame (kind_byte kind ∷ (to_be_bytes 4 len ++ body)) ≡ decode_body kind len body
unfolding decode_frame
header_lem control len body fits =
    ap (λ n. decode_body control n body) (from-to_be_bytes 4 len fits)
header_lem spectrum len body fits =
    ap (λ n. decode_body spectrum n body) (from-to_be_bytes 4 len fits)
header_lem audio len body fits = ap (λ n. decode_body audio n body) (from-to_be_bytes 4 len fits)

length-encode_frame :
    (kind : FrameKind) (payload : Bytes) → length (encode_frame kind payload) ≡ 5 + length payload
unfolding encode_frame
length-encode_frame kind payload = omega arith

-- A frame in front of anything is read back, with the number of its bytes.
decode-encode_frame :
    (kind : FrameKind) (payload rest : Bytes)
    → Fits kind payload
    → decode_frame (encode_frame kind payload ++ rest)
      ≡ ok (kind, payload, length (encode_frame kind payload))
unfolding encode_frame
decode-encode_frame kind payload rest fits =
    header_lem kind (length payload) (payload ++ rest) (Fits-bound kind payload fits)
    ∙ decode_body-append kind payload rest fits
    ∙ ap (λ n. ok (kind, payload, n)) (sym (length-encode_frame kind payload))

short_body :
    (kind : FrameKind) (len : ℕ) (body : Bytes)
    → (is_control kind ≡ true → len ≤ max_control_bytes)
    → length body < len
    → decode_body kind len body ≡ err incomplete
unfolding decode_body
short_body kind len body bound short = ground (arith, bound)

Fits-control :
    (kind : FrameKind) (payload : Bytes)
    → Fits kind payload
    → is_control kind ≡ true
    → length payload ≤ max_control_bytes
Fits-control control payload fits h = fits
Fits-control spectrum payload fits h = cc
Fits-control audio payload fits h = cc

-- The first `n` bytes of a frame, fewer than it has, are no frame yet.
decode-take_frame :
    (kind : FrameKind) (payload : Bytes) (n : ℕ)
    → Fits kind payload
    → n < length (encode_frame kind payload)
    → decode_frame (take n (encode_frame kind payload)) ≡ err incomplete
unfolding encode_frame decode_frame
decode-take_frame kind payload zero fits short = refl
decode-take_frame kind payload (suc zero) fits short = refl
decode-take_frame kind payload (suc (suc zero)) fits short = refl
decode-take_frame kind payload (suc (suc (suc zero))) fits short = refl
decode-take_frame kind payload (suc (suc (suc (suc zero)))) fits short = refl
decode-take_frame kind payload (suc (suc (suc (suc (suc m))))) fits short =
    header_lem kind (length payload) (take m payload) (Fits-bound kind payload fits)
    ∙ short_body kind (length payload) (take m payload) (Fits-control kind payload fits)
        (omega (arith, length-take m payload))
