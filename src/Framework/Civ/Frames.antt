-- ===== src/Framework/Civ/Frames.antt =====
-- Frames of CI-V: what `parse_envelope` accepts, whom a frame is for, where it ends.
use radio_cat_rs.Base.{
  ℕ, ◌<◌, true, false, ◌&&◌, ◌≡◌, ◌≢◌, ◌↔◌, refl, ap, ◌∙◌, [], ◌∷◌, ◌++◌, length, length-append,
  append-last, last?-append, drop_last-append, take, take-append_le, All, All-append, All-take,
  some, none, arith,
}
use radio_cat_rs.Base.Bytes.{Bytes}
use radio_cat_rs.Framework.Civ.{
  preamble, end_of_message, CivCode, CivFormat, Envelope, parse_envelope, payload_of, is_for_us,
  is_echo, code_bytes, framed, encode_response, encode_request, encode_ok, encode_ng,
  frame_complete,
}

abbrev envelope : ℕ → ℕ → Bytes → Envelope
envelope to from payload = record { to = to; from = from; payload = payload }

parse_envelope-framed :
    (to from x : ℕ) (xs : Bytes)
    → parse_envelope (framed to from (x ∷ xs)) ≡ some (envelope to from (x ∷ xs))
unfolding parse_envelope
parse_envelope-framed to from x xs = ground (
  arith,
  length-append xs (end_of_message ∷ []),
  last?-append (x ∷ xs) end_of_message,
  drop_last-append (x ∷ xs) end_of_message,
)

payload_of_inv :
    (to from : ℕ) (rest : Bytes) {env : Envelope}
    → payload_of to from rest ≡ some env
    → (rest ≡ env.payload ++ (end_of_message ∷ []))
      × (env.to ≡ to)
      × (env.from ≡ from)
      × (env.payload ≢ [])
unfolding payload_of
payload_of_inv to from rest h = ground (arith, append-last rest {y = end_of_message})

parse_envelope_inv :
    (a b to from : ℕ) (rest : Bytes) {env : Envelope}
    → parse_envelope (a ∷ b ∷ to ∷ from ∷ rest) ≡ some env
    → (a ≡ preamble) × (b ≡ preamble) × (payload_of to from rest ≡ some env)
unfolding parse_envelope
parse_envelope_inv a b to from rest h = ground arith

IsFrame-parse_envelope :
    (frame : Bytes) (env : Envelope)
    → parse_envelope frame ≡ some env
    → (frame ≡ framed env.to env.from env.payload) × (env.payload ≢ [])
IsFrame-parse_envelope [] env h = absurd (unfold parse_envelope in cc)
IsFrame-parse_envelope (a ∷ []) env h = absurd (unfold parse_envelope in cc)
IsFrame-parse_envelope (a ∷ b ∷ []) env h = absurd (unfold parse_envelope in cc)
IsFrame-parse_envelope (a ∷ b ∷ c ∷ []) env h = absurd (unfold parse_envelope in cc)
IsFrame-parse_envelope (a ∷ b ∷ to ∷ from ∷ rest) env h =
    let outer = parse_envelope_inv a b to from rest h in
    let inner = payload_of_inv to from rest outer.2 in (ground (arith, outer, inner), inner.3)

parse_envelope_back :
    (to from : ℕ) (payload : Bytes)
    → payload ≢ []
    → parse_envelope (framed to from payload) ≡ some (envelope to from payload)
parse_envelope_back to from [] ne = absurd (ne refl)
parse_envelope_back to from (x ∷ xs) ne = parse_envelope-framed to from x xs

pub parse_envelope_code :
    (to from : ℕ) (code : CivCode) (params : Bytes)
    → parse_envelope (framed to from (code_bytes code ++ params))
      ≡ some (envelope to from (code_bytes code ++ params))
parse_envelope_code to from (c, none) params = parse_envelope-framed to from c params
parse_envelope_code to from (c, some sub) params = parse_envelope-framed to from c (sub ∷ params)

-- `parse_envelope` takes exactly the well-formed frames: two preamble bytes, two addresses, a
-- payload of at least one byte, the terminator. It reports their addresses and payload.
parse_envelope_iff :
    (frame : Bytes) (env : Envelope)
    → (parse_envelope frame ≡ some env)
      ↔ ((frame ≡ framed env.to env.from env.payload) × (env.payload ≢ []))
parse_envelope_iff frame env = (IsFrame-parse_envelope frame env, back)
  where
    back :
        (frame ≡ framed env.to env.from env.payload) × (env.payload ≢ [])
        → parse_envelope frame ≡ some env
    back (e, ne) = ap parse_envelope e ∙ parse_envelope_back env.to env.from env.payload ne

-- A controller and a radio with different addresses: no frame is both an answer and an echo; an
-- answer, an acknowledgement and a refusal of the radio are for the controller and no echo, and a
-- request of the controller is an echo and not for it.
echo_or_answer :
    (f : CivFormat) (code : CivCode) (params frame : Bytes)
    → f.radio ≢ f.controller
    → ((is_for_us f frame && is_echo f frame) ≡ false)
      × (is_for_us f (encode_response f code params) ≡ true)
      × (is_for_us f (encode_ok f) ≡ true)
      × (is_for_us f (encode_ng f) ≡ true)
      × (is_echo f (encode_request f code params) ≡ true)
      × (is_for_us f (encode_request f code params) ≡ false)
unfolding is_for_us is_echo encode_response encode_ok encode_ng encode_request
echo_or_answer f code params frame ne = (
  ground arith,
  ground (arith, parse_envelope_code f.controller f.radio code params),
  ground (arith, parse_envelope-framed f.controller f.radio 0xFB []),
  ground (arith, parse_envelope-framed f.controller f.radio 0xFA []),
  ground (arith, parse_envelope_code f.radio f.controller code params),
  ground (arith, parse_envelope_code f.radio f.controller code params),
)

-- Where a receiver that reads byte by byte stops.
abbrev pub NotEnd : ℕ → Type 0
NotEnd b = b ≢ end_of_message

frame_complete_none : (bs : Bytes) → All NotEnd bs → frame_complete bs ≡ false
unfolding frame_complete
frame_complete_none [] h = refl
frame_complete_none (x ∷ []) h = ground arith
frame_complete_none (x ∷ y ∷ bs) h = frame_complete_none (y ∷ bs) h.1

frame_complete_end : (bs : Bytes) → frame_complete (bs ++ (end_of_message ∷ [])) ≡ true
unfolding frame_complete
frame_complete_end bs = rw (last?-append bs end_of_message, frame_complete)

-- Read byte by byte, a request with no FD in its addresses, its code or its parameters is complete
-- at its last byte and at no byte before it.
pub encode_request-scan :
    (f : CivFormat) (code : CivCode) (params : Bytes) (n : ℕ)
    → NotEnd f.radio
    → NotEnd f.controller
    → All NotEnd (code_bytes code)
    → All NotEnd params
    → n < length (encode_request f code params)
    → (frame_complete (encode_request f code params) ≡ true)
      × (frame_complete (take n (encode_request f code params)) ≡ false)
unfolding encode_request
encode_request-scan f code params n hr hc hcode hp lt =
    let body = preamble ∷ preamble ∷ f.radio ∷ f.controller ∷ (code_bytes code ++ params) in
    let clean : All NotEnd body = (
      omega arith,
      (omega arith, (hr, (hc, All-append NotEnd (code_bytes code) params hcode hp))),
    ) in
    (
      frame_complete_end body,
      rw
          (take-append_le n body (end_of_message ∷ [])
            (omega (arith, length-append (code_bytes code ++ params) (end_of_message ∷ []))))
          (frame_complete_none (take n body) (All-take NotEnd n body clean)),
    )
