-- ===== src/Framework/Process/Frames.antt =====
-- What `process_frame` asks of the radio.
use radio_cat_rs.Base.{false, ◌≡◌, refl, ap, [], ◌∷◌, length, ok, err, arith, Bool-cases, inl, inr}
use radio_cat_rs.Base.Bytes.{Bytes}
use radio_cat_rs.Framework.Command.{
  CommandOperation, query, set, action, CommandDefinition, supports, ParseError,
  invalid_parameter_width, ProtocolErrorKind, invalid_parameter, error_kind,
}
use radio_cat_rs.Framework.WireFormat.{CatWireFormat}
use radio_cat_rs.Framework.Process.{
  ResponseBuilder, CatRadio, classify, parse, process_frame, finish_frame,
}
use radio_cat_rs.Framework.Process.Requests.{Allows, Chooses-Allows, parse_iff}

abbrev fresh : Bytes → ResponseBuilder
fresh output = record { output = output; finished = false }

abbrev refusal : Bytes → Bytes → ParseError
refusal [] text = ParseError.unsupported_operation text
refusal (x ∷ xs) text = invalid_parameter_width text (length (x ∷ xs))

abbrev pub refusal_kind : Bytes → ProtocolErrorKind
refusal_kind [] = ProtocolErrorKind.unsupported_operation
refusal_kind (x ∷ xs) = invalid_parameter

kind_refusal : (params text : Bytes) → error_kind (refusal params text) ≡ refusal_kind params
unfolding error_kind
kind_refusal [] text = refl
kind_refusal (x ∷ xs) text = refl

classify_refused :
    {C Code : Type 0} (d : CommandDefinition C Code) (params text : Bytes)
    → ((op : CommandOperation) → ¬ Allows d params op)
    → classify d params text ≡ err (refusal params text)
unfolding classify
classify_refused d [] text h = elim (Bool-cases (supports d query 0)) [
  | inl q ↦ absurd (h query ((Chooses-Allows d [] query).0 q))
  | inr q ↦ elim (Bool-cases (supports d action 0)) [
    | inl a ↦ absurd (h action ((Chooses-Allows d [] action).0 (q, refl, a)))
    | inr a ↦ elim (Bool-cases (supports d set 0)) [
      | inl s ↦ absurd (h set ((Chooses-Allows d [] set).0 (q, a, s)))
      | inr s ↦ ground (arith, q, a, s)
    ]
  ]
]
classify_refused d (x ∷ xs) text h = elim (Bool-cases (supports d query (length (x ∷ xs)))) [
  | inl q ↦ absurd (h query ((Chooses-Allows d (x ∷ xs) query).0 q))
  | inr q ↦ elim (Bool-cases (supports d set (length (x ∷ xs)))) [
    | inl s ↦ absurd (h set ((Chooses-Allows d (x ∷ xs) set).0 (q, refl, s)))
    | inr s ↦ ground (arith, q, s)
  ]
]

module _ {R C Code Event Error : Type 0} (radio : CatRadio R C Code Event Error)
    (f : CatWireFormat C Code) (frame : Bytes) (r : R) (output : Bytes)
    (d : CommandDefinition C Code) (params : Bytes)
    (found : f.find_command (radio.command_table r) frame ≡ ok (d, params)) where
  -- A frame whose command the table has, with an operation that it allows: the radio's handler is
  -- called once, with that request and an unfinished builder over the caller's buffer, and what it
  -- leaves is the result.
  process_frame_handled :
      (op : CommandOperation)
      → Allows d params op
      → process_frame radio f frame r output
        ≡ finish_frame (
            radio.handle_command
              (record { id = d.id; code = d.code; operation = op; parameters = params })
              r
              (fresh output))
  unfolding process_frame
  process_frame_handled op allowed =
      rw ((parse_iff f (radio.command_table r) frame d params op found).1 allowed, process_frame)

  -- A frame whose command the table has, with no operation that it allows at the width of the
  -- parameters: the handler is not called; the radio writes its protocol error, of an unsupported
  -- operation where there are no parameters and of an invalid parameter where there are some.
  process_frame_refused :
      ((op : CommandOperation) → ¬ Allows d params op)
      → process_frame radio f frame r output
        ≡ finish_frame (radio.write_protocol_error (refusal_kind params) r (fresh output))
  unfolding process_frame parse
  process_frame_refused h =
      rw (found, process_frame, parse)
        (rw (classify_refused d params (f.debug_code d.code) h) (
          ap (λ k. finish_frame (radio.write_protocol_error k r (fresh output)))
            (kind_refusal params (f.debug_code d.code))))
