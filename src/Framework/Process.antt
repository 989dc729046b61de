-- ===== src/Framework/Process.antt =====
-- cat-framework/src/cat.rs: `CommandTable::parse`, the response builder and `process_frame`, for
-- any wire format.
pub mod Requests
pub mod Builder
pub mod Frames
use radio_cat_rs.Base.{
  ℕ, Bool, true, false, not, ◌&&◌, ◌≡◌, refl, List, [], ◌∷◌, ◌++◌, ◌==◌, if◌then◌else◌, length,
  is_empty, last?, Option, some, none, Result, ok, err, ◌>>=◌,
}
use radio_cat_rs.Base.Bytes.{Bytes}
use radio_cat_rs.Framework.Command.{
  CommandOperation, query, set, action, CommandDefinition, CommandTable, supports, ParseError,
  unsupported_operation, invalid_parameter_width, ProtocolErrorKind, error_kind,
}
use radio_cat_rs.Framework.WireFormat.{CatWireFormat}

-- `CommandRequest` with its `ParameterValues`.
pub record CommandRequest (C Code : Type 0) : Type 0 where
  pub id : C
  pub code : Code
  pub operation : CommandOperation
  pub parameters : Bytes

module _ {C Code : Type 0} where
  -- The operation of a frame with `params` behind its code. The text of the code goes into errors.
  unfoldable pub classify :
      CommandDefinition C Code → Bytes → Bytes → Result ParseError CommandOperation
  classify d params code_text =
      if supports d query (length params)
      then ok query
      else if is_empty params && supports d action 0
      then ok action
      else if supports d set (length params)
      then ok set
      else if is_empty params
      then err (ParseError.unsupported_operation code_text)
      else err (invalid_parameter_width code_text (length params))

  unfoldable pub parse :
      CatWireFormat C Code → CommandTable C Code → Bytes → Result ParseError (CommandRequest C Code)
  parse f table frame = do
    (d, params) ← f.find_command table frame
    operation ← classify d params (f.debug_code d.code)
    ok (record { id = d.id; code = d.code; operation = operation; parameters = params })

-- `ResponseBuilder`: the caller's output buffer and the flag; `none` is `AlreadyFinished`.
pub record ResponseBuilder : Type 0 where
  pub output : Bytes
  pub finished : Bool

abbrev append : Bytes → Bool → ResponseBuilder → Option ResponseBuilder
append bytes finished b =
    if b.finished then none else some (record { output = b.output ++ bytes; finished = finished })

unfoldable pub push_bytes : Bytes → ResponseBuilder → Option ResponseBuilder
push_bytes bytes b = append bytes false b

unfoldable pub write_frame : Bytes → ResponseBuilder → Option ResponseBuilder
unfolding push_bytes
write_frame frame b = elim (push_bytes frame b) [
  | none ↦ none
  | some b' ↦ some (record b' { finished = true })
]

unfoldable pub push_wire_value : Bytes → ResponseBuilder → Option ResponseBuilder
push_wire_value value b = append value false b

unfoldable pub finish : ResponseBuilder → Option ResponseBuilder
finish b = append (b';' ∷ []) true b

-- `response.ends_with(';')`.
abbrev ends_with_semicolon : Bytes → Bool
ends_with_semicolon bytes = elim (last? bytes) [ none ↦ false | some b ↦ b == b';' ]

unfoldable pub write_complete : Bytes → ResponseBuilder → Option ResponseBuilder
write_complete response b = append response (ends_with_semicolon response) b

pub data ResponseDisposition : Type 0 where
  response_written no_response : ResponseDisposition
  protocol_error : ProtocolErrorKind → ResponseDisposition

pub record CommandOutcome (Event : Type 0) : Type 0 where
  pub response : ResponseDisposition
  pub events : List Event

-- `CatRadio` with its catalog: the radio-specific state machine that the engine calls.
pub record CatRadio (R C Code Event Error : Type 0) : Type 0 where
  pub command_table : R → CommandTable C Code
  pub handle_command :
      CommandRequest C Code
      → R
      → ResponseBuilder
      → R × ResponseBuilder × Result Error (CommandOutcome Event)
  pub write_protocol_error :
      ProtocolErrorKind
      → R
      → ResponseBuilder
      → R × ResponseBuilder × Result Error (CommandOutcome Event)

abbrev pub finish_frame :
    {R Event Error : Type 0}
    → R × ResponseBuilder × Result Error (CommandOutcome Event)
    → R × Bytes × Result Error (CommandOutcome Event)
finish_frame (r, b, outcome) = (r, b.output, outcome)

module _ {R C Code Event Error : Type 0} where
  -- `CatFramework::process_frame`; its error is `CatFrameworkError::Radio`.
  unfoldable pub process_frame :
      CatRadio R C Code Event Error
      → CatWireFormat C Code
      → Bytes
      → R
      → Bytes
      → R × Bytes × Result Error (CommandOutcome Event)
  process_frame radio f frame r output =
      let response : ResponseBuilder = record { output = output; finished = false } in
      elim (parse f (radio.command_table r) frame) [
        | ok request ↦ finish_frame (radio.handle_command request r response)
        | err e ↦ finish_frame (radio.write_protocol_error (error_kind e) r response)
      ]
