-- ===== src/Framework/Command.antt =====
-- cat-framework/src/cat.rs: command forms and definitions, and the parse errors.
use Prim.Native.String.{String}
use radio_cat_rs.Base.{ℕ, Bool, true, false, ◌&&◌, List, leb, any}
use radio_cat_rs.Base.Bytes.{Bytes}

pub data CommandOperation : Type 0 where
  query set action response : CommandOperation

pub record CommandForm : Type 0 where
  pub operation : CommandOperation
  pub min_len : ℕ
  pub max_len : ℕ
  pub is_selector_read : Bool

abbrev pub fixed : CommandOperation → ℕ → CommandForm
fixed operation len = record {
  operation = operation;
  min_len = len;
  max_len = len;
  is_selector_read = false;
}

abbrev pub variable : CommandOperation → ℕ → ℕ → CommandForm
variable operation min_len max_len = record {
  operation = operation;
  min_len = min_len;
  max_len = max_len;
  is_selector_read = false;
}

abbrev pub selector_read : ℕ → CommandForm
selector_read len = record {
  operation = set;
  min_len = len;
  max_len = len;
  is_selector_read = true;
}

abbrev pub operation_eq : CommandOperation → CommandOperation → Bool
operation_eq query query = true
operation_eq set set = true
operation_eq action action = true
operation_eq response response = true
operation_eq _ _ = false

unfoldable pub matches : CommandForm → CommandOperation → ℕ → Bool
matches form operation len =
    operation_eq form.operation operation && (leb form.min_len len && leb len form.max_len)

-- `C` is the radio's own command identifier, `Code` the wire code of its protocol.
pub record CommandDefinition (C Code : Type 0) : Type 0 where
  pub id : C
  pub code : Code
  pub name : String
  pub description : String
  pub query_forms : List CommandForm
  pub set_forms : List CommandForm
  pub action_forms : List CommandForm
  pub response_forms : List CommandForm
  pub readable : Bool
  pub writable : Bool

-- `CommandTable` is the list of its definitions.
abbrev pub CommandTable : Type 0 → Type 0 → Type 0
CommandTable C Code = List (CommandDefinition C Code)

module _ {C Code : Type 0} where
  abbrev forms_for : CommandDefinition C Code → CommandOperation → List CommandForm
  forms_for d query = d.query_forms
  forms_for d set = d.set_forms
  forms_for d action = d.action_forms
  forms_for d response = d.response_forms

  unfoldable pub supports : CommandDefinition C Code → CommandOperation → ℕ → Bool
  unfolding matches
  supports d operation param_len =
      any (λ form. matches form operation param_len) (forms_for d operation)

  unfoldable pub is_selector_read : CommandDefinition C Code → ℕ → Bool
  unfolding matches
  is_selector_read d param_len =
      any (λ form. matches form set param_len && form.is_selector_read) d.set_forms

pub data ParseError : Type 0 where
  missing_terminator : ParseError
  invalid_syntax : ParseError
  unknown_command : Bytes → ParseError
  unsupported_operation : Bytes → ParseError
  invalid_parameter_width : Bytes → ℕ → ParseError

pub data ProtocolErrorKind : Type 0 where
  unknown_command invalid_syntax invalid_parameter unsupported_operation : ProtocolErrorKind

-- `From<&ParseError>`.
unfoldable pub error_kind : ParseError → ProtocolErrorKind
error_kind (ParseError.unknown_command s) = ProtocolErrorKind.unknown_command
error_kind (ParseError.unsupported_operation s) = ProtocolErrorKind.unsupported_operation
error_kind (invalid_parameter_width s len) = invalid_parameter
error_kind missing_terminator = ProtocolErrorKind.invalid_syntax
error_kind ParseError.invalid_syntax = ProtocolErrorKind.invalid_syntax
