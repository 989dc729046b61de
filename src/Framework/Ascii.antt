-- ===== src/Framework/Ascii.antt =====
-- cat-framework/src/wire_format.rs: `AsciiLineFormat`. A code is the bytes of its text.
pub mod Requests
use radio_cat_rs.Base.{
  ℕ, Bool, true, false, ◌&&◌, ◌||◌, ◌≡◌, List, [], ◌∷◌, ◌++◌, ◌==◌, ltb, leb, if◌then◌else◌, length,
  take, drop, last?, drop_last, find, Option, some, none, Result, ok, err, arith,
}
use radio_cat_rs.Base.Bytes.{Bytes, bytes_eq}
use radio_cat_rs.Framework.Command.{CommandDefinition, CommandTable, ParseError, missing_terminator}
use radio_cat_rs.Framework.WireFormat.{CatWireFormat, IsIn, find-IsIn}

-- `strip_suffix(b";")`.
unfoldable pub strip_terminator : Bytes → Option Bytes
strip_terminator frame = elim (last? frame) [
  | none ↦ none
  | some b ↦ if b == b';' then some (drop_last frame) else none
]

-- `str::from_utf8` on the two bytes of a code.
abbrev pub is_utf8_pair : Bytes → Bool
is_utf8_pair (a ∷ b ∷ []) =
    (ltb a 0x80 && ltb b 0x80) || (leb 0xC2 a && leb a 0xDF && leb 0x80 b && leb b 0xBF)
is_utf8_pair _ = false

module _ {C : Type 0} where
  lookup :
      CommandTable C Bytes → Bytes → Bytes → Result ParseError (CommandDefinition C Bytes × Bytes)
  lookup table code parameters = elim (find (λ d. bytes_eq d.code code) table) [
    | none ↦ err (ParseError.unknown_command code)
    | some d ↦ ok (d, parameters)
  ]

  unfoldable pub find_command :
      CommandTable C Bytes → Bytes → Result ParseError (CommandDefinition C Bytes × Bytes)
  unfolding strip_terminator lookup
  find_command table frame = elim (strip_terminator frame) [
    | none ↦ err missing_terminator
    | some body ↦
        if ltb (length body) 2
        then err ParseError.invalid_syntax
        else if is_utf8_pair (take 2 body)
        then lookup table (take 2 body) (drop 2 body)
        else err ParseError.invalid_syntax
  ]

  find_command_lookup :
      (table : CommandTable C Bytes) (frame : Bytes) {d : CommandDefinition C Bytes}
      {params : Bytes}
      → find_command table frame ≡ ok (d, params)
      → lookup table (take 2 (drop_last frame)) (drop 2 (drop_last frame)) ≡ ok (d, params)
  unfolding find_command
  find_command_lookup table frame h = ground arith

  lookup-find :
      (table : CommandTable C Bytes) (code ps : Bytes) {d : CommandDefinition C Bytes}
      {params : Bytes}
      → lookup table code ps ≡ ok (d, params)
      → find (λ d. bytes_eq d.code code) table ≡ some d
  unfolding lookup
  lookup-find table code ps h = ground arith

  pub find_command-IsIn :
      (table : CommandTable C Bytes) (frame : Bytes) {d : CommandDefinition C Bytes}
      {params : Bytes}
      → find_command table frame ≡ ok (d, params)
      → IsIn d table
  find_command-IsIn table frame h =
      find-IsIn _ table (lookup-find table _ _ (find_command_lookup table frame h))

unfoldable pub encode_request : Bytes → Bytes → Bytes
encode_request code params = code ++ params ++ (b';' ∷ [])

unfoldable pub frame_complete : Bytes → Bool
frame_complete buffer = elim (last? buffer) [ none ↦ false | some b ↦ b == b';' ]

-- `{:?}` of a code without characters that Rust escapes: the text in quotes.
abbrev pub ascii_line_format : {C : Type 0} → CatWireFormat C Bytes
ascii_line_format = record {
  find_command = find_command;
  encode_request = encode_request;
  frame_complete = frame_complete;
  debug_code = λ code. b'"' ∷ (code ++ (b'"' ∷ []));
  find_command-IsIn = find_command-IsIn;
}
