-- ===== src/Framework/Civ.antt =====
-- cat-framework/src/civ.rs: Icom CI-V, frames and addresses.
pub mod Frames
pub mod Requests
use Prim.Native.Nat.{bit_and}
use radio_cat_rs.Base.{
  ℕ, ◌+◌, ◌/◌, ◌%◌, Bool, true, false, not, ◌&&◌, ◌≡◌, List, [], ◌∷◌, ◌++◌, ◌==◌, ltb,
  if◌then◌else◌, length, last?, drop_last, find, Option, some, none, Result, ok, err, arith,
  Option-cases, inl, inr,
}
use radio_cat_rs.Base.Bytes.{Bytes}
use radio_cat_rs.Framework.Command.{CommandDefinition, CommandTable, ParseError}
use radio_cat_rs.Framework.WireFormat.{CatWireFormat, IsIn, find-IsIn}

abbrev pub preamble : ℕ
preamble = 0xFE

abbrev pub end_of_message : ℕ
end_of_message = 0xFD

abbrev pub civ_ok : ℕ
civ_ok = 0xFB

abbrev pub civ_ng : ℕ
civ_ng = 0xFA

abbrev pub default_controller_address : ℕ
default_controller_address = 0xE0

abbrev pub CivCode : Type 0
CivCode = ℕ × Option ℕ

pub record CivFormat : Type 0 where
  pub radio : ℕ
  pub controller : ℕ

abbrev pub for_radio : ℕ → CivFormat
for_radio radio = record { radio = radio; controller = default_controller_address }

pub record Envelope : Type 0 where
  pub to : ℕ
  pub from : ℕ
  pub payload : Bytes

-- What is behind the addresses: the payload, if it is not empty, and the terminator.
payload_of : ℕ → ℕ → Bytes → Option Envelope
payload_of to from rest = elim (last? rest) [
  | none ↦ none
  | some b ↦ if not (b == end_of_message) then none else elim (drop_last rest) [
    | [] ↦ none
    | x ∷ xs ↦ some (record { to = to; from = from; payload = x ∷ xs })
  ]
]

-- A frame of six bytes or more has its last byte behind the addresses.
unfoldable pub parse_envelope : Bytes → Option Envelope
unfolding payload_of
parse_envelope (a ∷ b ∷ to ∷ from ∷ rest) =
    if ltb (length rest) 2
    then none
    else if not (a == preamble && b == preamble)
    then none
    else payload_of to from rest
parse_envelope _ = none

unfoldable pub is_for_us : CivFormat → Bytes → Bool
is_for_us f frame = elim (parse_envelope frame) [
  | none ↦ false
  | some env ↦ env.to == f.controller && env.from == f.radio
]

unfoldable pub is_echo : CivFormat → Bytes → Bool
is_echo f frame = elim (parse_envelope frame) [
  | none ↦ false
  | some env ↦ env.to == f.radio && env.from == f.controller
]

abbrev pub code_bytes : CivCode → Bytes
code_bytes (command, none) = command ∷ []
code_bytes (command, some sub) = command ∷ sub ∷ []

abbrev pub framed : ℕ → ℕ → Bytes → Bytes
framed to from payload = preamble ∷ preamble ∷ to ∷ from ∷ (payload ++ (end_of_message ∷ []))

unfoldable pub encode_response : CivFormat → CivCode → Bytes → Bytes
encode_response f code params = framed f.controller f.radio (code_bytes code ++ params)

unfoldable pub encode_ok : CivFormat → Bytes
encode_ok f = framed f.controller f.radio (civ_ok ∷ [])

unfoldable pub encode_ng : CivFormat → Bytes
encode_ng f = framed f.controller f.radio (civ_ng ∷ [])

unfoldable pub encode_request : CivFormat → CivCode → Bytes → Bytes
encode_request f code params = framed f.radio f.controller (code_bytes code ++ params)

unfoldable pub frame_complete : Bytes → Bool
frame_complete buffer = elim (last? buffer) [ none ↦ false | some b ↦ b == end_of_message ]

abbrev pub sub_eq : Option ℕ → Option ℕ → Bool
sub_eq none none = true
sub_eq (some a) (some b) = a == b
sub_eq _ _ = false

abbrev pub code_eq : CivCode → CivCode → Bool
code_eq (c, s) (d, t) = c == d && sub_eq s t

-- One digit and one byte of `{:02X}`.
abbrev hex_digit : ℕ → ℕ
hex_digit n = if ltb n 10 then n + b'0' else n + 55

abbrev pub hex_byte : ℕ → Bytes
hex_byte b = hex_digit (b / 16) ∷ hex_digit (bit_and b 15) ∷ []

module _ {C : Type 0} where
  abbrev pub find_code : CommandTable C CivCode → CivCode → Option (CommandDefinition C CivCode)
  find_code table code = find (λ d. code_eq d.code code) table

  -- The bare command, for a payload with `rest` behind it.
  abbrev find_bare :
      CommandTable C CivCode
      → ℕ
      → Bytes
      → Bytes
      → Result ParseError (CommandDefinition C CivCode × Bytes)
  find_bare table command rest text = elim (find_code table (command, none)) [
    | none ↦ err (ParseError.unknown_command text)
    | some d ↦ ok (d, rest)
  ]

  -- On a payload: sub-commanded first.
  find_payload :
      CommandTable C CivCode → Bytes → Result ParseError (CommandDefinition C CivCode × Bytes)
  find_payload table [] = err ParseError.invalid_syntax
  find_payload table (command ∷ []) = find_bare table command [] (hex_byte command)
  find_payload table (command ∷ sub ∷ rest) = elim (find_code table (command, some sub)) [
    | some d ↦ ok (d, rest)
    | none ↦ find_bare table command (sub ∷ rest) (hex_byte command ++ (b' ' ∷ hex_byte sub))
  ]

  unfoldable pub find_command :
      CommandTable C CivCode → Bytes → Result ParseError (CommandDefinition C CivCode × Bytes)
  unfolding find_payload
  find_command table frame = elim (parse_envelope frame) [
    | none ↦ err ParseError.invalid_syntax
    | some env ↦ find_payload table env.payload
  ]

  find_bare_found :
      (table : CommandTable C CivCode) (command : ℕ) (rest text : Bytes)
      {d : CommandDefinition C CivCode} {params : Bytes}
      → find_bare table command rest text ≡ ok (d, params)
      → IsIn d table
  find_bare_found table command rest text {d} {params} h = find-IsIn _ table found
    where
      found : find_code table (command, none) ≡ some d
      found = ground arith

  find_payload-IsIn :
      (table : CommandTable C CivCode) (payload : Bytes) {d : CommandDefinition C CivCode}
      {params : Bytes}
      → find_payload table payload ≡ ok (d, params)
      → IsIn d table
  unfolding find_payload
  find_payload-IsIn table [] h = cc
  find_payload-IsIn table (command ∷ []) h = find_bare_found table command [] (hex_byte command) h
  find_payload-IsIn table (command ∷ sub ∷ rest) {d} {params} h =
      elim (Option-cases (find_code table (command, some sub))) [
        | inl e ↦
            find_bare_found table command (sub ∷ rest) (hex_byte command ++ (b' ' ∷ hex_byte sub))
              (rw (e, find_payload) at h)
        | inr (d', e) ↦ let same : d' ≡ d = ground (arith, e, h) in find-IsIn _ table (rw same at e)
      ]

  pub find_command-IsIn :
      (table : CommandTable C CivCode) (frame : Bytes) {d : CommandDefinition C CivCode}
      {params : Bytes}
      → find_command table frame ≡ ok (d, params)
      → IsIn d table
  unfolding find_command
  find_command-IsIn table frame h = elim (Option-cases (parse_envelope frame)) [
    | inl e ↦ absurd (ground (arith, e, h))
    | inr (env, e) ↦ find_payload-IsIn table env.payload (rw (e, find_command) at h)
  ]

-- A byte in decimal, and a code under `{:?}`: `(21, Some(2))`, `(3, None)`.
abbrev dec_byte : ℕ → Bytes
dec_byte b =
    if ltb b 10
    then (b + b'0') ∷ []
    else if ltb b 100
    then (b / 10 + b'0') ∷ (b % 10 + b'0') ∷ []
    else (b / 100 + b'0') ∷ (b / 10 % 10 + b'0') ∷ (b % 10 + b'0') ∷ []

abbrev debug_sub : Option ℕ → Bytes
debug_sub none = b'N' ∷ b'o' ∷ b'n' ∷ b'e' ∷ []
debug_sub (some s) = b'S' ∷ b'o' ∷ b'm' ∷ b'e' ∷ b'(' ∷ (dec_byte s ++ (b')' ∷ []))

abbrev pub debug_code : CivCode → Bytes
debug_code (c, s) = b'(' ∷ (dec_byte c ++ (b',' ∷ b' ' ∷ (debug_sub s ++ (b')' ∷ []))))

abbrev pub civ_wire_format : {C : Type 0} → CivFormat → CatWireFormat C CivCode
civ_wire_format f = record {
  find_command = find_command;
  encode_request = encode_request f;
  frame_complete = frame_complete;
  debug_code = debug_code;
  find_command-IsIn = find_command-IsIn;
}
