-- ===== src/Client.antt =====
-- cat-client/src/client.rs: a client that checks a command against the table before it touches the
-- session, over the interface of cat-transport-core's sessions.
use Prim.Native.String.{String}
use radio_cat_rs.Base.{Bool, Option, none, some, [], find, if◌then◌else◌, Result, ok, err, ok_or}
use radio_cat_rs.Base.Bytes.{Bytes}
use radio_cat_rs.Framework.Command.{CommandDefinition, CommandTable, ProtocolErrorKind}
use radio_cat_rs.Framework.WireFormat.{CatWireFormat}
use radio_cat_rs.Framework.Process.{ResponseDisposition, response_written, no_response}

-- `CatSession`, with what a call puts behind the response buffer that it is given. A call that has not
-- come back when its caller stops waiting gives `none`.
pub record CatSession (S E : Type 0) : Type 0 where
  pub execute : Bytes → Bytes → S → S × Bytes × Option (Result E ResponseDisposition)
  pub send : Bytes → S → S × Option (Result E (Unit {0}))

-- The text in an error: a code under `{:?}`, or the name of a definition.
pub data Label : Type 0 where
  code_text : (text : Bytes) → Label
  named : (name : String) → Label

pub data ClientError (E : Type 0) : Type 0 where
  unknown_command : (code : Bytes) → ClientError E
  command_not_readable : (command : Label) → ClientError E
  command_not_writable : (command : Label) → ClientError E
  protocol_error : (kind : ProtocolErrorKind) → ClientError E
  transport : E → ClientError E

pub record CatClient (C Code S : Type 0) : Type 0 where
  pub session : S
  pub table : CommandTable C Code
  pub format : CatWireFormat C Code

abbrev pub Reply : Type 0 → Type 0 → Type 0
Reply E A = Option (Result (ClientError E) A)

-- `map` on what a call gives.
abbrev pub map_reply : {E A B : Type 0} → (A → B) → Reply E A → Reply E B
map_reply f none = none
map_reply f (some (err e)) = some (err e)
map_reply f (some (ok a)) = some (ok (f a))

-- `CommandTable::find`.
abbrev pub find_code :
    {C Code : Type 0}
    → (Code → Code → Bool)
    → CommandTable C Code
    → Code
    → Option (CommandDefinition C Code)
find_code {C} {Code} same_code table code =
    find (λ (d : CommandDefinition C Code). same_code d.code code) table

abbrev pub validate_code :
    {C Code S E : Type 0}
    → (Code → Code → Bool)
    → Code
    → CatClient C Code S
    → Result (ClientError E) (CommandDefinition C Code)
validate_code same_code code c =
    ok_or (ClientError.unknown_command (c.format.debug_code code))
      (find_code same_code c.table code)

abbrev pub judge : {E : Type 0} → Bytes → ResponseDisposition → Result (ClientError E) Bytes
judge answer (ResponseDisposition.protocol_error kind) = err (ClientError.protocol_error kind)
judge answer response_written = ok answer
judge answer no_response = ok answer

module _ {C Code S E : Type 0} (same_code : Code → Code → Bool) (sessions : CatSession S E) where
  unfoldable pub execute_query_bytes :
      Bytes → CatClient C Code S → CatClient C Code S × Reply E Bytes
  execute_query_bytes wire c =
      let (s, response, returned) = sessions.execute wire [] c.session in
      (
        record c { session = s },
        elim returned [
          | none ↦ none
          | some r ↦ elim r [
            | err e ↦ some (err (ClientError.transport e))
            | ok disposition ↦ some (judge response disposition)
          ]
        ],
      )

  -- A query, with the error for a command that cannot be read.
  unfoldable pub query_as :
      (CommandDefinition C Code → Label)
      → Code
      → Bytes
      → CatClient C Code S
      → CatClient C Code S × Reply E Bytes
  query_as label code params c = elim (validate_code same_code code c) [
    | err e ↦ (c, some (err e))
    | ok d ↦
        if d.readable
        then execute_query_bytes (c.format.encode_request code params) c
        else (c, some (err (ClientError.command_not_readable (label d))))
  ]

  abbrev pub query_with_bytes :
      Code → Bytes → CatClient C Code S → CatClient C Code S × Reply E Bytes
  query_with_bytes code params c =
      query_as (λ (d : CommandDefinition C Code). named d.name) code params c

  abbrev pub query_bytes : Code → CatClient C Code S → CatClient C Code S × Reply E Bytes
  query_bytes code c = query_with_bytes code [] c

  -- `query_with_param`, whose answer is read by `from_utf8_lossy`.
  abbrev pub query_with_param :
      (Bytes → Bytes) → Code → Bytes → CatClient C Code S → CatClient C Code S × Reply E Bytes
  query_with_param lossy code params c =
      let (c', reply) =
        query_as (λ (d : CommandDefinition C Code). code_text (c.format.debug_code code)) code
          params c in
      (c', map_reply lossy reply)

  abbrev pub query :
      (Bytes → Bytes) → Code → CatClient C Code S → CatClient C Code S × Reply E Bytes
  query lossy code c = query_with_param lossy code [] c

  unfoldable pub send_wire : Bytes → CatClient C Code S → CatClient C Code S × Reply E (Unit {0})
  send_wire wire c =
      let (s, returned) = sessions.send wire c.session in
      (
        record c { session = s },
        elim returned [
          | none ↦ none
          | some r ↦ elim r [ err e ↦ some (err (ClientError.transport e)) | ok u ↦ some (ok tt) ]
        ],
      )

  unfoldable pub set : Code → Bytes → CatClient C Code S → CatClient C Code S × Reply E (Unit {0})
  set code params c = elim (validate_code same_code code c) [
    | err e ↦ (c, some (err e))
    | ok d ↦ if d.writable then send_wire (c.format.encode_request code params) c else (
      c,
      some (err (ClientError.command_not_writable (code_text (c.format.debug_code code)))),
    )
  ]

  unfoldable pub set_bytes : Code → Bytes → CatClient C Code S → CatClient C Code S × Reply E Bytes
  set_bytes code params c = elim (validate_code same_code code c) [
    | err e ↦ (c, some (err e))
    | ok d ↦
        if d.writable
        then execute_query_bytes (c.format.encode_request code params) c
        else (c, some (err (ClientError.command_not_writable (named d.name))))
  ]

abbrev pub set_format :
    {C Code S : Type 0} → CatWireFormat C Code → CatClient C Code S → CatClient C Code S
set_format format c = record c { format = format }
