-- ===== src/Broker.antt =====
-- cat-server/src/broker.rs and release.rs: the broker between the clients and the one radio, its worker
-- and the handles that submit work to it.
pub mod Worker
pub mod Laws
pub mod Order
mod Tests
use radio_cat_rs.Base.{
  ℕ, Bool, true, false, Option, none, some, List, [], ◌∷◌, ◌++◌, length, if◌then◌else◌, Result, ok,
  err,
}
use radio_cat_rs.Base.Bytes.{Bytes}
use radio_cat_rs.Framework.Command.{
  CommandOperation, query, action, set, response, CommandDefinition, CommandTable, ParseError,
  is_selector_read,
}
use radio_cat_rs.Framework.WireFormat.{CatWireFormat}
use radio_cat_rs.Framework.Process.{CommandRequest, parse}
use radio_cat_rs.Client
use radio_cat_rs.Client.{CatSession, CatClient, ClientError, find_code, query_with_bytes}

pub data DispatchOutcome : Type 0 where
  answer : (bytes : Bytes) → DispatchOutcome
  no_response : DispatchOutcome

abbrev pub text : (Bytes → Bytes) → DispatchOutcome → Option Bytes
text lossy (answer bytes) = some (lossy bytes)
text lossy no_response = none

pub data DispatchError (E : Type 0) : Type 0 where
  malformed : ParseError → DispatchError E
  timeout : DispatchError E
  session : ClientError E → DispatchError E

abbrev pub Dispatched : Type 0 → Type 0
Dispatched E = Result (DispatchError E) DispatchOutcome

-- `ERR `.
abbrev pub err_prefix : Bytes
err_prefix = b'E' ∷ b'R' ∷ b'R' ∷ b' ' ∷ []

-- `display` is the `Display` of the errors.
unfoldable pub outcome_to_wire : {E : Type 0} → (DispatchError E → Bytes) → Dispatched E → Bytes
outcome_to_wire display (ok (answer bytes)) = bytes
outcome_to_wire display (ok no_response) = []
outcome_to_wire display (err e) = err_prefix ++ display e

-- Is a request a read? `none` for one that is neither.
unfoldable pub is_read :
    {C Code : Type 0} → CommandDefinition C Code → CommandOperation → ℕ → Option Bool
is_read d query width = some true
is_read d action width = some false
is_read d set width =
    if is_selector_read d width
    then some true
    else if d.writable
    then some false
    else if d.readable
    then some true
    else none
is_read d response width = none

-- Why such a request is refused.
abbrev pub refusal : {E : Type 0} → CommandOperation → Bytes → DispatchError E
refusal response code = DispatchError.session (ClientError.unknown_command code)
refusal _ code = malformed (ParseError.unsupported_operation code)

-- The session's answer, or the end of the wait for it.
abbrev pub outcome_of :
    {E A : Type 0} → (A → DispatchOutcome) → Option (Result (ClientError E) A) → Dispatched E
outcome_of f none = err timeout
outcome_of f (some (err e)) = err (DispatchError.session e)
outcome_of f (some (ok a)) = ok (f a)

module _ {C Code S E : Type 0} (same_code : Code → Code → Bool) (sessions : CatSession S E) where
  unfoldable pub call : Bool → Code → Bytes → CatClient C Code S → CatClient C Code S × Dispatched E
  call true code params c =
      let (c', reply) = query_with_bytes same_code sessions code params c in
      (c', outcome_of answer reply)
  call false code params c =
      let (c', reply) = Client.set same_code sessions code params c in
      (c', outcome_of (λ (u : Unit {0}). no_response) reply)

  -- One that was parsed. The look-up of the code is one that the source expects to succeed: without a
  -- definition there is no outcome.
  unfoldable pub route :
      CommandRequest C Code → CatClient C Code S → CatClient C Code S × Option (Dispatched E)
  route request c = elim (find_code same_code c.table request.code) [
    | none ↦ (c, none)
    | some d ↦ elim (is_read d request.operation (length request.parameters)) [
      | none ↦ (c, some (err (refusal request.operation (c.format.debug_code request.code))))
      | some reads ↦
          let (c', dispatched) = call reads request.code request.parameters c in
          (c', some dispatched)
    ]
  ]

  unfoldable pub dispatch : Bytes → CatClient C Code S → CatClient C Code S × Option (Dispatched E)
  dispatch request c = elim (parse c.format c.table request) [
    | err e ↦ (c, some (err (malformed e)))
    | ok parsed ↦ route parsed c
  ]
