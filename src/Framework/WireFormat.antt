-- ===== src/Framework/WireFormat.antt =====
-- cat-framework/src/wire_format.rs: the interface of a wire protocol, which `AsciiLineFormat` and
-- `CivFormat` implement.
use radio_cat_rs.Base.{
  Bool, ◌≡◌, List, [], ◌∷◌, ◌⊎◌, inl, inr, find, some, Bool-cases, Result, ok, arith,
}
use radio_cat_rs.Base.Bytes.{Bytes}
use radio_cat_rs.Framework.Command.{CommandDefinition, CommandTable, ParseError}

-- A definition that stands in a table.
abbrev pub IsIn : {A : Type 0} → A → List A → Type 0
IsIn d [] = ⊥
IsIn d (x ∷ xs) = (d ≡ x) ⊎ IsIn d xs

pub find-IsIn : {A : Type 0} (p : A → Bool) (xs : List A) {d : A} → find p xs ≡ some d → IsIn d xs
find-IsIn p [] h = cc
find-IsIn p (x ∷ xs) h = elim (Bool-cases (p x)) [
  | inl e ↦ inl (ground (arith, e))
  | inr e ↦ inr (find-IsIn p xs (ground (arith, e)))
]

pub record CatWireFormat (C Code : Type 0) : Type 0 where
  pub find_command :
      CommandTable C Code → Bytes → Result ParseError (CommandDefinition C Code × Bytes)
  pub encode_request : Code → Bytes → Bytes
  pub frame_complete : Bytes → Bool
  -- The text of a code under `{:?}`.
  pub debug_code : Code → Bytes
  -- A definition that is found stands in the table.
  pub find_command-IsIn :
      (table : CommandTable C Code) (frame : Bytes) {d : CommandDefinition C Code} {params : Bytes}
      → find_command table frame ≡ ok (d, params)
      → IsIn d table
