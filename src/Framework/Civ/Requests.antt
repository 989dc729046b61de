-- ===== src/Framework/Civ/Requests.antt =====
-- A request that was encoded for a definition of the table is parsed as that definition.
use radio_cat_rs.Base.{◌≡◌, ◌∷◌, some, none}
use radio_cat_rs.Base.Bytes.{Bytes}
use radio_cat_rs.Framework.Command.{CommandTable}
use radio_cat_rs.Framework.Civ.{CivCode, find_code}

module _ {C : Type 0} where
  -- No sub-command of the table takes the first parameter of a bare command for itself.
  abbrev pub Unshadowed : CommandTable C CivCode → CivCode → Bytes → Type 0
  Unshadowed table (c, none) (p ∷ params) = find_code table (c, some p) ≡ none
  Unshadowed table code params = Unit
