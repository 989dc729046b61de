-- ===== src/Rigctl.antt =====
-- cat-rigctl/src/protocol.rs and ptt_gate.rs: the line splitter, the command dispatch and the gate on
-- transmitting. Text is its bytes; `lossy` stands for `String::from_utf8_lossy`.
pub mod Lines
pub mod Dispatch
pub mod Ptt
pub mod Shared
pub mod Cached
mod Tests
use radio_cat_rs.Base.{
  ℕ, zero, suc, ◌+◌, ◌-◌, ◌*◌, ◌/◌, ◌%◌, Bool, true, false, not, ◌&&◌, ◌||◌, List, [], ◌∷◌, ◌++◌,
  ltb, leb, ◌==◌, if◌then◌else◌, length, is_empty, last?, drop_last, Option, none, some,
}
use radio_cat_rs.Base.Bytes.{Bytes, bytes_eq}

abbrev pub max_line_len : ℕ
max_line_len = 512

-- `LineSplitter` is its buffer.
pub record LineSplitter : Type 0 where
  pub buf : Bytes

abbrev pub new : LineSplitter
new = record { buf = [] }

unfoldable pub feed : Bytes → LineSplitter → LineSplitter
feed bytes splitter = record { buf = splitter.buf ++ bytes }

-- What is in front of the first newline, and what is behind it.
unfoldable pub split_newline : Bytes → Option (Bytes × Bytes)
split_newline [] = none
split_newline (b ∷ bytes) =
    let rest = split_newline bytes in
    if b == b'\n'
    then some ([], bytes)
    else elim rest [ none ↦ none | some (line, behind) ↦ some (b ∷ line, behind) ]

abbrev pub trim_return : Bytes → Bytes
trim_return line = elim (last? line) [
  | none ↦ line
  | some b ↦ if b == b'\r' then drop_last line else line
]

module _ (lossy : Bytes → Bytes) where
  unfoldable pub try_take_line : LineSplitter → LineSplitter × Option Bytes
  try_take_line splitter = elim (split_newline splitter.buf) [
    | none ↦ (splitter, none)
    | some (line, behind) ↦ (record { buf = behind }, some (lossy (trim_return line)))
  ]

  unfoldable pub take_final_partial_line : LineSplitter → LineSplitter × Option Bytes
  take_final_partial_line splitter =
      if is_empty splitter.buf then (splitter, none) else (new, some (lossy splitter.buf))

unfoldable pub is_over_limit : LineSplitter → Bool
is_over_limit splitter = ltb max_line_len (length splitter.buf)
