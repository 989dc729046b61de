-- ===== src/Morse/Score/Copy.antt =====
-- `tokenize_copy` and `align` of cat-morse/src/score.rs: what an operator typed, scored.
use radio_cat_rs.Base.{
  ℕ, zero, suc, Bool, true, false, not, List, [], ◌∷◌, length, is_empty, ◌==◌, if◌then◌else◌,
  Option, none, some, Result, ok, ◌>>=◌,
}
use radio_cat_rs.Cw.Text.{Text, is_whitespace, to_ascii_uppercase}
use radio_cat_rs.Morse.{Token, char, prosign, from_name, push_token, tokenize, CodecError}
use radio_cat_rs.Morse.Score.{ScoreOptions, Alignment, align_units}
pub mod RoundTrip

-- What stands in front of the next `>`.
unfoldable pub before_close : Text → Option Text
before_close [] = none
before_close (c ∷ text) =
    let rest = before_close text in
    if c == b'>' then some [] else elim rest [ none ↦ none | some name ↦ some (c ∷ name) ]

-- The token that starts at a character, and how many more characters belong to it.
unfoldable pub read_prosign : ℕ → Option Text → Token × ℕ
read_prosign c none = (char (to_ascii_uppercase c), 0)
read_prosign c (some name) = elim (from_name name) [
  | some p ↦ (prosign p, suc (length name))
  | none ↦ (char (to_ascii_uppercase c), 0)
]

unfoldable pub read_token : ℕ → Text → Token × ℕ
unfolding read_prosign before_close
read_token c text =
    if c == b'<' then read_prosign c (before_close text) else (char (to_ascii_uppercase c), 0)

-- `skip` characters of the token before are still to be passed over.
unfoldable pub copy_from : ℕ → Bool → List Token → Text → List Token
unfolding read_token
copy_from skip pending out [] = out
copy_from (suc skip) pending out (c ∷ text) = copy_from skip pending out text
copy_from zero pending out (c ∷ text) = elim (is_whitespace c) [
  | true ↦ copy_from zero (not (is_empty out)) out text
  | false ↦
      copy_from (read_token c text).1 false (push_token pending (read_token c text).0 out) text
]

unfoldable pub tokenize_copy : Text → List Token
unfolding copy_from
tokenize_copy text = copy_from zero false [] text

unfoldable pub align : ScoreOptions → Text → Text → Result CodecError Alignment
unfolding tokenize_copy
align opts expected copied =
    tokenize expected >>= (λ (e : List Token). ok (align_units opts e (tokenize_copy copied)))
