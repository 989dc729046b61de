-- ===== src/Morse/Tests.antt =====
-- Texts and their scores at concrete inputs.
use radio_cat_rs.Base.{◌+◌, ◌%◌, ◌^◌, ◌≤◌, ◌≡◌, ◌≢◌, refl, none, false, List, [], ◌∷◌, ok, All}
use radio_cat_rs.Morse.{
  Token, char, prosign, sk_sign, word_space, table, text_table, pattern_in, tokenize, tokenize_from,
  tokens_to_text,
}
use radio_cat_rs.Morse.RoundTrip.{well_spaced, tokenize-tokens_to_text}
use radio_cat_rs.Morse.Score.{
  ScoreOptions, AlignOp, match, deletion, insertion, Alignment, prepare, align_units,
}
use radio_cat_rs.Morse.Score.Optimal.{sent_side, copied_side, errors, align_units_lem}
use radio_cat_rs.Morse.Score.Copy.{align}
use radio_cat_rs.Morse.Score.Copy.RoundTrip.{align_self}
use radio_cat_rs.Morse.Score.Stats.{merge, record_alignment}
use radio_cat_rs.Morse.Score.Stats.Balance.{
  IsBalanced, times, times_sent, record_alignment-IsBalanced,
}

tokenize-tokens_to_text_example :
    tokenize (tokens_to_text (char b'K' ∷ word_space ∷ prosign sk_sign ∷ []))
    ≡ ok (char b'K' ∷ word_space ∷ prosign sk_sign ∷ [])
unfolding well_spaced pattern_in table text_table
tokenize-tokens_to_text_example =
    tokenize-tokens_to_text (char b'K' ∷ word_space ∷ prosign sk_sign ∷ []) refl

abbrev strict : ScoreOptions
strict = record { ignore_spaces = false; fold_equivalents = false }

-- KA copied as AA.
abbrev sent : List Token
sent = char b'K' ∷ char b'A' ∷ []

abbrev copied : List Token
copied = char b'A' ∷ char b'A' ∷ []

-- It could be aligned with three errors.
abbrev other : List AlignOp
other = deletion (char b'K') ∷ match (char b'A') ∷ insertion (char b'A') none ∷ []

align_units_lem_example :
    (sent_side (align_units strict sent copied).ops ≡ prepare strict sent)
    × (copied_side (align_units strict sent copied).ops ≡ prepare strict copied)
    × (errors (align_units strict sent copied).ops ≤ errors other)
unfolding prepare
align_units_lem_example = align_units_lem strict sent copied other refl refl

align_self_example :
    (a : Alignment) × (align strict (b'K' ∷ b'A' ∷ []) (b'K' ∷ b'A' ∷ []) ≡ ok a)
    × (errors a.ops ≡ 0)
    × (copied_side a.ops ≡ prepare strict sent)
unfolding tokenize_from table text_table pattern_in
align_self_example = align_self strict (b'K' ∷ b'A' ∷ []) refl

char-symbol : char b'A' ≢ word_space
char-symbol same = cc

record_alignment-IsBalanced_example :
    All IsBalanced (record_alignment (align_units strict sent copied) [])
    × All IsBalanced (merge [] (record_alignment (align_units strict sent copied) []))
    × (times_sent (char b'A') (record_alignment (align_units strict sent copied) []) % 2 ^ 32
        ≡ (times_sent (char b'A') [] + times (char b'A') (prepare strict sent)) % 2 ^ 32)
record_alignment-IsBalanced_example =
    record_alignment-IsBalanced strict sent copied (char b'A') [] [] tt tt char-symbol
