-- ===== src/Morse/Score/Totals.antt =====
-- The totals of an alignment, `Alignment::score`.
use radio_cat_rs.Base.{◌+◌, ◌≡◌, refl, ap, List, [], ◌∷◌, length, arith}
use radio_cat_rs.Morse.{Token}
use radio_cat_rs.Morse.Score.{
  ScoreOptions, AlignOp, match, substitution, deletion, insertion, prepare, align_units, Score,
  score, count_ops, counted,
}
use radio_cat_rs.Morse.Score.Optimal.{
  sent_side, copied_side, errors, align_units_sides, align_units-expected,
}

-- The totals of an alignment: every sent unit is a match, a substitution or a deletion.
count_ops_lem :
    (ops : List AlignOp) (s : Score)
    → let total = count_ops ops s in
      (total.matches + total.substitutions + total.deletions
        ≡ s.matches + s.substitutions + s.deletions + length (sent_side ops))
      × (total.matches + total.substitutions + total.insertions
          ≡ s.matches + s.substitutions + s.insertions + length (copied_side ops))
      × (total.substitutions + total.deletions + total.insertions
          ≡ s.substitutions + s.deletions + s.insertions + errors ops)
      × (total.expected ≡ s.expected)
unfolding count_ops
count_ops_lem [] s = (omega arith, omega arith, omega arith, refl)
count_ops_lem (match x ∷ ops) s = ground (arith, count_ops_lem ops (counted (match x) s))
count_ops_lem (substitution x y ∷ ops) s =
    ground (arith, count_ops_lem ops (counted (substitution x y) s))
count_ops_lem (deletion x ∷ ops) s = ground (arith, count_ops_lem ops (counted (deletion x) s))
count_ops_lem (insertion y to ∷ ops) s =
    ground (arith, count_ops_lem ops (counted (insertion y to) s))

-- The totals of an alignment of units: those sent are matches, substitutions and deletions, those
-- copied matches, substitutions and insertions, and the errors are all but the matches.
score-align_units :
    (opts : ScoreOptions) (expected copied : List Token)
    → let a = align_units opts expected copied in
      let total = score a in
      (total.expected ≡ total.matches + total.substitutions + total.deletions)
      × (length (prepare opts copied) ≡ total.matches + total.substitutions + total.insertions)
      × (errors a.ops ≡ total.substitutions + total.deletions + total.insertions)
unfolding score
score-align_units opts expected copied =
    let a = align_units opts expected copied in
    let (sent, got, wrong, whole) = count_ops_lem a.ops (record {
      expected = length a.expected;
      matches = 0;
      substitutions = 0;
      deletions = 0;
      insertions = 0;
    }) in
    let (is_sent, is_copied) = align_units_sides opts expected copied in
    (
      omega (arith, ap length is_sent, ap length (align_units-expected opts expected copied)),
      omega (arith, ap length is_copied),
      omega arith,
    )
