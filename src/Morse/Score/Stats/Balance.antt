-- ===== src/Morse/Score/Stats/Balance.antt =====
-- The tallies of sent units over any alignments and merges.
use radio_cat_rs.Base.{
  ℕ, ◌+◌, ◌%◌, ◌≡◌, ◌≢◌, refl, ap, ◌∙◌, List, [], ◌∷◌, if◌then◌else◌, All, arith, Bool-cases,
  Option-cases, inl, inr,
}
use radio_cat_rs.Morse.{Token, char, prosign, word_space, same_token}
use radio_cat_rs.Morse.Table.{same_token_sound}
use radio_cat_rs.Morse.Score.{
  AlignOp, match, substitution, deletion, insertion, ScoreOptions, prepare, align_units,
}
use radio_cat_rs.Morse.Score.Optimal.{sent_side, align_units_sides}
use radio_cat_rs.Morse.Score.Stats.{
  u32_mod, CharTally, default_tally, add_to, add_all, merge_tally, CharStats, update, tally_match,
  tally_miss, tally_confusion, tally_insertion, update_symbol, charged, record_op, record_ops,
  record_alignment, merge,
}

abbrev pub total : List (Token × ℕ) → ℕ
total [] = 0
total ((u, n) ∷ entries) = n + total entries

-- What was sent was copied, missed or taken for something else, as a u32 counts it.
abbrev IsEven : CharTally → Type 0
IsEven t = t.sent ≡ (t.correct + t.missed + total t.confused_as) % u32_mod

abbrev pub IsBalanced : Token × CharTally → Type 0
IsBalanced (u, t) = IsEven t

total-add_to :
    (unit : Token) (n : ℕ) (entries : List (Token × ℕ))
    → total (add_to unit n entries) % u32_mod ≡ (total entries + n) % u32_mod
unfolding add_to
total-add_to unit n [] = omega arith
total-add_to unit n ((u, m) ∷ entries) = elim (Bool-cases (same_token u unit)) [
  | inl same ↦ rw (same, add_to) (omega arith)
  | inr other ↦ rw (other, add_to) (omega (arith, total-add_to unit n entries))
]

total-add_all :
    (more entries : List (Token × ℕ))
    → total (add_all more entries) % u32_mod ≡ (total entries + total more) % u32_mod
unfolding add_all
total-add_all [] entries = omega arith
total-add_all ((u, n) ∷ more) entries =
    omega (arith, total-add_all more (add_to u n entries), total-add_to u n entries)

-- A change of tallies that keeps them balanced.
Keeps : (CharTally → CharTally) → Type 0
Keeps f = (t : CharTally) → IsEven t → IsEven (f t)

update-IsBalanced :
    (unit : Token) (f : CharTally → CharTally) (stats : CharStats)
    → Keeps f
    → All IsBalanced stats
    → All IsBalanced (update unit f stats)
unfolding update Keeps
update-IsBalanced unit f [] keeps balanced = (keeps default_tally refl, tt)
update-IsBalanced unit f ((u, t) ∷ stats) keeps (first, rest) =
    elim (Bool-cases (same_token u unit)) [
      | inl same ↦ rw (same, update) (keeps t first, rest)
      | inr other ↦ rw (other, update) (first, update-IsBalanced unit f stats keeps rest)
    ]

update_symbol-IsBalanced :
    (unit : Token) (f : CharTally → CharTally) (stats : CharStats)
    → Keeps f
    → All IsBalanced stats
    → All IsBalanced (update_symbol unit f stats)
unfolding update_symbol
update_symbol-IsBalanced word_space f stats keeps balanced = balanced
update_symbol-IsBalanced (char c) f stats keeps balanced =
    update-IsBalanced (char c) f stats keeps balanced
update_symbol-IsBalanced (prosign p) f stats keeps balanced =
    update-IsBalanced (prosign p) f stats keeps balanced

confusion-Keeps : (copied : Token) → Keeps (tally_confusion copied)
unfolding Keeps
confusion-Keeps copied t balanced = omega (arith, total-add_to copied 1 t.confused_as)

record_op-IsBalanced :
    (expected : List Token) (op : AlignOp) (stats : CharStats)
    → All IsBalanced stats
    → All IsBalanced (record_op expected op stats)
unfolding record_op Keeps
record_op-IsBalanced expected (match x) stats balanced =
    update_symbol-IsBalanced x tally_match stats (λ t h. omega arith) balanced
record_op-IsBalanced expected (deletion x) stats balanced =
    update_symbol-IsBalanced x tally_miss stats (λ t h. omega arith) balanced
record_op-IsBalanced expected (substitution x y) stats balanced =
    update_symbol-IsBalanced x (tally_confusion y) stats (confusion-Keeps y) balanced
record_op-IsBalanced expected (insertion y to) stats balanced =
    elim (Option-cases (charged expected to)) [
      | inl e ↦ rw (e, record_op) balanced
      | inr (unit, e) ↦
          rw (e, record_op)
            (update_symbol-IsBalanced unit tally_insertion stats (λ t h. h) balanced)
    ]

record_ops-IsBalanced :
    (expected : List Token) (ops : List AlignOp) (stats : CharStats)
    → All IsBalanced stats
    → All IsBalanced (record_ops expected ops stats)
unfolding record_ops
record_ops-IsBalanced expected [] stats balanced = balanced
record_ops-IsBalanced expected (op ∷ ops) stats balanced =
    record_ops-IsBalanced expected ops (record_op expected op stats)
      (record_op-IsBalanced expected op stats balanced)

merge-IsBalanced :
    (other stats : CharStats)
    → All IsBalanced other
    → All IsBalanced stats
    → All IsBalanced (merge other stats)
unfolding merge Keeps merge_tally
merge-IsBalanced [] stats others balanced = balanced
merge-IsBalanced ((u, t) ∷ other) stats (first, others) balanced =
    merge-IsBalanced other (update u (λ mine. merge_tally mine t) stats) others (
      update-IsBalanced u (λ mine. merge_tally mine t) stats
        (λ mine h. omega (arith, total-add_all t.confused_as mine.confused_as)) balanced)

-- How often a unit was sent, as its tally has it, and as it stands in a text.
abbrev pub times_sent : Token → CharStats → ℕ
times_sent unit [] = 0
times_sent unit ((u, t) ∷ stats) = (if same_token u unit then t.sent else 0) + times_sent unit stats

abbrev pub times : Token → List Token → ℕ
times unit [] = 0
times unit (x ∷ text) = (if same_token x unit then 1 else 0) + times unit text

-- A change that adds to what was sent.
Sends : ℕ → (CharTally → CharTally) → Type 0
Sends n f = (t : CharTally) → (f t).sent % u32_mod ≡ (t.sent + n) % u32_mod

times_sent-update :
    (unit x : Token) (n : ℕ) (f : CharTally → CharTally) (stats : CharStats)
    → Sends n f
    → times_sent unit (update x f stats) % u32_mod
      ≡ (times_sent unit stats + (if same_token x unit then n else 0)) % u32_mod
unfolding update Sends
times_sent-update unit x n f [] sends = ground (arith, sends default_tally)
times_sent-update unit x n f ((u, t) ∷ stats) sends = elim (Bool-cases (same_token u x)) [
  | inl same ↦ rw (same, update) (rw (← same_token_sound u x same) (ground (arith, sends t)))
  | inr other ↦ rw (other, update) (omega (arith, times_sent-update unit x n f stats sends))
]

update_symbol-times_sent :
    (unit x : Token) (n : ℕ) (f : CharTally → CharTally) (stats : CharStats)
    → unit ≢ word_space
    → Sends n f
    → times_sent unit (update_symbol x f stats) % u32_mod
      ≡ (times_sent unit stats + (if same_token x unit then n else 0)) % u32_mod
unfolding update_symbol
update_symbol-times_sent (char c) word_space n f stats symbol sends = omega arith
update_symbol-times_sent (prosign p) word_space n f stats symbol sends = omega arith
update_symbol-times_sent word_space word_space n f stats symbol sends = absurd (symbol refl)
update_symbol-times_sent unit (char c) n f stats symbol sends =
    times_sent-update unit (char c) n f stats sends
update_symbol-times_sent unit (prosign p) n f stats symbol sends =
    times_sent-update unit (prosign p) n f stats sends

record_op-times_sent :
    (unit : Token) (expected : List Token) (op : AlignOp) (stats : CharStats)
    → unit ≢ word_space
    → times_sent unit (record_op expected op stats) % u32_mod
      ≡ (times_sent unit stats + times unit (sent_side (op ∷ []))) % u32_mod
unfolding record_op Sends
record_op-times_sent unit expected (match x) stats symbol =
    omega (arith, update_symbol-times_sent unit x 1 tally_match stats symbol (λ t. omega arith))
record_op-times_sent unit expected (deletion x) stats symbol =
    omega (arith, update_symbol-times_sent unit x 1 tally_miss stats symbol (λ t. omega arith))
record_op-times_sent unit expected (substitution x y) stats symbol =
    omega
      (arith, update_symbol-times_sent unit x 1 (tally_confusion y) stats symbol (λ t. omega arith))
record_op-times_sent unit expected (insertion y to) stats symbol =
    elim (Option-cases (charged expected to)) [
      | inl e ↦ rw (e, record_op) (omega arith)
      | inr (near, e) ↦
          rw (e, record_op)
            (ground (
              arith,
              update_symbol-times_sent unit near 0 tally_insertion stats symbol (λ t. omega arith),
            ))
    ]

times-cons_op :
    (unit : Token) (op : AlignOp) (ops : List AlignOp)
    → times unit (sent_side (op ∷ ops))
      ≡ times unit (sent_side (op ∷ [])) + times unit (sent_side ops)
times-cons_op unit (match x) ops = omega arith
times-cons_op unit (deletion x) ops = omega arith
times-cons_op unit (substitution x y) ops = omega arith
times-cons_op unit (insertion y to) ops = omega arith

record_ops-times_sent :
    (unit : Token) (expected : List Token) (ops : List AlignOp) (stats : CharStats)
    → unit ≢ word_space
    → times_sent unit (record_ops expected ops stats) % u32_mod
      ≡ (times_sent unit stats + times unit (sent_side ops)) % u32_mod
unfolding record_ops
record_ops-times_sent unit expected [] stats symbol = omega arith
record_ops-times_sent unit expected (op ∷ ops) stats symbol = omega (
  arith,
  record_ops-times_sent unit expected ops (record_op expected op stats) symbol,
  record_op-times_sent unit expected op stats symbol,
  times-cons_op unit op ops,
)

-- Counted as u32, which wraps around: of every sent unit the tally stays the sum of what was copied,
-- missed and taken for something else, whether an alignment is added or another set of tallies; and
-- an alignment adds to what was sent of a unit, other than the word space, as often as the unit stands
-- in the sent text as the options prepare it.
pub record_alignment-IsBalanced :
    (opts : ScoreOptions) (expected copied : List Token) (unit : Token) (stats other : CharStats)
    → All IsBalanced stats
    → All IsBalanced other
    → unit ≢ word_space
    → let recorded = record_alignment (align_units opts expected copied) stats in
      All IsBalanced recorded
      × All IsBalanced (merge other recorded)
      × (times_sent unit recorded % u32_mod
          ≡ (times_sent unit stats + times unit (prepare opts expected)) % u32_mod)
unfolding record_alignment
record_alignment-IsBalanced opts expected copied unit stats other balanced balanced' symbol =
    let a = align_units opts expected copied in
    let kept = record_ops-IsBalanced a.expected a.ops stats balanced in
    let (sent, got) = align_units_sides opts expected copied in
    (
      kept,
      merge-IsBalanced other (record_ops a.expected a.ops stats) balanced' kept,
      record_ops-times_sent unit a.expected a.ops stats symbol
          ∙ ap (λ (text : List Token). (times_sent unit stats + times unit text) % u32_mod) sent,
    )
