-- ===== src/Morse/Score/Optimal.antt =====
-- The alignment is one of the two texts, and none has fewer errors.
use radio_cat_rs.Base.{
  ℕ, suc, ◌+◌, ◌≤◌, Bool, true, false, ◌≡◌, ◌⊎◌, refl, sym, ap, ◌∙◌, List, [], ◌∷◌, ◌++◌,
  append_assoc, append-nil, subst, length, ◌==◌, Option, none, some, arith, Bool-cases, inl, inr,
}
use mathlib.Core.List.{reverse, reverse_aux, reverse-reverse, reverse-cons}
use radio_cat_rs.Morse.{Token, same_token}
use radio_cat_rs.Morse.Table.{same_token_sound, same_token_refl}
use radio_cat_rs.Morse.Score.{
  ScoreOptions, AlignOp, match, substitution, deletion, insertion, prepare, cost, matrix, cell,
  trace, attribute, align_prepared, align_units,
}
use radio_cat_rs.Morse.Score.Matrix.{distance, cell_lem}

-- The sent and the copied units of an alignment, and its errors.
abbrev pub sent_side : List AlignOp → List Token
sent_side [] = []
sent_side (match x ∷ ops) = x ∷ sent_side ops
sent_side (substitution x y ∷ ops) = x ∷ sent_side ops
sent_side (deletion x ∷ ops) = x ∷ sent_side ops
sent_side (insertion y to ∷ ops) = sent_side ops

abbrev pub copied_side : List AlignOp → List Token
copied_side [] = []
copied_side (match x ∷ ops) = x ∷ copied_side ops
copied_side (substitution x y ∷ ops) = y ∷ copied_side ops
copied_side (deletion x ∷ ops) = copied_side ops
copied_side (insertion y to ∷ ops) = y ∷ copied_side ops

abbrev pub errors : List AlignOp → ℕ
errors [] = 0
errors (match x ∷ ops) = errors ops
errors (substitution x y ∷ ops) = suc (errors ops)
errors (deletion x ∷ ops) = suc (errors ops)
errors (insertion y to ∷ ops) = suc (errors ops)

distance-nil : (e : List Token) → distance e [] ≡ length e
unfolding distance
distance-nil [] = refl
distance-nil (x ∷ e) = refl

-- No alignment of two texts, behind prefixes, beats their distance.
distance_step :
    (x y : Token) (e c : List Token)
    → (distance (x ∷ e) (x ∷ c) ≤ distance e c)
      × (distance (x ∷ e) (y ∷ c) ≤ distance e c + 1)
      × (distance (x ∷ e) c ≤ distance e c + 1)
      × (distance e (y ∷ c) ≤ distance e c + 1)
unfolding distance
distance_step x y [] [] = ground (arith, same_token_refl x)
distance_step x y [] (z ∷ c) = ground (arith, same_token_refl x)
distance_step x y (z ∷ e) [] = ground (arith, same_token_refl x)
distance_step x y (z ∷ e) (w ∷ c) = ground (arith, same_token_refl x)

distance_le :
    (ops : List AlignOp) (e c : List Token)
    → distance (reverse_aux (sent_side ops) e) (reverse_aux (copied_side ops) c)
      ≤ distance e c + errors ops
distance_le [] e c = omega arith
distance_le (match x ∷ ops) e c =
    omega (arith, distance_le ops (x ∷ e) (x ∷ c), (distance_step x x e c).0)
distance_le (substitution x y ∷ ops) e c =
    omega (arith, distance_le ops (x ∷ e) (y ∷ c), (distance_step x y e c).1)
distance_le (deletion x ∷ ops) e c =
    omega (arith, distance_le ops (x ∷ e) c, (distance_step x x e c).2)
distance_le (insertion y to ∷ ops) e c =
    omega (arith, distance_le ops e (y ∷ c), (distance_step y y e c).3)

-- The steps behind a trace that reads the distances.
Traced : List Token → List Token → List AlignOp → List AlignOp → Type 0
Traced e c ops traced =
    (sent_side traced ≡ reverse_aux e (sent_side ops))
    × (copied_side traced ≡ reverse_aux c (copied_side ops))
    × (errors traced ≡ distance e c + errors ops)

-- The step that the trace takes between two units, and what it leaves of the distance.
trace_step :
    (x y : Token) (e c : List Token) (ops : List AlignOp)
    → let here = distance (x ∷ e) (y ∷ c) in
      let traced = trace distance (x ∷ e) (y ∷ c) ops in
      ((x ≡ y) × (traced ≡ trace distance e c (match x ∷ ops)) × (here ≡ distance e c))
      ⊎ ((traced ≡ trace distance e c (substitution x y ∷ ops)) × (here ≡ distance e c + 1))
      ⊎ ((traced ≡ trace distance e (y ∷ c) (deletion x ∷ ops)) × (here ≡ distance e (y ∷ c) + 1))
      ⊎ ((traced ≡ trace distance (x ∷ e) c (insertion y none ∷ ops))
          × (here ≡ distance (x ∷ e) c + 1))
unfolding trace
trace_step x y e c ops =
    let here = distance (x ∷ e) (y ∷ c) in
    elim (Bool-cases (here == distance e c + cost x y)) [
      | inl diagonal ↦ elim (Bool-cases (same_token x y)) [
        | inl same ↦ inl (
          same_token_sound x y same,
          rw (diagonal, trace) (rw same refl),
          ground (arith, diagonal, same),
        )
        | inr other ↦
            inr (inl (rw (diagonal, trace) (rw other refl), ground (arith, diagonal, other)))
      ]
      | inr off ↦ elim (Bool-cases (here == distance e (y ∷ c) + 1)) [
        | inl up ↦ inr (inr (inl (rw (off, up, trace) refl, ground (arith, up))))
        | inr not_up ↦ inr (
            inr
              (inr (rw (off, not_up, trace) refl, unfold distance in ground (arith, off, not_up))))
      ]
    ]

Traced-step :
    (x y : Token) (e c : List Token) (ops : List AlignOp) {next : List AlignOp}
    → trace distance (x ∷ e) (y ∷ c) ops ≡ next
    → Traced (x ∷ e) (y ∷ c) ops next
    → Traced (x ∷ e) (y ∷ c) ops (trace distance (x ∷ e) (y ∷ c) ops)
Traced-step x y e c ops step traced = subst (Traced (x ∷ e) (y ∷ c) ops) (sym step) traced

trace_lem : (e c : List Token) (ops : List AlignOp) → Traced e c ops (trace distance e c ops)
unfolding trace distance Traced
trace_lem [] [] ops = (refl, refl, omega arith)
trace_lem [] (y ∷ c) ops =
    let (a, b, d) = trace_lem [] c (insertion y none ∷ ops) in (a, b, omega arith)
trace_lem (x ∷ e) [] ops =
    let (a, b, d) = trace_lem e [] (deletion x ∷ ops) in ground (arith, distance-nil e, a, b, d)
trace_lem (x ∷ e) (y ∷ c) ops = elim (trace_step x y e c ops) [
  | inl (same, step, here) ↦
      let (a, b, d) = trace_lem e c (match x ∷ ops) in
      Traced-step x y e c ops step
        (a, b ∙ ap (λ z. reverse_aux c (z ∷ copied_side ops)) same, omega (arith, here, d))
  | inr (inl (step, here)) ↦
      let (a, b, d) = trace_lem e c (substitution x y ∷ ops) in
      Traced-step x y e c ops step (a, b, omega (arith, here, d))
  | inr (inr (inl (step, here))) ↦
      let (a, b, d) = trace_lem e (y ∷ c) (deletion x ∷ ops) in
      Traced-step x y e c ops step (a, b, omega (arith, here, d))
  | inr (inr (inr (step, here))) ↦
      let (a, b, d) = trace_lem (x ∷ e) c (insertion y none ∷ ops) in
      Traced-step x y e c ops step (a, b, omega (arith, here, d))
]

-- What `e` and `c` are in front of, in a text.
IsPrefix : List Token → List Token → Type 0
IsPrefix text e = (rest : List Token) × (text ≡ reverse e ++ rest)

IsPrefix-shorter :
    (text : List Token) (x : Token) (e : List Token) → IsPrefix text (x ∷ e) → IsPrefix text e
unfolding IsPrefix
IsPrefix-shorter text x e (rest, whole) = (
  x ∷ rest,
  whole ∙ ap (λ r. r ++ rest) (reverse-cons x e) ∙ append_assoc (reverse e) (x ∷ []) rest,
)

module _ (expected copied : List Token) where
  cell_of_prefixes :
      (e c : List Token)
      → IsPrefix expected e
      → IsPrefix copied c
      → cell (matrix expected copied) e c ≡ distance e c
  unfolding IsPrefix
  cell_of_prefixes e c (es, whole) (cs, whole') =
      ap (λ t. cell (matrix t copied) e c) whole
      ∙ ap (λ t. cell (matrix (reverse e ++ es) t) e c) whole'
      ∙ cell_lem e es c cs

  -- The trace over the matrix is that over the distances.
  trace-cell :
      (e c : List Token) (ops : List AlignOp)
      → IsPrefix expected e
      → IsPrefix copied c
      → trace (cell (matrix expected copied)) e c ops ≡ trace distance e c ops
  unfolding trace
  trace-cell [] [] ops p q = refl
  trace-cell [] (y ∷ c) ops p q =
      trace-cell [] c (insertion y none ∷ ops) p (IsPrefix-shorter copied y c q)
  trace-cell (x ∷ e) [] ops p q =
      let p' = IsPrefix-shorter expected x e p in
      ground (
        arith,
        cell_of_prefixes (x ∷ e) [] p q,
        cell_of_prefixes e [] p' q,
        trace-cell e [] (deletion x ∷ ops) p' q,
      )
  trace-cell (x ∷ e) (y ∷ c) ops p q =
      let p' = IsPrefix-shorter expected x e p in
      let q' = IsPrefix-shorter copied y c q in
      ground (
        arith,
        cell_of_prefixes (x ∷ e) (y ∷ c) p q,
        cell_of_prefixes e c p' q',
        cell_of_prefixes e (y ∷ c) p' q,
        trace-cell e c (match x ∷ ops) p' q',
        trace-cell e c (substitution x y ∷ ops) p' q',
        trace-cell e (y ∷ c) (deletion x ∷ ops) p' q,
        trace-cell (x ∷ e) c (insertion y none ∷ ops) p q',
      )

-- Charging the insertions changes neither side.
attribute_lem :
    (prev : Option (ℕ × Bool)) (k n : ℕ) (ops : List AlignOp)
    → (sent_side (attribute prev k n ops) ≡ sent_side ops)
      × (copied_side (attribute prev k n ops) ≡ copied_side ops)
      × (errors (attribute prev k n ops) ≡ errors ops)
unfolding attribute
attribute_lem prev k n [] = (refl, refl, refl)
attribute_lem prev k n (match x ∷ ops) =
    ground (arith, attribute_lem (some (k, false)) (suc k) n ops)
attribute_lem prev k n (substitution x y ∷ ops) =
    ground (arith, attribute_lem (some (k, true)) (suc k) n ops)
attribute_lem prev k n (deletion x ∷ ops) =
    ground (arith, attribute_lem (some (k, false)) (suc k) n ops)
attribute_lem prev k n (insertion y to ∷ ops) = ground (arith, attribute_lem prev k n ops)

align_prepared_lem :
    (e c : List Token) (other : List AlignOp)
    → sent_side other ≡ e
    → copied_side other ≡ c
    → (sent_side (align_prepared e c).ops ≡ e)
      × (copied_side (align_prepared e c).ops ≡ c)
      × (errors (align_prepared e c).ops ≤ errors other)
unfolding align_prepared Traced IsPrefix distance
align_prepared_lem e c other is_e is_c =
    let traced = trace (cell (matrix e c)) (reverse e) (reverse c) [] in
    let whole = λ (t : List Token). ap (λ r. r ++ []) (sym (reverse-reverse t)) in
    let same : traced ≡ trace distance (reverse e) (reverse c) [] =
      trace-cell e c (reverse e) (reverse c) [] ([], sym (append-nil e) ∙ whole e)
        ([], sym (append-nil c) ∙ whole c) in
    let (a, b, d) = trace_lem (reverse e) (reverse c) [] in
    let (a', b', d') = attribute_lem none 0 (length e) traced in
    let low : distance (reverse e) (reverse c) ≤ errors other =
      subst (λ t. distance (reverse t) (reverse c) ≤ errors other) is_e
        (subst (λ t. distance (reverse (sent_side other)) (reverse t) ≤ errors other) is_c
          (omega (arith, distance_le other [] []))) in
    (
      a' ∙ ap sent_side same ∙ a ∙ reverse-reverse e,
      b' ∙ ap copied_side same ∙ b ∙ reverse-reverse c,
      omega (arith, d', d, ap errors same),
    )

-- The steps of an alignment are about the sent and the copied units, all of them and in order, and no
-- other steps that are have fewer errors.
pub align_units_lem :
    (opts : ScoreOptions) (expected copied : List Token) (other : List AlignOp)
    → sent_side other ≡ prepare opts expected
    → copied_side other ≡ prepare opts copied
    → (sent_side (align_units opts expected copied).ops ≡ prepare opts expected)
      × (copied_side (align_units opts expected copied).ops ≡ prepare opts copied)
      × (errors (align_units opts expected copied).ops ≤ errors other)
unfolding align_units
align_units_lem opts expected copied other sent got =
    align_prepared_lem (prepare opts expected) (prepare opts copied) other sent got

-- Both sides, and the units that an alignment keeps.
some_ops : (e c : List Token) → List AlignOp
some_ops [] [] = []
some_ops (x ∷ e) c = deletion x ∷ some_ops e c
some_ops [] (y ∷ c) = insertion y none ∷ some_ops [] c

some_ops_lem :
    (e c : List Token) → (sent_side (some_ops e c) ≡ e) × (copied_side (some_ops e c) ≡ c)
unfolding some_ops
some_ops_lem [] [] = (refl, refl)
some_ops_lem (x ∷ e) c = (ap (◌∷◌ x) (some_ops_lem e c).0, (some_ops_lem e c).1)
some_ops_lem [] (y ∷ c) = ((some_ops_lem [] c).0, ap (◌∷◌ y) (some_ops_lem [] c).1)

pub align_units_sides :
    (opts : ScoreOptions) (expected copied : List Token)
    → (sent_side (align_units opts expected copied).ops ≡ prepare opts expected)
      × (copied_side (align_units opts expected copied).ops ≡ prepare opts copied)
align_units_sides opts expected copied =
    let ops = some_ops_lem (prepare opts expected) (prepare opts copied) in
    let (sent, got, least) =
      align_units_lem opts expected copied (some_ops (prepare opts expected) (prepare opts copied))
        ops.0 ops.1 in
    (sent, got)

pub align_units-expected :
    (opts : ScoreOptions) (expected copied : List Token)
    → (align_units opts expected copied).expected ≡ prepare opts expected
unfolding align_units
align_units-expected opts expected copied = refl
