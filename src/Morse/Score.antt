-- ===== src/Morse/Score.antt =====
-- cat-morse/src/score.rs: what was sent aligned with what was copied. A count has no upper bound. The matrix
-- of costs is the list of its rows.
use radio_cat_rs.Base.{
  ℕ, suc, ◌+◌, min, Bool, true, false, not, List, [], ◌∷◌, length, ◌==◌, ltb, if◌then◌else◌, Option,
  none, some, get_elem?,
}
use mathlib.Core.List.{reverse}
use radio_cat_rs.Morse.{Token, word_space, same_token, canonical}
pub mod Matrix
pub mod Optimal
pub mod Copy
pub mod Totals
pub mod Stats

pub record ScoreOptions : Type 0 where
  pub ignore_spaces : Bool
  pub fold_equivalents : Bool

-- `AlignOp`.
pub data AlignOp : Type 0 where
  match : (expected : Token) → AlignOp
  substitution : (expected copied : Token) → AlignOp
  deletion : (expected : Token) → AlignOp
  insertion : (copied : Token) (attributed_to : Option ℕ) → AlignOp

pub record Alignment : Type 0 where
  pub expected : List Token
  pub ops : List AlignOp

pub record Score : Type 0 where
  pub expected : ℕ
  pub matches : ℕ
  pub substitutions : ℕ
  pub deletions : ℕ
  pub insertions : ℕ

-- `Score::add`.
unfoldable pub add : Score → Score → Score
add a b = record {
  expected = a.expected + b.expected;
  matches = a.matches + b.matches;
  substitutions = a.substitutions + b.substitutions;
  deletions = a.deletions + b.deletions;
  insertions = a.insertions + b.insertions;
}

abbrev is_scored : ScoreOptions → Token → Bool
is_scored opts word_space = not opts.ignore_spaces
is_scored opts _ = true

abbrev fold_token : ScoreOptions → Token → Token
fold_token opts token = if opts.fold_equivalents then canonical token else token

unfoldable pub prepare : ScoreOptions → List Token → List Token
prepare opts [] = []
prepare opts (token ∷ tokens) =
    let rest = prepare opts tokens in
    if is_scored opts token then fold_token opts token ∷ rest else rest

-- `0, 1, …, m` from a number on: the first row.
unfoldable pub first_row : ℕ → List Token → List ℕ
first_row j [] = j ∷ []
first_row j (y ∷ copied) = j ∷ first_row (suc j) copied

abbrev pub cost : Token → Token → ℕ
cost x y = if same_token x y then 0 else 1

-- The cells of a row behind the one on the left, from the row above.
unfoldable pub next_cells : Token → List ℕ → List Token → ℕ → List ℕ
next_cells x (diagonal ∷ up ∷ above) (y ∷ copied) left =
    let here = min (min (diagonal + cost x y) (up + 1)) (left + 1) in
    here ∷ next_cells x (up ∷ above) copied here
next_cells x _ _ left = []

-- The rows from the `i`-th on, below the row above.
unfoldable pub next_rows : ℕ → List ℕ → List Token → List Token → List (List ℕ)
unfolding next_cells
next_rows i above [] copied = []
next_rows i above (x ∷ expected) copied =
    let row = i ∷ next_cells x above copied i in row ∷ next_rows (suc i) row expected copied

unfoldable pub matrix : List Token → List Token → List (List ℕ)
unfolding first_row next_rows
matrix expected copied = let row = first_row 0 copied in row ∷ next_rows 1 row expected copied

-- `d[i * w + j]`.
abbrev pub row_at : List (List ℕ) → ℕ → List ℕ
row_at d i = elim (get_elem? d i) [ none ↦ [] | some row ↦ row ]

abbrev pub cell_at : List ℕ → ℕ → ℕ
cell_at row j = elim (get_elem? row j) [ none ↦ 0 | some cell ↦ cell ]

unfoldable pub cell : List (List ℕ) → List Token → List Token → ℕ
cell d e c = cell_at (row_at d (length e)) (length c)

-- The trace back over the costs of the prefixes. The prefixes `e[..i]` and `c[..j]`, last unit first, stand for
-- the loop's `i` and `j`; the steps are collected in the order in which they are left in the end. The
-- cost of a prefix against nothing is its length, so the `false` of the third clause, where the source
-- would read in front of its slice, does not occur.
module _ (here : List Token → List Token → ℕ) where
  unfoldable pub trace : List Token → List Token → List AlignOp → List AlignOp
  trace [] [] ops = ops
  trace [] (y ∷ c) ops = trace [] c (insertion y none ∷ ops)
  trace (x ∷ e) [] ops = elim (here (x ∷ e) [] == here e [] + 1) [
    | true ↦ trace e [] (deletion x ∷ ops)
    | false ↦ ops
  ]
  trace (x ∷ e) (y ∷ c) ops = elim (here (x ∷ e) (y ∷ c) == here e c + cost x y) [
    | true ↦ trace e c ((if same_token x y then match x else substitution x y) ∷ ops)
    | false ↦ elim (here (x ∷ e) (y ∷ c) == here e (y ∷ c) + 1) [
      | true ↦ trace e (y ∷ c) (deletion x ∷ ops)
      | false ↦ trace (x ∷ e) c (insertion y none ∷ ops)
    ]
  ]

abbrev pub is_sub : AlignOp → Bool
is_sub (substitution x y) = true
is_sub _ = false

-- The nearest step on a side that is no insertion: the sent unit that it is about, and whether it is a
-- substitution.
unfoldable pub next_sent : ℕ → List AlignOp → Option (ℕ × Bool)
next_sent k [] = none
next_sent k (insertion y to ∷ ops) = next_sent k ops
next_sent k (match x ∷ ops) = some (k, false)
next_sent k (deletion x ∷ ops) = some (k, false)
next_sent k (substitution x y ∷ ops) = some (k, true)

abbrev pub target : Option (ℕ × Bool) → Option (ℕ × Bool) → Option ℕ
target (some (a, true)) next = some a
target (some (a, false)) (some (b, true)) = some b
target (some (a, false)) _ = some a
target none (some (b, is)) = some b
target none none = none

-- `filter(|&t| t < n)`.
abbrev pub below : ℕ → Option ℕ → Option ℕ
below n none = none
below n (some t) = if ltb t n then some t else none

-- `attribute_insertions`: behind `k` sent units, the last of them `prev`. Where there is a unit before, `prev`
-- is it, so `or(before[p])` adds nothing.
unfoldable pub attribute : Option (ℕ × Bool) → ℕ → ℕ → List AlignOp → List AlignOp
unfolding next_sent
attribute prev k n [] = []
attribute prev k n (insertion y to ∷ ops) =
    insertion y (below n (target prev (next_sent k ops))) ∷ attribute prev k n ops
attribute prev k n (match x ∷ ops) = match x ∷ attribute (some (k, false)) (suc k) n ops
attribute prev k n (deletion x ∷ ops) = deletion x ∷ attribute (some (k, false)) (suc k) n ops
attribute prev k n (substitution x y ∷ ops) =
    substitution x y ∷ attribute (some (k, true)) (suc k) n ops

unfoldable pub align_prepared : List Token → List Token → Alignment
unfolding trace attribute
align_prepared e c = record {
  expected = e;
  ops = attribute none 0 (length e) (trace (cell (matrix e c)) (reverse e) (reverse c) []);
}

unfoldable pub align_units : ScoreOptions → List Token → List Token → Alignment
unfolding align_prepared prepare
align_units opts expected copied = align_prepared (prepare opts expected) (prepare opts copied)

abbrev pub counted : AlignOp → Score → Score
counted (match x) s = record s { matches = s.matches + 1 }
counted (substitution x y) s = record s { substitutions = s.substitutions + 1 }
counted (deletion x) s = record s { deletions = s.deletions + 1 }
counted (insertion y to) s = record s { insertions = s.insertions + 1 }

unfoldable pub count_ops : List AlignOp → Score → Score
count_ops [] s = s
count_ops (op ∷ ops) s = count_ops ops (counted op s)

-- `Alignment::score`.
unfoldable pub score : Alignment → Score
unfolding count_ops
score a = count_ops a.ops (record {
  expected = length a.expected;
  matches = 0;
  substitutions = 0;
  deletions = 0;
  insertions = 0;
})
