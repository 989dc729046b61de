-- ===== src/Morse/Score/Matrix.antt =====
-- The matrix holds the edit distances of the prefixes.
use radio_cat_rs.Base.{
  ℕ, suc, ◌+◌, min, ◌≡◌, refl, sym, ap, ◌∙◌, List, [], ◌∷◌, ◌++◌, length, arith,
}
use mathlib.Core.List.{reverse, reverse_aux, reverse-reverse}
use radio_cat_rs.Morse.{Token}
use radio_cat_rs.Morse.Score.{first_row, cost, next_cells, next_rows, matrix, row_at, cell_at, cell}

-- The edit distance of two texts, each with its last unit first.
unfoldable pub distance : List Token → List Token → ℕ
distance [] c = length c
distance (x ∷ e) [] = suc (length e)
distance (x ∷ e) (y ∷ c) =
    min (min (distance e c + cost x y) (distance e (y ∷ c) + 1)) (distance (x ∷ e) c + 1)

-- The distances of one prefix from the prefixes of a text, behind those that it begins with.
distances : List Token → List Token → List Token → List ℕ
distances e c [] = []
distances e c (y ∷ copied) = distance e (y ∷ c) ∷ distances e (y ∷ c) copied

row_of : List Token → List Token → List Token → List ℕ
row_of e c copied = distance e c ∷ distances e c copied

rows_of : List Token → List Token → List Token → List (List ℕ)
rows_of e [] copied = []
rows_of e (x ∷ expected) copied = row_of (x ∷ e) [] copied ∷ rows_of (x ∷ e) expected copied

first_row_lem : (c copied : List Token) → first_row (length c) copied ≡ row_of [] c copied
unfolding first_row row_of distances distance
first_row_lem c [] = refl
first_row_lem c (y ∷ copied) = ap (◌∷◌ (length c)) (first_row_lem (y ∷ c) copied)

next_cells_lem :
    (x : Token) (e c copied : List Token)
    → next_cells x (row_of e c copied) copied (distance (x ∷ e) c) ≡ distances (x ∷ e) c copied
unfolding next_cells row_of distances distance
next_cells_lem x e c [] = refl
next_cells_lem x e c (y ∷ copied) =
    ap (◌∷◌ (distance (x ∷ e) (y ∷ c))) (next_cells_lem x e (y ∷ c) copied)

next_rows_lem :
    (e expected copied : List Token)
    → next_rows (suc (length e)) (row_of e [] copied) expected copied ≡ rows_of e expected copied
unfolding next_rows rows_of
next_rows_lem e [] copied = refl
next_rows_lem e (x ∷ expected) copied =
    let row : suc (length e) ∷ next_cells x (row_of e [] copied) copied (suc (length e))
        ≡ row_of (x ∷ e) [] copied =
      unfold row_of distance in ap (◌∷◌ (suc (length e))) (next_cells_lem x e [] copied) in
    ap (λ r. r ∷ next_rows (suc (suc (length e))) r expected copied) row
    ∙ ap (◌∷◌ (row_of (x ∷ e) [] copied)) (next_rows_lem (x ∷ e) expected copied)

length-reverse_aux : (xs ys : List Token) → length (reverse_aux xs ys) ≡ length xs + length ys
length-reverse_aux [] ys = omega arith
length-reverse_aux (x ∷ xs) ys = omega (arith, length-reverse_aux xs (x ∷ ys))

row_found :
    (b xs rest copied : List Token)
    → row_at (row_of b [] copied ∷ rows_of b (xs ++ rest) copied) (length xs)
      ≡ row_of (reverse_aux xs b) [] copied
unfolding rows_of
row_found b [] rest copied = refl
row_found b (x ∷ xs) rest copied = row_found (x ∷ b) xs rest copied

cell_found :
    (e b ys rest : List Token)
    → cell_at (row_of e b (ys ++ rest)) (length ys) ≡ distance e (reverse_aux ys b)
unfolding row_of distances
cell_found e b [] rest = refl
cell_found e b (y ∷ ys) rest = cell_found e (y ∷ b) ys rest

matrix_lem :
    (expected copied : List Token)
    → matrix expected copied ≡ row_of [] [] copied ∷ rows_of [] expected copied
unfolding matrix
matrix_lem expected copied =
    ap (λ r. r ∷ next_rows 1 r expected copied) (first_row_lem [] copied)
    ∙ ap (◌∷◌ (row_of [] [] copied)) (next_rows_lem [] expected copied)

length-reverse : (xs : List Token) → length (reverse xs) ≡ length xs
length-reverse xs = length-reverse_aux xs [] ∙ omega arith

-- The cell of two prefixes is their distance.
pub cell_lem :
    (e es c cs : List Token) → cell (matrix (reverse e ++ es) (reverse c ++ cs)) e c ≡ distance e c
unfolding cell
cell_lem e es c cs =
    let copied = reverse c ++ cs in
    let row : row_at (matrix (reverse e ++ es) copied) (length e) ≡ row_of e [] copied =
      ap (λ d. row_at d (length e)) (matrix_lem (reverse e ++ es) copied)
      ∙ ap (row_at (row_of [] [] copied ∷ rows_of [] (reverse e ++ es) copied))
          (sym (length-reverse e))
      ∙ row_found [] (reverse e) es copied
      ∙ ap (λ p. row_of p [] copied) (reverse-reverse e) in
    ap (λ r. cell_at r (length c)) row
    ∙ ap (cell_at (row_of e [] copied)) (sym (length-reverse c))
    ∙ cell_found e [] (reverse c) cs
    ∙ ap (distance e) (reverse-reverse c)
