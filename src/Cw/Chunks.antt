-- ===== src/Cw/Chunks.antt =====
-- What `chunks` cuts a text into.
pub mod Content
use radio_cat_rs.Base.{
  ℕ, suc, ◌+◌, max, ◌≡◌, refl, sym, ap, ◌∙◌, Bool, true, false, not, ◌&&◌, ◌||◌, Option, none, some,
  List, [], ◌∷◌, ◌++◌, append_assoc, append-nil, ◌==◌, if◌then◌else◌, length, is_empty, All,
  All-append, Bool-cases, inl, inr, arith,
}
use radio_cat_rs.Cw.Text.{
  Text, is_whitespace, split_whitespace, words_from, end_word, fits, split_word, place_word,
  add_word, add_words, chunks,
}

module _ (estimate : Text → ℕ → ℕ) (max_chars : ℕ) (max_duration : Option ℕ) (wpm : ℕ) where
  abbrev piece_fits : Text → Bool
  piece_fits piece = fits estimate max_chars max_duration wpm piece

  -- A chunk has a character; it fits or has only the one.
  abbrev pub IsPiece : Text → Type 0
  IsPiece piece =
      (is_empty piece ≡ false)
      × ((fits estimate max_chars max_duration wpm piece || (length piece == 1)) ≡ true)

  -- What the loops carry: chunks, and the start of one.
  abbrev AreCut : List Text × Text → Type 0
  AreCut (out, current) =
      All IsPiece out
      × ((is_empty current
            || (fits estimate max_chars max_duration wpm current || (length current == 1)))
          ≡ true)

  IsPiece-push :
      (out : List Text) (piece : Text)
      → AreCut (out, piece)
      → is_empty piece ≡ false
      → All IsPiece (out ++ (piece ∷ []))
  IsPiece-push out piece (before, last) full =
      All-append IsPiece out (piece ∷ []) before ((full, ground (arith, last, full)), tt)

  grown :
      (c : ℕ) (piece : Text)
      → (is_empty piece || piece_fits (piece ++ (c ∷ []))) ≡ true
      → (is_empty (piece ++ (c ∷ []))
          || (piece_fits (piece ++ (c ∷ [])) || (length (piece ++ (c ∷ [])) == 1)))
        ≡ true
  grown c [] grows = ground arith
  grown c (d ∷ piece) grows = ground (arith, grows)

  AreCut-split_word :
      (word : Text) (out : List Text) (piece : Text)
      → AreCut (out, piece)
      → AreCut (split_word estimate max_chars max_duration wpm word out piece)
  unfolding split_word
  AreCut-split_word [] out piece cut = cut
  AreCut-split_word (c ∷ word) out piece cut =
      elim (Bool-cases (is_empty piece || piece_fits (piece ++ (c ∷ [])))) [
        | inl grows ↦
            rw (grows, split_word)
              (AreCut-split_word word out (piece ++ (c ∷ [])) (cut.0, grown c piece grows))
        | inr full ↦
            rw (full, split_word)
              (AreCut-split_word word (out ++ (piece ∷ [])) (c ∷ [])
                (IsPiece-push out piece cut (ground (arith, full)), ground arith))
      ]

  AreCut-place_word :
      (word : Text) (out : List Text)
      → All IsPiece out
      → AreCut (place_word estimate max_chars max_duration wpm word out)
  unfolding place_word
  AreCut-place_word word out before = elim (Bool-cases (piece_fits word)) [
    | inl whole ↦ rw (whole, place_word) (before, ground (arith, whole))
    | inr long ↦ rw (long, place_word) (AreCut-split_word word out [] (before, refl))
  ]

  AreCut-add_word :
      (word : Text) (out : List Text) (current : Text)
      → AreCut (out, current)
      → AreCut (add_word estimate max_chars max_duration wpm word out current)
  unfolding add_word
  AreCut-add_word word out current cut = elim (Bool-cases (is_empty current)) [
    | inl none_yet ↦ rw (none_yet, add_word) (AreCut-place_word word out cut.0)
    | inr begun ↦ elim (Bool-cases (piece_fits (current ++ (b' ' ∷ word)))) [
      | inl joins ↦ rw (begun, joins, add_word) (cut.0, ground (arith, joins))
      | inr full ↦
          rw (begun, full, add_word)
            (AreCut-place_word word (out ++ (current ∷ [])) (IsPiece-push out current cut begun))
    ]
  ]

  AreCut-add_words :
      (words : List Text) (out : List Text) (current : Text)
      → AreCut (out, current)
      → AreCut (add_words estimate max_chars max_duration wpm words out current)
  unfolding add_words
  AreCut-add_words [] out current cut = cut
  AreCut-add_words (word ∷ words) out current cut =
      let (out', current') = add_word estimate max_chars max_duration wpm word out current in
      AreCut-add_words words out' current' (AreCut-add_word word out current cut)

  pub chunks-IsPiece : (text : Text) → All IsPiece (chunks estimate max_chars max_duration wpm text)
  unfolding chunks
  chunks-IsPiece text =
      let (out, current) =
        add_words estimate max_chars max_duration wpm (split_whitespace text) [] [] in
      let cut = AreCut-add_words (split_whitespace text) [] [] (tt, refl) in
      elim (Bool-cases (is_empty current)) [
        | inl none_left ↦ rw (none_left, chunks) cut.0
        | inr left ↦ rw (left, chunks) (IsPiece-push out current cut left)
      ]
