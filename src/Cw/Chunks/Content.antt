-- ===== src/Cw/Chunks/Content.antt =====
-- `chunks` loses no character of the text and keeps their order.
use radio_cat_rs.Base.{
  ℕ, ◌≡◌, refl, sym, ap, ◌∙◌, true, ◌||◌, Option, List, [], ◌∷◌, ◌++◌, append_assoc, append-nil,
  if◌then◌else◌, is_empty, All, Bool-cases, inl, inr, arith,
}
use radio_cat_rs.Cw.Text.{
  Text, is_whitespace, split_whitespace, words_from, end_word, fits, split_word, place_word,
  add_word, add_words, chunks,
}
use radio_cat_rs.Cw.Chunks.{IsPiece, chunks-IsPiece}

-- The text without its white space.
unfoldable pub unspaced : Text → Text
unspaced [] = []
unspaced (c ∷ text) = let rest = unspaced text in if is_whitespace c then rest else c ∷ rest

abbrev pub flat : List Text → Text
flat [] = []
flat (piece ∷ pieces) = unspaced piece ++ flat pieces

unspaced-append : (front back : Text) → unspaced (front ++ back) ≡ unspaced front ++ unspaced back
unfolding unspaced
unspaced-append [] back = refl
unspaced-append (c ∷ front) back = ground (arith, unspaced-append front back)

flat-append : (front back : List Text) → flat (front ++ back) ≡ flat front ++ flat back
flat-append [] back = refl
flat-append (piece ∷ front) back =
    ap (λ (t : Text). unspaced piece ++ t) (flat-append front back)
    ∙ sym (append_assoc (unspaced piece) (flat front) (flat back))

-- All that has been read, in order.
abbrev told : List Text × Text → Text
told (out, current) = flat out ++ unspaced current

told-push : (out : List Text) (piece : Text) → flat (out ++ (piece ∷ [])) ≡ told (out, piece)
told-push out piece = simp (flat-append out (piece ∷ []), append-nil) refl

unspaced-nil : unspaced [] ≡ []
unfolding unspaced
unspaced-nil = refl

unspaced-space : (word : Text) → unspaced (b' ' ∷ word) ≡ unspaced word
unfolding unspaced
unspaced-space word = refl

flat-all :
    (out : List Text) (current : Text) → is_empty current ≡ true → flat out ≡ told (out, current)
unfolding unspaced
flat-all out [] empty = sym (append-nil (flat out))
flat-all out (c ∷ current) empty = cc

-- Three pieces, the first two of them read.
told-then :
    (out : List Text) (piece more : Text)
    → told (out, piece ++ more) ≡ told (out, piece) ++ unspaced more
told-then out piece more = simp (unspaced-append piece more, append_assoc) refl

flat-end_word :
    (current : Text) (words : List Text)
    → flat (end_word current words) ≡ unspaced current ++ flat words
unfolding unspaced
flat-end_word [] words = refl
flat-end_word (c ∷ current) words = refl

flat-words_from :
    (text current : Text) → flat (words_from current text) ≡ unspaced current ++ unspaced text
unfolding words_from unspaced
flat-words_from [] current = flat-end_word current []
flat-words_from (c ∷ text) current = elim (Bool-cases (is_whitespace c)) [
  | inl space ↦
      rw (space, words_from, unspaced)
        (flat-end_word current (words_from [] text)
          ∙ ap (λ (t : Text). unspaced current ++ t) (flat-words_from text []))
  | inr inside ↦
      rw (inside, words_from, unspaced)
        (flat-words_from text (current ++ (c ∷ []))
          ∙ ap (λ (t : Text). t ++ unspaced text)
              (unspaced-append current (c ∷ []) ∙ rw (inside, unspaced) refl)
          ∙ append_assoc (unspaced current) (c ∷ []) (unspaced text))
]

module _ (estimate : Text → ℕ → ℕ) (max_chars : ℕ) (max_duration : Option ℕ) (wpm : ℕ) where
  told-split_word :
      (word : Text) (out : List Text) (piece : Text)
      → told (split_word estimate max_chars max_duration wpm word out piece)
        ≡ told (out, piece) ++ unspaced word
  unfolding split_word unspaced
  told-split_word [] out piece = sym (append-nil (told (out, piece)))
  told-split_word (c ∷ word) out piece =
      let more = unspaced-append (c ∷ []) word in
      elim (Bool-cases
        (is_empty piece || fits estimate max_chars max_duration wpm (piece ++ (c ∷ [])))) [
          | inl grows ↦
              rw (grows, split_word)
                (told-split_word word out (piece ++ (c ∷ []))
                  ∙ simp (told-then out piece (c ∷ []), more, append_assoc) refl)
          | inr full ↦
              rw (full, split_word)
                (told-split_word word (out ++ (piece ∷ [])) (c ∷ [])
                  ∙ simp (told-push out piece, more, append_assoc) refl)
        ]

  told-place_word :
      (word : Text) (out : List Text)
      → told (place_word estimate max_chars max_duration wpm word out) ≡ flat out ++ unspaced word
  unfolding place_word
  told-place_word word out = elim (Bool-cases (fits estimate max_chars max_duration wpm word)) [
    | inl whole ↦ rw (whole, place_word) refl
    | inr long ↦
        rw (long, place_word) (told-split_word word out [] ∙ simp (unspaced-nil, append-nil) refl)
  ]

  told-add_word :
      (word : Text) (out : List Text) (current : Text)
      → told (add_word estimate max_chars max_duration wpm word out current)
        ≡ told (out, current) ++ unspaced word
  unfolding add_word
  told-add_word word out [] = told-place_word word out ∙ simp (unspaced-nil, append-nil) refl
  told-add_word word out (c ∷ current) =
      elim (Bool-cases
        (fits estimate max_chars max_duration wpm ((c ∷ current) ++ (b' ' ∷ word)))) [
          | inl joins ↦
              rw (joins, add_word)
                (told-then out (c ∷ current) (b' ' ∷ word)
                  ∙ ap (λ (t : Text). told (out, c ∷ current) ++ t) (unspaced-space word))
          | inr full ↦
              rw (full, add_word)
                (told-place_word word (out ++ ((c ∷ current) ∷ []))
                  ∙ ap (λ (t : Text). t ++ unspaced word) (told-push out (c ∷ current)))
        ]

  told-add_words :
      (words : List Text) (out : List Text) (current : Text)
      → told (add_words estimate max_chars max_duration wpm words out current)
        ≡ told (out, current) ++ flat words
  unfolding add_words
  told-add_words [] out current = sym (append-nil (told (out, current)))
  told-add_words (word ∷ words) out current =
      let (out', current') = add_word estimate max_chars max_duration wpm word out current in
      told-add_words words out' current'
      ∙ ap (λ (t : Text). t ++ flat words) (told-add_word word out current)
      ∙ append_assoc (told (out, current)) (unspaced word) (flat words)

  flat-chunks :
      (text : Text) → flat (chunks estimate max_chars max_duration wpm text) ≡ unspaced text
  unfolding chunks
  flat-chunks text =
      let (out, current) =
        add_words estimate max_chars max_duration wpm (split_whitespace text) [] [] in
      let all : told (out, current) ≡ unspaced text =
        told-add_words (split_whitespace text) [] []
        ∙ simp (unspaced-nil, flat-words_from text []) refl in
      elim (Bool-cases (is_empty current)) [
        | inl none_left ↦ rw (none_left, chunks) (flat-all out current none_left ∙ all)
        | inr left ↦ rw (left, chunks) (told-push out current ∙ all)
      ]

  -- Whatever the text, the bounds and the speed: every chunk has a character and is one character,
  -- or has at most the characters and keys within the time allowed; and the chunks are the text,
  -- its white space apart, with no character lost, added or moved.
  pub chunks_lem :
      (text : Text)
      → All
          (IsPiece estimate max_chars max_duration wpm)
          (chunks estimate max_chars max_duration wpm text)
        × (flat (chunks estimate max_chars max_duration wpm text) ≡ unspaced text)
  chunks_lem text = (chunks-IsPiece estimate max_chars max_duration wpm text, flat-chunks text)
