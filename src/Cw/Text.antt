-- ===== src/Cw/Text.antt =====
-- The text that a CW send is cut into: `chunks` of cat-rigctl/src/native_bridge/cw.rs, and what it
-- uses of the standard library. A text is the list of its code points.
use radio_cat_rs.Base.{
  ℕ, ◌-◌, max, Bool, true, false, ◌&&◌, ◌||◌, Option, none, some, List, [], ◌∷◌, ◌++◌, ◌==◌, leb,
  if◌then◌else◌, length, is_empty,
}

abbrev pub Text : Type 0
Text = List ℕ

-- `char::is_whitespace`: the code points with the property White_Space.
abbrev pub is_whitespace : ℕ → Bool
is_whitespace c =
    (leb 0x9 c && leb c 0xd)
    || (c == 0x20
        || (c == 0x85
            || (c == 0xa0
                || (c == 0x1680
                    || ((leb 0x2000 c && leb c 0x200a)
                        || (c == 0x2028
                            || (c == 0x2029 || (c == 0x202f || (c == 0x205f || c == 0x3000)))))))))

-- `char::to_ascii_uppercase`.
abbrev pub to_ascii_uppercase : ℕ → ℕ
to_ascii_uppercase c = if leb b'a' c && leb c b'z' then c - 32 else c

-- A word that ends, if there is one, in front of the words behind it.
abbrev pub end_word : Text → List Text → List Text
end_word [] words = words
end_word (c ∷ current) words = (c ∷ current) ∷ words

-- The words of a text behind the piece of a word that has been read.
unfoldable pub words_from : Text → Text → List Text
words_from current [] = end_word current []
words_from current (c ∷ text) = elim (is_whitespace c) [
  | true ↦ end_word current (words_from [] text)
  | false ↦ words_from (current ++ (c ∷ [])) text
]

abbrev pub split_whitespace : Text → List Text
split_whitespace text = words_from [] text

-- `[String]::join(" ")`.
unfoldable pub join : List Text → Text
join [] = []
join (word ∷ []) = word
join (word ∷ next ∷ words) = word ++ (b' ' ∷ join (next ∷ words))

module _ (estimate : Text → ℕ → ℕ) (max_chars : ℕ) (max_duration : Option ℕ) (wpm : ℕ) where
  unfoldable pub fits : Text → Bool
  fits s =
      leb (length s) (max max_chars 1)
      && elim max_duration [ none ↦ true | some d ↦ leb (estimate s wpm) d ]

  -- The loop over the characters of a word that does not fit.
  unfoldable pub split_word : Text → List Text → Text → List Text × Text
  split_word [] out piece = (out, piece)
  split_word (c ∷ word) out piece =
      let longer = piece ++ (c ∷ []) in
      elim (is_empty piece || fits longer) [
        | true ↦ split_word word out longer
        | false ↦ split_word word (out ++ (piece ∷ [])) (c ∷ [])
      ]

  unfoldable pub place_word : Text → List Text → List Text × Text
  place_word word out = if fits word then (out, word) else split_word word out []

  -- One word of the outer loop.
  unfoldable pub add_word : Text → List Text → Text → List Text × Text
  add_word word out current =
      if is_empty current
      then place_word word out
      else if fits (current ++ (b' ' ∷ word))
      then (out, current ++ (b' ' ∷ word))
      else place_word word (out ++ (current ∷ []))

  unfoldable pub add_words : List Text → List Text → Text → List Text × Text
  add_words [] out current = (out, current)
  add_words (word ∷ words) out current =
      let (out', current') = add_word word out current in add_words words out' current'

  unfoldable pub chunks : Text → List Text
  chunks text =
      let (out, current) = add_words (split_whitespace text) [] [] in
      if is_empty current then out else out ++ (current ∷ [])
