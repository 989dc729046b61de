-- ===== src/Morse/Table.antt =====
-- The alphabet and the way back from a pattern.
use radio_cat_rs.Base.{
  ℕ, Bool, true, false, not, ◌&&◌, ◌≡◌, refl, sym, ap, subst, Option, none, some, List, [], ◌∷◌,
  ◌==◌, find, Bool-cases, Option-cases, inl, inr, arith,
}
use radio_cat_rs.Cw.Text.{is_whitespace, to_ascii_uppercase}
use radio_cat_rs.Morse.{
  shared, text_table, Element, Prosign, same_prosign, Token, char, prosign, word_space, same_token,
  table, upper, pattern_in, pattern_of, canonical, decode_in, decode_group, is_known,
}

-- Does every entry of a table pass?
abbrev all : {A : Type 0} → (A → Bool) → List A → Bool
all p [] = true
all p (x ∷ xs) = p x && all p xs

find_passes :
    {A : Type 0} (test check : A → Bool) (xs : List A) {a : A}
    → all check xs ≡ true
    → find test xs ≡ some a
    → (check a && test a) ≡ true
find_passes test check [] passes found = cc
find_passes test check (x ∷ xs) passes found = elim (Bool-cases (test x)) [
  | inl here ↦ ground (arith, passes, found, here)
  | inr later ↦ find_passes test check xs (ground (arith, passes)) (ground (arith, found, later))
]

abbrev is_token : Token → Option Token → Bool
is_token token none = false
is_token token (some other) = same_token token other

-- An entry is decoded as its own token or as the prosign that shares its pattern; its character is its own
-- upper case, and neither white space nor an angle bracket.
abbrev entry_stands : Token × List Element → Bool
entry_stands (token, elements) = is_token (canonical token) (decode_group elements) && (elim token [
  | char c ↦ (to_ascii_uppercase c == c) && (not (is_whitespace c) && not (c == b'<'))
  | prosign p ↦ true
  | word_space ↦ false
])

all_entries_stand : all entry_stands table ≡ true
unfolding canonical shared decode_in table text_table
all_entries_stand = refl

same_prosign_sound : (p q : Prosign) → same_prosign p q ≡ true → p ≡ q
same_prosign_sound p q same = ground arith

pub same_token_sound : (a b : Token) → same_token a b ≡ true → a ≡ b
same_token_sound (char a) (char b) same = ground (arith, same)
same_token_sound (prosign p) (prosign q) same = ap prosign (same_prosign_sound p q same)
same_token_sound word_space word_space same = refl
same_token_sound (char a) (prosign q) same = cc
same_token_sound (char a) word_space same = cc
same_token_sound (prosign p) (char b) same = cc
same_token_sound (prosign p) word_space same = cc
same_token_sound word_space (char b) same = cc
same_token_sound word_space (prosign q) same = cc

same_prosign_refl : (p : Prosign) → same_prosign p p ≡ true
same_prosign_refl p = ground arith

pub same_token_refl : (a : Token) → same_token a a ≡ true
same_token_refl (char c) = ground arith
same_token_refl (prosign p) = same_prosign_refl p
same_token_refl word_space = refl

is_token_sound :
    (token : Token) (found : Option Token) → is_token token found ≡ true → found ≡ some token
is_token_sound token none h = cc
is_token_sound token (some other) h = ap some (sym (same_token_sound token other h))

upper_again : (c : ℕ) → to_ascii_uppercase (to_ascii_uppercase c) ≡ to_ascii_uppercase c
upper_again c = ground arith

canonical-upper : (token : Token) → canonical (upper token) ≡ canonical token
unfolding canonical
canonical-upper (char c) = ap shared (upper_again c)
canonical-upper (prosign p) = refl
canonical-upper word_space = refl

found_in :
    (entries : List (Token × List Element)) (token : Token) {elements : List Element}
    → pattern_in entries token ≡ some elements
    → (e : Token × List Element) × (find
          (λ (e : Token × List Element). same_token e.0 token)
          entries
        ≡ some e)
      × (e.1 ≡ elements)
unfolding pattern_in
found_in entries token known =
    elim (Option-cases (find (λ (e : Token × List Element). same_token e.0 token) entries)) [
      | inl nothing ↦ absurd (ground (arith, nothing, known))
      | inr (e, found) ↦ (e, found, ground (arith, found, known))
    ]

-- A token with a pattern stands in the table, in upper case, with it.
entry_stands-upper :
    (token : Token) (elements : List Element)
    → pattern_of token ≡ some elements
    → entry_stands (upper token, elements) ≡ true
entry_stands-upper token elements known =
    let (e, found, same) = found_in table (upper token) known in
    let both =
      find_passes (λ (e : Token × List Element). same_token e.0 (upper token)) entry_stands table
        all_entries_stand found in
    let own = same_token_sound e.0 (upper token) (ground (arith, both)) in
    subst (λ (e' : Token × List Element). entry_stands e' ≡ true) (λ i. (own i, same i))
      (ground (arith, both))

-- Decoding the pattern of a token gives the token, in upper case, or the prosign that shares its
-- pattern.
decode_group-pattern_of :
    (token : Token) (elements : List Element)
    → pattern_of token ≡ some elements
    → decode_group elements ≡ some (canonical token)
decode_group-pattern_of token elements known =
    let stands = entry_stands-upper token elements known in
    subst (λ (t : Token). decode_group elements ≡ some t) (canonical-upper token)
      (is_token_sound (canonical (upper token)) (decode_group elements) (ground (arith, stands)))

-- A character of the alphabet is neither white space nor an angle bracket.
pub known_char :
    (c : ℕ)
    → is_known (char c) ≡ true
    → (is_whitespace (to_ascii_uppercase c) ≡ false) × ((to_ascii_uppercase c == b'<') ≡ false)
known_char c known = elim (Option-cases (pattern_of (char c))) [
  | inl nothing ↦ absurd (ground (arith, nothing, known))
  | inr (elements, e) ↦
      let stands = entry_stands-upper (char c) elements e in
      (ground (arith, stands), ground (arith, stands))
]
