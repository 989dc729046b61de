-- ===== src/Morse/RoundTrip.antt =====
-- The text of tokens is read back as the tokens.
use radio_cat_rs.Base.{
  ℕ, ◌+◌, Bool, true, false, ◌&&◌, ◌≡◌, refl, sym, ap, ◌∙◌, List, [], ◌∷◌, ◌++◌, ◌==◌, append_assoc,
  append-nil, is_empty, ok, arith,
}
use radio_cat_rs.Cw.Text.{Text, to_ascii_uppercase}
use radio_cat_rs.Morse.{
  Prosign, ar_sign, sk_sign, bt_sign, kn_sign, as_sign, hh_sign, sos_sign, from_name, Token, char,
  prosign, word_space, token_text, is_known, in_text, push_token, tokenize_from, tokenize,
  tokens_to_text, utf8_width,
}
use radio_cat_rs.Morse.Table.{known_char}

-- A prosign, or a character of the alphabet in upper case.
abbrev pub is_symbol : Token → Bool
is_symbol (char c) = is_known (char c) && (to_ascii_uppercase c == c)
is_symbol (prosign p) = true
is_symbol word_space = false

-- Symbols with single spaces between them; `behind` a symbol or not.
unfoldable pub well_spaced : Bool → List Token → Bool
well_spaced behind [] = behind
well_spaced behind (word_space ∷ tokens) = behind && well_spaced false tokens
well_spaced behind (token ∷ tokens) = is_symbol token && well_spaced true tokens

abbrev pub is_tidy : List Token → Bool
is_tidy [] = true
is_tidy (token ∷ tokens) = well_spaced false (token ∷ tokens)

char_reads :
    (c : ℕ)
    → is_symbol (char c) ≡ true
    → (pending : Bool) (out : List Token) (offset : ℕ) (text : Text)
    → (after : ℕ) × (tokenize_from in_text pending out offset (c ∷ text)
        ≡ tokenize_from in_text false (push_token pending (char c) out) after text)
unfolding tokenize_from
char_reads c symbol pending out offset text =
    let known : is_known (char c) ≡ true = ground (arith, symbol) in
    let own : to_ascii_uppercase c ≡ c = ground (arith, symbol) in
    let (plain, open_sign) = known_char c known in
    (offset + utf8_width c, ground (arith, known, own, plain, open_sign))

prosign_reads :
    (p : Prosign) (pending : Bool) (out : List Token) (offset : ℕ) (text : Text)
    → (after : ℕ) × (tokenize_from in_text pending out offset (token_text (prosign p) ++ text)
        ≡ tokenize_from in_text false (push_token pending (prosign p) out) after text)
unfolding tokenize_from from_name
prosign_reads ar_sign pending out offset text = (_, refl)
prosign_reads sk_sign pending out offset text = (_, refl)
prosign_reads bt_sign pending out offset text = (_, refl)
prosign_reads kn_sign pending out offset text = (_, refl)
prosign_reads as_sign pending out offset text = (_, refl)
prosign_reads hh_sign pending out offset text = (_, refl)
prosign_reads sos_sign pending out offset text = (_, refl)

symbol_reads :
    (token : Token)
    → is_symbol token ≡ true
    → (pending : Bool) (out : List Token) (offset : ℕ) (text : Text)
    → (after : ℕ) × (tokenize_from in_text pending out offset (token_text token ++ text)
        ≡ tokenize_from in_text false (push_token pending token out) after text)
symbol_reads (char c) symbol = char_reads c symbol
symbol_reads (prosign p) symbol = prosign_reads p
symbol_reads word_space symbol = absurd (ground (arith, symbol))

space_reads :
    (pending : Bool) (out : List Token) (offset : ℕ) (text : Text)
    → is_empty out ≡ false
    → tokenize_from in_text pending out offset (b' ' ∷ text)
      ≡ tokenize_from in_text true out (offset + utf8_width b' ') text
unfolding tokenize_from
space_reads pending out offset text full = ground (arith, full)

pair_not_empty : (out : List Token) (a b : Token) → is_empty (out ++ (a ∷ b ∷ [])) ≡ false
pair_not_empty [] a b = refl
pair_not_empty (t ∷ out) a b = refl

not_empty : (out : List Token) (token : Token) → is_empty (out ++ (token ∷ [])) ≡ false
not_empty [] token = refl
not_empty (t ∷ out) token = refl

abbrev Read : Bool → List Token → ℕ → List Token → List Token → Type 0
Read pending out offset tokens result =
    tokenize_from in_text pending out offset (tokens_to_text tokens) ≡ ok result

text_ends : (out : List Token) (offset : ℕ) → Read false out offset [] (out ++ [])
unfolding tokens_to_text tokenize_from
text_ends out offset = ap ok (sym (append-nil out))

nothing_read : tokenize (tokens_to_text []) ≡ ok []
unfolding tokens_to_text tokenize_from
nothing_read = refl

-- A symbol in front of tokens that are read.
symbol_read :
    (token : Token) (tokens : List Token) (pending : Bool) (out : List Token) (offset : ℕ)
    (result : List Token)
    → is_symbol token ≡ true
    → ((after : ℕ) → Read false (push_token pending token out) after tokens result)
    → Read pending out offset (token ∷ tokens) result
unfolding tokens_to_text
symbol_read token tokens pending out offset result symbol rest =
    let (after, reads) = symbol_reads token symbol pending out offset (tokens_to_text tokens) in
    reads ∙ rest after

-- Behind a symbol.
tokens_read :
    (tokens : List Token) (out : List Token) (offset : ℕ)
    → well_spaced true tokens ≡ true
    → is_empty out ≡ false
    → Read false out offset tokens (out ++ tokens)
unfolding tokens_to_text well_spaced
tokens_read [] out offset tidy full = text_ends out offset
tokens_read (char c ∷ tokens) out offset tidy full =
    symbol_read (char c) tokens false out offset (out ++ (char c ∷ tokens)) (ground (arith, tidy))
      (λ (after : ℕ).
        tokens_read tokens (out ++ (char c ∷ [])) after (ground (arith, tidy))
          (not_empty out (char c))
        ∙ ap ok (append_assoc out (char c ∷ []) tokens))
tokens_read (prosign p ∷ tokens) out offset tidy full =
    symbol_read (prosign p) tokens false out offset (out ++ (prosign p ∷ tokens)) refl
      (λ (after : ℕ).
        tokens_read tokens (out ++ (prosign p ∷ [])) after tidy (not_empty out (prosign p))
        ∙ ap ok (append_assoc out (prosign p ∷ []) tokens))
tokens_read (word_space ∷ []) out offset tidy full = cc
tokens_read (word_space ∷ word_space ∷ tokens) out offset tidy full = absurd (ground (arith, tidy))
tokens_read (word_space ∷ char c ∷ tokens) out offset tidy full =
    space_reads false out offset (tokens_to_text (char c ∷ tokens)) full
    ∙ symbol_read (char c) tokens true out (offset + utf8_width b' ')
        (out ++ (word_space ∷ char c ∷ tokens)) (ground (arith, tidy))
        (λ (after : ℕ).
          tokens_read tokens (out ++ (word_space ∷ char c ∷ [])) after (ground (arith, tidy))
            (pair_not_empty out word_space (char c))
          ∙ ap ok (append_assoc out (word_space ∷ char c ∷ []) tokens))
tokens_read (word_space ∷ prosign p ∷ tokens) out offset tidy full =
    space_reads false out offset (tokens_to_text (prosign p ∷ tokens)) full
    ∙ symbol_read (prosign p) tokens true out (offset + utf8_width b' ')
        (out ++ (word_space ∷ prosign p ∷ tokens)) refl
        (λ (after : ℕ).
          tokens_read tokens (out ++ (word_space ∷ prosign p ∷ [])) after tidy
            (pair_not_empty out word_space (prosign p))
          ∙ ap ok (append_assoc out (word_space ∷ prosign p ∷ []) tokens))

-- Tokens with single spaces between symbols, the characters of the alphabet in upper case: their text is
-- read back as exactly these tokens.
pub tokenize-tokens_to_text :
    (tokens : List Token) → is_tidy tokens ≡ true → tokenize (tokens_to_text tokens) ≡ ok tokens
unfolding well_spaced
tokenize-tokens_to_text [] tidy = nothing_read
tokenize-tokens_to_text (char c ∷ tokens) tidy =
    symbol_read (char c) tokens false [] 0 (char c ∷ tokens) (ground (arith, tidy))
      (λ (after : ℕ). tokens_read tokens (char c ∷ []) after (ground (arith, tidy)) refl)
tokenize-tokens_to_text (prosign p ∷ tokens) tidy =
    symbol_read (prosign p) tokens false [] 0 (prosign p ∷ tokens) refl
      (λ (after : ℕ). tokens_read tokens (prosign p ∷ []) after tidy refl)
tokenize-tokens_to_text (word_space ∷ tokens) tidy = absurd (ground (arith, tidy))
