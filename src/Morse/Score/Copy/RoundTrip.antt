-- ===== src/Morse/Score/Copy/RoundTrip.antt =====
-- A text that encodes is copied as it encodes, and scored without an error.
use radio_cat_rs.Base.{
  ℕ, zero, suc, ◌+◌, Bool, true, false, not, ◌≡◌, refl, sym, ap, ◌∙◌, List, [], ◌∷◌, ◌++◌,
  append_assoc, append-nil, length, is_empty, ◌==◌, some, Result, ok, err, ◌>>=◌, arith, Bool-cases,
  Option-cases, inl, inr, ok_inj,
}
use radio_cat_rs.Cw.Text.{Text, is_whitespace, to_ascii_uppercase}
use radio_cat_rs.Morse.{
  Prosign, Token, char, prosign, from_name, in_text, in_prosign, push_token, is_known, utf8_width,
  tokenize_from, tokenize, CodecError, unknown_char, unknown_prosign,
}
use radio_cat_rs.Morse.Score.{ScoreOptions, Alignment, AlignOp, match, prepare, align_units}
use radio_cat_rs.Morse.Score.Optimal.{sent_side, copied_side, errors, align_units_lem}
use radio_cat_rs.Morse.Score.Copy.{
  before_close, read_prosign, read_token, copy_from, tokenize_copy, align,
}

-- The steps of `tokenize`, character by character.
module _ (c : ℕ) (text : Text) (pending : Bool) (out : List Token) (offset : ℕ) where
  text_space :
      is_whitespace c ≡ true
      → tokenize_from in_text pending out offset (c ∷ text)
        ≡ tokenize_from in_text (not (is_empty out)) out (offset + utf8_width c) text
  unfolding tokenize_from
  text_space space = rw (space, tokenize_from) refl

  text_open :
      is_whitespace c ≡ false
      → (c == b'<') ≡ true
      → tokenize_from in_text pending out offset (c ∷ text)
        ≡ tokenize_from (in_prosign [] offset) pending out (offset + utf8_width c) text
  unfolding tokenize_from
  text_open solid open_sign = rw (solid, open_sign, tokenize_from) refl

  text_known :
      {tokens : List Token}
      → is_whitespace c ≡ false
      → (c == b'<') ≡ false
      → tokenize_from in_text pending out offset (c ∷ text) ≡ ok tokens
      → tokenize_from in_text false
          (push_token pending (char (to_ascii_uppercase c)) out)
          (offset + utf8_width c)
          text
        ≡ ok tokens
  unfolding tokenize_from
  text_known solid plain h = elim (Bool-cases (is_known (char (to_ascii_uppercase c)))) [
    | inl known ↦ sym (rw (solid, plain, known, tokenize_from) refl) ∙ h
    | inr unknown ↦
        let bad : tokenize_from in_text pending out offset (c ∷ text)
            ≡ err (unknown_char c offset) =
          rw (solid, plain, unknown, tokenize_from) refl in
        cc
  ]

  prosign_close :
      (name : Text) (start : ℕ) {tokens : List Token}
      → (c == b'>') ≡ true
      → tokenize_from (in_prosign name start) pending out offset (c ∷ text) ≡ ok tokens
      → (p : Prosign) × (from_name name ≡ some p)
        × (tokenize_from in_text false
              (push_token pending (prosign p) out)
              (offset + utf8_width c)
              text
            ≡ ok tokens)
  unfolding tokenize_from
  prosign_close name start close h = elim (Option-cases (from_name name)) [
    | inl unknown ↦
        let bad : tokenize_from (in_prosign name start) pending out offset (c ∷ text)
            ≡ err (unknown_prosign name start) =
          rw (close, unknown, tokenize_from) refl in
        cc
    | inr (p, known) ↦ (p, known, sym (rw (close, known, tokenize_from) refl) ∙ h)
  ]

  prosign_inside :
      (name : Text) (start : ℕ)
      → (c == b'>') ≡ false
      → tokenize_from (in_prosign name start) pending out offset (c ∷ text)
        ≡ tokenize_from
            (in_prosign (name ++ (c ∷ [])) start)
            pending
            out
            (offset + utf8_width c)
            text
  unfolding tokenize_from
  prosign_inside name start inside = rw (inside, tokenize_from) refl

  copy_space :
      is_whitespace c ≡ true
      → copy_from zero pending out (c ∷ text) ≡ copy_from zero (not (is_empty out)) out text
  unfolding copy_from
  copy_space space = rw (space, copy_from) refl

  copy_char :
      is_whitespace c ≡ false
      → (c == b'<') ≡ false
      → copy_from zero pending out (c ∷ text)
        ≡ copy_from zero false (push_token pending (char (to_ascii_uppercase c)) out) text
  unfolding copy_from
  copy_char solid plain = rw (solid, copy_from) (rw (plain, read_token) refl)

  copy_prosign :
      (name : Text) (p : Prosign)
      → is_whitespace c ≡ false
      → (c == b'<') ≡ true
      → before_close text ≡ some name
      → from_name name ≡ some p
      → copy_from zero pending out (c ∷ text)
        ≡ copy_from (suc (length name)) false (push_token pending (prosign p) out) text
  unfolding copy_from
  copy_prosign name p solid open_sign closed known =
      rw (solid, copy_from) (rw (open_sign, read_token) (rw closed (rw (known, read_prosign) refl)))

before_close-close : (c : ℕ) (text : Text) → (c == b'>') ≡ true → before_close (c ∷ text) ≡ some []
unfolding before_close
before_close-close c text close = rw close refl

before_close-inside :
    (c : ℕ) (text : Text) {name : Text}
    → (c == b'>') ≡ false
    → before_close text ≡ some name
    → before_close (c ∷ text) ≡ some (c ∷ name)
unfolding before_close
before_close-inside c text inside closed = rw (inside, before_close) (rw closed refl)

text_end :
    (pending : Bool) (out : List Token) (offset : ℕ) {tokens : List Token}
    → tokenize_from in_text pending out offset [] ≡ ok tokens
    → copy_from zero pending out [] ≡ tokens
unfolding tokenize_from copy_from
text_end pending out offset h = ok_inj h

prosign_end :
    {A : Type 0} (name : Text) (start : ℕ) (pending : Bool) (out : List Token) (offset : ℕ)
    {tokens : List Token}
    → tokenize_from (in_prosign name start) pending out offset [] ≡ ok tokens
    → A
unfolding tokenize_from
prosign_end name start pending out offset h = cc

copy_skip :
    (skip c : ℕ) (text : Text) (pending : Bool) (out : List Token)
    → copy_from (suc skip) pending out (c ∷ text) ≡ copy_from skip pending out text
unfolding copy_from
copy_skip skip c text pending out = refl

mutual
  -- In a text that encodes, what an operator types is read as the code reads it.
  copied_text :
      (text : Text) (pending : Bool) (out : List Token) (offset : ℕ) {tokens : List Token}
      → tokenize_from in_text pending out offset text ≡ ok tokens
      → copy_from zero pending out text ≡ tokens
  copied_text [] pending out offset h = text_end pending out offset h
  copied_text (c ∷ text) pending out offset h =
      let next = offset + utf8_width c in
      elim (Bool-cases (is_whitespace c)) [
        | inl space ↦
            copy_space c text pending out offset space
            ∙ copied_text text (not (is_empty out)) out next
                (sym (text_space c text pending out offset space) ∙ h)
        | inr solid ↦ elim (Bool-cases (c == b'<')) [
          | inl open_sign ↦
              let (name, p, closed, known, rest) =
                copied_prosign text [] offset pending out next
                  (sym (text_open c text pending out offset solid open_sign) ∙ h) in
              copy_prosign c text pending out offset name p solid open_sign closed known ∙ rest
          | inr plain ↦
              copy_char c text pending out offset solid plain
              ∙ copied_text text false (push_token pending (char (to_ascii_uppercase c)) out) next
                  (text_known c text pending out offset solid plain h)
        ]
      ]

  copied_prosign :
      (text name : Text) (start : ℕ) (pending : Bool) (out : List Token) (offset : ℕ)
      {tokens : List Token}
      → tokenize_from (in_prosign name start) pending out offset text ≡ ok tokens
      → (more : Text) × (p : Prosign) × (before_close text ≡ some more)
        × (from_name (name ++ more) ≡ some p)
        × (copy_from (suc (length more)) false (push_token pending (prosign p) out) text ≡ tokens)
  copied_prosign [] name start pending out offset h = prosign_end name start pending out offset h
  copied_prosign (c ∷ text) name start pending out offset h =
      let next = offset + utf8_width c in
      elim (Bool-cases (c == b'>')) [
        | inl close ↦
            let (p, known, rest) = prosign_close c text pending out offset name start close h in
            (
              [],
              p,
              before_close-close c text close,
              ap from_name (append-nil name) ∙ known,
              copy_skip 0 c text false (push_token pending (prosign p) out)
                  ∙ copied_text text false (push_token pending (prosign p) out) next rest,
            )
        | inr inside ↦
            let (more, p, closed, known, rest) =
              copied_prosign text (name ++ (c ∷ [])) start pending out next
                (sym (prosign_inside c text pending out offset name start inside) ∙ h) in
            (
              c ∷ more,
              p,
              before_close-inside c text inside closed,
              ap from_name (sym (append_assoc name (c ∷ []) more)) ∙ known,
              copy_skip (suc (length more)) c text false (push_token pending (prosign p) out)
                  ∙ rest,
            )
      ]

-- A text that encodes is copied as it encodes.
tokenize_copy-tokenize :
    (text : Text) {tokens : List Token} → tokenize text ≡ ok tokens → tokenize_copy text ≡ tokens
unfolding tokenize_copy
tokenize_copy-tokenize text encodes = copied_text text false [] 0 encodes

-- Every unit copied as it was sent.
matched : List Token → List AlignOp
matched [] = []
matched (token ∷ tokens) = match token ∷ matched tokens

matched_lem :
    (tokens : List Token)
    → (sent_side (matched tokens) ≡ tokens)
      × (copied_side (matched tokens) ≡ tokens)
      × (errors (matched tokens) ≡ 0)
unfolding matched
matched_lem [] = (refl, refl, refl)
matched_lem (token ∷ tokens) =
    let (sent, copied, right) = matched_lem tokens in
    (ap (◌∷◌ token) sent, ap (◌∷◌ token) copied, right)

-- What was sent, typed as it is written, has no error and is all there.
pub align_self :
    (opts : ScoreOptions) (text : Text) {tokens : List Token}
    → tokenize text ≡ ok tokens
    → (a : Alignment) × (align opts text text ≡ ok a)
      × (errors a.ops ≡ 0)
      × (copied_side a.ops ≡ prepare opts tokens)
unfolding align
align_self opts text {tokens} encodes =
    let a = align_units opts tokens tokens in
    let units = prepare opts tokens in
    let (sent, copied, right) = matched_lem units in
    let (sent', copied', least) = align_units_lem opts tokens tokens (matched units) sent copied in
    (
      a,
      ap
            (λ (e : Result CodecError (List Token)).
              e >>= (λ (t : List Token). ok (align_units opts t (tokenize_copy text))))
            encodes
          ∙ ap (λ (t : List Token). ok (align_units opts tokens t))
              (tokenize_copy-tokenize text encodes),
      omega (arith, right),
      copied',
    )
