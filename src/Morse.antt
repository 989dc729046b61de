-- ===== src/Morse.antt =====
-- cat-morse/src/codec.rs: the Morse alphabet, the tokens of a text and the way back.
pub mod Table
pub mod RoundTrip
pub mod Score
mod Tests
use radio_cat_rs.Base.{
  ℕ, ◌+◌, Bool, true, false, not, ◌&&◌, ◌||◌, Option, none, some, List, [], ◌∷◌, ◌++◌, ◌==◌, ltb,
  map, find, if◌then◌else◌, is_empty, Result, ok, err,
}
use radio_cat_rs.Base.Bytes.{bytes_eq}
use radio_cat_rs.Cw.Text.{Text, is_whitespace, to_ascii_uppercase}

pub data Element : Type 0 where
  dit : Element
  dah : Element

pub data Prosign : Type 0 where
  ar_sign : Prosign
  sk_sign : Prosign
  bt_sign : Prosign
  kn_sign : Prosign
  as_sign : Prosign
  hh_sign : Prosign
  sos_sign : Prosign

-- `Prosign::ALL`.
abbrev pub all_prosigns : List Prosign
all_prosigns = ar_sign ∷ sk_sign ∷ bt_sign ∷ kn_sign ∷ as_sign ∷ hh_sign ∷ sos_sign ∷ []

abbrev pub name : Prosign → Text
name ar_sign = b'A' ∷ b'R' ∷ []
name sk_sign = b'S' ∷ b'K' ∷ []
name bt_sign = b'B' ∷ b'T' ∷ []
name kn_sign = b'K' ∷ b'N' ∷ []
name as_sign = b'A' ∷ b'S' ∷ []
name hh_sign = b'H' ∷ b'H' ∷ []
name sos_sign = b'S' ∷ b'O' ∷ b'S' ∷ []

-- `eq_ignore_ascii_case`.
abbrev pub eq_ignore_ascii_case : Text → Text → Bool
eq_ignore_ascii_case a b = bytes_eq (map to_ascii_uppercase a) (map to_ascii_uppercase b)

unfoldable pub from_name : Text → Option Prosign
from_name text = find (λ (p : Prosign). eq_ignore_ascii_case (name p) text) all_prosigns

pub data Token : Type 0 where
  char : (c : ℕ) → Token
  prosign : (p : Prosign) → Token
  word_space : Token

-- `Display`.
abbrev pub token_text : Token → Text
token_text (char c) = c ∷ []
token_text (prosign p) = b'<' ∷ (name p ++ (b'>' ∷ []))
token_text word_space = b' ' ∷ []

abbrev pub same_prosign : Prosign → Prosign → Bool
same_prosign p q = bytes_eq (name p) (name q)

abbrev pub same_token : Token → Token → Bool
same_token (char a) (char b) = a == b
same_token (prosign p) (prosign q) = same_prosign p q
same_token word_space word_space = true
same_token _ _ = false

abbrev pub same_elements : List Element → List Element → Bool
same_elements [] [] = true
same_elements (dit ∷ a) (dit ∷ b) = same_elements a b
same_elements (dah ∷ a) (dah ∷ b) = same_elements a b
same_elements _ _ = false

-- `TEXT_TABLE`.
unfoldable pub text_table : List (Token × Text)
text_table =
    (char b'A', b'.' ∷ b'-' ∷ [])
    ∷ (char b'B', b'-' ∷ b'.' ∷ b'.' ∷ b'.' ∷ [])
    ∷ (char b'C', b'-' ∷ b'.' ∷ b'-' ∷ b'.' ∷ [])
    ∷ (char b'D', b'-' ∷ b'.' ∷ b'.' ∷ [])
    ∷ (char b'E', b'.' ∷ [])
    ∷ (char b'F', b'.' ∷ b'.' ∷ b'-' ∷ b'.' ∷ [])
    ∷ (char b'G', b'-' ∷ b'-' ∷ b'.' ∷ [])
    ∷ (char b'H', b'.' ∷ b'.' ∷ b'.' ∷ b'.' ∷ [])
    ∷ (char b'I', b'.' ∷ b'.' ∷ [])
    ∷ (char b'J', b'.' ∷ b'-' ∷ b'-' ∷ b'-' ∷ [])
    ∷ (char b'K', b'-' ∷ b'.' ∷ b'-' ∷ [])
    ∷ (char b'L', b'.' ∷ b'-' ∷ b'.' ∷ b'.' ∷ [])
    ∷ (char b'M', b'-' ∷ b'-' ∷ [])
    ∷ (char b'N', b'-' ∷ b'.' ∷ [])
    ∷ (char b'O', b'-' ∷ b'-' ∷ b'-' ∷ [])
    ∷ (char b'P', b'.' ∷ b'-' ∷ b'-' ∷ b'.' ∷ [])
    ∷ (char b'Q', b'-' ∷ b'-' ∷ b'.' ∷ b'-' ∷ [])
    ∷ (char b'R', b'.' ∷ b'-' ∷ b'.' ∷ [])
    ∷ (char b'S', b'.' ∷ b'.' ∷ b'.' ∷ [])
    ∷ (char b'T', b'-' ∷ [])
    ∷ (char b'U', b'.' ∷ b'.' ∷ b'-' ∷ [])
    ∷ (char b'V', b'.' ∷ b'.' ∷ b'.' ∷ b'-' ∷ [])
    ∷ (char b'W', b'.' ∷ b'-' ∷ b'-' ∷ [])
    ∷ (char b'X', b'-' ∷ b'.' ∷ b'.' ∷ b'-' ∷ [])
    ∷ (char b'Y', b'-' ∷ b'.' ∷ b'-' ∷ b'-' ∷ [])
    ∷ (char b'Z', b'-' ∷ b'-' ∷ b'.' ∷ b'.' ∷ [])
    ∷ (char b'0', b'-' ∷ b'-' ∷ b'-' ∷ b'-' ∷ b'-' ∷ [])
    ∷ (char b'1', b'.' ∷ b'-' ∷ b'-' ∷ b'-' ∷ b'-' ∷ [])
    ∷ (char b'2', b'.' ∷ b'.' ∷ b'-' ∷ b'-' ∷ b'-' ∷ [])
    ∷ (char b'3', b'.' ∷ b'.' ∷ b'.' ∷ b'-' ∷ b'-' ∷ [])
    ∷ (char b'4', b'.' ∷ b'.' ∷ b'.' ∷ b'.' ∷ b'-' ∷ [])
    ∷ (char b'5', b'.' ∷ b'.' ∷ b'.' ∷ b'.' ∷ b'.' ∷ [])
    ∷ (char b'6', b'-' ∷ b'.' ∷ b'.' ∷ b'.' ∷ b'.' ∷ [])
    ∷ (char b'7', b'-' ∷ b'-' ∷ b'.' ∷ b'.' ∷ b'.' ∷ [])
    ∷ (char b'8', b'-' ∷ b'-' ∷ b'-' ∷ b'.' ∷ b'.' ∷ [])
    ∷ (char b'9', b'-' ∷ b'-' ∷ b'-' ∷ b'-' ∷ b'.' ∷ [])
    ∷ (char b'.', b'.' ∷ b'-' ∷ b'.' ∷ b'-' ∷ b'.' ∷ b'-' ∷ [])
    ∷ (char b',', b'-' ∷ b'-' ∷ b'.' ∷ b'.' ∷ b'-' ∷ b'-' ∷ [])
    ∷ (char b'?', b'.' ∷ b'.' ∷ b'-' ∷ b'-' ∷ b'.' ∷ b'.' ∷ [])
    ∷ (char b'/', b'-' ∷ b'.' ∷ b'.' ∷ b'-' ∷ b'.' ∷ [])
    ∷ (char b'=', b'-' ∷ b'.' ∷ b'.' ∷ b'.' ∷ b'-' ∷ [])
    ∷ (char b'-', b'-' ∷ b'.' ∷ b'.' ∷ b'.' ∷ b'.' ∷ b'-' ∷ [])
    ∷ (char b'\'', b'.' ∷ b'-' ∷ b'-' ∷ b'-' ∷ b'-' ∷ b'.' ∷ [])
    ∷ (char b':', b'-' ∷ b'-' ∷ b'-' ∷ b'.' ∷ b'.' ∷ b'.' ∷ [])
    ∷ (char b'"', b'.' ∷ b'-' ∷ b'.' ∷ b'.' ∷ b'-' ∷ b'.' ∷ [])
    ∷ (char b'(', b'-' ∷ b'.' ∷ b'-' ∷ b'-' ∷ b'.' ∷ [])
    ∷ (char b')', b'-' ∷ b'.' ∷ b'-' ∷ b'-' ∷ b'.' ∷ b'-' ∷ [])
    ∷ (char b'@', b'.' ∷ b'-' ∷ b'-' ∷ b'.' ∷ b'-' ∷ b'.' ∷ [])
    ∷ (char b'+', b'.' ∷ b'-' ∷ b'.' ∷ b'-' ∷ b'.' ∷ [])
    ∷ (char b'!', b'-' ∷ b'.' ∷ b'-' ∷ b'.' ∷ b'-' ∷ b'-' ∷ [])
    ∷ (char b'&', b'.' ∷ b'-' ∷ b'.' ∷ b'.' ∷ b'.' ∷ [])
    ∷ (prosign ar_sign, b'.' ∷ b'-' ∷ b'.' ∷ b'-' ∷ b'.' ∷ [])
    ∷ (prosign sk_sign, b'.' ∷ b'.' ∷ b'.' ∷ b'-' ∷ b'.' ∷ b'-' ∷ [])
    ∷ (prosign bt_sign, b'-' ∷ b'.' ∷ b'.' ∷ b'.' ∷ b'-' ∷ [])
    ∷ (prosign kn_sign, b'-' ∷ b'.' ∷ b'-' ∷ b'-' ∷ b'.' ∷ [])
    ∷ (prosign as_sign, b'.' ∷ b'-' ∷ b'.' ∷ b'.' ∷ b'.' ∷ [])
    ∷ (prosign hh_sign, b'.' ∷ b'.' ∷ b'.' ∷ b'.' ∷ b'.' ∷ b'.' ∷ b'.' ∷ b'.' ∷ [])
    ∷ (prosign sos_sign, b'.' ∷ b'.' ∷ b'.' ∷ b'-' ∷ b'-' ∷ b'-' ∷ b'.' ∷ b'.' ∷ b'.' ∷ [])
    ∷ []

abbrev pub element_of : ℕ → Element
element_of c = if c == b'.' then dit else dah

abbrev pub with_elements : Token × Text → Token × List Element
with_elements (token, text) = (token, map element_of text)

-- `table_storage`.
unfoldable pub table : List (Token × List Element)
table = map with_elements text_table

abbrev pub upper : Token → Token
upper (char c) = char (to_ascii_uppercase c)
upper (prosign p) = prosign p
upper word_space = word_space

unfoldable pub pattern_in : List (Token × List Element) → Token → Option (List Element)
pattern_in entries token =
    elim (find (λ (e : Token × List Element). same_token e.0 token) entries) [
      | none ↦ none
      | some e ↦ some e.1
    ]

abbrev pub pattern_of : Token → Option (List Element)
pattern_of token = pattern_in table (upper token)

-- `SHARED_PATTERNS`.
abbrev pub shared_patterns : List (Prosign × ℕ)
shared_patterns = (bt_sign, b'=') ∷ (ar_sign, b'+') ∷ (kn_sign, b'(') ∷ (as_sign, b'&') ∷ []

-- The prosign that shares the pattern of an upper-case character.
unfoldable pub shared : ℕ → Token
shared c = elim (find (λ (s : Prosign × ℕ). s.1 == c) shared_patterns) [
  | none ↦ char c
  | some s ↦ prosign s.0
]

unfoldable pub canonical : Token → Token
canonical (char c) = shared (to_ascii_uppercase c)
canonical (prosign p) = prosign p
canonical word_space = word_space

pub data DecodeStyle : Type 0 where
  prosigns : DecodeStyle
  characters : DecodeStyle

abbrev pub is_wanted : DecodeStyle → Token → Bool
is_wanted prosigns (prosign p) = true
is_wanted characters (char c) = true
is_wanted _ _ = false

abbrev pub or_first : Option Token → Token → Option Token
or_first none token = some token
or_first (some found) token = some found

unfoldable pub decode_in :
    List (Token × List Element) → List Element → DecodeStyle → Option Token → Option Token
decode_in [] elements style found = found
decode_in ((token, pattern) ∷ entries) elements style found =
    let same = same_elements pattern elements in
    elim (same && is_wanted style token) [
      | true ↦ some token
      | false ↦ decode_in entries elements style (if same then or_first found token else found)
    ]

abbrev pub decode_group_with : List Element → DecodeStyle → Option Token
decode_group_with elements style = decode_in table elements style none

abbrev pub decode_group : List Element → Option Token
decode_group elements = decode_group_with elements prosigns

pub data CodecError : Type 0 where
  unknown_char : (c offset : ℕ) → CodecError
  unknown_prosign : (name : Text) (offset : ℕ) → CodecError
  unterminated_prosign : (offset : ℕ) → CodecError

-- The bytes of a code point in UTF-8.
abbrev pub utf8_width : ℕ → ℕ
utf8_width c = if ltb c 0x80 then 1 else if ltb c 0x800 then 2 else if ltb c 0x10000 then 3 else 4

-- In the text, or in the name of a prosign with the offset where it starts.
pub data Reading : Type 0 where
  in_text : Reading
  in_prosign : (name : Text) (start : ℕ) → Reading

-- A space that waits goes in front of the next token.
abbrev pub push_token : Bool → Token → List Token → List Token
push_token true token out = out ++ (word_space ∷ token ∷ [])
push_token false token out = out ++ (token ∷ [])

abbrev pub is_known : Token → Bool
is_known token = elim (pattern_of token) [ none ↦ false | some pattern ↦ true ]

unfoldable pub tokenize_from :
    Reading → Bool → List Token → ℕ → Text → Result CodecError (List Token)
tokenize_from in_text pending out offset [] = ok out
tokenize_from (in_prosign name start) pending out offset [] = err (unterminated_prosign start)
tokenize_from in_text pending out offset (c ∷ text) =
    let next = offset + utf8_width c in
    elim (is_whitespace c) [
      | true ↦ tokenize_from in_text (not (is_empty out)) out next text
      | false ↦ elim (c == b'<') [
        | true ↦ tokenize_from (in_prosign [] offset) pending out next text
        | false ↦ elim (is_known (char (to_ascii_uppercase c))) [
          | true ↦
              tokenize_from in_text false (push_token pending (char (to_ascii_uppercase c)) out)
                next text
          | false ↦ err (unknown_char c offset)
        ]
      ]
    ]
tokenize_from (in_prosign name start) pending out offset (c ∷ text) =
    let next = offset + utf8_width c in
    elim (c == b'>') [
      | true ↦ elim (from_name name) [
        | some p ↦ tokenize_from in_text false (push_token pending (prosign p) out) next text
        | none ↦ err (unknown_prosign name start)
      ]
      | false ↦ tokenize_from (in_prosign (name ++ (c ∷ [])) start) pending out next text
    ]

abbrev pub tokenize : Text → Result CodecError (List Token)
tokenize text = tokenize_from in_text false [] 0 text

abbrev pub with_pattern : Token → Token × List Element
with_pattern token = (token, elim (pattern_of token) [ none ↦ [] | some pattern ↦ pattern ])

unfoldable pub encode : Text → Result CodecError (List (Token × List Element))
encode text = elim (tokenize text) [ err e ↦ err e | ok tokens ↦ ok (map with_pattern tokens) ]

unfoldable pub tokens_to_text : List Token → Text
tokens_to_text [] = []
tokens_to_text (token ∷ tokens) = token_text token ++ tokens_to_text tokens

abbrev pub mark_of : Element → ℕ
mark_of dit = b'.'
mark_of dah = b'-'

abbrev pub elements_to_string : List Element → Text
elements_to_string elements = map mark_of elements
