-- ===== src/Rigctl/Dispatch.antt =====
-- cat-rigctl/src/protocol.rs: `dispatch`. `parse_hz` stands for the parse and the rounding of a
-- floating-point number.
use radio_cat_rs.Base.{
  ℕ, zero, suc, ◌+◌, ◌-◌, ◌*◌, ◌/◌, ◌%◌, Bool, true, false, not, ◌&&◌, ◌||◌, List, [], ◌∷◌, ◌++◌,
  ltb, leb, ◌==◌, if◌then◌else◌, is_empty, Option, none, some,
}
use radio_cat_rs.Base.Bytes.{Bytes, bytes_eq}

-- An i32 of the radio.
pub data ℤ : Type 0 where
  pos negsuc : ℕ → ℤ

-- Decimal digits; twenty are enough for a u64.
abbrev decimal_fuel : ℕ → ℕ → Bytes
decimal_fuel zero n = []
decimal_fuel (suc fuel) n =
    let high = decimal_fuel fuel (n / 10) in
    (if ltb n 10 then [] else high) ++ ((n % 10 + b'0') ∷ [])

abbrev pub decimal : ℕ → Bytes
decimal n = decimal_fuel 20 n

abbrev pub decimal_int : ℤ → Bytes
decimal_int (pos n) = decimal n
decimal_int (negsuc n) = b'-' ∷ decimal (suc n)

-- How many bytes the white space takes that a line, which is UTF-8, begins with; none is 0.
unfoldable pub space_len : Bytes → ℕ
space_len [] = 0
space_len (a ∷ []) = if a == b' ' || (leb 9 a && leb a 13) then 1 else 0
space_len (a ∷ b ∷ []) =
    if a == b' ' || (leb 9 a && leb a 13)
    then 1
    else if a == 0xC2 && (b == 0x85 || b == 0xA0)
    then 2
    else 0
space_len (a ∷ b ∷ c ∷ bytes) =
    if a == b' ' || (leb 9 a && leb a 13)
    then 1
    else if a == 0xC2 && (b == 0x85 || b == 0xA0)
    then 2
    else if (a == 0xE1 && b == 0x9A && c == 0x80)
        || (a == 0xE2
            && b == 0x80
            && ((leb 0x80 c && leb c 0x8A) || c == 0xA8 || c == 0xA9 || c == 0xAF))
        || (a == 0xE2 && b == 0x81 && c == 0x9F)
        || (a == 0xE3 && b == 0x80 && c == 0x80)
    then 3
    else 0

-- `word` is the word that the bytes so far end in; `skip` bytes belong to white space already seen.
unfoldable pub split_words : ℕ → Bytes → Bytes → List Bytes
unfolding space_len
split_words skip word [] = if is_empty word then [] else word ∷ []
split_words (suc skip) word (b ∷ bytes) = split_words skip word bytes
split_words zero word (b ∷ bytes) = elim (space_len (b ∷ bytes)) [
  | zero ↦ split_words zero (word ++ (b ∷ [])) bytes
  | suc more ↦ let rest = split_words more [] bytes in if is_empty word then rest else word ∷ rest
]

-- `split_whitespace`.
unfoldable pub words : Bytes → Bytes → List Bytes
unfolding split_words
words word bytes = split_words zero word bytes

-- `parse::<u8>`: digits behind one optional plus, at most 255.
abbrev digits_onto : ℕ → Bytes → Option ℕ
digits_onto n [] = some n
digits_onto n (b ∷ bytes) =
    let rest = digits_onto (n * 10 + (b - b'0')) bytes in
    if leb b'0' b && leb b b'9' && leb (n * 10 + (b - b'0')) 255 then rest else none

abbrev digits_u8 : Bytes → Option ℕ
digits_u8 [] = none
digits_u8 (b ∷ bytes) = digits_onto 0 (b ∷ bytes)

unfoldable pub parse_u8 : Bytes → Option ℕ
parse_u8 [] = none
parse_u8 (b ∷ bytes) = if b == b'+' then digits_u8 bytes else digits_u8 (b ∷ bytes)

-- `RigctlRadio`: a failed call is `none` or false, since its error is never shown. `dump_state` is the text
-- of the capability handshake.
pub record RigctlRadio (R Mode : Type 0) : Type 0 where
  pub get_vfo_a_hz : R → R × Option ℕ
  pub set_vfo_a_hz : ℕ → R → R × Bool
  pub get_mode : R → R × Option Mode
  pub set_mode : Mode → R → R × Bool
  pub get_split : R → R × Option Bool
  pub set_split : Bool → R → R × Bool
  pub get_rit_hz : R → R × Option ℤ
  pub get_xit_hz : R → R × Option ℤ
  pub get_transmitting : R → R × Option Bool
  pub transmit : R → R × Bool
  pub receive : R → R × Bool
  pub hamlib_mode_name : Mode → Bytes
  pub hamlib_mode_from_name : Bytes → Option Mode
  pub dump_state : Bytes

-- `RPRT 0` and `RPRT -1`.
abbrev pub rprt_ok : Bytes
rprt_ok = b'R' ∷ b'P' ∷ b'R' ∷ b'T' ∷ b' ' ∷ b'0' ∷ b'\n' ∷ []

abbrev pub rprt_err : Bytes
rprt_err = b'R' ∷ b'P' ∷ b'R' ∷ b'T' ∷ b' ' ∷ b'-' ∷ b'1' ∷ b'\n' ∷ []

-- `read_twice!`.
abbrev pub read_twice : {R A : Type 0} → (R → R × Option A) → R → R × Option A
read_twice call r =
    let (r', first) = call r in elim first [ some a ↦ (r', some a) | none ↦ call r' ]

abbrev pub report : {R A : Type 0} → (A → Bytes) → R × Option A → R × Bytes
report text (r, none) = (r, rprt_err)
report text (r, some a) = (r, text a)

abbrev pub confirm : {R : Type 0} → R × Bool → R × Bytes
confirm (r, succeeded) = (r, if succeeded then rprt_ok else rprt_err)

abbrev line_of : Bytes → Bytes
line_of text = text ++ (b'\n' ∷ [])

abbrev split_text : Bool → Bytes
split_text true = b'1' ∷ b'\n' ∷ b'V' ∷ b'F' ∷ b'O' ∷ b'B' ∷ b'\n' ∷ []
split_text false = b'0' ∷ b'\n' ∷ b'V' ∷ b'F' ∷ b'O' ∷ b'A' ∷ b'\n' ∷ []

abbrev chk_vfo : Bytes
chk_vfo = 92 ∷ b'c' ∷ b'h' ∷ b'k' ∷ b'_' ∷ b'v' ∷ b'f' ∷ b'o' ∷ []

abbrev dump_state_command : Bytes
dump_state_command = 92 ∷ b'd' ∷ b'u' ∷ b'm' ∷ b'p' ∷ b'_' ∷ b's' ∷ b't' ∷ b'a' ∷ b't' ∷ b'e' ∷ []

-- `args.first()` of the values of Hamlib's `ptt_t` that key the transmitter.
abbrev pub keys_on : Bytes → Bool
keys_on arg = bytes_eq arg (b'1' ∷ []) || bytes_eq arg (b'2' ∷ []) || bytes_eq arg (b'3' ∷ [])

-- The letter of a command.
abbrev is : Bytes → ℕ → Bool
is command letter = bytes_eq command (letter ∷ [])

module _ {R Mode : Type 0} (radio : RigctlRadio R Mode) (parse_hz : Bytes → Option ℕ) where
  unfoldable pub set_frequency : List Bytes → R → R × Bytes
  set_frequency [] r = (r, rprt_err)
  set_frequency (arg ∷ args) r = elim (parse_hz arg) [
    | none ↦ (r, rprt_err)
    | some hz ↦ confirm (radio.set_vfo_a_hz hz r)
  ]

  unfoldable pub set_named_mode : List Bytes → R → R × Bytes
  set_named_mode [] r = (r, rprt_err)
  set_named_mode (arg ∷ args) r = elim (radio.hamlib_mode_from_name arg) [
    | none ↦ (r, rprt_err)
    | some mode ↦ confirm (radio.set_mode mode r)
  ]

  unfoldable pub set_split_flag : List Bytes → R → R × Bytes
  set_split_flag [] r = (r, rprt_err)
  set_split_flag (arg ∷ args) r = elim (parse_u8 arg) [
    | none ↦ (r, rprt_err)
    | some flag ↦ confirm (radio.set_split (not (flag == 0)) r)
  ]

  unfoldable pub set_ptt : List Bytes → R → R × Bytes
  set_ptt [] r = (r, rprt_err)
  set_ptt (arg ∷ args) r =
      if keys_on arg
      then confirm (radio.transmit r)
      else if bytes_eq arg (b'0' ∷ [])
      then confirm (radio.receive r)
      else (r, rprt_err)

  -- The arms of the match but `T`.
  unfoldable pub other_command : Bytes → List Bytes → R → R × Bytes
  unfolding set_frequency set_named_mode set_split_flag
  other_command command args r =
      if is command b'f'
      then report (λ hz. line_of (decimal hz)) (read_twice radio.get_vfo_a_hz r)
      else if is command b'F'
      then set_frequency args r
      else if is command b'm'
      then report (λ mode. line_of (radio.hamlib_mode_name mode) ++ (b'0' ∷ b'\n' ∷ []))
          (read_twice radio.get_mode r)
      else if is command b'M'
      then set_named_mode args r
      else if is command b's'
      then report split_text (read_twice radio.get_split r)
      else if is command b'S'
      then set_split_flag args r
      else if is command b'j'
      then report (λ hz. line_of (decimal_int hz)) (read_twice radio.get_rit_hz r)
      else if is command b'z'
      then report (λ hz. line_of (decimal_int hz)) (read_twice radio.get_xit_hz r)
      else if is command b't'
      then report (λ on. line_of ((if on then b'1' else b'0') ∷ []))
          (read_twice radio.get_transmitting r)
      else if is command b'v'
      then (r, b'V' ∷ b'F' ∷ b'O' ∷ b'A' ∷ b'\n' ∷ [])
      else if bytes_eq command chk_vfo
      then (r, b'0' ∷ b'\n' ∷ [])
      else if bytes_eq command dump_state_command
      then (r, radio.dump_state)
      else (r, rprt_err)

  unfoldable pub dispatch_words : List Bytes → R → R × Bytes
  unfolding set_ptt other_command
  dispatch_words [] r = (r, rprt_err)
  dispatch_words (command ∷ args) r =
      if is command b'T' then set_ptt args r else other_command command args r

  unfoldable pub dispatch : Bytes → R → R × Bytes
  unfolding dispatch_words
  dispatch line r = dispatch_words (words [] line) r
