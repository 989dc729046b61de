-- ===== src/Framework/Bcd.antt =====
-- cat-framework/src/civ.rs: packed BCD. A `u64` is a number below 2 ^ 64; its arithmetic wraps, as
-- in a release build.
pub mod Digits
pub mod RoundTrip
pub mod Exact
use Prim.Native.Nat.{bit_and, bit_or}
use mathlib.Core.List.{reverse}
use radio_cat_rs.Base.{
  ℕ, zero, suc, ◌+◌, ◌*◌, ◌/◌, ◌%◌, ◌^◌, ◌||◌, List, [], ◌∷◌, ltb, if◌then◌else◌, Option, some,
  none,
}
use radio_cat_rs.Base.Bytes.{Bytes}

abbrev pub u64_mod : ℕ
u64_mod = 2 ^ 64

-- The byte of two digits: `(high << 4) | low`.
abbrev pub bcd_byte : ℕ → ℕ → ℕ
bcd_byte high low = bit_or (high * 16 % 256) low

unfoldable pub encode_bcd : ℕ → ℕ → Bytes
encode_bcd v zero = []
encode_bcd v (suc bytes) = bcd_byte (v / 10 % 10) (v % 10) ∷ encode_bcd (v / 10 / 10) bytes

unfoldable pub encode_bcd_be : ℕ → ℕ → Bytes
unfolding encode_bcd
encode_bcd_be v bytes = reverse (encode_bcd v bytes)

-- One round of the decoding loops; `none` is the early return.
unfoldable pub decode_byte : ℕ → ℕ → Option ℕ
decode_byte value byte =
    let high = byte / 16 in
    let low = bit_and byte 0x0F in
    if ltb 9 high || ltb 9 low then none else some ((value * 100 + high * 10 + low) % u64_mod)

unfoldable pub decode_onto : ℕ → Bytes → Option ℕ
decode_onto value [] = some value
decode_onto value (byte ∷ bytes) = elim (decode_byte value byte) [
  | none ↦ none
  | some value' ↦ decode_onto value' bytes
]

unfoldable pub decode_bcd_be : Bytes → Option ℕ
unfolding decode_onto
decode_bcd_be bytes = decode_onto 0 bytes

unfoldable pub decode_bcd : Bytes → Option ℕ
unfolding decode_onto
decode_bcd bytes = decode_onto 0 (reverse bytes)
