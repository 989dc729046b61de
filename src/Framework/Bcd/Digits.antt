-- ===== src/Framework/Bcd/Digits.antt =====
-- A byte of packed BCD and its two digits.
use Prim.Native.Nat.{bit_and}
use radio_cat_rs.Base.{ℕ, ◌+◌, ◌*◌, ◌/◌, ◌%◌, ◌<◌, true, ◌≡◌, refl, ◌==◌, ==_iff, some, arith, ◌∙◌}
use radio_cat_rs.Base.Bytes.{all_below, of_table}
use radio_cat_rs.Framework.Bcd.{bcd_byte, decode_byte, u64_mod}

byte_table : all_below 100 (λ x. bcd_byte (x / 10) (x % 10) == x / 10 * 16 + x % 10) ≡ true
unfolding all_below
byte_table = refl

pub bcd_byte_sum : (high low : ℕ) → high < 10 → low < 10 → bcd_byte high low ≡ high * 16 + low
bcd_byte_sum high low hh hl =
    let x = high * 10 + low in
    let tens : x / 10 ≡ high = omega arith in
    let units : x % 10 ≡ low = omega arith in
    rw (tens, units) at
      ((==_iff _ _).0 (
        of_table 100 (λ x. bcd_byte (x / 10) (x % 10) == x / 10 * 16 + x % 10) x byte_table
          (omega arith)))

nibble_table : all_below 256 (λ x. bit_and x 0x0F == x % 16) ≡ true
unfolding all_below
nibble_table = refl

low_nibble : (x : ℕ) → x < 256 → bit_and x 0x0F ≡ x % 16
low_nibble x h = (==_iff _ _).0 (of_table 256 (λ x. bit_and x 0x0F == x % 16) x nibble_table h)

-- Two digits are read back behind what was read before.
pub decode_byte-bcd_byte :
    (value high low : ℕ)
    → high < 10
    → low < 10
    → decode_byte value (bcd_byte high low) ≡ some ((value * 100 + high * 10 + low) % u64_mod)
unfolding decode_byte
decode_byte-bcd_byte value high low hh hl =
    let e = bcd_byte_sum high low hh hl in
    let l : bit_and (high * 16 + low) 0x0F ≡ low =
      low_nibble (high * 16 + low) (omega arith) ∙ omega arith in
    let h : (high * 16 + low) / 16 ≡ high = omega arith in rw e (rw (l, h) (ground arith))

-- A byte that is accepted is the byte of two digits.
pub decode_byte_inv :
    (value byte : ℕ) {v : ℕ}
    → byte < 256
    → decode_byte value byte ≡ some v
    → (byte / 16 < 10)
      × (byte % 16 < 10)
      × (v ≡ (value * 100 + byte / 16 * 10 + byte % 16) % u64_mod)
unfolding decode_byte
decode_byte_inv value byte lt h = ground (arith, low_nibble byte lt)
