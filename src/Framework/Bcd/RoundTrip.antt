-- ===== src/Framework/Bcd/RoundTrip.antt =====
-- Packed BCD written and read back, in both byte orders.
use mathlib.Core.List.{reverse, reverse-cons}
use native.Mathlib.Nat.{pow-suc, add_comm, add-mul-mod_self_right, mod-eq_of_lt}
use radio_cat_rs.Base.{
  ℕ, zero, suc, ◌+◌, ◌*◌, ◌/◌, ◌%◌, ◌^◌, ◌≤◌, ◌<◌, ◌≡◌, refl, sym, ap, ◌∙◌, [], ◌∷◌, ◌++◌, some,
  Option-cases, inl, inr, arith,
}
use radio_cat_rs.Base.Bytes.{Bytes}
use radio_cat_rs.Framework.Bcd.{
  u64_mod, bcd_byte, encode_bcd, encode_bcd_be, decode_byte, decode_onto, decode_bcd, decode_bcd_be,
}
use radio_cat_rs.Framework.Bcd.Digits.{decode_byte-bcd_byte}

-- The low `n` pairs of decimal digits of a number.
abbrev low_digits : ℕ → ℕ → ℕ
low_digits zero v = 0
low_digits (suc n) v = low_digits n (v / 10 / 10) * 100 + v % 100

low_digits-le : (n v : ℕ) → low_digits n v ≤ v
low_digits-le zero v = omega arith
low_digits-le (suc n) v = omega (arith, low_digits-le n (v / 10 / 10))

low_digits-lt : (n v : ℕ) → low_digits n v < 100 ^ n
low_digits-lt zero v = omega arith
low_digits-lt (suc n) v = omega (arith, low_digits-lt n (v / 10 / 10), pow-suc 100 n)

-- The rest is a multiple of the power.
high_digits : ℕ → ℕ → ℕ
high_digits zero v = v
high_digits (suc n) v = high_digits n (v / 10 / 10)

low_digits-split : (n v : ℕ) → v ≡ high_digits n v * 100 ^ n + low_digits n v
unfolding high_digits
low_digits-split zero v = omega arith
low_digits-split (suc n) v = omega (
  arith,
  low_digits-split n (v / 10 / 10),
  ap (λ p. high_digits n (v / 10 / 10) * p) (pow-suc 100 n),
)

low_digits-mod : (n v : ℕ) → low_digits n v ≡ v % 100 ^ n
low_digits-mod n v = sym (
    ap (λ w. w % 100 ^ n)
      (low_digits-split n v ∙ add_comm (high_digits n v * 100 ^ n) (low_digits n v))
    ∙ add-mul-mod_self_right (low_digits n v) (high_digits n v) (100 ^ n)
    ∙ mod-eq_of_lt (low_digits-lt n v))

pub decode_onto-append :
    (value : ℕ) (xs : Bytes) (b : ℕ) {w : ℕ}
    → decode_onto value xs ≡ some w
    → decode_onto value (xs ++ (b ∷ [])) ≡ decode_byte w b
unfolding decode_onto
decode_onto-append value [] b h = ground (arith, h)
decode_onto-append value (x ∷ xs) b {w} h = elim (Option-cases (decode_byte value x)) [
  | inl e ↦ absurd (ground (arith, e, h))
  | inr (v, e) ↦ rw (e, decode_onto) (decode_onto-append v xs b (rw (e, decode_onto) at h))
]

decode_encoded :
    (n v : ℕ) → v < u64_mod → decode_onto 0 (reverse (encode_bcd v n)) ≡ some (low_digits n v)
unfolding encode_bcd
decode_encoded zero v h = unfold decode_onto in refl
decode_encoded (suc n) v h =
    let rest = v / 10 / 10 in
    let high = v / 10 % 10 in
    let low = v % 10 in
    rw (reverse-cons (bcd_byte high low) (encode_bcd rest n)) (
      decode_onto-append 0 (reverse (encode_bcd rest n)) (bcd_byte high low)
        (decode_encoded n rest (omega arith))
      ∙ decode_byte-bcd_byte (low_digits n rest) high low (omega arith) (omega arith)
      ∙ ap some (mod-eq_of_lt (omega (arith, low_digits-le n rest)) ∙ omega arith))

-- For every `u64` and every width, in little-endian and in big-endian order: what is written is read
-- back as the low pairs of digits that fit, the value modulo a power of 100. No round of the
-- decoder wraps.
pub decode-encode_bcd :
    (v n : ℕ)
    → v < u64_mod
    → (decode_bcd (encode_bcd v n) ≡ some (v % 100 ^ n))
      × (decode_bcd_be (encode_bcd_be v n) ≡ some (v % 100 ^ n))
unfolding decode_bcd decode_bcd_be encode_bcd_be
decode-encode_bcd v n h = let e = decode_encoded n v h ∙ ap some (low_digits-mod n v) in (e, e)
