-- ===== src/Framework/Bcd/Exact.antt =====
-- What the BCD decoder accepts: exactly what the encoder writes.
use mathlib.Core.List.{reverse, reverse-cons}
use native.Mathlib.Nat.{pow-suc, mod-eq_of_lt}
use radio_cat_rs.Base.{
  ℕ, suc, ◌+◌, ◌*◌, ◌/◌, ◌%◌, ◌^◌, ◌≤◌, ◌<◌, ◌≡◌, ◌↔◌, refl, sym, ap, ◌∙◌, [], ◌∷◌, ◌++◌, length,
  true, some, Option-cases, inl, inr, leb, arith,
}
use radio_cat_rs.Base.Bytes.{Bytes, IsBytes, all_below, of_table}
use radio_cat_rs.Framework.Bcd.{u64_mod, bcd_byte, encode_bcd, decode_byte, decode_onto, decode_bcd}
use radio_cat_rs.Framework.Bcd.Digits.{decode_byte_inv, bcd_byte_sum}
use radio_cat_rs.Framework.Bcd.RoundTrip.{decode-encode_bcd}

decode_onto-append_inv :
    (value : ℕ) (xs : Bytes) (b : ℕ) {v : ℕ}
    → decode_onto value (xs ++ (b ∷ [])) ≡ some v
    → (w : ℕ) × (decode_onto value xs ≡ some w) × (decode_byte w b ≡ some v)
unfolding decode_onto
decode_onto-append_inv value [] b {v} h = (value, refl, ground (arith, h))
decode_onto-append_inv value (x ∷ xs) b {v} h = elim (Option-cases (decode_byte value x)) [
  | inl e ↦ absurd (ground (arith, e, h))
  | inr (w, e) ↦
      let (u, d, last) = decode_onto-append_inv w xs b (rw (e, decode_onto) at h) in
      (u, rw (e, decode_onto) d, last)
]

power_table : all_below 10 (λ n. leb (100 ^ n) u64_mod) ≡ true
unfolding all_below
power_table = refl

power_fits : (n : ℕ) → n < 10 → 100 ^ n ≤ u64_mod
power_fits n h =
    let t = of_table 10 (λ n. leb (100 ^ n) u64_mod) n power_table h in ground (arith, t)

-- A number that was read has as many digits as fit, and is written back as the bytes that it was
-- read from.
record Rewrites (bs : Bytes) (v : ℕ) : Type 0 where
  small : v < 100 ^ length bs
  same : encode_bcd v (length bs) ≡ bs

decoded-Rewrites :
    (bs : Bytes) {v : ℕ}
    → IsBytes bs
    → length bs < 10
    → decode_onto 0 (reverse bs) ≡ some v
    → Rewrites bs v
unfolding encode_bcd
decoded-Rewrites [] {v} b l h =
    let e : 0 ≡ v = unfold decode_onto in ground (arith, h) in
    record { small = rw (← e) (omega arith); same = refl }
decoded-Rewrites (x ∷ bs) {v} b l h =
    let (w, d, last) = decode_onto-append_inv 0 (reverse bs) x (rw (reverse-cons x bs) at h) in
    let ih = decoded-Rewrites bs b.1 (omega arith) d in
    let (high, low, value) = decode_byte_inv w x b.0 last in
    let fits = power_fits (suc (length bs)) l in
    let power = pow-suc 100 (length bs) in
    let small = ih.small in
    let exact : v ≡ w * 100 + x / 16 * 10 + x % 16 = value ∙ mod-eq_of_lt (omega arith) in
    let digits : bcd_byte (v / 10 % 10) (v % 10) ≡ x =
      bcd_byte_sum (v / 10 % 10) (v % 10) (omega arith) (omega arith) ∙ omega arith in
    let rest : v / 10 / 10 ≡ w = omega arith in
    record { small = omega arith; same = rw (digits, rest, ih.same) }

-- On at most nine bytes, the decoder accepts exactly the packed digits of a number that fits: it
-- returns `v` just where `v` has at most that many pairs of digits and is encoded as these bytes.
-- In particular a nibble above nine is refused.
decode_bcd_iff :
    (bs : Bytes) (v : ℕ)
    → IsBytes bs
    → length bs < 10
    → (decode_bcd bs ≡ some v) ↔ ((v < 100 ^ length bs) × (encode_bcd v (length bs) ≡ bs))
unfolding decode_bcd
decode_bcd_iff bs v b l = (
  λ h. let r = decoded-Rewrites bs b l h in (r.small, r.same),
  λ h.
      let fits = power_fits (length bs) l in
      let small = h.0 in
      let back = decode-encode_bcd v (length bs) (omega arith) in
      ap (λ bs. decode_onto 0 (reverse bs)) (sym h.1) ∙ back.0 ∙ ap some (mod-eq_of_lt h.0),
)
