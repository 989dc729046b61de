-- ===== src/PcmRing/Newest.antt =====
-- A push appends, then keeps the newest bytes that fit, and counts what it dropped in whole samples.
use radio_cat_rs.Base.{
  ℕ, zero, suc, ◌+◌, ◌-◌, ◌*◌, ◌/◌, ◌%◌, ◌^◌, ◌≤◌, ◌<◌, ◌≡◌, refl, sym, ap, ◌∙◌, ◌⊎◌, inl, inr,
  List, [], ◌∷◌, ◌++◌, ltb, if◌then◌else◌, length, drop, length-append, length-drop, arith,
}
use radio_cat_rs.Base.Bytes.{Bytes}
use radio_cat_rs.PcmRing.{PcmRing, encode, skipped, excess, push_open}

pub drop-append_le : (n : ℕ) (xs ys : Bytes) → n ≤ length xs → drop n (xs ++ ys) ≡ drop n xs ++ ys
drop-append_le zero xs ys h = refl
drop-append_le (suc n) [] ys h = absurd (omega arith)
drop-append_le (suc n) (x ∷ xs) ys h = drop-append_le n xs ys (omega arith)

suc-add : (n k : ℕ) → suc n + k ≡ suc (n + k)
suc-add n k = omega arith

pub drop-append_past : (k : ℕ) (xs ys : Bytes) → drop (length xs + k) (xs ++ ys) ≡ drop k ys
drop-append_past k [] ys = ap (λ n. drop n ys) (omega arith)
drop-append_past k (x ∷ xs) ys =
    ap (λ n. drop n (x ∷ (xs ++ ys))) (suc-add (length xs) k) ∙ drop-append_past k xs ys

pub drop_all : (xs : Bytes) → drop (length xs) xs ≡ []
drop_all [] = refl
drop_all (x ∷ xs) = drop_all xs

twice : (k : ℕ) → 2 * suc k ≡ suc (suc (2 * k))
twice k = omega arith

-- A ring holds whole samples, no more than its capacity; the counter is a word of 64 bits.
abbrev pub IsWf : PcmRing → Type 0
IsWf ring =
    (length ring.bytes % 2 ≡ 0)
    × (ring.capacity % 2 ≡ 0)
    × (2 ≤ ring.capacity)
    × (length ring.bytes ≤ ring.capacity)
    × (ring.overruns < 2 ^ 64)

counted :
    (k e lost overruns : ℕ)
    → e + 2 * k ≡ lost
    → e % 2 ≡ 0
    → overruns < 2 ^ 64
    → (if ltb 0 (k + e / 2) then (overruns + (k + e / 2)) % 2 ^ 64 else overruns)
      ≡ (overruns + lost / 2) % 2 ^ 64
counted k e lost overruns sum even word = ground arith

module _ {Sample : Type 0} (to_i16 : Sample → ℕ) where
  pub length-encode : (samples : List Sample) → length (encode to_i16 samples) ≡ 2 * length samples
  unfolding encode
  length-encode [] = refl
  length-encode (s ∷ samples) = omega (arith, length-encode samples)

  pub encode-drop :
      (k : ℕ) (samples : List Sample)
      → encode to_i16 (drop k samples) ≡ drop (2 * k) (encode to_i16 samples)
  unfolding encode
  encode-drop zero samples = refl
  encode-drop (suc k) [] = rw (twice k) refl
  encode-drop (suc k) (s ∷ samples) = rw (twice k) (encode-drop k samples)

  join :
      (k e n : ℕ) (xs : Bytes) (samples : List Sample)
      → e + 2 * k ≡ n
      → e ≤ length xs
      → (k ≡ 0) ⊎ (e ≡ length xs)
      → drop e xs ++ encode to_i16 (drop k samples) ≡ drop n (xs ++ encode to_i16 samples)
  join k e n xs samples sum le (inl none_skipped) = rw none_skipped (
      sym (drop-append_le e xs (encode to_i16 samples) le)
      ∙ ap (λ m. drop m (xs ++ encode to_i16 samples)) (omega arith))
  join k e n xs samples sum le (inr all_dropped) =
      rw
        (
          ← sum,
          all_dropped,
          drop-append_past (2 * k) xs (encode to_i16 samples),
          encode-drop k samples,
          drop_all xs,
        )
        refl

  module _ (samples : List Sample) (ring : PcmRing) where
    excess_lem :
        IsWf ring
        → (excess to_i16 samples ring + 2 * skipped to_i16 samples ring
            ≡ length ring.bytes + 2 * length samples - ring.capacity)
          × (excess to_i16 samples ring ≤ length ring.bytes)
          × ((skipped to_i16 samples ring ≡ 0) ⊎ (excess to_i16 samples ring ≡ length ring.bytes))
          × (excess to_i16 samples ring % 2 ≡ 0)
    excess_lem (even_bytes, even_capacity, some_room, fits, word) =
        let kept = length-drop (skipped to_i16 samples ring) samples in ground arith

    push_open-IsWf : IsWf ring → IsWf (push_open to_i16 samples ring)
    unfolding push_open
    push_open-IsWf (even_bytes, even_capacity, some_room, fits, word) =
        let (sum, le, which, even_excess) =
          excess_lem (even_bytes, even_capacity, some_room, fits, word) in
        let e = excess to_i16 samples ring in
        let kept = drop (skipped to_i16 samples ring) samples in
        let len = length-append (drop e ring.bytes) (encode to_i16 kept) in
        let held = length-drop e ring.bytes in
        let came = length-encode kept in
        let left = length-drop (skipped to_i16 samples ring) samples in
        (ground arith, even_capacity, some_room, ground arith, ground arith)

    -- A push into an open ring leaves the newest bytes of what was held and what came, as many as
    -- fit, and nothing else; it counts a sample for every two bytes that are lost.
    pub push_open-newest :
        IsWf ring
        → ((push_open to_i16 samples ring).bytes
            ≡ drop
                (length ring.bytes + 2 * length samples - ring.capacity)
                (ring.bytes ++ encode to_i16 samples))
          × ((push_open to_i16 samples ring).overruns
              ≡ (ring.overruns + (length ring.bytes + 2 * length samples - ring.capacity) / 2)
                % 2 ^ 64)
          × IsWf (push_open to_i16 samples ring)
    unfolding push_open
    push_open-newest wf =
        let (sum, le, which, even_excess) = excess_lem wf in
        let newest =
          join (skipped to_i16 samples ring) (excess to_i16 samples ring)
            (length ring.bytes + 2 * length samples - ring.capacity) ring.bytes samples sum le
            which in
        (
          newest,
          counted (skipped to_i16 samples ring) (excess to_i16 samples ring)
              (length ring.bytes + 2 * length samples - ring.capacity) ring.overruns sum even_excess
              wf.4,
          push_open-IsWf wf,
        )
