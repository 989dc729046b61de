-- ===== src/PcmRing/Samples.antt =====
-- Byte streams from which whole samples were left out.
use radio_cat_rs.Base.{
  ℕ, zero, suc, ◌+◌, ◌*◌, ◌%◌, ◌≤◌, ◌≡◌, refl, subst, [], ◌∷◌, ◌++◌, append_assoc, length, drop,
  arith,
}
use radio_cat_rs.Base.Bytes.{Bytes}

-- `Thinned n xs ys`: the samples `xs` with `n` of them left out are the samples `ys`.
pub data Thinned : ℕ → Bytes → Bytes → Type 0 where
  done : {n : ℕ} → n ≡ 0 → Thinned n [] []
  keep :
      {n : ℕ} {lo hi : ℕ} {xs ys : Bytes}
      → Thinned n xs ys
      → Thinned n (lo ∷ (hi ∷ xs)) (lo ∷ (hi ∷ ys))
  lose :
      {n m : ℕ} {lo hi : ℕ} {xs ys : Bytes}
      → m ≡ suc n
      → Thinned n xs ys
      → Thinned m (lo ∷ (hi ∷ xs)) ys

twice : (k : ℕ) → 2 * suc k ≡ suc (suc (2 * k))
twice k = omega arith

pub Thinned-refl : (xs : Bytes) → length xs % 2 ≡ 0 → Thinned 0 xs xs
Thinned-refl [] even = done refl
Thinned-refl (lo ∷ []) even = absurd (omega arith)
Thinned-refl (lo ∷ hi ∷ xs) even = keep (Thinned-refl xs (omega arith))

pub Thinned-trans :
    {n m k : ℕ} {xs ys zs : Bytes} → k ≡ n + m → Thinned n xs ys → Thinned m ys zs → Thinned k xs zs
Thinned-trans e (done h) (done g) = done (omega arith)
Thinned-trans e (lose h p) q = lose (omega arith) (Thinned-trans refl p q)
Thinned-trans e (keep p) (keep q) = keep (Thinned-trans e p q)
Thinned-trans e (keep p) (lose h q) = lose (omega arith) (Thinned-trans refl p q)

Thinned-count : {n m : ℕ} {xs ys : Bytes} → n ≡ m → Thinned n xs ys → Thinned m xs ys
Thinned-count {xs} {ys} e p = subst (λ k. Thinned k xs ys) e p

pub Thinned-append :
    {n m k : ℕ} {xs ys xs' ys' : Bytes}
    → k ≡ n + m
    → Thinned n xs ys
    → Thinned m xs' ys'
    → Thinned k (xs ++ xs') (ys ++ ys')
Thinned-append e (done h) q = Thinned-count (omega arith) q
Thinned-append e (keep p) q = keep (Thinned-append e p q)
Thinned-append e (lose h p) q = lose (omega arith) (Thinned-append refl p q)

pub Thinned-drop :
    (n : ℕ) (xs : Bytes) → length xs % 2 ≡ 0 → 2 * n ≤ length xs → Thinned n xs (drop (2 * n) xs)
Thinned-drop zero xs even le = Thinned-refl xs even
Thinned-drop (suc n) [] even le = absurd (omega arith)
Thinned-drop (suc n) (lo ∷ []) even le = absurd (omega arith)
Thinned-drop (suc n) (lo ∷ hi ∷ xs) even le =
    rw (twice n) (lose refl (Thinned-drop n xs (omega arith) (omega arith)))

-- Two steps in a row: the second is offered `o'` on top of what the first held back.
pub Thinned-seq :
    (held o t held' o' t' held'' : Bytes) {n m : ℕ}
    → length o' % 2 ≡ 0
    → length t % 2 ≡ 0
    → Thinned n (held ++ o) (t ++ held')
    → Thinned m (held' ++ o') (t' ++ held'')
    → Thinned (n + m) (held ++ (o ++ o')) ((t ++ t') ++ held'')
Thinned-seq held o t held' o' t' held'' even_o even_t p q =
    let p' = Thinned-append (omega arith) p (Thinned-refl o' even_o) in
    let q' = Thinned-append (omega arith) (Thinned-refl t even_t) q in
    rw (append_assoc t t' held'', ← append_assoc held o o')
      (Thinned-trans refl p' (rw (append_assoc t held' o') q'))
