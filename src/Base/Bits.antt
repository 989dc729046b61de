-- ===== src/Base/Bits.antt =====
-- Laws of `bit_and` at variables, by recursion on the binary digits.
use Prim.Native.Nat.{ℕ, zero, suc, ◌+◌, ◌*◌, ◌/◌, ◌%◌, ◌≤◌, min, bit_and, digits, bit_and-bitwise}
use mathlib.Core.Path.{◌≡◌, refl, ap}
use native.Mathlib.Omega.{arith}

-- `digits` gives the same number whatever fuel above its first argument it has.
digits_enough :
    (m n a b : ℕ) → a ≤ m → a ≤ n → digits (λ b. zero) min m a b ≡ digits (λ b. zero) min n a b
digits_enough zero zero a b p q = refl
digits_enough (suc m) (suc n) zero b p q = refl
digits_enough (suc m) (suc n) (suc a) b p q =
    omega (arith, digits_enough m n (suc a / 2) (b / 2) (omega arith) (omega arith))
digits_enough zero (suc n) zero b p q = refl
digits_enough (suc m) zero zero b p q = refl
digits_enough zero (suc n) (suc a) b p q = elim p [ ]
digits_enough (suc m) zero (suc a) b p q = elim q [ ]

-- The lowest digit of `bit_and`, and the rest.
pub bit_and-digit : (a b : ℕ) → bit_and a b ≡ 2 * bit_and (a / 2) (b / 2) + min (a % 2) (b % 2)
bit_and-digit zero b = omega (arith, bit_and-bitwise 0 b, bit_and-bitwise 0 (b / 2))
bit_and-digit (suc a) b =
    let half = suc a / 2 in
    omega (
      arith,
      bit_and-bitwise (suc a) b,
      bit_and-bitwise half (b / 2),
      digits_enough a half half (b / 2) (omega arith) (omega arith),
    )

bit_and_absorb : (n a b : ℕ) → a ≤ n → bit_and (bit_and a b) b ≡ bit_and a b
bit_and_absorb n zero b h =
    let none_left : bit_and 0 b ≡ 0 = bit_and-bitwise 0 b in rw (none_left, none_left)
bit_and_absorb zero (suc a) b h = elim h [ ]
bit_and_absorb (suc n) (suc a) b h =
    let masked = bit_and (suc a) b in
    let half : masked / 2 ≡ bit_and (suc a / 2) (b / 2) = omega (arith, bit_and-digit (suc a) b) in
    omega (
      arith,
      ap (λ x. bit_and x (b / 2)) half,
      bit_and-digit (suc a) b,
      bit_and-digit masked b,
      bit_and_absorb n (suc a / 2) (b / 2) (omega arith),
    )

-- Masking twice is masking once.
pub bit_and_masked : (a b : ℕ) → bit_and (bit_and a b) b ≡ bit_and a b
bit_and_masked a b = bit_and_absorb a a b (omega arith)
