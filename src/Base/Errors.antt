-- ===== src/Base/Errors.antt =====
-- `Result<A, E>`, with the binds of `?`.
use mathlib.Core.Path.{◌≡◌, refl}
use mathlib.Core.Logic.{◌⊎◌, inl, inr}
use mathlib.Core.Option.{Option, none, some}

pub data Result (E A : Type 0) : Type 0 where
  ok : A → Result E A
  err : E → Result E A

infixl 5 ◌>>=◌
abbrev pub ◌>>=◌ :
    {Failure Value Next : Type 0}
    → Result Failure Value
    → (Value → Result Failure Next)
    → Result Failure Next
err failure >>= continue = err failure
ok value >>= continue = continue value

-- `Option::ok_or`.
abbrev pub ok_or : {E A : Type 0} → E → Option A → Result E A
ok_or e none = err e
ok_or e (some a) = ok a

pub >>=-eq-ok :
    {Failure Value Next : Type 0} (first : Result Failure Value)
    (continue : Value → Result Failure Next) {result : Next}
    → (first >>= continue) ≡ ok result
    → (value : Value) × (first ≡ ok value) × (continue value ≡ ok result)
>>=-eq-ok (err failure) continue returned = cc
>>=-eq-ok (ok value) continue returned = (value, refl, returned)

pub ok_inj : {E A : Type 0} {a b : A} → ◌≡◌ {A = Result E A} (ok a) (ok b) → a ≡ b
ok_inj h = cc

pub Result-cases :
    {E A : Type 0} (m : Result E A) → ((a : A) × (m ≡ ok a)) ⊎ ((e : E) × (m ≡ err e))
Result-cases (ok a) = inl (a, refl)
Result-cases (err e) = inr (e, refl)
