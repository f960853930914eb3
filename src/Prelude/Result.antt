-- ===== src/Prelude/Result.antt =====
-- A Python call that returns a value or raises.
use mathlib.Core.Path.{◌≡◌, refl}

pub data Result (E A : Type 0) : Type 0 where
  ok : A → Result E A
  err : E → Result E A

infixl 5 ◌>>=◌
abbrev pub ◌>>=◌ : {E A B : Type 0} → Result E A → (A → Result E B) → Result E B
ok a >>= f = f a
err e >>= f = err e

-- If the whole call returns, its first part does.
pub >>=-eq-ok :
    {E A B : Type 0} {final : B} (call : Result E A) (rest : A → Result E B)
    → call >>= rest ≡ ok final
    → (value : A) × (call ≡ ok value) × (rest value ≡ ok final)
>>=-eq-ok (err failure) rest returned = cc
>>=-eq-ok (ok value) rest returned = (value, refl, returned)
