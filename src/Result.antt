-- ===== src/Result.antt =====
-- Code that may raise: the exception that leaves the function, or what it returns.
use scgrep.Prelude.{◌≡◌, refl, Bool, if◌then◌else◌}

pub data Result (E A : Type 0) : Type 0 where
  err : E → Result E A
  ok : A → Result E A

-- `if not test: raise fault`
abbrev pub require : {E : Type 0} → Bool → E → Result E (Unit {0})
require test fault = if test then ok tt else err fault

infixl 5 ◌>>=◌ ◌>>◌
abbrev pub ◌>>=◌ : {E A B : Type 0} → Result E A → (A → Result E B) → Result E B
err fault >>= next = err fault
ok value >>= next = next value

abbrev pub ◌>>◌ : {E B : Type 0} → Result E (Unit {0}) → Result E B → Result E B
err fault >> next = err fault
ok done >> next = next

-- A block that returned had each of its steps return.
pub >>=-eq-ok :
    {E A B : Type 0} (step : Result E A) (next : A → Result E B) {b : B}
    → (step >>= next) ≡ ok b
    → (a : A) × (step ≡ ok a) × (next a ≡ ok b)
>>=-eq-ok (err fault) next h = cc
>>=-eq-ok (ok value) next h = (value, refl, h)

-- A block whose test let it go on passed the test.
pub >>-eq-ok :
    {E B : Type 0} (step : Result E (Unit {0})) (next : Result E B) {b : B}
    → (step >> next) ≡ ok b
    → (step ≡ ok tt) × (next ≡ ok b)
>>-eq-ok (err fault) next h = cc
>>-eq-ok (ok tt) next h = (refl, h)
