-- ===== src/Common/Cases.antt =====
-- What a computed option or outcome can be, for a proof that splits on it.
use mathlib.Core.Path.{◌≡◌, refl}
use mathlib.Core.Logic.{◌⊎◌, inl, inr}
use mathlib.Core.Option.{Option, none, some}
use allonet.Common.Outcome.{Outcome, ok, assertion_failed, wild, out_of_fuel, ◌>>=◌}

pub option-cases : {A : Type 0} (o : Option A) → (o ≡ none) ⊎ ((a : A) × (o ≡ some a))
option-cases none = inl refl
option-cases (some a) = inr (a, refl)

-- If a sequence ends well, its first part does, and the rest from there.
pub >>=-ok_inv :
    {A B : Type 0} {b : B} (f : A → Outcome B) (m : Outcome A)
    → (m >>= f) ≡ ok b
    → (a : A) × (f a ≡ ok b) × (m ≡ ok a)
>>=-ok_inv f (ok a) e = (a, e, refl)
>>=-ok_inv f wild e = cc
>>=-ok_inv f assertion_failed e = cc
>>=-ok_inv f out_of_fuel e = cc

pub >>=-assoc :
    {A B C : Type 0} (m : Outcome A) (f : A → Outcome B) (g : B → Outcome C)
    → (m >>= f >>= g) ≡ (m >>= λ a. f a >>= g)
>>=-assoc (ok a) f g = refl
>>=-assoc wild f g = refl
>>=-assoc assertion_failed f g = refl
>>=-assoc out_of_fuel f g = refl
