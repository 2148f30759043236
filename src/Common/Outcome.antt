-- ===== src/Common/Outcome.antt =====
-- What a call of a C function can come to: a result, a failed `assert`, or an access to memory
-- that is not there (through NULL, or past the end of a buffer), after which C promises nothing.
-- `out_of_fuel` is none of these: a loop has not ended within the rounds it was given.
use mathlib.Core.Option.{Option, none, some}
use mathlib.Core.Bool.{Bool, true, false}

pub data Outcome {ℓ} (A : Type ℓ) : Type ℓ where
  ok : A → Outcome A
  assertion_failed : Outcome A
  wild : Outcome A
  out_of_fuel : Outcome A

infixl 5 ◌>>◌ ◌>>=◌
abbrev pub ◌>>=◌ {ℓ κ} : {A : Type ℓ} {B : Type κ} → Outcome A → (A → Outcome B) → Outcome B
wild >>= next = wild
out_of_fuel >>= next = out_of_fuel
assertion_failed >>= next = assertion_failed
ok a >>= next = next a

abbrev pub ◌>>◌ {ℓ} : {B : Type ℓ} → Outcome (Unit {0}) → Outcome B → Outcome B
first >> next = first >>= λ _. next

abbrev pub assert : Bool → Outcome (Unit {0})
assert true = ok tt
assert false = assertion_failed

-- A dereferenced pointer, NULL being `none`.
abbrev pub deref {ℓ} : {A : Type ℓ} → Option A → Outcome A
deref none = wild
deref (some a) = ok a

-- A call that asserts, as an outcome.
abbrev pub asserted {ℓ} : {A : Type ℓ} → Option A → Outcome A
asserted none = assertion_failed
asserted (some a) = ok a
