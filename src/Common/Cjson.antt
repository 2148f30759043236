-- ===== src/Common/Cjson.antt =====
-- What the code relies on in the cJSON library, which is not part of the repository: how object
-- keys are compared when case does not count, and what a number's `valueint` holds.
use allonet.Common.Size.{int_limit}
use Prim.Native.Nat.{ℕ, ◌<◌}
use Prim.Native.String.{String}
use mathlib.Core.Path.{◌≡◌}
use mathlib.Core.Bool.{Bool, true}

pub record Cjson : Type 0 where
  -- `cJSON_GetObjectItem` compares keys so; it is an equivalence.
  pub same_key : String → String → Bool
  pub same_key_refl : (a : String) → same_key a a ≡ true
  pub same_key_sym : (a b : String) → same_key a b ≡ true → same_key b a ≡ true
  pub same_key_trans :
      (a b c : String) → same_key a b ≡ true → same_key b c ≡ true → same_key a c ≡ true
  -- `valueint` of a number that was created from a double that holds a whole number.
  pub valueint : ℕ → ℕ
  pub valueint_small : (n : ℕ) → n < int_limit → valueint n ≡ n
