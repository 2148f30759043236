-- ===== src/AssetStore/Samples.antt =====
-- Concrete libraries for the tests: a cJSON and a `qsort` that do what is asked of them.
use text.Mathlib.Text.{◌==◌ as str_eq}
use text.Mathlib.TextEquality.{eq_iff}
use text.Mathlib.TextPositions.{eq_refl}
use mathlib.Core.List.Perm
use allonet.Common.{ℕ, ◌-◌, ◌<◌, ◌≡◌, sym, ◌∙◌, String, true, arith, min}
use allonet.Common.Cjson.{Cjson}
use allonet.Common.Size.{int_limit}
use allonet.AssetStore.Prune.{Qsort}

pub valueint_min : (n : ℕ) → n < int_limit → min n (int_limit - 1) ≡ n
valueint_min n h = omega arith

pub str_trans : (a b c : String) → str_eq a b ≡ true → str_eq b c ≡ true → str_eq a c ≡ true
str_trans a b c p q = (eq_iff a c).1 ((eq_iff a b).0 p ∙ (eq_iff b c).0 q)

-- Keys compared exactly, and `valueint` held at INT_MAX.
abbrev pub cjson : Cjson
cjson = record {
  same_key = str_eq;
  same_key_refl = eq_refl;
  same_key_sym = λ a b p. (eq_iff b a).1 (sym ((eq_iff a b).0 p));
  same_key_trans = str_trans;
  valueint = λ n. min n (int_limit - 1);
  valueint_small = valueint_min;
}

-- A `qsort` that leaves the candidates as they are.
abbrev pub unsorted : Qsort
unsorted = record {
  by_size = λ l. l;
  by_age = λ l. l;
  by_size_perm = Perm.refl;
  by_age_perm = Perm.refl;
}
