-- ===== src/Common/All.antt =====
-- A property of every entry of a list, and of entries that a sort or a removal keeps.
use mathlib.Core.Logic.Or
use mathlib.Core.List.{Mem, mem-cons, mem-cons_self, mem-cons_of_mem, not-mem-nil, Perm}
use mathlib.Core.List.Perm
use mathlib.Core.Path.{subst, sym, ◌≡◌}
use mathlib.Core.Logic.{◌⊎◌, inl, inr}
use mathlib.Core.List.{List, [], ◌∷◌}

abbrev pub All {ℓ κ} : {A : Type ℓ} → (A → Type κ) → List A → Type κ
All P [] = Unit
All P (x ∷ xs) = P x × All P xs

-- The entry stands in the list, at a place that is kept.
abbrev pub In : {A : Type 0} → A → List A → Type 0
In a [] = ⊥
In a (x ∷ xs) = (a ≡ x) ⊎ In a xs

module _ {ℓ κ} {A : Type ℓ} (P : A → Type κ) (P-prop : (a : A) → IsProp (P a)) where
  All→mem : (xs : List A) → All P xs → (a : A) → Mem a xs → P a
  All→mem [] h a m = absurd (not-mem-nil m)
  All→mem (x ∷ xs) h a m =
      Or.elim (P-prop a) (mem-cons.0 m) (λ e. subst P (sym e) h.0) (λ r. All→mem xs h.1 a r)

  mem→All : (xs : List A) → ((a : A) → Mem a xs → P a) → All P xs
  mem→All [] h = tt
  mem→All (x ∷ xs) h = (h x mem-cons_self, mem→All xs (λ a m. h a (mem-cons_of_mem x m)))

  pub All-perm : {xs ys : List A} → Perm xs ys → All P ys → All P xs
  All-perm {xs} {ys} p h = mem→All xs (λ a m. All→mem ys h a (Perm.subset p a m))

pub All-In : {A : Type 0} (P : A → Type 0) (a : A) (xs : List A) → In a xs → All P xs → P a
All-In P a [] i v = absurd i
All-In P a (x ∷ xs) (inl e) v = subst P (sym e) v.0
All-In P a (x ∷ xs) (inr i) v = All-In P a xs i v.1
