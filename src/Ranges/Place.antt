-- ===== src/Ranges/Place.antt =====
-- `_merge_range`'s merge to the left and insertion, by recursion on the ranges before the index.
use allonet.Common.{
  ◌∙◌, ℕ, suc, ◌+◌, ◌≤◌, ◌<◌, ◌≡◌, refl, List, [], ◌∷◌, ◌++◌, arith, ◌||◌, min, max, length, leb,
  if◌then◌else◌, ap,
}
use allonet.Common.Size.{int_limit, to_int_small}
use allonet.Ranges.{Range, int_range, insert_range}
use allonet.Ranges.View.{Above, Below, StartBy, covers, within}

abbrev pub range : ℕ → ℕ → Range
range s e = record { first = s; last = e }

-- The ranges `pre`, then the new one, merged with the last of `pre` if they touch, then `suf`.
unfoldable pub place : List Range → List Range → ℕ → ℕ → List Range
place [] suf s e = range s e ∷ suf
place (p ∷ []) suf s e =
    if leb s (p.last + 1) then range (min s p.first) (max e p.last) ∷ suf else p ∷ range s e ∷ suf
place (p ∷ q ∷ pre) suf s e = p ∷ place (q ∷ pre) suf s e

pub int_range-small : (s e : ℕ) → s < int_limit → e < int_limit → int_range s e ≡ range s e
unfolding int_range
int_range-small s e hs he = ground (arith, to_int_small s hs, to_int_small e he)

insert_range-cons :
    (p q : Range) (rs : List Range) (i s e : ℕ)
    → insert_range (p ∷ q ∷ rs) (suc (suc i)) s e ≡ p ∷ insert_range (q ∷ rs) (suc i) s e
unfolding insert_range
insert_range-cons p q rs i s e = ground arith

-- The code inserts at the end of `pre`.
pub insert_range-place :
    (pre suf : List Range) (s e : ℕ)
    → Below int_limit pre
    → StartBy s pre
    → s < int_limit
    → e < int_limit
    → insert_range (pre ++ suf) (length pre) s e ≡ place pre suf s e
unfolding insert_range place
insert_range-place [] suf s e b st hs he = ground (arith, int_range-small s e)
insert_range-place (p ∷ []) suf s e b st hs he =
    ground (arith, int_range-small s e, int_range-small (min s p.first) (max e p.last))
insert_range-place (p ∷ q ∷ pre) suf s e b st hs he =
    insert_range-cons p q (pre ++ suf) (length pre) s e
    ∙ ap (λ l. p ∷ l) (insert_range-place (q ∷ pre) suf s e b.1 st.1 hs he)

module _ (suf : List Range) (s e : ℕ) (le : s ≤ e) (after : Above (e + 2) suf) where
  pub place-Above :
      (lo : ℕ) (pre : List Range)
      → Above lo (pre ++ suf)
      → StartBy s pre
      → lo ≤ s
      → Above lo (place pre suf s e)
  unfolding place
  place-Above lo [] a st h = (h, le, after)
  place-Above lo (p ∷ []) a st h = ground arith
  place-Above lo (p ∷ q ∷ pre) a st h = ground (arith, place-Above (p.last + 2) (q ∷ pre))

  pub covers-place :
      (x : ℕ) (pre : List Range)
      → StartBy s pre
      → covers (place pre suf s e) x ≡ (covers pre x || within s e x || covers suf x)
  unfolding place covers
  covers-place x [] st = refl
  covers-place x (p ∷ []) st = ground arith
  covers-place x (p ∷ q ∷ pre) st = ground (arith, covers-place x (q ∷ pre))

pub place-Below :
    (limit : ℕ) (pre suf : List Range) (s e : ℕ)
    → Below limit pre
    → Below limit suf
    → e < limit
    → Below limit (place pre suf s e)
unfolding place
place-Below limit [] suf s e b c h = (h, c)
place-Below limit (p ∷ []) suf s e b c h = ground arith
place-Below limit (p ∷ q ∷ pre) suf s e b c h = (b.0, place-Below limit (q ∷ pre) suf s e b.1 c h)
