-- ===== src/Ranges/View.antt =====
-- What a list of ranges stands for: the set of numbers that it covers, and the order that
-- `_merge_range` keeps it in.
use allonet.Common.{
  ℕ, zero, suc, ◌+◌, ◌≤◌, ◌<◌, ◌≡◌, List, [], ◌∷◌, ◌++◌, take, drop, refl, some, Bool, false, ◌&&◌,
  ◌||◌, arith, leb, get_elem?,
}
use allonet.Common.Size.{int_limit}
use allonet.Ranges.{Range}

abbrev pub within : ℕ → ℕ → ℕ → Bool
within first last x = leb first x && leb x last

-- Is `x` in one of the ranges?
unfoldable pub covers : List Range → ℕ → Bool
covers [] x = false
covers (r ∷ rs) x = within r.first r.last x || covers rs x

-- In rising order from `lo` on, none empty, with a number left out between any two.
abbrev pub Above : ℕ → List Range → Type 0
Above lo [] = Unit {0}
Above lo (r ∷ rs) = (lo ≤ r.first) × (r.first ≤ r.last) × Above (r.last + 2) rs

-- The ends are below `limit`.
abbrev pub Below : ℕ → List Range → Type 0
Below limit [] = Unit {0}
Below limit (r ∷ rs) = (r.last < limit) × Below limit rs

-- All start at `s` or before.
abbrev pub StartBy : ℕ → List Range → Type 0
StartBy s [] = Unit {0}
StartBy s (r ∷ rs) = (r.first ≤ s) × StartBy s rs

pub Above-mono : (lo lo' : ℕ) (rs : List Range) → lo' ≤ lo → Above lo rs → Above lo' rs
Above-mono lo lo' [] h a = tt
Above-mono lo lo' (r ∷ rs) h a = (omega arith, a.1, a.2)

pub first_of_Above :
    (lo i : ℕ) (rs : List Range) (r : Range) → Above lo rs → get_elem? rs i ≡ some r → lo ≤ r.first
first_of_Above lo i [] r a e = ground arith
first_of_Above lo zero (x ∷ rs) r a e = ground arith
first_of_Above lo (suc i) (x ∷ rs) r a e = omega (arith, first_of_Above (x.last + 2) i rs r a.2 e)

pub covers_below : (lo x : ℕ) (rs : List Range) → Above lo rs → x < lo → covers rs x ≡ false
unfolding covers
covers_below lo x [] a h = ground arith
covers_below lo x (r ∷ rs) a h = ground (arith, covers_below (r.last + 2) x rs a.2)

pub Below-take : (limit n : ℕ) (rs : List Range) → Below limit rs → Below limit (take n rs)
Below-take limit zero rs b = tt
Below-take limit (suc n) [] b = tt
Below-take limit (suc n) (r ∷ rs) b = (b.0, Below-take limit n rs b.1)

pub Below-drop : (limit n : ℕ) (rs : List Range) → Below limit rs → Below limit (drop n rs)
Below-drop limit zero rs b = b
Below-drop limit (suc n) [] b = tt
Below-drop limit (suc n) (r ∷ rs) b = Below-drop limit n rs b.1

-- `pre` may be followed by anything that keeps the order where `suf` does.
pub Above-append :
    (lo : ℕ) (pre suf suf' : List Range)
    → ((lo' : ℕ) → Above lo' suf → Above lo' suf')
    → Above lo (pre ++ suf)
    → Above lo (pre ++ suf')
Above-append lo [] suf suf' k a = k lo a
Above-append lo (p ∷ pre) suf suf' k a = (a.0, a.1, Above-append (p.last + 2) pre suf suf' k a.2)

pub covers-append :
    (x : ℕ) (pre suf : List Range) → covers (pre ++ suf) x ≡ (covers pre x || covers suf x)
unfolding covers
covers-append x [] suf = refl
covers-append x (p ∷ pre) suf = ground (arith, covers-append x pre suf)

-- What `_merge_range` needs and keeps.
pub record IsRanges (rs : List Range) : Type 0 where
  pub ordered : Above 0 rs
  pub small : Below int_limit rs
