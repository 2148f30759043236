-- ===== src/Ranges/Absorb.antt =====
-- `_merge_range`'s loop to the right, over ranges that all start behind the new one.
use allonet.Common.{ℕ, ◌+◌, ◌≤◌, ◌<◌, ◌≡◌, refl, List, [], ◌∷◌, arith, ◌||◌, min, max}
use allonet.Common.Size.{int_limit}
use allonet.Ranges.{Range, absorb}
use allonet.Ranges.View.{Above, Below, Above-mono, covers, within}

-- What is behind `s` and its first range is behind whatever the loop goes on with.
tail-Above :
    (s : ℕ) (r : Range) (rs : List Range) → Above (s + 1) (r ∷ rs) → Above (min s r.first + 1) rs
tail-Above s r rs a = Above-mono (r.last + 2) (min s r.first + 1) rs (omega arith) a.2

pub absorb-start : (rs : List Range) (s e : ℕ) → Above (s + 1) rs → (absorb rs s e).start ≡ s
unfolding absorb
absorb-start [] s e a = refl
absorb-start (r ∷ rs) s e a =
    ground (arith, absorb-start rs (min s r.first) (max e r.last) (tail-Above s r rs a))

pub end-le-absorb : (rs : List Range) (s e : ℕ) → e ≤ (absorb rs s e).end
unfolding absorb
end-le-absorb [] s e = omega arith
end-le-absorb (r ∷ rs) s e = ground (arith, end-le-absorb rs (min s r.first) (max e r.last))

module _ (limit : ℕ) where
  pub absorb-lt :
      (rs : List Range) (s e : ℕ) → Below limit rs → e < limit → (absorb rs s e).end < limit
  unfolding absorb
  absorb-lt [] s e b h = h
  absorb-lt (r ∷ rs) s e b h = ground (arith, absorb-lt rs (min s r.first) (max e r.last) b.1)

  pub absorb-Below : (rs : List Range) (s e : ℕ) → Below limit rs → Below limit (absorb rs s e).rest
  unfolding absorb
  absorb-Below [] s e b = tt
  absorb-Below (r ∷ rs) s e b = ground (arith, absorb-Below rs (min s r.first) (max e r.last) b.1)

-- The rest keeps its order.
pub absorb-Above : (rs : List Range) (lo s e : ℕ) → Above lo rs → Above lo (absorb rs s e).rest
unfolding absorb
absorb-Above [] lo s e a = tt
absorb-Above (r ∷ rs) lo s e a = ground (
  arith,
  absorb-Above rs lo (min s r.first) (max e r.last)
      (Above-mono (r.last + 2) lo rs (omega arith) a.2),
)

-- The loop stops at a gap: what is left starts two behind the end that it reached.
pub absorb_gap :
    (rs : List Range) (s e : ℕ)
    → Above (s + 1) rs
    → Below int_limit rs
    → s ≤ e
    → e < int_limit
    → Above ((absorb rs s e).end + 2) (absorb rs s e).rest
unfolding absorb
absorb_gap [] s e a b h l = tt
absorb_gap (r ∷ rs) s e a b h l =
    ground (arith, absorb_gap rs (min s r.first) (max e r.last) (tail-Above s r rs a) b.1)

-- Nothing is lost, and nothing but the numbers from `s` to `e` is added.
pub covers-absorb :
    (rs : List Range) (s e x : ℕ)
    → Above (s + 1) rs
    → Below int_limit rs
    → s ≤ e
    → e < int_limit
    → (within s (absorb rs s e).end x || covers (absorb rs s e).rest x)
      ≡ (within s e x || covers rs x)
unfolding absorb covers
covers-absorb [] s e x a b h l = refl
covers-absorb (r ∷ rs) s e x a b h l =
    let stay : min s r.first ≡ s = omega arith in
    rw stay
      (ground (arith, covers-absorb rs s (max e r.last) x (rw stay at (tail-Above s r rs a)) b.1))
