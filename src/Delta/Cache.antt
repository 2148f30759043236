-- ===== src/Delta/Cache.antt =====
-- The cache of `allo_delta_compute`, src/delta.c.
use allonet.Common.{
  ℕ, ◌<◌, ◌≡◌, refl, ap, Option, some, none, true, ◌==◌, arith, Bool-cases, inl, inr, ◌⊎◌, sym, ◌∙◌,
  subst,
}
use allonet.Common.Int.{ℤ, pos, negsuc, same_int}
use allonet.Common.Cases.{option-cases, >>=-ok_inv}
use allonet.Common.Outcome.{Outcome, ok, asserted, ◌>>=◌}
use allonet.Delta.{
  Documents, History, put, slot, get, insert, Delta, Entry, Diffcache, delta_for, cached,
  cached_or_new, compute,
}

pub same_int-eq : (m n : ℤ) → same_int m n ≡ true → m ≡ n
same_int-eq (pos m) (pos n) e = ap pos (ground arith)
same_int-eq (negsuc m) (negsuc n) e = ap negsuc (ground arith)
same_int-eq (pos m) (negsuc n) e = cc
same_int-eq (negsuc m) (pos n) e = cc

-- `m` is an earlier revision than `n`, neither of them negative.
abbrev pub Earlier : ℤ → ℤ → Type 0
Earlier (pos m) (pos n) = m < n
Earlier (pos m) (negsuc n) = ⊥
Earlier (negsuc m) n = ⊥

abbrev NotLater : ℤ → ℤ → Type 0
NotLater m n = (m ≡ n) ⊎ Earlier m n

module _ {Doc : Type 0} (d : Documents Doc) where
  -- What `allo_delta_compute` makes for a revision if nothing is cached.
  unfoldable pub fresh : History Doc → ℤ → Outcome (Delta Doc)
  unfolding get slot delta_for
  fresh h revision = get h h.latest_revision >>= λ newest.
      asserted newest >>= λ latest. get h revision >>= λ old. delta_for d latest old revision

  -- Of each entry: it is not from the future, and if it leads to the latest revision, it is what
  -- would be made afresh.
  abbrev pub IsValid : History Doc → Entry Doc → Type 0
  IsValid h e =
      ((e.to ≡ h.latest_revision) × (fresh h e.from ≡ ok e.json)) ⊎ Earlier e.to h.latest_revision

  abbrev pub IsCoherent : History Doc → Diffcache Doc → Type 0
  IsCoherent h cache = (i : ℕ) (e : Entry Doc) → cache i ≡ some e → IsValid h e

  Earlier-trans : (a b c : ℤ) → (a ≡ b) ⊎ Earlier a b → Earlier b c → Earlier a c
  Earlier-trans a b c (inl e) l = subst (λ x. Earlier x c) (sym e) l
  Earlier-trans (pos a) (pos b) (pos c) (inr k) l = ground arith
  Earlier-trans (pos a) (pos b) (negsuc c) (inr k) l = l
  Earlier-trans (pos a) (negsuc b) c (inr k) l = absurd k
  Earlier-trans (negsuc a) b c (inr k) l = absurd k

  -- A newer state makes every entry one of the past.
  newer-IsCoherent :
      (h h' : History Doc) (cache : Diffcache Doc)
      → IsCoherent h cache
      → Earlier h.latest_revision h'.latest_revision
      → IsCoherent h' cache
  newer-IsCoherent h h' cache v newer i e found = elim (v i e found) [
    | inl (now, _) ↦ inr (Earlier-trans e.to h.latest_revision h'.latest_revision (inl now) newer)
    | inr past ↦ inr (Earlier-trans e.to h.latest_revision h'.latest_revision (inr past) newer)
  ]

  pub fresh_at :
      (h : History Doc) (revision : ℤ) (latest : Doc) (i : ℕ)
      → get h h.latest_revision ≡ ok (some latest)
      → slot revision ≡ ok i
      → fresh h revision ≡ delta_for d latest (h.slots i) revision
  unfolding fresh get
  fresh_at h revision latest i newest at = ground (arith, newest, at)

  pub asserted-some : (o : Option Doc) (x : Doc) → asserted o ≡ ok x → o ≡ some x
  asserted-some (some y) x e = ground arith
  asserted-some none x e = cc

  pub cached-some :
      (o : Option (Entry Doc)) (from to : ℤ) (json : Delta Doc)
      → cached d o from to ≡ some json
      → (e : Entry Doc) × (o ≡ some e) × (e.to ≡ to) × (e.from ≡ from) × (e.json ≡ json)
  unfolding cached
  cached-some none from to json h = cc
  cached-some (some e) from to json h = (
    e,
    refl,
    same_int-eq e.to to (ground (arith, h)),
    same_int-eq e.from from (ground (arith, h)),
    ground (arith, h),
  )

  pub pair-ok :
      {a b : Delta Doc} {f g : Diffcache Doc}
      → ◌≡◌ {A = Outcome (Delta Doc × Diffcache Doc)} (ok (a, f)) (ok (b, g))
      → (a ≡ b) × (f ≡ g)
  pair-ok e = (ground arith, ground arith)

  not-Earlier_self : (n : ℤ) → Earlier n n → ⊥
  not-Earlier_self (pos n) l = omega arith
  not-Earlier_self (negsuc n) l = l

  module _ (h : History Doc) (cache : Diffcache Doc) (revision : ℤ) (v : IsCoherent h cache) where
    put-IsCoherent :
        (i : ℕ) (json : Delta Doc)
        → fresh h revision ≡ ok json
        → IsCoherent h
            (put i (record { from = revision; to = h.latest_revision; json = json }) cache)
    put-IsCoherent i json made j e found = elim (Bool-cases (j == i)) [
      | inl same ↦
          let new : Entry Doc = record { from = revision; to = h.latest_revision; json = json } in
          let own : new ≡ e = ground (arith, same) in
          subst (λ x. IsValid h x) own (inl (refl, made))
      | inr other ↦ v j e (ground (arith, other))
    ]

    cached_or_new-fresh :
        (latest : Doc) (i : ℕ) (cache' : Diffcache Doc) (json : Delta Doc)
        → fresh h revision ≡ delta_for d latest (h.slots i) revision
        → cached_or_new d h cache revision latest i ≡ ok (json, cache')
        → (fresh h revision ≡ ok json) × IsCoherent h cache'
    unfolding cached_or_new
    cached_or_new-fresh latest i cache' json at e =
        elim (option-cases (cached d (cache i) revision h.latest_revision)) [
          | inl miss ↦
              let new : Delta Doc → Outcome (Delta Doc × Diffcache Doc) = λ json. ok (
                json,
                put i (record { from = revision; to = h.latest_revision; json = json }) cache,
              ) in
              let made_new : (delta_for d latest (h.slots i) revision >>= new) ≡ ok (json, cache') =
                subst (λ o. o ≡ ok (json, cache')) (rw (cached_or_new, miss) refl) e in
              let (json', done, made) =
                >>=-ok_inv new (delta_for d latest (h.slots i) revision) made_new in
              let (same, left) = pair-ok done in
              (
                at ∙ made ∙ ap ok same,
                subst (λ x. IsCoherent h x) left (put-IsCoherent i json' (at ∙ made)),
              )
          | inr (json', hit) ↦
              let (e0, there, to, from, holds) =
                cached-some (cache i) revision h.latest_revision json' hit in
              let given : ◌≡◌ {A = Outcome (Delta Doc × Diffcache Doc)} (ok (json', cache))
                  (ok (json, cache')) =
                subst (λ o. o ≡ ok (json, cache')) (rw (cached_or_new, hit) refl) e in
              let (same, left) = pair-ok given in
              (
                elim (v i e0 there) [
                  | inl (_, valid) ↦ ap (fresh h) (sym from) ∙ valid ∙ ap ok (holds ∙ same)
                  | inr past ↦ absurd (
                      not-Earlier_self h.latest_revision
                        (subst (λ n. Earlier n h.latest_revision) to past))
                ],
                subst (λ x. IsCoherent h x) left v,
              )
        ]

  -- Whatever is cached, as long as the cache is coherent, `allo_delta_compute` gives what it would
  -- have made afresh, and leaves the cache coherent.
  compute-fresh :
      (h : History Doc) (cache cache' : Diffcache Doc) (revision : ℤ) (json : Delta Doc)
      → IsCoherent h cache
      → compute d h cache revision ≡ ok (json, cache')
      → (fresh h revision ≡ ok json) × IsCoherent h cache'
  unfolding compute
  compute-fresh h cache cache' revision json v e =
      let (newest, e1, got) = >>=-ok_inv _ (get h h.latest_revision) e in
      let (latest, e2, there) = >>=-ok_inv _ (asserted newest) e1 in
      let (i, e3, at) = >>=-ok_inv _ (slot revision) e2 in
      cached_or_new-fresh h cache revision v latest i cache' json
        (fresh_at h revision latest i (got ∙ ap ok (asserted-some newest latest there)) at) e3

-- How a history and the cache of deltas are used: states come in with ever later revisions, and
-- deltas are computed from any revision.
pub data Used {Doc : Type 0} (d : Documents Doc) : History Doc → Diffcache Doc → Type 0 where
  unused : (h : History Doc) → Used d h (λ i. none)
  newer :
      (h h' : History Doc) (cache : Diffcache Doc) (doc : Doc)
      → Used d h cache
      → insert d h doc ≡ ok h'
      → Earlier h.latest_revision h'.latest_revision
      → Used d h' cache
  asked :
      (h : History Doc) (cache cache' : Diffcache Doc) (revision : ℤ) (json : Delta Doc)
      → Used d h cache
      → compute d h cache revision ≡ ok (json, cache')
      → Used d h cache'

Used-IsCoherent :
    {Doc : Type 0} {d : Documents Doc} {h : History Doc} {cache : Diffcache Doc}
    → Used d h cache
    → IsCoherent d h cache
Used-IsCoherent (unused h) = λ i e found. cc
Used-IsCoherent (newer h h' cache doc u _ later) =
    newer-IsCoherent _ h h' cache (Used-IsCoherent u) later
Used-IsCoherent (asked h cache cache' revision json u e) =
    (compute-fresh _ h cache cache' revision json (Used-IsCoherent u) e).1

-- However a history has been used, as long as the revisions that came in have grown,
-- `allo_delta_compute` returns the delta that it would have made without its cache.
pub Used-fresh :
    {Doc : Type 0} (d : Documents Doc) (h : History Doc) (cache cache' : Diffcache Doc)
    (revision : ℤ) (json : Delta Doc)
    → Used d h cache
    → compute d h cache revision ≡ ok (json, cache')
    → fresh d h revision ≡ ok json
Used-fresh d h cache cache' revision json u e =
    (compute-fresh d h cache cache' revision json (Used-IsCoherent u) e).0
