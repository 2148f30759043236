-- ===== src/AssetStore/Prune/Keep.antt =====
-- `_lru_prune` and the assets that are to stay: those marked static, or used a moment ago.
use text.Mathlib.Text.{◌==◌ as str_eq}
use text.Mathlib.TextEquality.{eq_iff}
use mathlib.Core.HLevel.{¬_prop}
use allonet.Common.{
  subst, ap, ℕ, ◌+◌, ◌-◌, ◌≡◌, ◌≢◌, sym, List, [], ◌∷◌, false, String, inl, inr, arith, Bool-cases,
}
use allonet.Common.All.{All, All-perm, In}
use allonet.Common.Size.{sub_size}
use allonet.Common.Cjson.{Cjson}
use allonet.Common.Outcome.{Outcome, ok, assertion_failed, wild, out_of_fuel, ◌>>=◌}
use allonet.AssetStore.State.{Asset, Assets, Store}
use allonet.AssetStore.Prune.{
  Candidate, Qsort, Totals, min_age, max_age, max_bytes, max_count, check_interval,
  last_used_before, expire, remove, evict_count, evict_bytes, candidates, evict, lru_prune, tally,
}

-- No two entries have one key.
abbrev pub Lacks : String → Assets → Type 0
Lacks key s = All (λ e. e.0 ≢ key) s

abbrev pub Distinct : Assets → Type 0
Distinct [] = Unit {0}
Distinct ((k, a) ∷ rest) = Lacks k rest × Distinct rest

-- Static, or used within the last `min_age`.
abbrev pub IsHeld : ℕ → Asset → Type 0
IsHeld now a = last_used_before now min_age a ≡ false

expire-Lacks : (now : ℕ) (key : String) (s : Assets) → Lacks key s → Lacks key (expire now s)
unfolding expire
expire-Lacks now key [] h = tt
expire-Lacks now key ((k, a) ∷ rest) h = ground (arith, expire-Lacks now key rest h.1)

expire-Distinct : (now : ℕ) (s : Assets) → Distinct s → Distinct (expire now s)
unfolding expire
expire-Distinct now [] d = tt
expire-Distinct now ((k, a) ∷ rest) d =
    ground (arith, expire-Distinct now rest d.1, expire-Lacks now k rest d.0)

held-not-expired : (now : ℕ) (a : Asset) → IsHeld now a → last_used_before now max_age a ≡ false
held-not-expired now a h = ground arith

In-expire :
    (now : ℕ) (k : String) (a : Asset) (s : Assets)
    → IsHeld now a
    → In (k, a) s
    → In (k, a) (expire now s)
unfolding expire
In-expire now k a [] h i = i
In-expire now k a ((j, b) ∷ rest) h (inl e) = rw stays (inl e)
  where
    stays : last_used_before now max_age b ≡ false
    stays =
        subst (λ x. last_used_before now max_age x ≡ false) (ap (λ p. p.1) e)
          (held-not-expired now a h)
In-expire now k a ((j, b) ∷ rest) h (inr i) = elim (Bool-cases (last_used_before now max_age b)) [
  | inl gone ↦ rw gone (In-expire now k a rest h i)
  | inr stays ↦ rw stays (inr (In-expire now k a rest h i))
]

key-not-Lacks : (k : String) (a : Asset) (s : Assets) → Lacks k s → In (k, a) s → ⊥
key-not-Lacks k a [] l i = i
key-not-Lacks k a (x ∷ s) l (inl e) = l.0 (sym (ap (λ p. p.0) e))
key-not-Lacks k a (x ∷ s) l (inr i) = key-not-Lacks k a s l.1 i

In-remove : (k j : String) (a : Asset) (s : Assets) → j ≢ k → In (k, a) s → In (k, a) (remove j s)
unfolding remove
In-remove k j a [] ne i = i
In-remove k j a ((l, b) ∷ rest) ne (inl e) = rw other (inl e)
  where
    other : str_eq l j ≡ false
    other = ground (arith, eq_iff l j, ap (λ p. p.0) e)
In-remove k j a ((l, b) ∷ rest) ne (inr i) = elim (Bool-cases (str_eq l j)) [
  | inl hit ↦ rw hit i
  | inr miss ↦ rw miss (inr (In-remove k j a rest ne i))
]

-- No candidate for eviction is the entry named.
abbrev Avoids : String → List Candidate → Type 0
Avoids k l = All (λ c. c.key ≢ k) l

In-evict_count :
    (n : ℕ) (cs : List Candidate) (k : String) (a : Asset) (s : Assets)
    → Avoids k cs
    → In (k, a) s
    → In (k, a) (evict_count n cs s)
unfolding evict_count
In-evict_count n [] k a s v i = i
In-evict_count n (c ∷ cs) k a s v i =
    let kept = In-remove k c.key a s v.0 i in
    ground (arith, kept, In-evict_count (n - 1) cs k a (remove c.key s) v.1 kept)

In-evict_bytes :
    (n : ℕ) (cs : List Candidate) (k : String) (a : Asset) (s : Assets)
    → Avoids k cs
    → In (k, a) s
    → In (k, a) (evict_bytes n cs s)
unfolding evict_bytes
In-evict_bytes n [] k a s v i = i
In-evict_bytes n (c ∷ cs) k a s v i =
    let kept = In-remove k c.key a s v.0 i in
    ground (arith, kept, In-evict_bytes (sub_size n c.size) cs k a (remove c.key s) v.1 kept)

module _ (c : Cjson) (now : ℕ) where
  Avoids-candidates_of_Lacks : (k : String) (s : Assets) → Lacks k s → Avoids k (candidates c now s)
  unfolding candidates
  Avoids-candidates_of_Lacks k [] l = tt
  Avoids-candidates_of_Lacks k ((j, b) ∷ rest) l =
      ground (arith, Avoids-candidates_of_Lacks k rest l.1)

  Avoids-candidates :
      (k : String) (a : Asset) (s : Assets)
      → Distinct s
      → IsHeld now a
      → In (k, a) s
      → Avoids k (candidates c now s)
  unfolding candidates
  Avoids-candidates k a [] d h i = absurd i
  Avoids-candidates k a ((j, b) ∷ rest) d h (inl e) = ground (
    arith,
    ap (λ p. p.1) e,
    Avoids-candidates_of_Lacks k rest (subst (λ x. Lacks x rest) (sym (ap (λ p. p.0) e)) d.0),
  )
  Avoids-candidates k a ((j, b) ∷ rest) d h (inr i) = ground (
    arith,
    Avoids-candidates k a rest d.1 h i,
    (λ (e : j ≡ k). key-not-Lacks k a rest (subst (λ x. Lacks x rest) e d.0) i),
  )

module _ (c : Cjson) (q : Qsort) (now : ℕ) (k : String) (a : Asset) where
  Avoids-sorted : (l : List Candidate) → Avoids k l → Avoids k (q.by_size l) × Avoids k (q.by_age l)
  Avoids-sorted l v = (
    All-perm (λ (c : Candidate). c.key ≢ k) (λ x. ¬_prop) (q.by_size_perm l) v,
    All-perm (λ (c : Candidate). c.key ≢ k) (λ x. ¬_prop) (q.by_age_perm l) v,
  )

  In-evict :
      (t : Totals) (s : Assets)
      → Distinct s
      → IsHeld now a
      → In (k, a) s
      → In (k, a) (evict c q now t s)
  unfolding evict
  In-evict t s d h i =
      let v = Avoids-sorted (candidates c now s) (Avoids-candidates c now k a s d h i) in
      ground (
        arith,
        In-evict_bytes (t.memory - max_bytes) (q.by_size (candidates c now s)) k a s v.0 i,
        In-evict_count (t.count - max_count) (q.by_age (candidates c now s)) k a s v.1 i,
      )

  In-evict_ok :
      (sums : Outcome Totals) (s s' : Store)
      → Distinct (expire now s.assets)
      → IsHeld now a
      → In (k, a) (expire now s.assets)
      → (sums >>= λ t. ok (record s {
        next_state_prune = now + check_interval;
        assets = evict c q now t (expire now s.assets);
      }))
        ≡ ok s'
      → In (k, a) s'.assets
  In-evict_ok (ok t) s s' d h i e = ground (arith, In-evict t (expire now s.assets) d h i)
  In-evict_ok assertion_failed s s' d h i e = cc
  In-evict_ok wild s s' d h i e = cc
  In-evict_ok out_of_fuel s s' d h i e = cc

  -- An asset that is marked static, or that was used at most `min_age` ago, is still in the store
  -- after `_lru_prune`, whichever of its loops ran.
  pub In-lru_prune :
      (s s' : Store)
      → Distinct s.assets
      → IsHeld now a
      → In (k, a) s.assets
      → lru_prune c q now s ≡ ok s'
      → In (k, a) s'.assets
  unfolding lru_prune
  In-lru_prune s s' d h i e = ground (
    arith,
    In-evict_ok (tally c (record { count = 0; memory = 0 }) s.assets) s s'
        (expire-Distinct now s.assets d) h (In-expire now k a s.assets h i),
  )
