-- ===== src/AssetStore/Prune/Evict.antt =====
-- What `_lru_prune` takes out of the cache.
use allonet.Common.{
  ℕ, ◌+◌, ◌-◌, ◌^◌, ◌≤◌, ◌<◌, ◌≡◌, refl, List, [], ◌∷◌, true, false, String, arith,
}
use allonet.Common.All.{All}
use allonet.Common.Size.{sub_size}
use allonet.Common.Cjson.{Cjson}
use allonet.Common.Outcome.{Outcome, ok, assertion_failed, wild, out_of_fuel, ◌>>=◌}
use allonet.AssetStore.State.{Assets, Store}
use allonet.AssetStore.Prune.{
  Candidate, Qsort, Totals, max_age, max_bytes, max_count, check_interval, last_used_before, expire,
  remove, evict_count, evict_bytes, candidates, evict, lru_prune, tally, is_due,
}

-- No asset was last used before `max_age` ago.
abbrev pub IsFresh : ℕ → Assets → Type 0
IsFresh now s = All (λ e. last_used_before now max_age e.1 ≡ false) s

expire-IsFresh : (now : ℕ) (s : Assets) → IsFresh now (expire now s)
unfolding expire
expire-IsFresh now [] = tt
expire-IsFresh now ((k, a) ∷ rest) = ground (arith, expire-IsFresh now rest)

remove-IsFresh : (now : ℕ) (key : String) (s : Assets) → IsFresh now s → IsFresh now (remove key s)
unfolding remove
remove-IsFresh now key [] f = tt
remove-IsFresh now key ((k, a) ∷ rest) f = ground (arith, remove-IsFresh now key rest f.1)

evict_count-IsFresh :
    (now n : ℕ) (cs : List Candidate) (s : Assets)
    → IsFresh now s
    → IsFresh now (evict_count n cs s)
unfolding evict_count
evict_count-IsFresh now n [] s f = f
evict_count-IsFresh now n (c ∷ cs) s f =
    let kept = remove-IsFresh now c.key s f in
    ground (arith, kept, evict_count-IsFresh now (n - 1) cs (remove c.key s) kept)

evict_bytes-IsFresh :
    (now n : ℕ) (cs : List Candidate) (s : Assets)
    → IsFresh now s
    → IsFresh now (evict_bytes n cs s)
unfolding evict_bytes
evict_bytes-IsFresh now n [] s f = f
evict_bytes-IsFresh now n (c ∷ cs) s f =
    let kept = remove-IsFresh now c.key s f in
    ground (arith, kept, evict_bytes-IsFresh now (sub_size n c.size) cs (remove c.key s) kept)

module _ (c : Cjson) (q : Qsort) (now : ℕ) where
  evict-IsFresh : (t : Totals) (s : Assets) → IsFresh now s → IsFresh now (evict c q now t s)
  unfolding evict
  evict-IsFresh t s f = ground (
    arith,
    evict_bytes-IsFresh now (t.memory - max_bytes) (q.by_size (candidates c now s)) s f,
    evict_count-IsFresh now (t.count - max_count) (q.by_age (candidates c now s)) s f,
  )

  evict_ok-IsFresh :
      (sums : Outcome Totals) (s s' : Store)
      → (sums >>= λ t. ok (record s {
        next_state_prune = now + check_interval;
        assets = evict c q now t (expire now s.assets);
      }))
        ≡ ok s'
      → IsFresh now s'.assets
  evict_ok-IsFresh (ok t) s s' e =
      ground (arith, evict-IsFresh t (expire now s.assets) (expire-IsFresh now s.assets))
  evict_ok-IsFresh assertion_failed s s' e = cc
  evict_ok-IsFresh wild s s' e = cc
  evict_ok-IsFresh out_of_fuel s s' e = cc

  -- Once `_lru_prune` has run on a store with a cache, when it was due, no asset is left that was
  -- last used more than `max_age` ago.
  pub lru_prune-IsFresh :
      (s s' : Store)
      → s.use_cache ≡ true
      → is_due now s ≡ true
      → lru_prune c q now s ≡ ok s'
      → IsFresh now s'.assets
  unfolding lru_prune
  lru_prune-IsFresh s s' u d e =
      ground (arith, evict_ok-IsFresh (tally c (record { count = 0; memory = 0 }) s.assets) s s')

-- Every candidate removed.
unfoldable pub remove_all : List Candidate → Assets → Assets
remove_all [] s = s
remove_all (c ∷ cs) s = remove_all cs (remove c.key s)

unfoldable pub total : List Candidate → ℕ
total [] = 0
total (c ∷ cs) = c.size + total cs

evict_bytes_far :
    (n : ℕ) (cs : List Candidate) (s : Assets)
    → total cs + max_bytes ≤ n
    → n < 2 ^ 64
    → evict_bytes n cs s ≡ remove_all cs s
unfolding evict_bytes remove_all total
evict_bytes_far n [] s h l = refl
evict_bytes_far n (c ∷ cs) s h l =
    ground (arith, evict_bytes_far (sub_size n c.size) cs (remove c.key s))

-- The countdown `bytes_to_free -= size` is compared with kCacheMaxBytes, and not with 0. If the
-- first candidate is larger than what is to be freed it wraps, and every candidate is evicted.
pub evict_bytes_wraps :
    (n : ℕ) (c : Candidate) (cs : List Candidate) (s : Assets)
    → n < c.size
    → total (c ∷ cs) + max_bytes ≤ 2 ^ 64
    → evict_bytes n (c ∷ cs) s ≡ remove_all (c ∷ cs) s
unfolding evict_bytes remove_all total
evict_bytes_wraps n c cs s h l =
    ground (arith, evict_bytes_far (sub_size n c.size) cs (remove c.key s))
