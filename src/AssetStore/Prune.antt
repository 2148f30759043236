-- ===== src/AssetStore/Prune.antt =====
-- `_lru_tag` and `_lru_prune`: which assets leave the cache, and when.
-- What `_lru_prune` only counts in order to print it is left out.
pub mod Keep
pub mod Evict
use text.Mathlib.Text.{◌==◌ as str_eq}
use mathlib.Core.List.{Perm}
use allonet.Common.{
  ℕ, ◌+◌, ◌-◌, ◌*◌, ◌≡◌, List, [], ◌∷◌, Option, none, some, Bool, true, false, ◌||◌, String, ltb,
  leb, if◌then◌else◌, length,
}
use allonet.Common.Size.{add_size, sub_size}
use allonet.Common.Cjson.{Cjson}
use allonet.Common.Outcome.{Outcome, ok, deref, ◌>>=◌}
use allonet.AssetStore.State.{Asset, Assets, Store, Lru, stamp, never_prune}

-- kCacheCheckInterval, kCacheMinAge, kCacheMaxAge (milliseconds), kCacheMaxCount, kCacheMaxBytes.
abbrev pub check_interval : ℕ
check_interval = 10_000

abbrev pub min_age : ℕ
min_age = 5_000

abbrev pub max_age : ℕ
max_age = 600_000

abbrev pub max_count : ℕ
max_count = 400

abbrev pub max_bytes : ℕ
max_bytes = 1024 * 1024 * 1024

unfoldable pub lru_tag : ℕ → Asset → Asset
lru_tag now a = elim a.lru [
  | some never_prune ↦ a
  | some (stamp _) ↦ record a { lru = some (stamp now) }
  | none ↦ record a { lru = some (stamp now) }
]

-- What the first loop sums up, and what it takes out: entries last used before `max_age` ago.
pub record Totals : Type 0 where
  pub count : ℕ
  pub memory : ℕ

abbrev pub last_used_before : ℕ → ℕ → Asset → Bool
last_used_before now age a = elim a.lru [
  | some (stamp t) ↦ ltb (t + age) now
  | some never_prune ↦ false
  | none ↦ false
]

unfoldable pub expire : ℕ → Assets → Assets
expire now [] = []
expire now ((k, a) ∷ rest) =
    if last_used_before now max_age a then expire now rest else (k, a) ∷ expire now rest

-- An entry of the array that is sorted. (The pointer to the asset's object is its key here, the
-- keys of one cJSON object being different.)
pub record Candidate : Type 0 where
  pub key : String
  pub size : ℕ
  pub used : ℕ

-- `qsort` by `_lru_compare_size`, the largest first, and by `_lru_compare_age`, which takes uses
-- less than a second apart for equal and so promises no order among them.
pub record Qsort : Type 0 where
  pub by_size : List Candidate → List Candidate
  pub by_age : List Candidate → List Candidate
  pub by_size_perm : (l : List Candidate) → Perm (by_size l) l
  pub by_age_perm : (l : List Candidate) → Perm (by_age l) l

-- `cJSON_DetachItemViaPointer`, then `cJSON_Delete`; `_clear_state` frees the buffer.
unfoldable pub remove : String → Assets → Assets
remove key [] = []
remove key ((k, a) ∷ rest) = if str_eq k key then rest else (k, a) ∷ remove key rest

-- The loop over the sorted candidates with `mode == 0`, and with `mode == 1`.
unfoldable pub evict_count : ℕ → List Candidate → Assets → Assets
unfolding remove
evict_count to_evict [] s = s
evict_count to_evict (c ∷ cs) s = elim (leb to_evict 1) [
  | true ↦ remove c.key s
  | false ↦ evict_count (to_evict - 1) cs (remove c.key s)
]

unfoldable pub evict_bytes : ℕ → List Candidate → Assets → Assets
unfolding remove
evict_bytes to_free [] s = s
evict_bytes to_free (c ∷ cs) s = elim (ltb (sub_size to_free c.size) max_bytes) [
  | true ↦ remove c.key s
  | false ↦ evict_bytes (sub_size to_free c.size) cs (remove c.key s)
]

module _ (c : Cjson) where
  open c use {valueint}

  -- `cJSON_GetObjectItemCaseSensitive(state, "total_size")->valueint`.
  abbrev pub size_of : Asset → Outcome ℕ
  size_of a = do t ← deref a.total_size; ok (valueint t)

  unfoldable pub tally : Totals → Assets → Outcome Totals
  tally sums [] = ok sums
  tally sums ((k, a) ∷ rest) = size_of a >>= λ size.
      tally (record { count = sums.count + 1; memory = add_size sums.memory size }) rest

  -- "skips static (lru is a bool:true), and too recently used".
  unfoldable pub candidates : ℕ → Assets → List Candidate
  candidates now [] = []
  candidates now ((k, a) ∷ rest) = elim a.lru [
    | some (stamp t) ↦ elim a.total_size [
      | some n ↦
          if ltb (t + min_age) now
          then record { key = k; size = valueint n; used = t } ∷ candidates now rest
          else candidates now rest
      | none ↦ candidates now rest
    ]
    | some never_prune ↦ candidates now rest
    | none ↦ candidates now rest
  ]

abbrev pub is_due : ℕ → Store → Bool
is_due now s =
    ltb s.next_state_prune now || (ltb max_count s.cache_count || ltb max_bytes s.cache_size)

module _ (c : Cjson) (q : Qsort) where
  unfoldable pub evict : ℕ → Totals → Assets → Assets
  unfolding candidates evict_count evict_bytes
  evict now t s =
      if ltb max_bytes t.memory
      then evict_bytes (t.memory - max_bytes) (q.by_size (candidates c now s)) s
      else if ltb max_count t.count
      then evict_count (t.count - max_count) (q.by_age (candidates c now s)) s
      else s

  -- `_lru_prune`.
  unfoldable pub lru_prune : ℕ → Store → Outcome Store
  unfolding tally expire evict
  lru_prune now s = elim s.use_cache [
    | false ↦ ok s
    | true ↦
        if is_due now s
        then (do
          totals ← tally c (record { count = 0; memory = 0 }) s.assets
          ok (record s {
            next_state_prune = now + check_interval;
            assets = evict now totals (expire now s.assets);
          }))
        else ok s
  ]
