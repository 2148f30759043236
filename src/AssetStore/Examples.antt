-- ===== src/AssetStore/Examples.antt =====
-- The asset store at concrete values: tests, and the theorems where their hypotheses hold.
use text.Mathlib.TextEquality.{eq_iff}
use mathlib.Core.List.{flatten}
use mathlib.Core.Bool.{false≢true}
use allonet.Common.{
  ℕ, zero, suc, ◌≡◌, ◌≢◌, refl, [], ◌∷◌, some, none, true, false, String, arith, inl, inr,
}
use allonet.Common.All.{In}
use allonet.Common.Outcome.{ok, wild, assertion_failed}
use allonet.Ranges.View.{covers}
use allonet.Ranges.Place.{range}
use allonet.AssetStore.State.{Asset, Store, stamp, never_prune, get_asset, Buffer}
use allonet.AssetStore.Samples.{cjson, unsorted}
use allonet.AssetStore.Prune.{Candidate, lru_prune}
use allonet.AssetStore.Prune.Keep.{In-lru_prune}
use allonet.AssetStore.Prune.Evict.{IsFresh, lru_prune-IsFresh}
use allonet.AssetStore.Access.{store_bytes, new_asset}
use allonet.AssetStore.Plain.{tracked, new_store, assetstore_write, assetstore_write_again}
use allonet.Ranges.Merge.{merge_range_first}
use allonet.AssetStore.Access.Fill.{finished, write_chunks, write_chunks_in_order}
use allonet.AssetStore.Access.Bounds.{store_bytes-wild}
use allonet.AssetStore.Access.Tracks.{
  Agrees, Written, partial, is_written, byte_after, store_bytes-Written,
}
use allonet.Common.{get_elem?, ◌%◌, ◌^◌, ◌-◌, ◌+◌, ◌≤◌, ◌↔◌}

-- Three of four bytes are there, last used at time 0; and a static asset.
abbrev part : Asset
part = record {
  complete = some false;
  total_size = some 4;
  ranges = some (range 0 2 ∷ []);
  buffer = some (some 7 ∷ some 8 ∷ none ∷ none ∷ []);
  lru = some (stamp 0);
}

abbrev static : Asset
static = record {
  complete = some true;
  total_size = some 1;
  ranges = none;
  buffer = some (some 5 ∷ []);
  lru = some never_prune;
}

abbrev store : Store
store = record {
  assets = ("part", part) ∷ ("static", static) ∷ [];
  use_cache = true;
  cache_count = 0;
  cache_size = 0;
  next_state_prune = 0;
}

abbrev pruned : Store
pruned = record store { assets = ("static", static) ∷ []; next_state_prune = 1_010_000 }

prunes_old : lru_prune cjson unsorted 1_000_000 store ≡ ok pruned
unfolding lru_prune
prunes_old = refl

static-ne-part : ◌≢◌ {A = String} "static" "part"
static-ne-part e = false≢true ((eq_iff "static" "part").1 e)

In-lru_prune_example : In ("static", static) pruned.assets
unfolding lru_prune
In-lru_prune_example =
    In-lru_prune cjson unsorted 1_000_000 "static" static store pruned
      ((static-ne-part, tt), (tt, tt)) refl (inr (inl refl)) refl

lru_prune-IsFresh_example : IsFresh 1_000_000 pruned.assets
unfolding lru_prune
lru_prune-IsFresh_example = lru_prune-IsFresh cjson unsorted 1_000_000 store pruned refl refl refl

abbrev big : Candidate
big = record { key = "part"; size = 9; used = 0 }

abbrev small : Candidate
small = record { key = "static"; size = 3; used = 0 }

write_chunks_in_order_example :
    write_chunks cjson 5 0 ((1 ∷ 2 ∷ []) ∷ (3 ∷ 4 ∷ 5 ∷ []) ∷ []) (new_asset 5)
    ≡ ok (finished (1 ∷ 2 ∷ 3 ∷ 4 ∷ 5 ∷ []) 0 5)
unfolding flatten
write_chunks_in_order_example =
    write_chunks_in_order cjson 5 (omega arith) (1 ∷ 2 ∷ []) ((3 ∷ 4 ∷ 5 ∷ []) ∷ []) refl
      (omega arith) (omega arith, tt)

-- The byte at 2 is never sent.
abbrev buf : Buffer
buf = some 7 ∷ some 8 ∷ none ∷ none ∷ []

found : get_asset cjson "part" store.assets ≡ some part
unfolding get_asset
found = refl

-- An offset of -1, and one byte.
before_start : store_bytes cjson (2 ^ 64 - 1) (1 ∷ []) 4 part ≡ wild
unfolding store_bytes
before_start = refl

store_bytes-wild_example :
    (store_bytes cjson (2 ^ 64 - 1) (1 ∷ []) 4 part ≡ wild)
    ↔ ((2 ^ 64 ≤ (2 ^ 64 - 1) + 1) × (((2 ^ 64 - 1) + 1) % 2 ^ 64 ≤ 4))
store_bytes-wild_example =
    store_bytes-wild cjson part buf (2 ^ 64 - 1) (1 ∷ []) refl refl (omega arith)

no_bytes : (x : ℕ) → is_written (none ∷ none ∷ []) x ≡ true → covers [] x ≡ true
unfolding covers
no_bytes zero w = w
no_bytes (suc zero) w = w
no_bytes (suc (suc x)) w = w

empty-Agrees : Agrees 2 (none ∷ none ∷ []) []
unfolding covers
empty-Agrees = record {
  size = refl;
  ranges = record { ordered = tt; small = tt };
  recorded = no_bytes;
  honest = λ x w. absurd (false≢true w);
}

store_bytes-Written_example :
    (a' : Asset) × (buf' : Buffer) × (store_bytes cjson 1
        (6 ∷ [])
        2
        (partial (new_asset 2) 2 (none ∷ none ∷ []) [])
      ≡ ok a')
    × ((x : ℕ) → get_elem? buf' x ≡ byte_after (none ∷ none ∷ []) 1 (6 ∷ []) x)
    × Written (new_asset 2) 2 buf' a'
store_bytes-Written_example =
    store_bytes-Written cjson (new_asset 2) 2 (omega arith) (none ∷ none ∷ []) [] 1 (6 ∷ [])
      empty-Agrees (omega arith) (omega arith)

abbrev after_first : Store
after_first = record new_store {
  assets = ("a", record (tracked 5) { ranges = some (range 0 2 ∷ []); lru = some (stamp 7) }) ∷ [];
}

writes_first : assetstore_write cjson unsorted 7 "a" 0 2 5 new_store ≡ ok (after_first, 2)
unfolding assetstore_write
writes_first = rw (merge_range_first 2 (omega arith)) refl

assetstore_write_again_example :
    assetstore_write cjson unsorted 8 "a" 2 3 5 after_first ≡ assertion_failed
unfolding get_asset
assetstore_write_again_example =
    assetstore_write_again cjson unsorted 7 8 "a" 0 2 5 2 2 3 5 new_store after_first refl refl
      writes_first
