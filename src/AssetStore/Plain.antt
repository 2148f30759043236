-- ===== src/AssetStore/Plain.antt =====
-- The store that is there before `asset_memstore_init`: `_assetstore_read` and `_assetstore_write`,
-- which track what has arrived and keep no bytes.
use allonet.Common.{ℕ, ◌≡◌, refl, ◌∙◌, [], ◌∷◌, ◌++◌, some, none, false, ◌||◌, String, arith, subst}
use allonet.Common.Size.{add_size}
use allonet.Common.Cases.{>>=-ok_inv}
use allonet.Common.Cjson.{Cjson}
use allonet.Common.Outcome.{Outcome, ok, assertion_failed, assert, ◌>>=◌, ◌>>◌}
use allonet.AssetStore.State.{Asset, Assets, Store, get_asset, set_asset}
use allonet.AssetStore.Prune.{Qsort, lru_tag, lru_prune}
use allonet.AssetStore.Access.{merge_into, update_state, is_some, is_true}

-- An asset of which nothing has arrived, without a buffer.
abbrev pub tracked : ℕ → Asset
tracked total = record {
  complete = some false;
  total_size = some total;
  ranges = some [];
  buffer = none;
  lru = none;
}

-- `assetstore_init`.
abbrev pub new_store : Store
new_store = record {
  assets = [];
  use_cache = false;
  cache_count = 0;
  cache_size = 0;
  next_state_prune = 0;
}

module _ (c : Cjson) (q : Qsort) (now : ℕ) (id : String) where
  -- What follows once the object of the asset is there; the chunk has `length` bytes.
  unfoldable pub track : ℕ → ℕ → Asset → Store → Outcome (Store × ℕ)
  unfolding merge_into update_state lru_tag lru_prune set_asset
  track offset length a s = merge_into a.ranges offset (add_size offset length) >>= λ ranges.
      update_state c (record a { ranges = ranges }) >>= λ a'.
      lru_prune c q now (record s { assets = set_asset c id (lru_tag now a') s.assets }) >>= λ s'.
      ok (s', length)

  -- `_assetstore_write`.
  unfoldable pub assetstore_write : ℕ → ℕ → ℕ → Store → Outcome (Store × ℕ)
  unfolding track get_asset
  assetstore_write offset length total s = elim (get_asset c id s.assets) [
    | some a ↦
        assert (is_some a.ranges || is_true a.complete)
        >> (assert (is_some a.buffer) >> track offset length a s)
    | none ↦
        track offset length (tracked total)
          (record s { assets = s.assets ++ ((id, tracked total) ∷ []) })
  ]

  -- `_assetstore_read`, which always returns -1.
  unfoldable pub assetstore_read : Store → Outcome Store
  unfolding get_asset lru_tag lru_prune set_asset
  assetstore_read s = elim (get_asset c id s.assets) [
    | none ↦ ok s
    | some a ↦ lru_prune c q now (record s { assets = set_asset c id (lru_tag now a) s.assets })
  ]

  pub get_asset-append :
      (a : Asset) (s : Assets)
      → get_asset c id s ≡ none
      → get_asset c id (s ++ ((id, a) ∷ [])) ≡ some a
  unfolding get_asset
  get_asset-append a [] e = ground (arith, c.same_key_refl id)
  get_asset-append a ((k, b) ∷ rest) e = ground (arith, get_asset-append a rest)

  pub get_asset-set_asset :
      (a b : Asset) (s : Assets)
      → get_asset c id s ≡ some a
      → get_asset c id (set_asset c id b s) ≡ some b
  unfolding get_asset set_asset
  get_asset-set_asset a b [] e = cc
  get_asset-set_asset a b ((k, d) ∷ rest) e = ground (arith, get_asset-set_asset a b rest)

  update_state-buffer : (a a' : Asset) → update_state c a ≡ ok a' → a'.buffer ≡ a.buffer
  unfolding update_state
  update_state-buffer a a' e = ground arith

  lru_tag-buffer : (a : Asset) → (lru_tag now a).buffer ≡ a.buffer
  unfolding lru_tag
  lru_tag-buffer a = ground arith

  uncached : (s s' : Store) → s.use_cache ≡ false → lru_prune c q now s ≡ ok s' → s ≡ s'
  unfolding lru_prune
  uncached s s' e p = ground arith

  -- An asset that is there without a buffer makes a write fail its assertion.
  refuses :
      (offset length total : ℕ) (s : Store) (a : Asset)
      → get_asset c id s.assets ≡ some a
      → a.buffer ≡ none
      → assetstore_write offset length total s ≡ assertion_failed
  unfolding assetstore_write
  refuses offset length total s a found none_there = ground (arith, found, none_there)

  track-buffer :
      (offset length n : ℕ) (a : Asset) (s s' : Store)
      → s.use_cache ≡ false
      → get_asset c id s.assets ≡ some a
      → track offset length a s ≡ ok (s', n)
      → (b : Asset) × (get_asset c id s'.assets ≡ some b) × (b.buffer ≡ a.buffer)
  unfolding track
  track-buffer offset length n a s s' cache found e =
      let (ranges, e1, _) = >>=-ok_inv _ (merge_into a.ranges offset (add_size offset length)) e in
      let (a', e2, updated) = >>=-ok_inv _ (update_state c (record a { ranges = ranges })) e1 in
      let t = record s { assets = set_asset c id (lru_tag now a') s.assets } in
      let (u, e3, pruned) = >>=-ok_inv _ (lru_prune c q now t) e2 in
      let same : u ≡ s' = ground (arith, e3) in
      (
        lru_tag now a',
        subst (λ x. get_asset c id x.assets ≡ some (lru_tag now a'))
            (uncached t u cache pruned ∙ same)
            (get_asset-set_asset a (lru_tag now a') s.assets found),
        lru_tag-buffer a' ∙ update_state-buffer (record a { ranges = ranges }) a' updated,
      )

-- In a store that only tracks transfers the first chunk of an asset can be written, and every later
-- one fails an assertion: it asks for the bytes that this store never keeps.
pub assetstore_write_again :
    (c : Cjson) (q : Qsort) (now later : ℕ) (id : String)
    (offset length total n offset' length' total' : ℕ) (s s' : Store)
    → s.use_cache ≡ false
    → get_asset c id s.assets ≡ none
    → assetstore_write c q now id offset length total s ≡ ok (s', n)
    → assetstore_write c q later id offset' length' total' s' ≡ assertion_failed
unfolding assetstore_write
assetstore_write_again c q now later id offset length total n offset' length' total' s s' cache new
      e =
    let t = record s { assets = s.assets ++ ((id, tracked total) ∷ []) } in
    let first : track c q now id offset length (tracked total) t ≡ ok (s', n) =
      subst (λ o. o ≡ ok (s', n)) (rw (assetstore_write, new) refl) e in
    let (b, found, none_there) =
      track-buffer c q now id offset length n (tracked total) t s' cache
        (get_asset-append c q now id (tracked total) s.assets new) first in
    refuses c q later id offset' length' total' s' b found none_there
