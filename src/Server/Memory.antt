-- ===== src/Server/Memory.antt =====
-- The store that `allo_listen` gives the server, an in-memory store, at one time.
use allonet.Common.{
  ℕ, suc, ◌-◌, ◌^◌, ◌<◌, ◌≡◌, refl, ◌∙◌, ◌∷◌, ◌++◌, Option, some, Bool, false, String, length, take,
  drop, min, arith, length-take,
}
use allonet.Common.Cjson.{Cjson}
use allonet.Common.Outcome.{ok}
use allonet.AssetStore.State.{Asset, Store, Buffer, get_asset, set_asset}
use allonet.AssetStore.Prune.{Qsort, is_due, lru_tag, lru_prune}
use allonet.AssetStore.Access.{memstore_read, memstore_write, bytes}
use allonet.AssetStore.Access.Bounds.{memstore_read_inside}
use allonet.AssetStore.Plain.{get_asset-set_asset}
use allonet.Server.{Storage, Server, Wanted, Peer, chunk_size, find_wanted, drop_wanted}
use allonet.Server.Handle.{forward}
use allonet.Server.Forward.{first_chunks, forward_served}

-- `asset_memstore_init`, what it sets `read` and `write` to.
abbrev pub memory_storage : Cjson → Qsort → (ℕ → Bool) → ℕ → Storage Store
memory_storage c q allocates now = record {
  read = memstore_read c q now;
  write = memstore_write c q allocates now;
}

-- The asset is in the store, with these bytes, and the store was pruned a moment ago.
abbrev pub HasBytes : Cjson → ℕ → String → Buffer → Store → Type 0
HasBytes c now id buf s =
    (a : Asset) × (get_asset c id s.assets ≡ some a)
    × (a.buffer ≡ some buf)
    × (a.total_size ≡ some (length buf))
    × (is_due now s ≡ false)

-- The bytes behind the first `b` in the chunk that an asset starts with.
abbrev pub chunk_rest : Option ℕ → Buffer → Buffer
chunk_rest b rest = take (min chunk_size (length (b ∷ rest)) - 1) rest

module _ (c : Cjson) (q : Qsort) (allocates : ℕ → Bool) (now : ℕ) (id : String) (b : Option ℕ)
    (rest : Buffer) (small : length (b ∷ rest) < 2 ^ 64) where
  not_due : (s : Store) → is_due now s ≡ false → lru_prune c q now s ≡ ok s
  unfolding lru_prune
  not_due s e = ground (arith, e)

  lru_tag-fields :
      (a : Asset)
      → ((lru_tag now a).buffer ≡ a.buffer) × ((lru_tag now a).total_size ≡ a.total_size)
  unfolding lru_tag
  lru_tag-fields a = (ground arith, ground arith)

  first_chunk :
      take (min chunk_size (length (b ∷ rest) - 0)) (drop 0 (b ∷ rest)) ≡ b ∷ chunk_rest b rest
  first_chunk =
      let e : min chunk_size (length (b ∷ rest) - 0)
          ≡ suc (min chunk_size (length (b ∷ rest)) - 1) =
        omega arith in
      rw e refl

  serves :
      (s : Store)
      → HasBytes c now id (b ∷ rest) s
      → (s' : Store) × ((memory_storage c q allocates now).read id 0 chunk_size s
          ≡ ok (s', bytes (b ∷ chunk_rest b rest) (length (b ∷ rest))))
        × HasBytes c now id (b ∷ rest) s'
  serves s (a, found, there, total, due) =
      let s' : Store = record s { assets = set_asset c id (lru_tag now a) s.assets } in
      (
        s',
        memstore_read_inside c q now id s a (b ∷ rest) found there 0 chunk_size total (omega arith)
              small
            ∙ rw (not_due s' due, first_chunk) refl,
        (
          lru_tag now a,
          get_asset-set_asset c q now id a (lru_tag now a) s.assets found,
          (lru_tag-fields a).0 ∙ there,
          (lru_tag-fields a).1 ∙ total,
          due,
        ),
      )

  -- A server with an in-memory store that has the bytes of an asset, and was pruned a moment ago,
  -- sends the first chunk of it to every recipient, once each and in the order they asked, and
  -- forgets that it was wanted; the store still has the asset.
  pub forward_memory :
      (fuel : ℕ) (client : Peer) (s : Server Store) (w : Wanted)
      → find_wanted id s.wanted ≡ some w
      → length w.recipients < fuel
      → HasBytes c now id (b ∷ rest) s.store
      → (st : Store) × (forward (memory_storage c q allocates now) fuel id client s
          ≡ ok (record s {
            store = st;
            wanted = drop_wanted id s.wanted;
            sent =
                s.sent ++ first_chunks id (length (b ∷ rest)) (b ∷ chunk_rest b rest) w.recipients;
          }))
        × HasBytes c now id (b ∷ rest) st
  forward_memory fuel client s w =
      forward_served (memory_storage c q allocates now) id client b (chunk_rest b rest)
        (length (b ∷ rest))
        (omega (arith, length-take (min chunk_size (length (b ∷ rest)) - 1) rest)) small
        (HasBytes c now id (b ∷ rest)) serves fuel s w
