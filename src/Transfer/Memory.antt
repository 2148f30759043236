-- ===== src/Transfer/Memory.antt =====
-- A download from a server with an in-memory store, src/assetstore.c, by a client whose program keeps
-- what it receives.
use allonet.Common.{
  ℕ, zero, suc, ◌*◌, ◌+◌, ◌-◌, ◌<◌, ◌≤◌, ◌≡◌, refl, ap, ◌∙◌, List, [], ◌∷◌, ◌++◌, Option, some,
  Bool, true, false, String, arith, map, length, take, drop, min, length-map,
}
use allonet.Common.Cjson.{Cjson}
use allonet.Common.Size.{int_limit}
use allonet.Common.Outcome.{ok}
use allonet.AssetStore.State.{Asset, Store, set_asset}
use allonet.AssetStore.Prune.{Qsort, is_due, lru_tag, lru_prune}
use allonet.AssetStore.Access.{bytes}
use allonet.AssetStore.Access.Bounds.{memstore_read_inside}
use allonet.AssetStore.Plain.{get_asset-set_asset}
use allonet.Server.{Storage, Server, Peer, chunk_size}
use allonet.Server.Memory.{memory_storage, HasBytes}
use allonet.Transfer.Fetch.{Source, Sink}
use allonet.Transfer.Download.{download}
use allonet.Transfer.{exchange}
use allonet.Client.Assets.{
  AssetClient, Callbacks, asset_write, now_available, alloclient_asset_request, report_state,
}

not_due :
    (c : Cjson) (q : Qsort) (now : ℕ) (s : Store)
    → is_due now s ≡ false
    → lru_prune c q now s ≡ ok s
unfolding lru_prune
not_due c q now s due = ground (arith, due)

lru_tag-fields :
    (now : ℕ) (a : Asset)
    → ((lru_tag now a).buffer ≡ a.buffer) × ((lru_tag now a).total_size ≡ a.total_size)
unfolding lru_tag
lru_tag-fields now a = (ground arith, ground arith)

map-take : (m : ℕ) (xs : List ℕ) → take m (map some xs) ≡ map some (take m xs)
map-take zero xs = refl
map-take (suc m) [] = refl
map-take (suc m) (x ∷ xs) = ap (λ l. some x ∷ l) (map-take m xs)

map-drop : (m : ℕ) (xs : List ℕ) → drop m (map some xs) ≡ map some (drop m xs)
map-drop zero xs = refl
map-drop (suc m) [] = refl
map-drop (suc m) (x ∷ xs) = map-drop m xs

module _ (c : Cjson) (q : Qsort) (allocates : ℕ → Bool) (now : ℕ) (id : String) (data' : List ℕ)
    (small : length data' < int_limit) where
  reads_part :
      (offset len : ℕ) (s : Store)
      → HasBytes c now id (map some data') s
      → offset < length data'
      → (s' : Store) × ((memory_storage c q allocates now).read id offset len s
          ≡ ok (
            s',
            bytes
                (map some (take (min len (length data' - offset)) (drop offset data')))
                (length data'),
          ))
        × HasBytes c now id (map some data') s'
  reads_part offset len s (a, found, there, total, due) inside =
      let size : length (map {B = Option ℕ} some data') ≡ length data' =
        length-map data' (λ (x : ℕ). some x) in
      let m = min len (length data' - offset) in
      let part : take m (drop offset (map some data')) ≡ map some (take m (drop offset data')) =
        ap (take m) (map-drop offset data') ∙ map-take m (drop offset data') in
      let s' : Store = record s { assets = set_asset c id (lru_tag now a) s.assets } in
      (
        s',
        memstore_read_inside c q now id s a (map some data') found there offset len total
              (omega (arith, size)) (omega (arith, size))
            ∙ rw (not_due c q now s' due, size, part) refl,
        (
          lru_tag now a,
          get_asset-set_asset c q now id a (lru_tag now a) s.assets found,
          (lru_tag-fields now a).0 ∙ there,
          (lru_tag-fields now a).1 ∙ total,
          due,
        ),
      )

  memory_source : Source (memory_storage c q allocates now) id data'
  memory_source = record {
    Serves = HasBytes c now id (map some data');
    serve = λ offset len s h inside pos. reads_part offset len s h inside;
  }

-- A program that keeps what it is given, and a callback for what the client receives that gives it
-- each chunk, with its offset and the total size.
pub record Keeper (P : Type 0) (id : String) (data' : List ℕ) : Type 1 where
  pub take_chunk : String → List ℕ → ℕ → ℕ → P → P
  pub Has : List ℕ → P → Type 0
  pub keeps :
      (front part : List ℕ) (p : P)
      → Has front p
      → length front + length part ≤ length data'
      → Has (front ++ part) (take_chunk id part (length front) (length data') p)

abbrev pub receiving :
    {T P : Type 0}
    → (String → List ℕ → ℕ → ℕ → P → P)
    → String
    → List ℕ
    → ℕ
    → ℕ
    → AssetClient T P
    → AssetClient T P
receiving take_chunk id part offset total c = record c {
  program = take_chunk id part offset total c.program;
}

keeper_sink :
    {T P : Type 0} (store : Storage T) (calls : Callbacks T P) (id : String) (data' : List ℕ)
    (keeper : Keeper P id data')
    → calls.receive_callback ≡ some (receiving keeper.take_chunk)
    → Sink store calls id (length data')
unfolding asset_write
keeper_sink store calls id data' keeper set = record {
  Holds = keeper.Has;
  accept = λ front part c h pos fits. (
    keeper.take_chunk id part (length front) (length data') c.program,
    rw (asset_write, set) refl,
    keeper.keeps front part c.program h fits,
  );
}

module _ {T P : Type 0} (c : Cjson) (q : Qsort) (allocates : ℕ → Bool) (now : ℕ) (store : Storage T)
    (calls : Callbacks T P) (garbage : ℕ) (p : Peer) (id : String) (data' : List ℕ)
    (keeper : Keeper P id data') where
  -- A client that has a peer asks the server for an asset that is not empty and is below 2^31
  -- bytes. The server's in-memory store has the bytes, and was pruned a moment ago. The client's
  -- callback for what it receives gives each chunk to the program, which keeps it if it is the next
  -- one; its callback for states, if it has one, sends nothing. Then chunk after chunk comes in, with
  -- two rounds for each, until nothing is on the way: the program has got all the bytes, in order, the
  -- server still has them, and then the client has reported that the asset is available, once.
  pub download_memory :
      (k : ℕ) (s : Server Store) (client : AssetClient T P)
      → length data' < int_limit
      → 0 < length data'
      → length data' ≤ k * chunk_size
      → calls.receive_callback ≡ some (receiving keeper.take_chunk)
      → ((d : AssetClient T P)
          → d.sent ≡ []
          → (report_state store calls id now_available d).sent ≡ [])
      → s.sent ≡ []
      → client.sent ≡ []
      → client.has_peer ≡ true
      → HasBytes c now id (map some data') s.store
      → keeper.Has [] client.program
      → (st : Store) × (last : P) × (exchange
            (memory_storage c q allocates now)
            store
            calls
            garbage
            p
            (2 * k + 1)
            (record { server = s; client = alloclient_asset_request id client })
          ≡ ok (record {
            server = record s { store = st; sent = [] };
            client =
                report_state store calls id now_available
                  (record client { program = last; sent = [] });
          }))
        × HasBytes c now id (map some data') st
        × keeper.Has data' last
  unfolding memory_source keeper_sink
  download_memory k s client small more rounds set quiet none_sent none_asked peer has empty =
      download (memory_storage c q allocates now) store calls garbage p id data' small
        (memory_source c q allocates now id data' small)
        (keeper_sink store calls id data' keeper set) quiet k s client more rounds none_sent
        none_asked peer has empty
