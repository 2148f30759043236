-- ===== src/Transfer/Examples.antt =====
-- A download at concrete stores: tests, and the theorem where its hypotheses hold.
use allonet.Common.{ℕ, ◌≡◌, refl, ap, List, [], ◌∷◌, ◌++◌, some, none, true, arith, map, ◌*◌, ◌+◌}
use allonet.Common.Outcome.{ok}
use allonet.AssetStore.State.{Asset, Store, never_prune, get_asset}
use allonet.AssetStore.Samples.{cjson, unsorted}
use allonet.AssetStore.Access.{no_such_asset, out_of_memory}
use allonet.Server.{Storage, Server}
use allonet.Server.Memory.{memory_storage, HasBytes}
use allonet.Client.Assets.{
  AssetState, AssetClient, Callbacks, now_available, alloclient_asset_request, report_state,
}
use allonet.Transfer.{exchange}
use allonet.Transfer.Memory.{Keeper, receiving, download_memory}

abbrev hello : Asset
hello = record {
  complete = some true;
  total_size = some 3;
  ranges = none;
  buffer = some (some 5 ∷ some 6 ∷ some 7 ∷ []);
  lru = some never_prune;
}

abbrev store : Store
store = record {
  assets = ("hello", hello) ∷ [];
  use_cache = true;
  cache_count = 0;
  cache_size = 0;
  next_state_prune = 50_000;
}

abbrev server : Server Store
server = record { clients = 1 ∷ []; wanted = []; store = store; sent = [] }

-- The program keeps the bytes, and counts the assets that it hears are there.
record Kept : Type 0 where
  got : List ℕ
  heard : ℕ

-- The client's own store, which is not asked.
abbrev unused : Storage (Unit {0})
unused = record {
  read = λ id offset len s. ok (tt, no_such_asset);
  write = λ id offset part total s. ok (tt, out_of_memory);
}

abbrev client : AssetClient (Unit {0}) Kept
client = record { has_peer = true; store = tt; sent = []; program = record { got = []; heard = 0 } }

abbrev counts : AssetState → ℕ → ℕ
counts now_available n = n + 1
counts _ n = n

abbrev keeper : Keeper Kept "hello" (5 ∷ 6 ∷ 7 ∷ [])
keeper = record {
  take_chunk = λ id part offset total p. record p { got = p.got ++ part };
  Has = λ front p. p.got ≡ front;
  keeps = λ front part p h fits. ap (λ l. l ++ part) h;
}

abbrev calls : Callbacks (Unit {0}) Kept
calls = record {
  request_bytes_callback = none;
  receive_callback = some (receiving keeper.take_chunk);
  state_callback = some (λ id state c. record c {
    program = record c.program { heard = counts state c.program.heard };
  });
}

abbrev memory : Storage Store
memory = memory_storage cjson unsorted (λ n. true) 1000

download_memory_example :
    (st : Store) × (last : Kept) × (exchange memory unused calls 0 1
        (2 * 1 + 1)
        (record { server = server; client = alloclient_asset_request "hello" client })
      ≡ ok (record {
        server = record server { store = st; sent = [] };
        client = record client {
          sent = [];
          program = record last { heard = counts now_available last.heard };
        };
      }))
    × HasBytes cjson 1000 "hello" (map some (5 ∷ 6 ∷ 7 ∷ [])) st
    × (last.got ≡ 5 ∷ 6 ∷ 7 ∷ [])
unfolding get_asset report_state
download_memory_example =
    download_memory cjson unsorted (λ n. true) 1000 unused calls 0 1 "hello" (5 ∷ 6 ∷ 7 ∷ []) keeper
      1 server client (omega arith) (omega arith) (omega arith) refl (λ d e. e) refl refl refl
      (hello, refl, refl, refl, refl) refl
