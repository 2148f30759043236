-- ===== src/Server/Examples.antt =====
-- The server at concrete states: tests, and the theorems where their hypotheses hold.
use allonet.Common.{◌≡◌, refl, [], ◌∷◌, some, none, true, arith, inl, inr, length}
use allonet.Common.All.{In}
use allonet.Common.Outcome.{ok, out_of_fuel}
use allonet.AssetStore.State.{Asset, Store, never_prune, get_asset, set_asset, memcpy_out}
use allonet.AssetStore.Samples.{cjson, unsorted}
use allonet.AssetStore.Access.{memstore_read, no_such_asset, written, bytes}
use allonet.AssetStore.Prune.{lru_prune, lru_tag}
use allonet.Server.{Storage, Server, Wanted, find_wanted, drop_wanted, chunk_size, request}
use allonet.Server.Handle.{
  connect, disconnect, request_missing, request_bytes, forward, accept_write,
}
use allonet.Server.Invariant.{IsServer}
use allonet.Server.Reach.{connected, requested, lost, here, onward, listening, Reaches-IsServer}
use allonet.Server.Forward.{first_chunks, forward_served}
use allonet.Server.Endless.{forward_unserved}
use allonet.Server.Lost.{accept_write-disconnect, recipients_disconnect}
use allonet.Server.Memory.{memory_storage, HasBytes, chunk_rest, forward_memory}

-- A store that has nothing, and one asset of three bytes in the in-memory store.
abbrev nothing : Storage (Unit {0})
nothing = record {
  read = λ id offset len s. ok (tt, no_such_asset);
  write = λ id offset data' total s. ok (tt, written (length data'));
}

abbrev hello : Asset
hello = record {
  complete = some true;
  total_size = some 3;
  ranges = none;
  buffer = some (some 5 ∷ some 6 ∷ some 7 ∷ []);
  lru = some never_prune;
}

abbrev store : Store
store = record {
  assets = ("hello", hello) ∷ [];
  use_cache = true;
  cache_count = 0;
  cache_size = 0;
  next_state_prune = 50_000;
}

abbrev memory : Storage Store
memory = memory_storage cjson unsorted (λ n. true) 1000

serves_hello :
    memory.read "hello" 0 chunk_size store ≡ ok (store, bytes (some 5 ∷ some 6 ∷ some 7 ∷ []) 3)
unfolding memstore_read lru_prune lru_tag get_asset set_asset memcpy_out
serves_hello = refl

-- Clients 1, 2 and 3; client 1 has asked for an asset.
abbrev three : Server (Unit {0})
three = record { clients = 3 ∷ 2 ∷ 1 ∷ []; wanted = []; store = tt; sent = [] }

asks_the_others : request_missing "a" 1 three ≡ record three {
  wanted = record { id = "a"; recipients = 1 ∷ []; source = none; remaining = 3 ∷ 2 ∷ [] } ∷ [];
  sent = (3, request "a" 0 chunk_size) ∷ (2, request "a" 0 chunk_size) ∷ [];
}
unfolding request_missing find_wanted
asks_the_others = refl

abbrev wanted_a : Wanted
wanted_a = record { id = "a"; recipients = 1 ∷ []; source = some 2; remaining = 3 ∷ 2 ∷ [] }

abbrev waiting : Server (Unit {0})
waiting = record three { wanted = wanted_a ∷ [] }

found_a : find_wanted "a" waiting.wanted ≡ some wanted_a
unfolding find_wanted
found_a = refl

accept_write-disconnect_example :
    (left : Wanted) × (find_wanted "a" (disconnect 2 waiting).wanted ≡ some left)
    × (left.source ≡ some 2)
    × (accept_write nothing "a" 0 (9 ∷ []) 1 3 (disconnect 2 waiting)
        ≡ ok (disconnect 2 waiting, 0))
accept_write-disconnect_example =
    accept_write-disconnect nothing "a" 2 waiting wanted_a found_a 3 3 0 1 (9 ∷ []) refl (inl refl)
      (omega arith) (omega arith)

recipients_disconnect_example :
    (w left : Wanted) × (find_wanted "a"
        (request_missing "a" 1 (request_missing "a" 1 three)).wanted
      ≡ some w)
    × (w.recipients ≡ 1 ∷ 1 ∷ [])
    × (find_wanted "a" (disconnect 1 (request_missing "a" 1 (request_missing "a" 1 three))).wanted
        ≡ some left)
    × (left.recipients ≡ 1 ∷ [])
unfolding find_wanted
recipients_disconnect_example =
    recipients_disconnect "a" 1 2 three refl (inr (inl refl)) (omega arith)

forward_unserved_example : forward nothing 100 "a" 2 waiting ≡ out_of_fuel
forward_unserved_example =
    forward_unserved nothing "a" 2 (λ s. Unit {0}) (λ s v. (tt, no_such_asset, refl, refl, tt)) 100
      waiting wanted_a found_a (omega arith) tt

abbrev wanted_hello : Wanted
wanted_hello = record {
  id = "hello";
  recipients = 1 ∷ 3 ∷ [];
  source = some 2;
  remaining = 3 ∷ 2 ∷ [];
}

abbrev arrived : Server Store
arrived = record { clients = 3 ∷ 2 ∷ 1 ∷ []; wanted = wanted_hello ∷ []; store = store; sent = [] }

found_hello : find_wanted "hello" arrived.wanted ≡ some wanted_hello
unfolding find_wanted
found_hello = refl

forward_served_example :
    (st' : Store) × (forward memory 3 "hello" 2 arrived
      ≡ ok (record arrived {
        store = st';
        wanted = drop_wanted "hello" arrived.wanted;
        sent = first_chunks "hello" 3 (some 5 ∷ some 6 ∷ some 7 ∷ []) (1 ∷ 3 ∷ []);
      }))
    × (st' ≡ store)
forward_served_example =
    forward_served memory "hello" 2 (some 5) (some 6 ∷ some 7 ∷ []) 3 (omega arith) (omega arith)
      (λ st. st ≡ store) (λ st e. (store, rw e serves_hello, refl)) 3 arrived wanted_hello
      found_hello (omega arith) refl

forward_memory_example :
    (st : Store) × (forward memory 3 "hello" 2 arrived
      ≡ ok (record arrived {
        store = st;
        wanted = drop_wanted "hello" arrived.wanted;
        sent =
            first_chunks "hello" 3
              (some 5 ∷ chunk_rest (some 5) (some 6 ∷ some 7 ∷ []))
              (1 ∷ 3 ∷ []);
      }))
    × HasBytes cjson 1000 "hello" (some 5 ∷ some 6 ∷ some 7 ∷ []) st
unfolding get_asset
forward_memory_example =
    forward_memory cjson unsorted (λ n. true) 1000 "hello" (some 5) (some 6 ∷ some 7 ∷ [])
      (omega arith) 3 2 arrived wanted_hello found_hello (omega arith)
      (hello, refl, refl, refl, refl)

abbrev one : Server (Unit {0})
one = connect 1 (listening tt)

abbrev two : Server (Unit {0})
two = connect 2 one

asks : request_bytes nothing "a" 0 9 1 none two ≡ ok (request_missing "a" 1 two)
unfolding request_bytes request_missing
asks = refl

still_there : In 2 (request_missing "a" 1 two).clients
unfolding request_missing connect find_wanted
still_there = inl refl

Reaches-IsServer_example : IsServer (disconnect 2 (request_missing "a" 1 two))
unfolding connect
Reaches-IsServer_example = Reaches-IsServer tt (disconnect 2 (request_missing "a" 1 two)) (
    onward _ _ _ (connected 1 (listening tt) tt) (
      onward _ _ _ (connected 2 one (omega arith, tt)) (
        onward _ _ _
          (requested nothing 1 "a" 0 9 two (request_missing "a" 1 two) (inr (inl refl)) asks)
          (onward _ _ _ (lost 2 (request_missing "a" 1 two) still_there) (here _)))))
