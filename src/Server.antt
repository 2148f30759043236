-- ===== src/Server.antt =====
-- The server's side of the asset channel, src/server.c: which assets its clients have asked for
-- and it does not have, who is to get them, and who may still deliver them.
pub mod Handle
pub mod Lookup
pub mod Rounds
pub mod Find
pub mod Reach
pub mod Invariant
pub mod Forward
pub mod Lost
pub mod Memory
pub mod Endless
mod Examples
use text.Mathlib.Text.{◌==◌ as str_eq}
use allonet.Common.{
  ℕ, ◌+◌, ◌*◌, List, [], ◌∷◌, ◌++◌, Option, none, some, Bool, String, map, length, ltb, ◌==◌,
  if◌then◌else◌,
}
use allonet.Common.Size.{add_size, to_int}
use allonet.Common.Outcome.{Outcome, ok, ◌>>=◌}
use allonet.AssetStore.State.{Buffer}
use allonet.AssetStore.Access.{Reply, Written}

-- What the server needs of its asset store at one time: `assetstore_read` and `assetstore_write`.
pub record Storage (S : Type 0) : Type 0 where
  pub read : String → ℕ → ℕ → S → Outcome (S × Reply)
  pub write : String → ℕ → List ℕ → ℕ → S → Outcome (S × Written)

-- The peers of the clients are numbers. A client's pointer is its peer's: each has one.
abbrev pub Peer : Type 0
Peer = ℕ

-- A packet of the asset channel that is sent; the two numbers of a range went through an `int`.
pub data Message : Type 0 where
  request : String → ℕ → ℕ → Message
  chunk : String → ℕ → ℕ → ℕ → Buffer → Message
  failure : String → ℕ → Message

abbrev pub Sent : Type 0
Sent = List (Peer × Message)

-- `wanted_asset`.
pub record Wanted : Type 0 where
  pub id : String
  pub recipients : List Peer
  pub source : Option Peer
  pub remaining : List Peer

-- `alloserver` and `alloserv_internal`, with all that was sent on the asset channel.
pub record Server (S : Type 0) : Type 0 where
  pub clients : List Peer
  pub wanted : List Wanted
  pub store : S
  pub sent : Sent

-- ASSET_CHUNK_SIZE, and the `asset_error_code`s that are sent.
abbrev pub chunk_size : ℕ
chunk_size = 1024 * 1024

abbrev pub not_available : ℕ
not_available = 1

abbrev pub malformed : ℕ
malformed = 2

-- `_asset_is_wanted`.
unfoldable pub find_wanted : String → List Wanted → Option Wanted
find_wanted id [] = none
find_wanted id (w ∷ ws) = if str_eq w.id id then some w else find_wanted id ws

-- A write through the pointer that `_asset_is_wanted` returned.
unfoldable pub update_wanted : String → (Wanted → Wanted) → List Wanted → List Wanted
update_wanted id f [] = []
update_wanted id f (w ∷ ws) = if str_eq w.id id then f w ∷ ws else w ∷ update_wanted id f ws

-- The loop that takes the asset at that pointer out of `wanted_assets`.
unfoldable pub drop_wanted : String → List Wanted → List Wanted
drop_wanted id [] = []
drop_wanted id (w ∷ ws) = if str_eq w.id id then ws else w ∷ drop_wanted id ws

-- The loops that search an array of peers for one, splice it out, and break.
unfoldable pub remove_peer : Peer → List Peer → List Peer
remove_peer p [] = []
remove_peer p (q ∷ qs) = if q == p then qs else q ∷ remove_peer p qs

-- `LIST_FOREACH`, with `continue` at the client itself.
unfoldable pub others : Peer → List Peer → List Peer
others p [] = []
others p (q ∷ qs) = let rest = others p qs in if q == p then rest else q ∷ rest

-- `asset_deliver_bytes` to a peer, of data that is there. Nothing ends it after the first error.
unfoldable pub deliver_bytes : String → Buffer → ℕ → ℕ → Peer → Sent
unfolding to_int
deliver_bytes id data' offset total p =
    let sends = (p, chunk id (to_int offset) (to_int (length data')) total data') ∷ [] in
    if ltb total (add_size offset (length data')) then (p, failure id malformed) ∷ sends else sends

-- The first loop of `_forward_wanted_asset_failure`.
unfoldable pub failures : String → List Peer → Sent
failures id recipients = map (λ p. (p, failure id not_available)) recipients
