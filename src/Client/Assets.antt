-- ===== src/Client/Assets.antt =====
-- The asset channel of a client, src/client/client.c: `_asset_send_func`,
-- `_asset_request_bytes_func`, `_asset_write_func`, `_asset_state_callback_func`,
-- `_alloclient_asset_request` and `_alloclient_asset_send`, and the cases of `asset_handle`
-- (src/asset.c) with these.
use allonet.Common.{
  ℕ, zero, suc, List, [], ◌∷◌, ◌++◌, Option, none, some, Bool, String, length, take, leb, ltb,
  if◌then◌else◌, min, map,
}
use allonet.Common.Size.{add_size, sub_size, to_int}
use allonet.Common.Outcome.{Outcome, ok, wild, assert, ◌>>=◌, ◌>>◌}
use allonet.AssetStore.State.{Buffer}
use allonet.AssetStore.Access.{
  Reply, bytes, no_data, no_such_asset, no_size, written, out_of_memory,
}
use allonet.Server.{Storage, Message, request, chunk, failure, chunk_size, not_available, malformed}

-- `asset_state`.
pub data AssetState : Type 0 where
  now_available now_unavailable requested_unavailable not_supported : AssetState

-- What the functions use of `alloclient`: its peer, its store, and what was sent on the channel.
pub record AssetClient (S P : Type 0) : Type 0 where
  pub has_peer : Bool
  pub store : S
  pub sent : List Message
  pub program : P

-- The callbacks that the program may set. They can change anything of the client.
pub record Callbacks (S P : Type 0) : Type 0 where
  pub request_bytes_callback : Option (String → ℕ → ℕ → AssetClient S P → AssetClient S P)
  pub receive_callback : Option (String → List ℕ → ℕ → ℕ → AssetClient S P → AssetClient S P)
  pub state_callback : Option (String → AssetState → AssetClient S P → AssetClient S P)

-- `_asset_send_func`.
unfoldable pub send : {S P : Type 0} → Message → AssetClient S P → AssetClient S P
send m c = if c.has_peer then record c { sent = c.sent ++ (m ∷ []) } else c

-- `asset_deliver_bytes`. Nothing ends it after the first error.
unfoldable pub deliver :
    {S P : Type 0} → String → Option Buffer → ℕ → ℕ → ℕ → AssetClient S P → AssetClient S P
unfolding send
deliver id data' offset len total c =
    let c' = if ltb total (add_size offset len) then send (failure id malformed) c else c in
    elim data' [
      | none ↦ send (failure id not_available) c'
      | some d ↦ send (chunk id (to_int offset) (to_int len) total d) c'
    ]

-- `_alloclient_asset_send`.
abbrev pub alloclient_asset_send :
    {S P : Type 0} → String → Option Buffer → ℕ → ℕ → ℕ → AssetClient S P → AssetClient S P
alloclient_asset_send = deliver

-- `_alloclient_asset_request`.
unfoldable pub alloclient_asset_request :
    {S P : Type 0} → String → AssetClient S P → AssetClient S P
unfolding send
alloclient_asset_request id c = send (request id 0 chunk_size) c

-- What `_asset_request_bytes_func` does with what it read.
unfoldable pub answer_read : {S P : Type 0} → String → ℕ → Reply → AssetClient S P → AssetClient S P
unfolding deliver
answer_read id offset (bytes (b ∷ bs) total) c =
    deliver id (some (b ∷ bs)) offset (length (b ∷ bs)) total c
answer_read id offset (bytes [] total) c = deliver id none offset 0 0 c
answer_read id offset no_such_asset c = deliver id none offset 0 0 c
answer_read id offset no_size c = deliver id none offset 0 0 c
answer_read id offset (no_data total) c = deliver id none offset 0 0 c

module _ {S P : Type 0} (io : Storage S) (calls : Callbacks S P) where
  open io use {read, write}

  -- `_asset_request_bytes_func`. (Its `malloc` is taken to succeed; it asserts so.)
  unfoldable pub asset_request_bytes : String → ℕ → ℕ → AssetClient S P → Outcome (AssetClient S P)
  unfolding answer_read
  asset_request_bytes id offset len c = elim calls.request_bytes_callback [
    | some f ↦ ok (f id offset len c)
    | none ↦ (do
      (store, reply) ← read id offset len c.store
      ok (answer_read id offset reply (record c { store = store })))
  ]

  -- `_asset_write_func`; the returned `int` is how many bytes were written, or not positive.
  unfoldable pub asset_write :
      String → ℕ → List ℕ → ℕ → AssetClient S P → Outcome (AssetClient S P × ℕ)
  asset_write id offset data' total c = elim calls.receive_callback [
    | some f ↦ ok (f id data' offset total c, length data')
    | none ↦ (do
      (store, result) ← write id offset data' total c.store
      ok (record c { store = store }, elim result [ written n ↦ n | out_of_memory ↦ 0 ]))
  ]

  -- `_asset_state_callback_func`.
  unfoldable pub report_state : String → AssetState → AssetClient S P → AssetClient S P
  report_state id state c = elim calls.state_callback [ none ↦ c | some f ↦ f id state c ]

  -- The next chunk that `asset_handle` asks for.
  abbrev pub next_chunk : String → ℕ → ℕ → ℕ → Message
  next_chunk id offset len total =
      request id (to_int (add_size offset len))
        (to_int (min chunk_size (sub_size (sub_size total offset) len)))

  -- What `asset_handle` does once `write` has returned `n`.
  unfoldable pub after_asset_write :
      String → ℕ → ℕ → ℕ → AssetClient S P × ℕ → Outcome (AssetClient S P)
  unfolding send report_state to_int
  after_asset_write id offset len total (c, zero) = ok c
  after_asset_write id offset len total (c, suc n) =
      if ltb (add_size offset len) total
      then ok (send (next_chunk id offset len total) c)
      else assert (leb (add_size offset len) total) >> ok (report_state id now_available c)

  -- `asset_handle` with `asset_mid_data`. The payload is what is left of the packet behind its
  -- header; `len` is what the header says of it.
  unfoldable pub asset_data :
      String → ℕ → ℕ → ℕ → List ℕ → AssetClient S P → Outcome (AssetClient S P)
  unfolding asset_write after_asset_write
  asset_data id offset len total payload c =
      if leb len (length payload)
      then asset_write id offset (take len payload) total c
        >>= after_asset_write id offset len total
      else wild

  -- `asset_handle`, once the header is read.
  unfoldable pub handle_assets :
      (Option ℕ → ℕ) → Message → AssetClient S P → Outcome (AssetClient S P)
  unfolding asset_request_bytes asset_data report_state
  handle_assets byte (request id offset len) c = asset_request_bytes id offset len c
  handle_assets byte (chunk id offset len total d) c = asset_data id offset len total (map byte d) c
  handle_assets byte (failure id code) c = ok (report_state id now_unavailable c)
