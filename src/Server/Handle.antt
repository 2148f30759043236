-- ===== src/Server/Handle.antt =====
-- The handlers of the server: `_request_missing_asset`, `_asset_request_bytes_func`,
-- `_asset_write_func`, `_forward_wanted_asset`, `_asset_state_callback_func`,
-- `_remove_client_from_wanted`, and the cases of `asset_handle` (src/asset.c) that call them.
use allonet.Common.{
  ℕ, zero, suc, ◌+◌, List, [], ◌∷◌, ◌++◌, Option, none, some, Bool, true, false, String, map,
  length, take, get_elem?, leb, ltb, ◌==◌, if◌then◌else◌, min,
}
use allonet.Common.Size.{add_size, sub_size, to_int}
use allonet.Common.Outcome.{Outcome, ok, wild, out_of_fuel, assert, ◌>>=◌, ◌>>◌}
use allonet.AssetStore.Access.{
  Reply, bytes, no_data, no_such_asset, no_size, written, out_of_memory,
}
use allonet.Server.{
  Storage, Peer, Message, request, Sent, Wanted, Server, chunk_size, find_wanted, update_wanted,
  drop_wanted, remove_peer, others, deliver_bytes, failures,
}

-- `wanted_asset` as `_request_missing_asset` creates it, with all other clients to ask.
abbrev pub new_wanted : String → Peer → List Peer → Wanted
new_wanted id p clients = record {
  id = id;
  recipients = p ∷ [];
  source = none;
  remaining = others p clients;
}

-- The fields that are written through a pointer to a `wanted_asset`.
abbrev pub add_recipient : Peer → Wanted → Wanted
add_recipient p w = record w { recipients = w.recipients ++ (p ∷ []) }

abbrev pub from_source : Peer → Wanted → Wanted
from_source p w = record w { source = some p }

abbrev pub without_source : Peer → Wanted → Wanted
without_source p w = record w { remaining = remove_peer p w.remaining }

-- `_request_missing_asset`.
unfoldable pub request_missing : {S : Type 0} → String → Peer → Server S → Server S
unfolding others update_wanted
request_missing id p s = elim (find_wanted id s.wanted) [
  | some w ↦ record s { wanted = update_wanted id (add_recipient p) s.wanted }
  | none ↦ record s {
    wanted = s.wanted ++ (new_wanted id p s.clients ∷ []);
    sent = s.sent ++ map (λ q. (q, request id 0 chunk_size)) (others p s.clients);
  }
]

-- `_remove_client_from_wanted`: the assets that are still wanted, and what is sent.
abbrev pub lose_peer_from : Peer → Wanted → Wanted
lose_peer_from p w = record w {
  recipients = remove_peer p w.recipients;
  remaining = remove_peer p w.remaining;
}

abbrev pub is_empty : List Peer → Bool
is_empty [] = true
is_empty (_ ∷ _) = false

unfoldable pub lose_peer : Peer → List Wanted → List Wanted × Sent
unfolding remove_peer failures
lose_peer p [] = ([], [])
lose_peer p (w ∷ ws) =
    let rest = lose_peer p ws in
    let left = lose_peer_from p w in
    if is_empty left.remaining
    then (rest.0, failures left.id left.recipients ++ rest.1)
    else (left ∷ rest.0, rest.1)

-- `handle_incoming_connection`, and `handle_lost_connection`.
unfoldable pub connect : {S : Type 0} → Peer → Server S → Server S
connect p s = record s { clients = p ∷ s.clients }

unfoldable pub disconnect : {S : Type 0} → Peer → Server S → Server S
unfolding lose_peer
disconnect p s =
    let lost = lose_peer p s.wanted in
    record s { clients = remove_peer p s.clients; wanted = lost.0; sent = s.sent ++ lost.1 }

-- Who gets it: `usr.peer` where it is set, and else the client's own peer.
abbrev pub destination : Option Peer → Peer → Peer
destination none client = client
destination (some p) client = p

-- `_asset_state_callback_func` with `asset_state_now_unavailable`.
unfoldable pub now_unavailable : {S : Type 0} → String → Peer → Server S → Server S
unfolding find_wanted update_wanted drop_wanted remove_peer failures
now_unavailable id client s = elim (find_wanted id s.wanted) [
  | none ↦ s
  | some w ↦
      if is_empty (remove_peer client w.remaining)
      then record s { wanted = drop_wanted id s.wanted; sent = s.sent ++ failures id w.recipients }
      else record s { wanted = update_wanted id (without_source client) s.wanted }
]

-- Is the sender the source of the asset, or is there none yet?
abbrev pub is_source : Option Peer → Peer → Bool
is_source none p = true
is_source (some q) p = q == p

-- Does `_asset_write_func` go on to write?
abbrev pub is_accepted : {S : Type 0} → String → Peer → Server S → Bool
is_accepted id client s = elim (find_wanted id s.wanted) [
  | none ↦ false
  | some w ↦ is_source w.source client
]

module _ {S : Type 0} (io : Storage S) where
  open io use {read, write}

  -- What `_asset_request_bytes_func` does with what it read.
  unfoldable pub answer : String → ℕ → Peer → Peer → Server S → Reply → Server S
  unfolding deliver_bytes request_missing
  answer id offset client to s (bytes (b ∷ bs) total) = record s {
    sent = s.sent ++ deliver_bytes id (b ∷ bs) offset total to;
  }
  answer id offset client to s (bytes [] total) = request_missing id client s
  answer id offset client to s no_such_asset = request_missing id client s
  answer id offset client to s no_size = request_missing id client s
  answer id offset client to s (no_data total) = request_missing id client s

  -- `_asset_request_bytes_func`. (Its `malloc` is taken to succeed; it asserts so.)
  unfoldable pub request_bytes : String → ℕ → ℕ → Peer → Option Peer → Server S → Outcome (Server S)
  unfolding answer
  request_bytes id offset len client peer s = do
    (store, reply) ← read id offset len s.store
    ok (answer id offset client (destination peer client) (record s { store = store }) reply)

  -- The first loop of `_forward_wanted_asset`, which looks at the length of the array each time.
  unfoldable pub deliver_each : ℕ → String → Peer → ℕ → Server S → Outcome (Server S)
  unfolding request_bytes find_wanted
  deliver_each zero id client i s = out_of_fuel
  deliver_each (suc fuel) id client i s = elim (find_wanted id s.wanted) [
    | none ↦ wild
    | some w ↦ elim (get_elem? w.recipients i) [
      | none ↦ ok s
      | some r ↦
          request_bytes id 0 chunk_size client (some r) s >>= deliver_each fuel id client (i + 1)
    ]
  ]

  -- `_forward_wanted_asset`.
  unfoldable pub forward : ℕ → String → Peer → Server S → Outcome (Server S)
  unfolding deliver_each drop_wanted
  forward fuel id client s = do
    s' ← deliver_each fuel id client 0 s
    ok (record s' { wanted = drop_wanted id s'.wanted })

  -- `_asset_state_callback_func`, with `asset_state_now_available`.
  unfoldable pub now_available : ℕ → String → Peer → Server S → Outcome (Server S)
  unfolding forward
  now_available fuel id client s = elim (find_wanted id s.wanted) [
    | none ↦ ok s
    | some w ↦ forward fuel id client s
  ]

  -- `_asset_write_func`; the returned `int` is how many bytes were written, or not positive.
  unfoldable pub accept_write : String → ℕ → List ℕ → ℕ → Peer → Server S → Outcome (Server S × ℕ)
  unfolding find_wanted update_wanted
  accept_write id offset data' total client s = elim (find_wanted id s.wanted) [
    | none ↦ ok (s, 0)
    | some w ↦
        if is_source w.source client
        then (do
          (store, result) ← write id offset data' total s.store
          ok (
            record s { wanted = update_wanted id (from_source client) s.wanted; store = store },
            elim result [ written n ↦ n | out_of_memory ↦ 0 ],
          ))
        else ok (s, 0)
  ]

  -- The next chunk that `asset_handle` asks for.
  abbrev pub next_request : String → ℕ → ℕ → ℕ → Message
  next_request id offset len total =
      request id (to_int (add_size offset len))
        (to_int (min chunk_size (sub_size (sub_size total offset) len)))

  -- What `asset_handle` does once `write` has returned `n`.
  unfoldable pub after_write : ℕ → String → ℕ → ℕ → ℕ → Peer → Server S × ℕ → Outcome (Server S)
  unfolding now_available to_int
  after_write fuel id offset len total client (s, zero) = ok s
  after_write fuel id offset len total client (s, suc n) =
      if ltb (add_size offset len) total
      then ok (record s { sent = s.sent ++ ((client, next_request id offset len total) ∷ []) })
      else now_available fuel id client s >>= λ s'.
          assert (leb (add_size offset len) total) >> ok s'

  -- `asset_handle` with `asset_mid_data`. The payload is what is left of the packet behind its
  -- header; `len` is what the header says of it. Where that is more than there is, the store reads
  -- behind the packet, unless the write is refused.
  unfoldable pub handle_data :
      ℕ → String → ℕ → ℕ → ℕ → List ℕ → Peer → Server S → Outcome (Server S)
  unfolding accept_write after_write find_wanted
  handle_data fuel id offset len total payload client s =
      if leb len (length payload)
      then accept_write id offset (take len payload) total client s
        >>= after_write fuel id offset len total client
      else if is_accepted id client s
      then wild
      else ok s
