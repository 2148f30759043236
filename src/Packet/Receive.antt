-- ===== src/Packet/Receive.antt =====
-- What the server does with a packet of the asset channel: `handle_assets`, that is `asset_handle`
-- with the server's functions.
use allonet.Common.{
  ℕ, ◌^◌, ◌<◌, ◌≡◌, List, [], ◌∷◌, ◌++◌, Option, none, some, String, arith, length, ◌==◌,
  if◌then◌else◌, subst,
}
use allonet.Common.Size.{int_limit}
use allonet.Common.Cases.{>>=-ok_inv}
use allonet.Common.Outcome.{Outcome, ok, wild, ◌>>=◌}
use allonet.Server.{Storage, Peer, Server, failure, malformed}
use allonet.Server.Handle.{request_bytes, handle_data, now_unavailable}
use allonet.Server.Invariant.{IsServer, now_unavailable-IsServer}
use allonet.Server.Reach.{EndsWell, request_bytes-IsServer, handle_data-IsServer}
use allonet.Packet.{JsonText, PrintsBack, Received, build_packet, read_header}
use allonet.Packet.Header.{
  JsonTree, Header, read, refused, Request, Chunk, read_request_header, read_data_header,
  read_error_header, request_header, data_header,
}
use allonet.Packet.RoundTrip.{
  read_header-build_packet, read_request_header-request_header, read_data_header-data_header,
}

-- asset_mid_request, asset_mid_data and asset_mid_failure.
abbrev pub mid_request : ℕ
mid_request = 1

abbrev pub mid_data : ℕ
mid_data = 2

abbrev pub mid_failure : ℕ
mid_failure = 3

module _ {Json S : Type 0} (t : JsonText Json) (c : JsonTree Json) (io : Storage S) (fuel : ℕ)
    (client : Peer) where
  -- `asset_handle` for a message whose header reads so. A failure whose header lacks its id or its
  -- reason has the program print through a pointer that was never set.
  unfoldable pub on_request : Header Request → Server S → Outcome (Server S)
  on_request (read r) s = request_bytes io r.id r.start r.length client none s
  on_request (refused id reason) s =
      ok (record s { sent = s.sent ++ ((client, failure id malformed) ∷ []) })

  unfoldable pub on_data : Header Chunk → List ℕ → Server S → Outcome (Server S)
  on_data (read r) payload s =
      handle_data io fuel r.id r.start r.length r.total_length payload client s
  on_data (refused id reason) payload s = ok s

  unfoldable pub on_failure :
      Option String × Option String × Option ℕ → Server S → Outcome (Server S)
  on_failure (some id, some reason, code) s = ok (now_unavailable id client s)
  on_failure _ s = wild

  unfoldable pub on_message : Received Json → Server S → Outcome (Server S)
  unfolding on_request on_data on_failure read_request_header read_data_header read_error_header
  on_message m s =
      if m.mid == mid_request
      then on_request (read_request_header c m.header) s
      else if m.mid == mid_data
      then on_data (read_data_header c m.header) m.payload s
      else if m.mid == mid_failure
      then on_failure (read_error_header c m.header) s
      else ok s

  unfoldable pub receive : List ℕ → Server S → Outcome (Server S)
  unfolding read_header on_message
  receive packet s = do m ← read_header t packet; on_message m s

  -- A request that `_asset_request` builds and sends is answered as a request for those bytes.
  pub receive-request :
      (id : String) (offset len : ℕ) (s : Server S)
      → offset < int_limit
      → len < int_limit
      → length (t.print (request_header c id offset len)) < 2 ^ 16
      → PrintsBack t (request_header c id offset len)
      → receive (build_packet t mid_request (request_header c id offset len) []) s
        ≡ request_bytes io id offset len client none s
  unfolding receive
  receive-request id offset len s h l short back =
      rw
        (
          receive,
          read_header-build_packet t mid_request (request_header c id offset len) [] back
              (omega arith) short,
        )
        (ground (arith, read_request_header-request_header c id offset len h l))

  -- A chunk that `asset_deliver_bytes` builds and sends is handled as those bytes at that place, if
  -- the offset, the number of bytes and the total size are below 2^31, the header is printed with
  -- less than 2^16 bytes, and cJSON reads it back as it was.
  pub receive-data :
      (id : String) (offset total : ℕ) (bytes : List ℕ) (s : Server S)
      → offset < int_limit
      → length bytes < int_limit
      → total < int_limit
      → length (t.print (data_header c id offset (length bytes) total)) < 2 ^ 16
      → PrintsBack t (data_header c id offset (length bytes) total)
      → receive (build_packet t mid_data (data_header c id offset (length bytes) total) bytes) s
        ≡ handle_data io fuel id offset (length bytes) total bytes client s
  unfolding receive
  receive-data id offset total bytes s h l m short back =
      rw
        (
          receive,
          read_header-build_packet t mid_data (data_header c id offset (length bytes) total) bytes
              back (omega arith) short,
        )
        (ground (arith, read_data_header-data_header c id offset (length bytes) total h l m))

  on_request-IsServer :
      (r : Header Request) (s s' : Server S) → IsServer s → on_request r s ≡ ok s' → IsServer s'
  unfolding on_request
  on_request-IsServer (read r) s s' v e =
      request_bytes-IsServer io client r.id r.start r.length none s s' v e
  on_request-IsServer (refused id reason) s s' v e =
      subst EndsWell e (record { clients = v.clients; wanted = v.wanted; ids = v.ids })

  on_data-IsServer :
      (r : Header Chunk) (payload : List ℕ) (s s' : Server S)
      → IsServer s
      → on_data r payload s ≡ ok s'
      → IsServer s'
  unfolding on_data
  on_data-IsServer (read r) payload s s' v e =
      handle_data-IsServer io client r.id fuel r.start r.length r.total_length payload s s' v e
  on_data-IsServer (refused id reason) payload s s' v e = subst EndsWell e v

  on_failure-IsServer :
      (r : Option String × Option String × Option ℕ) (s s' : Server S)
      → IsServer s
      → on_failure r s ≡ ok s'
      → IsServer s'
  unfolding on_failure
  on_failure-IsServer (some id, some reason, code) s s' v e =
      subst EndsWell e (now_unavailable-IsServer s v id client)
  on_failure-IsServer (some id, none, code) s s' v e = cc
  on_failure-IsServer (none, reason, code) s s' v e = cc

  -- Whatever bytes a client sends on the asset channel, well-formed or not, the server that handles
  -- them, if it gets through, still has its invariant.
  pub receive-IsServer :
      (packet : List ℕ) (s s' : Server S) → IsServer s → receive packet s ≡ ok s' → IsServer s'
  unfolding receive on_message
  receive-IsServer packet s s' v e =
      let (m, done, header) = >>=-ok_inv (λ m. on_message m s) (read_header t packet) e in
      ground (
        arith,
        done,
        on_request-IsServer (read_request_header c m.header) s s' v,
        on_data-IsServer (read_data_header c m.header) m.payload s s' v,
        on_failure-IsServer (read_error_header c m.header) s s' v,
      )
