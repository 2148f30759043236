-- ===== src/Transfer.antt =====
-- A client that downloads an asset from the server, src/asset.c, src/server.c and
-- src/client/client.c: the two sides of the asset channel, and the packets on the way.
pub mod Round
pub mod Fetch
pub mod Download
pub mod Memory
mod Examples
use allonet.Common.{Bool, ℕ, zero, suc, List, [], ◌∷◌, Option, none, some, true, false, map, ◌==◌}
use allonet.Common.Outcome.{Outcome, ok, out_of_fuel, ◌>>=◌}
use allonet.Server.{Storage, Peer, Message, request, chunk, failure, Sent, Server}
use allonet.Server.Handle as Handle
use allonet.Client.Assets.{AssetClient, Callbacks, handle_assets}

-- What is read of a byte that was never written is any byte.
abbrev pub read_byte : ℕ → Option ℕ → ℕ
read_byte garbage none = garbage
read_byte garbage (some b) = b

pub record Pair (S T P : Type 0) : Type 0 where
  pub server : Server S
  pub client : AssetClient T P

module _ {S : Type 0} (io : Storage S) (garbage : ℕ) (p : Peer) where
  -- `asset_handle` at the server, once the header is read.
  unfoldable pub server_gets : ℕ → Message → Server S → Outcome (Server S)
  unfolding Handle.request_bytes Handle.handle_data Handle.now_unavailable
  server_gets fuel (request id offset len) s = Handle.request_bytes io id offset len p none s
  server_gets fuel (chunk id offset len total d) s =
      Handle.handle_data io fuel id offset len total (map (read_byte garbage) d) p s
  server_gets fuel (failure id code) s = ok (Handle.now_unavailable id p s)

-- A server and one client of it, whose peer is `p`. What a client or the server has sent is taken
-- from its list once it has come in; ENet keeps the order, and loses nothing of this channel.
module _ {S T P : Type 0} (io : Storage S) (store : Storage T) (calls : Callbacks T P) (garbage : ℕ)
    (p : Peer) where
  -- What comes in next: at the server what the client has sent, and else at the client what the
  -- server has. What is for another client is not followed.
  unfoldable pub come_in : ℕ → List Message → Sent → Pair S T P → Outcome (Pair S T P)
  unfolding server_gets handle_assets
  come_in fuel (m ∷ ms) sent s = server_gets io garbage p fuel m s.server >>= λ server.
      ok (record s { server = server; client = record s.client { sent = ms } })
  come_in fuel [] ((q, m) ∷ sent) s =
      let server : Server S = record s.server { sent = sent } in
      elim (q == p) [
        | false ↦ ok (record s { server = server })
        | true ↦ handle_assets store calls (read_byte garbage) m s.client >>= λ client.
            ok (record { server = server; client = client })
      ]
  come_in fuel [] [] s = ok s

  abbrev pub is_quiet : Pair S T P → Bool
  is_quiet s = elim s.client.sent [
    | [] ↦ elim s.server.sent [ [] ↦ true | _ ∷ _ ↦ false ]
    | _ ∷ _ ↦ false
  ]

  -- Until nothing is on the way.
  unfoldable pub exchange : ℕ → Pair S T P → Outcome (Pair S T P)
  unfolding come_in
  exchange zero s = out_of_fuel
  exchange (suc fuel) s = elim (is_quiet s) [
    | true ↦ ok s
    | false ↦ come_in fuel s.client.sent s.server.sent s >>= exchange fuel
  ]
