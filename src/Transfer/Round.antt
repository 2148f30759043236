-- ===== src/Transfer/Round.antt =====
-- One chunk of a download: the client's request at the server, and the server's answer at the client.
use allonet.Common.{
  ℕ, zero, suc, ◌+◌, ◌-◌, ◌<◌, ◌≤◌, ◌≡◌, refl, ap, ◌∙◌, List, [], ◌∷◌, ◌++◌, some, true, String,
  arith, map, length, take, min, ltb, leb, length-map, ◌==◌, if◌then◌else◌,
}
use allonet.Common.Cases.{>>=-assoc}
use allonet.Common.Size.{int_limit, to_int, to_int_small, add_size, sub_size}
use allonet.Common.Outcome.{Outcome, ok, ◌>>=◌}
use allonet.AssetStore.Access.{bytes}
use allonet.Server.{Storage, Peer, Message, request, chunk, Server, chunk_size, deliver_bytes}
use allonet.Server.Handle as Handle
use allonet.Client.Assets.{
  AssetClient, Callbacks, now_available, send, asset_write, after_asset_write, asset_data,
  handle_assets, report_state,
}
use allonet.Transfer.{read_byte, Pair, server_gets, come_in, exchange}

read_byte-some : (garbage : ℕ) (xs : List ℕ) → map (read_byte garbage) (map some xs) ≡ xs
read_byte-some garbage [] = refl
read_byte-some garbage (x ∷ xs) = ap (λ l. x ∷ l) (read_byte-some garbage xs)

take-length : (xs : List ℕ) → take (length xs) xs ≡ xs
take-length [] = refl
take-length (x ∷ xs) = ap (λ l. x ∷ l) (take-length xs)

-- The chunk that is asked for next, of what is left.
abbrev pub next_bytes : List ℕ → List ℕ
next_bytes left = take (min chunk_size (length left)) left

module _ {S T P : Type 0} (io : Storage S) (store : Storage T) (calls : Callbacks T P) (garbage : ℕ)
    (p : Peer) (id : String) where
  -- The server has the bytes there, and answers with them alone.
  pub server_gets-request :
      (fuel offset len total : ℕ) (b : ℕ) (bs : List ℕ) (s : Server S) (st : S)
      → io.read id offset len s.store ≡ ok (st, bytes (map some (b ∷ bs)) total)
      → offset + length (b ∷ bs) ≤ total
      → total < int_limit
      → server_gets io garbage p fuel (request id offset len) s
        ≡ ok (record s {
          store = st;
          sent = s.sent ++ ((p, chunk id offset (length (b ∷ bs)) total (map some (b ∷ bs))) ∷ []);
        })
  unfolding server_gets Handle.request_bytes Handle.answer deliver_bytes
  server_gets-request fuel offset len total b bs s st reads fits small =
      let l : length (map some (b ∷ bs)) ≡ length (b ∷ bs) =
        length-map (b ∷ bs) (λ (x : ℕ). some x) in
      let o : to_int offset ≡ offset = to_int_small offset (omega arith) in
      let m : to_int (length (b ∷ bs)) ≡ length (b ∷ bs) =
        to_int_small (length (b ∷ bs)) (omega arith) in
      ground (arith, reads, l, o, m)

  -- The client writes a chunk.
  handle_assets-chunk :
      (offset total : ℕ) (b : ℕ) (bs : List ℕ) (c d : AssetClient T P)
      → asset_write store calls id offset (b ∷ bs) total c ≡ ok (d, length (b ∷ bs))
      → handle_assets store calls
          (read_byte garbage)
          (chunk id offset (length (b ∷ bs)) total (map some (b ∷ bs)))
          c
        ≡ after_asset_write store calls id offset (length (b ∷ bs)) total (d, length (b ∷ bs))
  unfolding handle_assets asset_data
  handle_assets-chunk offset total b bs c d writes =
      let room : leb (length (b ∷ bs)) (length (b ∷ bs)) ≡ true = ground arith in
      rw (read_byte-some garbage bs, room, take-length bs, writes) refl

  -- What the client asks for next, or reports once it has all.
  abbrev pub go_on : ℕ → ℕ → ℕ → AssetClient T P → AssetClient T P
  go_on offset len total c =
      if ltb (offset + len) total
      then send (request id (offset + len) (min chunk_size (total - (offset + len)))) c
      else report_state store calls id now_available c

  after_asset_write-go_on :
      (offset len total : ℕ) (c : AssetClient T P)
      → 0 < len
      → offset + len ≤ total
      → total < int_limit
      → after_asset_write store calls id offset len total (c, len) ≡ ok (go_on offset len total c)
  unfolding after_asset_write
  after_asset_write-go_on offset zero total c pos fits small = absurd (omega arith)
  after_asset_write-go_on offset (suc n) total c pos fits small =
      let sum : add_size offset (suc n) ≡ offset + suc n = omega arith in
      let left : sub_size (sub_size total offset) (suc n) ≡ total - (offset + suc n) =
        omega arith in
      let m = min chunk_size (total - (offset + suc n)) in
      let a : to_int (offset + suc n) ≡ offset + suc n =
        to_int_small (offset + suc n) (omega arith) in
      let d : to_int m ≡ m = to_int_small m (omega arith) in rw (sum, left, a, d) (ground arith)

  exchange_asked :
      (fuel : ℕ) (m : Message) (s : Server S) (c : AssetClient T P)
      → exchange io store calls garbage p
          (suc fuel)
          (record { server = s; client = record c { sent = m ∷ [] } })
        ≡ (server_gets io garbage p fuel m s >>= λ server.
            exchange io store calls garbage p fuel
              (record { server = server; client = record c { sent = [] } }))
  unfolding exchange come_in
  exchange_asked fuel m s c =
      >>=-assoc (server_gets io garbage p fuel m s)
        (λ server. ok (record { server = server; client = record c { sent = [] } }))
        (exchange io store calls garbage p fuel)

  come_in-client :
      (fuel : ℕ) (m : Message) (s : Pair S T P)
      → come_in io store calls garbage p fuel [] ((p, m) ∷ []) s ≡ (
          handle_assets store calls (read_byte garbage) m s.client >>= λ client.
          ok (record { server = record s.server { sent = [] }; client = client }))
  unfolding come_in
  come_in-client fuel m s = let same : (p == p) ≡ true = ground arith in rw (come_in, same) refl

  exchange_answered :
      (fuel : ℕ) (m : Message) (s : Server S) (c : AssetClient T P)
      → exchange io store calls garbage p
          (suc fuel)
          (record { server = record s { sent = (p, m) ∷ [] }; client = record c { sent = [] } })
        ≡ (handle_assets store calls (read_byte garbage) m (record c { sent = [] }) >>= λ client.
            exchange io store calls garbage p fuel
              (record { server = record s { sent = [] }; client = client }))
  unfolding exchange
  exchange_answered fuel m s c =
      let t : Pair S T P = record {
        server = record s { sent = (p, m) ∷ [] };
        client = record c { sent = [] };
      } in
      ap (λ o. o >>= exchange io store calls garbage p fuel) (come_in-client fuel m t)
      ∙ >>=-assoc (handle_assets store calls (read_byte garbage) m (record c { sent = [] }))
          (λ client. ok (record { server = record s { sent = [] }; client = client }))
          (exchange io store calls garbage p fuel)

  -- A request of the client, and its answer: two rounds.
  pub exchange_chunk :
      (fuel offset len total : ℕ) (b : ℕ) (bs : List ℕ) (s : Server S) (c : AssetClient T P)
      (st : S) (d : AssetClient T P)
      → s.sent ≡ []
      → io.read id offset len s.store ≡ ok (st, bytes (map some (b ∷ bs)) total)
      → asset_write store calls id offset (b ∷ bs) total (record c { sent = [] })
        ≡ ok (d, length (b ∷ bs))
      → offset + length (b ∷ bs) ≤ total
      → total < int_limit
      → exchange io store calls garbage p
          (suc (suc fuel))
          (record { server = s; client = record c { sent = request id offset len ∷ [] } })
        ≡ exchange io store calls garbage p fuel (record {
          server = record s { store = st; sent = [] };
          client = go_on offset (length (b ∷ bs)) total d;
        })
  exchange_chunk fuel offset len total b bs s c st d quiet reads writes fits small =
      let m = chunk id offset (length (b ∷ bs)) total (map some (b ∷ bs)) in
      let c' : AssetClient T P = record c { sent = [] } in
      let next : Server S → Outcome (Pair S T P) = λ server.
        exchange io store calls garbage p (suc fuel) (record { server = server; client = c' }) in
      let finish : AssetClient T P → Outcome (Pair S T P) = λ client.
        exchange io store calls garbage p fuel
          (record { server = record s { store = st; sent = [] }; client = client }) in
      let got = server_gets-request (suc fuel) offset len total b bs s st reads fits small in
      exchange_asked (suc fuel) (request id offset len) s c
      ∙ ap (λ o. o >>= next) got
      ∙ rw (quiet) (exchange_answered fuel m (record s { store = st }) c)
      ∙ ap (λ o. o >>= finish)
          (handle_assets-chunk offset total b bs c' d writes
            ∙ after_asset_write-go_on offset (length (b ∷ bs)) total d (omega arith) fits small)
