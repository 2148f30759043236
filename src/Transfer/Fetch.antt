-- ===== src/Transfer/Fetch.antt =====
-- Stores that serve and that take an asset, and one chunk of a download between them, src/asset.c.
use allonet.Common.{
  ℕ, suc, ◌+◌, ◌-◌, ◌<◌, ◌≤◌, ◌≡◌, refl, sym, ap, subst, ◌∙◌, List, [], ◌∷◌, ◌++◌, some, true,
  String, arith, map, length, take, drop, min, ltb, length-take, length-append,
}
use allonet.Common.Size.{int_limit}
use allonet.Common.Outcome.{ok}
use allonet.AssetStore.Access.{bytes}
use allonet.Server.{Storage, Peer, request, Server, chunk_size}
use allonet.Client.Assets.{AssetClient, Callbacks, send, asset_write}
use allonet.Transfer.{Pair, exchange}
use allonet.Transfer.Round.{next_bytes, go_on, exchange_chunk}

-- A store that serves an asset with these bytes, and goes on to.
pub record Source {S : Type 0} (io : Storage S) (id : String) (data' : List ℕ) : Type 1 where
  pub Serves : S → Type 0
  pub serve :
      (offset len : ℕ) (st : S)
      → Serves st
      → offset < length data'
      → 0 < len
      → (st' : S) × (io.read id offset len st
          ≡ ok (
            st',
            bytes
                (map some (take (min len (length data' - offset)) (drop offset data')))
                (length data'),
          ))
        × Serves st'

-- A client whose program takes an asset of `n` bytes, one chunk behind the other.
pub record Sink {T P : Type 0} (store : Storage T) (calls : Callbacks T P) (id : String) (n : ℕ)
    : Type 1 where
  pub Holds : List ℕ → P → Type 0
  pub accept :
      (front part : List ℕ) (c : AssetClient T P)
      → Holds front c.program
      → 0 < length part
      → length front + length part ≤ n
      → (p : P) × (asset_write store calls id (length front) part n c
          ≡ ok (record c { program = p }, length part))
        × Holds (front ++ part) p

drop-front : (front left : List ℕ) → drop (length front) (front ++ left) ≡ left
drop-front [] left = refl
drop-front (x ∷ front) left = drop-front front left

-- What the source serves of a request is what the client expects next.
served_bytes :
    (front left data' : List ℕ) (len : ℕ)
    → data' ≡ front ++ left
    → min len (length left) ≡ min chunk_size (length left)
    → take (min len (length data' - length front)) (drop (length front) data') ≡ next_bytes left
served_bytes front left data' len parts enough =
    let total : length data' ≡ length front + length left =
      ap length parts ∙ length-append front left in
    let k : length data' - length front ≡ length left = omega (arith, total) in
    let m = min chunk_size (length left) in
    rw (k, enough)
      (ap (λ l. take m (drop (length front) l)) parts ∙ ap (take m) (drop-front front left))

pub is_empty : (xs : List ℕ) → length xs ≡ 0 → xs ≡ []
is_empty [] e = refl
is_empty (x ∷ xs) e = absurd (omega arith)

not_empty : (xs : List ℕ) → 0 < length xs → (x : ℕ) × (rest : List ℕ) × (xs ≡ x ∷ rest)
not_empty [] pos = absurd (omega arith)
not_empty (x ∷ rest) pos = (x, rest, refl)

-- The client has `front`, and asks for more.
abbrev pub asking : {S T P : Type 0} → String → List ℕ → ℕ → Server S → AssetClient T P → Pair S T P
asking id front len s c = record {
  server = s;
  client = record c { sent = request id (length front) len ∷ [] };
}

module _ {S T P : Type 0} (io : Storage S) (store : Storage T) (calls : Callbacks T P) (garbage : ℕ)
    (p : Peer) (id : String) (data' : List ℕ) (small : length data' < int_limit)
    (source : Source io id data') (sink : Sink store calls id (length data')) where
  pub record Fetched (fuel : ℕ) (front left : List ℕ) (s : Server S) (c : AssetClient T P)
      (from : Pair S T P) : Type 0 where
    pub server_store : S
    pub program : P
    pub goes :
        exchange io store calls garbage p (suc (suc fuel)) from
        ≡ exchange io store calls garbage p fuel (record {
          server = record s { store = server_store; sent = [] };
          client =
              go_on io store calls garbage p id
                (length front)
                (length (next_bytes left))
                (length data')
                (record c { program = program; sent = [] });
        })
    pub serves : source.Serves server_store
    pub holds : sink.Holds (front ++ next_bytes left) program

  pub fetch :
      (fuel : ℕ) (front left : List ℕ) (len : ℕ) (s : Server S) (c : AssetClient T P)
      → data' ≡ front ++ left
      → 0 < length left
      → 0 < len
      → min len (length left) ≡ min chunk_size (length left)
      → s.sent ≡ []
      → source.Serves s.store
      → sink.Holds front c.program
      → Fetched fuel front left s c (asking id front len s c)
  fetch fuel front left len s c parts more pos enough none_sent serving holding =
      let total : length data' ≡ length front + length left =
        ap length parts ∙ length-append front left in
      let size : length (next_bytes left) ≡ min chunk_size (length left) =
        omega (arith, length-take (min chunk_size (length left)) left) in
      let (st, reads, serving') =
        source.serve (length front) len s.store serving (omega arith) pos in
      let (b, bs, cons) = not_empty (next_bytes left) (omega arith) in
      let (cp, writes, holding') =
        sink.accept front (next_bytes left) (record c { sent = [] }) holding (omega arith)
          (omega arith) in
      let there : take (min len (length data' - length front)) (drop (length front) data')
          ≡ b ∷ bs =
        served_bytes front left data' len parts enough ∙ cons in
      let reads' : io.read id (length front) len s.store
          ≡ ok (st, bytes (map some (b ∷ bs)) (length data')) =
        subst
          (λ l. io.read id (length front) len s.store ≡ ok (st, bytes (map some l) (length data')))
          there reads in
      let d : AssetClient T P = record c { program = cp; sent = [] } in
      let writes' : asset_write store calls id (length front) (b ∷ bs) (length data')
            (record c { sent = [] })
          ≡ ok (d, length (b ∷ bs)) =
        subst
          (λ l.
            asset_write store calls id (length front) l (length data') (record c { sent = [] })
            ≡ ok (d, length l))
          cons writes in
      record {
        server_store = st;
        program = cp;
        goes =
            exchange_chunk io store calls garbage p id fuel (length front) len (length data') b bs s
              c st d none_sent reads' writes' (omega (arith, ap length cons)) small
            ∙ ap
                (λ l. exchange io store calls garbage p fuel (record {
                  server = record s { store = st; sent = [] };
                  client =
                      go_on io store calls garbage p id (length front) (length l) (length data') d;
                }))
                (sym cons);
        serves = serving';
        holds = holding';
      }

  pub go_on_more :
      (front part : List ℕ) (c : AssetClient T P)
      → c.has_peer ≡ true
      → length front + length part < length data'
      → go_on io store calls garbage p id
          (length front)
          (length part)
          (length data')
          (record c { sent = [] })
        ≡ record c {
          sent =
              request id
                (length (front ++ part))
                (min chunk_size (length data' - length (front ++ part)))
              ∷ [];
        }
  unfolding send
  go_on_more front part c peer less =
      let l : length (front ++ part) ≡ length front + length part = length-append front part in
      let more : ltb (length front + length part) (length data') ≡ true = ground arith in
      rw (more, l, peer) refl
