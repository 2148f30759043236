-- ===== src/Server/Forward.antt =====
-- `_forward_wanted_asset` and the recipients of an asset, src/server.c.
use allonet.Common.{
  ℕ, zero, suc, ◌+◌, ◌^◌, ◌<◌, ◌≤◌, ◌≡◌, refl, List, [], ◌∷◌, ◌++◌, Option, none, some, String,
  arith, map, length, get_elem?, drop,
}
use mathlib.Core.List.{append_assoc, append-nil}
use allonet.Common.Size.{to_int}
use allonet.Common.Outcome.{ok}
use allonet.AssetStore.State.{Buffer}
use allonet.AssetStore.Access.{bytes}
use allonet.Server.{
  Storage, Peer, chunk, Sent, Wanted, Server, chunk_size, find_wanted, drop_wanted, deliver_bytes,
}
use allonet.Server.Handle.{request_bytes, deliver_each, forward}
use allonet.Server.Rounds.{deliver_each_end, deliver_each_next}

get_elem?-drop :
    (xs : List Peer) (i : ℕ) (r : Peer) (rs : List Peer)
    → drop i xs ≡ r ∷ rs
    → (get_elem? xs i ≡ some r) × (drop (i + 1) xs ≡ rs)
get_elem?-drop [] zero r rs e = cc
get_elem?-drop [] (suc i) r rs e = cc
get_elem?-drop (x ∷ xs) zero r rs e = ground (arith, e)
get_elem?-drop (x ∷ xs) (suc i) r rs e =
    let k : suc i + 1 ≡ suc (i + 1) = omega arith in rw k (get_elem?-drop xs i r rs e)

get_elem?-drop_end : (xs : List Peer) (i : ℕ) → drop i xs ≡ [] → get_elem? xs i ≡ none
get_elem?-drop_end [] i e = ground arith
get_elem?-drop_end (x ∷ xs) zero e = cc
get_elem?-drop_end (x ∷ xs) (suc i) e = get_elem?-drop_end xs i e

-- The first chunk of an asset, sent to each of its recipients.
abbrev pub first_chunks : String → ℕ → Buffer → List Peer → Sent
first_chunks id total data' recipients =
    map (λ r. (r, chunk id (to_int 0) (to_int (length data')) total data')) recipients

module _ {S : Type 0} (io : Storage S) (id : String) (client : Peer) (b : Option ℕ) (bs : Buffer)
    (total : ℕ) (fits : length (b ∷ bs) ≤ total) (small : total < 2 ^ 64) (Serves : S → Type 0)
    (serve : (st : S)
      → Serves st
      → (st' : S) × (io.read id 0 chunk_size st ≡ ok (st', bytes (b ∷ bs) total))
        × Serves st') where
  request_bytes_served :
      (r : Peer) (s : Server S) (st' : S)
      → io.read id 0 chunk_size s.store ≡ ok (st', bytes (b ∷ bs) total)
      → request_bytes io id 0 chunk_size client (some r) s
        ≡ ok (record s { store = st'; sent = s.sent ++ first_chunks id total (b ∷ bs) (r ∷ []) })
  unfolding request_bytes deliver_bytes
  request_bytes_served r s st' e = ground arith

  deliver_each_served :
      (fuel i : ℕ) (rs : List Peer) (s : Server S) (w : Wanted)
      → find_wanted id s.wanted ≡ some w
      → drop i w.recipients ≡ rs
      → length rs < fuel
      → Serves s.store
      → (st' : S) × (deliver_each io fuel id client i s
          ≡ ok (record s { store = st'; sent = s.sent ++ first_chunks id total (b ∷ bs) rs }))
        × Serves st'
  deliver_each_served zero i rs s w found left enough v = absurd (omega arith)
  deliver_each_served (suc fuel) i [] s w found left enough v = (
    s.store,
    ground (
      arith,
      deliver_each_end io fuel id client i s w found (get_elem?-drop_end w.recipients i left),
      append-nil s.sent,
    ),
    v,
  )
  deliver_each_served (suc fuel) i (r ∷ rs) s w found left enough v =
      let (st, reads, u) = serve s.store v in
      let (next, rest) = get_elem?-drop w.recipients i r rs left in
      let first = first_chunks id total (b ∷ bs) (r ∷ []) in
      let t : Server S = record s { store = st; sent = s.sent ++ first } in
      let (st', go, u') = deliver_each_served fuel (i + 1) rs t w found rest (omega arith) u in
      (
        st',
        ground (
          arith,
          deliver_each_next io fuel id client i s w found r next,
          request_bytes_served r s st reads,
          go,
          append_assoc s.sent first (first_chunks id total (b ∷ bs) rs),
        ),
        u',
      )

  -- As long as the store serves the asset from its start, `_forward_wanted_asset` ends: it sends
  -- the first chunk to every recipient, once each and in the order they asked, and forgets the
  -- asset. More rounds than there are recipients are enough.
  pub forward_served :
      (fuel : ℕ) (s : Server S) (w : Wanted)
      → find_wanted id s.wanted ≡ some w
      → length w.recipients < fuel
      → Serves s.store
      → (st' : S) × (forward io fuel id client s
          ≡ ok (record s {
            store = st';
            wanted = drop_wanted id s.wanted;
            sent = s.sent ++ first_chunks id total (b ∷ bs) w.recipients;
          }))
        × Serves st'
  unfolding forward
  forward_served fuel s w found enough v =
      let (st', go, u) = deliver_each_served fuel 0 w.recipients s w found refl enough v in
      (st', ground (arith, go), u)
