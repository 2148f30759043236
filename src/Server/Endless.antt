-- ===== src/Server/Endless.antt =====
-- `_forward_wanted_asset` of an asset that the store does not serve, and the failure of an asset
-- that no client has, src/server.c.
use allonet.Common.{
  ℕ, zero, suc, ◌+◌, ◌<◌, ◌≡◌, refl, ◌∙◌, List, [], ◌∷◌, ◌++◌, Option, some, Bool, true, false,
  String, arith, length, get_elem?, length-append,
}
use allonet.Common.Outcome.{ok, out_of_fuel}
use allonet.AssetStore.Access.{Reply, bytes, no_data, no_such_asset, no_size}
use allonet.Server.{
  Storage, Peer, Wanted, Server, chunk_size, find_wanted, update_wanted, drop_wanted, remove_peer,
  failures,
}
use allonet.Server.Handle.{
  request_missing, answer, request_bytes, deliver_each, forward, now_unavailable, add_recipient,
  without_source,
}
use allonet.Server.Rounds.{deliver_each_next}
use allonet.Server.Find.{find_wanted-update_wanted, drop_wanted-update_wanted}

abbrev pub is_served : Reply → Bool
is_served (bytes (b ∷ bs) total) = true
is_served (bytes [] total) = false
is_served no_such_asset = false
is_served no_size = false
is_served (no_data total) = false

get_elem?-lt : (xs : List Peer) (i : ℕ) → i < length xs → (r : Peer) × (get_elem? xs i ≡ some r)
get_elem?-lt [] i h = absurd (omega arith)
get_elem?-lt (x ∷ xs) zero h = (x, refl)
get_elem?-lt (x ∷ xs) (suc i) h = get_elem?-lt xs i (omega arith)

module _ {S : Type 0} (io : Storage S) (id : String) (client : Peer) where
  answer_unserved :
      (offset : ℕ) (to : Peer) (s : Server S) (reply : Reply)
      → is_served reply ≡ false
      → answer io id offset client to s reply ≡ request_missing id client s
  unfolding answer
  answer_unserved offset to s (bytes (b ∷ bs) total) e = cc
  answer_unserved offset to s (bytes [] total) e = refl
  answer_unserved offset to s no_such_asset e = refl
  answer_unserved offset to s no_size e = refl
  answer_unserved offset to s (no_data total) e = refl

  request_bytes_unserved :
      (offset len : ℕ) (to : Option Peer) (s : Server S) (st : S) (reply : Reply) (w : Wanted)
      → io.read id offset len s.store ≡ ok (st, reply)
      → is_served reply ≡ false
      → find_wanted id s.wanted ≡ some w
      → request_bytes io id offset len client to s
        ≡ ok (record s { store = st; wanted = update_wanted id (add_recipient client) s.wanted })
  unfolding request_bytes request_missing
  request_bytes_unserved offset len to s st reply w reads unserved found =
      ground (arith, answer_unserved offset)

module _ {S : Type 0} (io : Storage S) (id : String) (client : Peer) (Fails : S → Type 0)
    (fail : (st : S)
      → Fails st
      → (st' : S) × (reply : Reply) × (io.read id 0 chunk_size st ≡ ok (st', reply))
        × (is_served reply ≡ false)
        × Fails st') where
  deliver_each_unserved :
      (fuel i : ℕ) (s : Server S) (w : Wanted)
      → find_wanted id s.wanted ≡ some w
      → i < length w.recipients
      → Fails s.store
      → deliver_each io fuel id client i s ≡ out_of_fuel
  unfolding deliver_each
  deliver_each_unserved zero i s w found more v = refl
  deliver_each_unserved (suc fuel) i s w found more v =
      let (st, reply, reads, unserved, u) = fail s.store v in
      let (r, next) = get_elem?-lt w.recipients i more in
      let first =
        request_bytes_unserved io id client 0 chunk_size (some r) s st reply w reads unserved
          found in
      let t : Server S = record s {
        store = st;
        wanted = update_wanted id (add_recipient client) s.wanted;
      } in
      let go =
        deliver_each_unserved fuel (i + 1) t (add_recipient client w)
          (find_wanted-update_wanted id (add_recipient client) s.wanted w refl found)
          (omega (arith, length-append w.recipients (client ∷ []))) u in
      deliver_each_next io fuel id client i s w found r next ∙ rw first go

  -- If the store does not serve the asset, each failed read asks for it again in the name of the
  -- client that delivered it, and so adds a recipient to the array that the loop runs over:
  -- `_forward_wanted_asset` does not end, on however many rounds.
  pub forward_unserved :
      (fuel : ℕ) (s : Server S) (w : Wanted)
      → find_wanted id s.wanted ≡ some w
      → 0 < length w.recipients
      → Fails s.store
      → forward io fuel id client s ≡ out_of_fuel
  unfolding forward
  forward_unserved fuel s w found some_one v =
      ground (arith, deliver_each_unserved fuel 0 s w found some_one v)

-- The clients in the list answer, one after the other, that they do not have the asset.
pub all_fail : {S : Type 0} → String → List Peer → Server S → Server S
all_fail id [] s = s
all_fail id (p ∷ ps) s = all_fail id ps (now_unavailable id p s)

remove_peer_head : (p : Peer) (ps : List Peer) → remove_peer p (p ∷ ps) ≡ ps
unfolding remove_peer
remove_peer_head p ps = ground arith

module _ {S : Type 0} (id : String) where
  now_unavailable_last :
      (p : Peer) (s : Server S) (w : Wanted)
      → find_wanted id s.wanted ≡ some w
      → remove_peer p w.remaining ≡ []
      → now_unavailable id p s
        ≡ record s { wanted = drop_wanted id s.wanted; sent = s.sent ++ failures id w.recipients }
  unfolding now_unavailable
  now_unavailable_last p s w found e = rw (found, now_unavailable, e) refl

  now_unavailable_more :
      (p q : Peer) (qs : List Peer) (s : Server S) (w : Wanted)
      → find_wanted id s.wanted ≡ some w
      → remove_peer p w.remaining ≡ q ∷ qs
      → now_unavailable id p s ≡ record s { wanted = update_wanted id (without_source p) s.wanted }
  unfolding now_unavailable
  now_unavailable_more p q qs s w found e = rw (found, now_unavailable, e) refl

  -- When the clients that might have delivered a wanted asset have all answered, in the order in
  -- which they stand there, that they do not have it, each recipient is told so, once, and the
  -- asset is no longer wanted. Nothing was sent before the last answer.
  pub all_fail-failures :
      (p : Peer) (ps : List Peer) (s : Server S) (w : Wanted)
      → find_wanted id s.wanted ≡ some w
      → w.remaining ≡ p ∷ ps
      → all_fail id (p ∷ ps) s
        ≡ record s { wanted = drop_wanted id s.wanted; sent = s.sent ++ failures id w.recipients }
  unfolding all_fail
  all_fail-failures p [] s w found e =
      now_unavailable_last p s w found (rw e (remove_peer_head p []))
  all_fail-failures p (q ∷ qs) s w found e =
      let t : Server S = record s { wanted = update_wanted id (without_source p) s.wanted } in
      let rest : remove_peer p w.remaining ≡ q ∷ qs = rw e (remove_peer_head p (q ∷ qs)) in
      let go =
        all_fail-failures q qs t (without_source p w)
          (find_wanted-update_wanted id (without_source p) s.wanted w refl found) rest in
      ground (
        arith,
        now_unavailable_more p q qs s w found rest,
        go,
        drop_wanted-update_wanted id (without_source p) s.wanted w refl found,
      )
