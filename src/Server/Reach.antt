-- ===== src/Server/Reach.antt =====
-- The events that `allo_poll` handles, one after the other, src/server.c.
use allonet.Common.{
  ℕ, zero, suc, ◌+◌, ◌≡◌, ◌≢◌, refl, sym, ◌∙◌, subst, List, [], ◌∷◌, Option, none, some, Bool, true,
  false, String, arith, inl, inr, take, length, leb, ltb, get_elem?, Bool-cases,
}
use allonet.Common.Size.{add_size}
use allonet.Common.All.{All, In}
use allonet.Common.Cases.{option-cases, >>=-ok_inv}
use allonet.Common.Outcome.{Outcome, ok, wild, assertion_failed, out_of_fuel, assert, ◌>>=◌, ◌>>◌}
use allonet.AssetStore.Access.{Reply, bytes, no_data, no_such_asset, no_size}
use allonet.Server.{Storage, Peer, Server, find_wanted, chunk_size}
use allonet.Server.Handle.{
  from_source, connect, disconnect, answer, request_bytes, deliver_each, forward, now_available,
  now_unavailable, accept_write, after_write, is_accepted, handle_data, destination,
}
use allonet.Server.Rounds.{deliver_each_unwanted, deliver_each_end, deliver_each_next}
use allonet.Server.Lookup.{DistinctIds-drop_wanted}
use allonet.Server.Invariant.{
  IsServer, AreWanted-drop_wanted, update-IsServer, request_missing-IsServer,
  now_unavailable-IsServer, connect-IsServer, disconnect-IsServer,
}

-- The server that a call ends with, if it ends well.
abbrev pub EndsWell : {S : Type 0} → Outcome (Server S) → Type 0
EndsWell (ok s) = IsServer s
EndsWell wild = Unit {0}
EndsWell assertion_failed = Unit {0}
EndsWell out_of_fuel = Unit {0}

module _ {S : Type 0} (io : Storage S) (client : Peer) (id : String) where
  answer-IsServer :
      (offset : ℕ) (to : Peer) (s : Server S) (reply : Reply)
      → IsServer s
      → IsServer (answer io id offset client to s reply)
  unfolding answer
  answer-IsServer offset to s (bytes (b ∷ bs) total) v = record {
    clients = v.clients;
    wanted = v.wanted;
    ids = v.ids;
  }
  answer-IsServer offset to s (bytes [] total) v = request_missing-IsServer s v id client
  answer-IsServer offset to s no_such_asset v = request_missing-IsServer s v id client
  answer-IsServer offset to s no_size v = request_missing-IsServer s v id client
  answer-IsServer offset to s (no_data total) v = request_missing-IsServer s v id client

  pub request_bytes-IsServer :
      (offset len : ℕ) (peer : Option Peer) (s s' : Server S)
      → IsServer s
      → request_bytes io id offset len client peer s ≡ ok s'
      → IsServer s'
  unfolding request_bytes
  request_bytes-IsServer offset len peer s s' v e =
      let (r, done, _) = >>=-ok_inv _ (io.read id offset len s.store) e in
      subst EndsWell done (
        answer-IsServer offset (destination peer client) (record s { store = r.0 }) r.1
          (record { clients = v.clients; wanted = v.wanted; ids = v.ids }))

  pub deliver_each-IsServer :
      (fuel i : ℕ) (s s' : Server S)
      → IsServer s
      → deliver_each io fuel id client i s ≡ ok s'
      → IsServer s'
  unfolding deliver_each
  deliver_each-IsServer zero i s s' v e = cc
  deliver_each-IsServer (suc fuel) i s s' v e = elim (option-cases (find_wanted id s.wanted)) [
    | inl unwanted ↦ ground (arith, deliver_each_unwanted io fuel id client i s unwanted)
    | inr (w, found) ↦ elim (option-cases (get_elem? w.recipients i)) [
      | inl last ↦ ground (arith, v, deliver_each_end io fuel id client i s w found last)
      | inr (r, next) ↦
          let go = deliver_each_next io fuel id client i s w found r next in
          let (t, rest, first) =
            >>=-ok_inv _ (request_bytes io id 0 chunk_size client (some r) s) (sym go ∙ e) in
          deliver_each-IsServer fuel (i + 1) t s'
            (request_bytes-IsServer 0 chunk_size (some r) s t v first) rest
    ]
  ]

  pub forward-IsServer :
      (fuel : ℕ) (s s' : Server S) → IsServer s → forward io fuel id client s ≡ ok s' → IsServer s'
  unfolding forward
  forward-IsServer fuel s s' v e =
      let (t, done, each) = >>=-ok_inv _ (deliver_each io fuel id client 0 s) e in
      let u = deliver_each-IsServer fuel 0 s t v each in
      subst EndsWell done (record {
        clients = u.clients;
        wanted = AreWanted-drop_wanted t.clients id t.wanted u.wanted;
        ids = DistinctIds-drop_wanted id t.wanted u.ids;
      })

  pub now_available-IsServer :
      (fuel : ℕ) (s s' : Server S)
      → IsServer s
      → now_available io fuel id client s ≡ ok s'
      → IsServer s'
  unfolding now_available
  now_available-IsServer fuel s s' v e = elim (option-cases (find_wanted id s.wanted)) [
    | inl unwanted ↦ ground (arith, unwanted)
    | inr (w, found) ↦ ground (arith, found, forward-IsServer fuel s s' v)
  ]

  accept_write-IsServer :
      (offset total n : ℕ) (data' : List ℕ) (s s' : Server S)
      → IsServer s
      → accept_write io id offset data' total client s ≡ ok (s', n)
      → IsServer s'
  unfolding accept_write
  accept_write-IsServer offset total n data' s s' v e =
      ground (arith, v, update-IsServer s v id (from_source client) (λ w. refl) (λ w h. h))

  asserted-IsServer :
      {s' : Server S} (b : Bool) (t : Server S)
      → IsServer t
      → (assert b >> ok t) ≡ ok s'
      → IsServer s'
  asserted-IsServer true t v e = subst EndsWell e v
  asserted-IsServer false t v e = cc

  after_write-IsServer :
      (fuel offset len total n : ℕ) (s s' : Server S)
      → IsServer s
      → after_write io fuel id offset len total client (s, n) ≡ ok s'
      → IsServer s'
  unfolding after_write
  after_write-IsServer fuel offset len total zero s s' v e = subst EndsWell e v
  after_write-IsServer fuel offset len total (suc n) s s' v e =
      elim (Bool-cases (ltb (add_size offset len) total)) [
        | inl more ↦ ground (arith, v, more)
        | inr last ↦
            let checked : Server S → Outcome (Server S) =
              λ t. assert (leb (add_size offset len) total) >> ok t in
            let e' : (now_available io fuel id client s >>= checked) ≡ ok s' =
              ground (arith, last) in
            let (t, done, sent) = >>=-ok_inv checked (now_available io fuel id client s) e' in
            asserted-IsServer (leb (add_size offset len) total) t
              (now_available-IsServer fuel s t v sent) done
      ]

  handle_data_refused :
      (fuel offset len total : ℕ) (payload : List ℕ) (s : Server S)
      → leb len (length payload) ≡ false
      → is_accepted id client s ≡ false
      → handle_data io fuel id offset len total payload client s ≡ ok s
  unfolding handle_data
  handle_data_refused fuel offset len total payload s short refused = ground (arith, short, refused)

  pub handle_data-IsServer :
      (fuel offset len total : ℕ) (payload : List ℕ) (s s' : Server S)
      → IsServer s
      → handle_data io fuel id offset len total payload client s ≡ ok s'
      → IsServer s'
  unfolding handle_data
  handle_data-IsServer fuel offset len total payload s s' v e =
      elim (Bool-cases (leb len (length payload))) [
        | inl whole ↦
            let (t, done, accepted) =
              >>=-ok_inv (after_write io fuel id offset len total client)
                (accept_write io id offset (take len payload) total client s)
                (ground (arith, whole)) in
            after_write-IsServer fuel offset len total t.1 t.0 s'
              (accept_write-IsServer offset total t.1 (take len payload) s t.0 v accepted) done
        | inr short ↦ elim (Bool-cases (is_accepted id client s)) [
          | inl writes ↦ ground (arith, short, writes)
          | inr refused ↦
              subst EndsWell
                (sym (handle_data_refused fuel offset len total payload s short refused) ∙ e) v
        ]
      ]

-- The events that `allo_poll` handles, each at a time of its own: the storage may differ from one
-- to the next, the store that it works on does not. Messages from who is no client are dropped.
pub data Step {S : Type 0} : Server S → Server S → Type 0 where
  connected : (p : Peer) (s : Server S) → All (λ q. q ≢ p) s.clients → Step s (connect p s)
  lost : (p : Peer) (s : Server S) → In p s.clients → Step s (disconnect p s)
  requested :
      (io : Storage S) (p : Peer) (id : String) (offset len : ℕ) (s s' : Server S)
      → In p s.clients
      → request_bytes io id offset len p none s ≡ ok s'
      → Step s s'
  delivered :
      (io : Storage S) (fuel : ℕ) (p : Peer) (id : String) (offset len total : ℕ) (payload : List ℕ)
      (s s' : Server S)
      → In p s.clients
      → handle_data io fuel id offset len total payload p s ≡ ok s'
      → Step s s'
  failed :
      (p : Peer) (id : String) (s : Server S) → In p s.clients → Step s (now_unavailable id p s)

pub data Reaches {S : Type 0} : Server S → Server S → Type 0 where
  here : (s : Server S) → Reaches s s
  onward : (s t u : Server S) → Step s t → Reaches t u → Reaches s u

Step-IsServer : {S : Type 0} {s t : Server S} → Step s t → IsServer s → IsServer t
Step-IsServer (connected p s fresh) v = connect-IsServer s v p fresh
Step-IsServer (lost p s i) v = disconnect-IsServer s v p
Step-IsServer (requested io p id offset len s s' i e) v =
    request_bytes-IsServer io p id offset len none s s' v e
Step-IsServer (delivered io fuel p id offset len total payload s s' i e) v =
    handle_data-IsServer io p id fuel offset len total payload s s' v e
Step-IsServer (failed p id s i) v = now_unavailable-IsServer s v id p

-- `allo_listen`: no clients, and nothing wanted.
abbrev pub listening : {S : Type 0} → S → Server S
listening store = record { clients = []; wanted = []; store = store; sent = [] }

reach-IsServer : {S : Type 0} {s t : Server S} → Reaches s t → IsServer s → IsServer t
reach-IsServer (here s) v = v
reach-IsServer (onward s t u step rest) v = reach-IsServer rest (Step-IsServer step v)

-- Whatever connects, leaves, asks, delivers or fails, in whatever order: in every state that a
-- server can reach no client stands in its list twice, no asset is wanted twice, and the peers
-- that may still deliver an asset are clients, each named once.
pub Reaches-IsServer :
    {S : Type 0} (store : S) (s : Server S) → Reaches (listening store) s → IsServer s
Reaches-IsServer store s r = reach-IsServer r (record { clients = tt; wanted = tt; ids = tt })
