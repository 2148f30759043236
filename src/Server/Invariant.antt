-- ===== src/Server/Invariant.antt =====
-- The lists of clients and of wanted assets under the handlers of src/server.c.
use text.Mathlib.Text.{◌==◌ as str_eq}
use allonet.Common.{◌≡◌, ◌≢◌, refl, List, [], ◌∷◌, ◌++◌, String, arith, inl, inr, Bool-cases}
use allonet.Common.All.{All}
use allonet.Common.Cases.{option-cases}
use allonet.Server.{Peer, Wanted, Server, find_wanted, update_wanted, drop_wanted, remove_peer}
use allonet.Server.Handle.{
  new_wanted, add_recipient, without_source, request_missing, is_empty, lose_peer, connect,
  disconnect, now_unavailable,
}
use allonet.Server.Lookup.{
  NoDup, Within, NoDup-remove_peer, remove_peer-Within, remove_both-Within, Within-cons,
  NoDup-others, Within-others, NoId, DistinctIds, DistinctIds-update_wanted,
  DistinctIds-drop_wanted, DistinctIds-append,
}

-- The clients that may still deliver an asset are clients, and none of them stands there twice.
abbrev pub IsWanted : List Peer → Wanted → Type 0
IsWanted clients w = NoDup w.remaining × Within clients w.remaining

abbrev pub AreWanted : List Peer → List Wanted → Type 0
AreWanted clients ws = All (IsWanted clients) ws

pub record IsServer {S : Type 0} (s : Server S) : Type 0 where
  pub clients : NoDup s.clients
  pub wanted : AreWanted s.clients s.wanted
  pub ids : DistinctIds s.wanted

AreWanted-append :
    (clients : List Peer) (v : Wanted) (ws : List Wanted)
    → IsWanted clients v
    → AreWanted clients ws
    → AreWanted clients (ws ++ (v ∷ []))
AreWanted-append clients v [] h a = (h, tt)
AreWanted-append clients v (w ∷ ws) h a = (a.0, AreWanted-append clients v ws h a.1)

AreWanted-update_wanted :
    (clients : List Peer) (id : String) (f : Wanted → Wanted) (ws : List Wanted)
    → ((w : Wanted) → IsWanted clients w → IsWanted clients (f w))
    → AreWanted clients ws
    → AreWanted clients (update_wanted id f ws)
unfolding update_wanted
AreWanted-update_wanted clients id f [] h a = tt
AreWanted-update_wanted clients id f (w ∷ ws) h a = elim (Bool-cases (str_eq w.id id)) [
  | inl hit ↦ rw hit (h w a.0, a.1)
  | inr miss ↦ rw miss (a.0, AreWanted-update_wanted clients id f ws h a.1)
]

pub AreWanted-drop_wanted :
    (clients : List Peer) (id : String) (ws : List Wanted)
    → AreWanted clients ws
    → AreWanted clients (drop_wanted id ws)
unfolding drop_wanted
AreWanted-drop_wanted clients id [] a = tt
AreWanted-drop_wanted clients id (w ∷ ws) a = elim (Bool-cases (str_eq w.id id)) [
  | inl hit ↦ rw hit a.1
  | inr miss ↦ rw miss (a.0, AreWanted-drop_wanted clients id ws a.1)
]

AreWanted-cons :
    (p : Peer) (clients : List Peer) (ws : List Wanted)
    → AreWanted clients ws
    → AreWanted (p ∷ clients) ws
AreWanted-cons p clients [] a = tt
AreWanted-cons p clients (w ∷ ws) a =
    ((a.0.0, Within-cons p clients w.remaining a.0.1), AreWanted-cons p clients ws a.1)

NoId-lose_peer :
    (x : String) (p : Peer) (ws : List Wanted) → NoId x ws → NoId x ((lose_peer p ws).0)
unfolding lose_peer
NoId-lose_peer x p [] h = tt
NoId-lose_peer x p (w ∷ ws) h = ground (arith, NoId-lose_peer x p ws)

DistinctIds-lose_peer :
    (p : Peer) (ws : List Wanted) → DistinctIds ws → DistinctIds ((lose_peer p ws).0)
unfolding lose_peer
DistinctIds-lose_peer p [] d = tt
DistinctIds-lose_peer p (w ∷ ws) d =
    ground (arith, NoId-lose_peer w.id p ws, DistinctIds-lose_peer p ws)

AreWanted-lose_peer :
    (p : Peer) (clients : List Peer) (ws : List Wanted)
    → AreWanted clients ws
    → AreWanted (remove_peer p clients) ((lose_peer p ws).0)
unfolding lose_peer
AreWanted-lose_peer p clients [] a = tt
AreWanted-lose_peer p clients (w ∷ ws) a =
    elim (Bool-cases (is_empty (remove_peer p w.remaining))) [
      | inl empty ↦ rw empty (AreWanted-lose_peer p clients ws a.1)
      | inr more ↦ rw more (
        (
          NoDup-remove_peer p w.remaining a.0.0,
          remove_both-Within p clients w.remaining a.0.0 a.0.1,
        ),
        AreWanted-lose_peer p clients ws a.1,
      )
    ]

module _ {S : Type 0} (s : Server S) (v : IsServer s) where
  pub connect-IsServer : (p : Peer) → All (λ q. q ≢ p) s.clients → IsServer (connect p s)
  unfolding connect
  connect-IsServer p fresh = record {
    clients = (fresh, v.clients);
    wanted = AreWanted-cons p s.clients s.wanted v.wanted;
    ids = v.ids;
  }

  pub disconnect-IsServer : (p : Peer) → IsServer (disconnect p s)
  unfolding disconnect
  disconnect-IsServer p = record {
    clients = NoDup-remove_peer p s.clients v.clients;
    wanted = AreWanted-lose_peer p s.clients s.wanted v.wanted;
    ids = DistinctIds-lose_peer p s.wanted v.ids;
  }

  pub update-IsServer :
      (id : String) (f : Wanted → Wanted)
      → ((w : Wanted) → (f w).id ≡ w.id)
      → ((w : Wanted) → IsWanted s.clients w → IsWanted s.clients (f w))
      → IsServer (record s { wanted = update_wanted id f s.wanted })
  update-IsServer id f same keep = record {
    clients = v.clients;
    wanted = AreWanted-update_wanted s.clients id f s.wanted keep v.wanted;
    ids = DistinctIds-update_wanted id f same s.wanted v.ids;
  }

  pub request_missing-IsServer : (id : String) (p : Peer) → IsServer (request_missing id p s)
  unfolding request_missing
  request_missing-IsServer id p = elim (option-cases (find_wanted id s.wanted)) [
    | inl new ↦
        rw (new, request_missing)
          (record {
            clients = v.clients;
            wanted =
                AreWanted-append s.clients (new_wanted id p s.clients) s.wanted
                  (NoDup-others p s.clients v.clients, Within-others p s.clients) v.wanted;
            ids = DistinctIds-append id (new_wanted id p s.clients) s.wanted new refl v.ids;
          })
    | inr (w, found) ↦
        rw (found, request_missing) (update-IsServer id (add_recipient p) (λ w. refl) (λ w h. h))
  ]

  pub now_unavailable-IsServer : (id : String) (p : Peer) → IsServer (now_unavailable id p s)
  unfolding now_unavailable
  now_unavailable-IsServer id p = elim (option-cases (find_wanted id s.wanted)) [
    | inl new ↦ rw (new, now_unavailable) v
    | inr (w, found) ↦ elim (Bool-cases (is_empty (remove_peer p w.remaining))) [
      | inl last ↦
          rw (found, now_unavailable, last)
            (record {
              clients = v.clients;
              wanted = AreWanted-drop_wanted s.clients id s.wanted v.wanted;
              ids = DistinctIds-drop_wanted id s.wanted v.ids;
            })
      | inr more ↦
          rw (found, now_unavailable, more)
            (update-IsServer id (without_source p) (λ w. refl)
              (λ w h. (
                NoDup-remove_peer p w.remaining h.0,
                remove_peer-Within p s.clients w.remaining h.1,
              )))
    ]
  ]
