-- ===== src/Server/Lookup.antt =====
-- Lists of peers and of wanted assets: what removing and updating leaves in them.
use text.Mathlib.Text.{◌==◌ as str_eq}
use allonet.Common.{◌≡◌, ◌≢◌, List, [], ◌∷◌, ◌++◌, none, false, String, arith, inr}
use allonet.Common.All.{All, In}
use allonet.Server.{Peer, Wanted, find_wanted, update_wanted, drop_wanted, remove_peer, others}

-- No peer stands in the list twice.
abbrev pub NoDup : List Peer → Type 0
NoDup [] = Unit {0}
NoDup (p ∷ ps) = All (λ q. q ≢ p) ps × NoDup ps

abbrev pub Within : List Peer → List Peer → Type 0
Within clients ps = All (λ p. In p clients) ps

module _ (p : Peer) where
  pub ≢-remove_peer :
      (r : Peer) (qs : List Peer) → All (λ q. q ≢ r) qs → All (λ q. q ≢ r) (remove_peer p qs)
  unfolding remove_peer
  ≢-remove_peer r [] h = tt
  ≢-remove_peer r (q ∷ qs) h = ground (arith, ≢-remove_peer r qs)

  pub NoDup-remove_peer : (qs : List Peer) → NoDup qs → NoDup (remove_peer p qs)
  unfolding remove_peer
  NoDup-remove_peer [] d = tt
  NoDup-remove_peer (q ∷ qs) d = ground (arith, ≢-remove_peer q qs, NoDup-remove_peer qs)

  In-remove_peer : (q : Peer) (qs : List Peer) → q ≢ p → In q qs → In q (remove_peer p qs)
  unfolding remove_peer
  In-remove_peer q [] ne i = i
  In-remove_peer q (r ∷ qs) ne i = ground (arith, In-remove_peer q qs)

  -- A list that loses one peer stays within a list that loses it too.
  Within-remove_peer :
      (clients ps : List Peer)
      → All (λ q. q ≢ p) ps
      → Within clients ps
      → Within (remove_peer p clients) ps
  Within-remove_peer clients [] ne w = tt
  Within-remove_peer clients (q ∷ ps) ne w =
      (In-remove_peer q clients ne.0 w.0, Within-remove_peer clients ps ne.1 w.1)

  pub remove_peer-Within :
      (clients ps : List Peer) → Within clients ps → Within clients (remove_peer p ps)
  unfolding remove_peer
  remove_peer-Within clients [] w = tt
  remove_peer-Within clients (q ∷ ps) w = ground (arith, remove_peer-Within clients ps)

  pub ≢-remove_peer_self : (ps : List Peer) → NoDup ps → All (λ q. q ≢ p) (remove_peer p ps)
  unfolding remove_peer
  ≢-remove_peer_self [] d = tt
  ≢-remove_peer_self (q ∷ ps) d = ground (arith, ≢-remove_peer_self ps)

  pub remove_both-Within :
      (clients ps : List Peer)
      → NoDup ps
      → Within clients ps
      → Within (remove_peer p clients) (remove_peer p ps)
  remove_both-Within clients ps d w =
      Within-remove_peer clients (remove_peer p ps) (≢-remove_peer_self ps d)
        (remove_peer-Within clients ps w)

  pub Within-cons : (clients ps : List Peer) → Within clients ps → Within (p ∷ clients) ps
  Within-cons clients [] w = tt
  Within-cons clients (q ∷ ps) w = (inr w.0, Within-cons clients ps w.1)

  ≢-others : (r : Peer) (qs : List Peer) → All (λ q. q ≢ r) qs → All (λ q. q ≢ r) (others p qs)
  unfolding others
  ≢-others r [] h = tt
  ≢-others r (q ∷ qs) h = ground (arith, ≢-others r qs)

  pub NoDup-others : (qs : List Peer) → NoDup qs → NoDup (others p qs)
  unfolding others
  NoDup-others [] d = tt
  NoDup-others (q ∷ qs) d = ground (arith, ≢-others q qs, NoDup-others qs)

pub Within-others : (p : Peer) (qs : List Peer) → Within qs (others p qs)
unfolding others
Within-others p [] = tt
Within-others p (q ∷ qs) =
    ground (arith, Within-others p qs, Within-cons q qs (others p qs) (Within-others p qs))

-- No asset is wanted twice.
abbrev pub NoId : String → List Wanted → Type 0
NoId id ws = All (λ w. str_eq id w.id ≡ false) ws

abbrev pub DistinctIds : List Wanted → Type 0
DistinctIds [] = Unit {0}
DistinctIds (w ∷ ws) = NoId w.id ws × DistinctIds ws

module _ (id : String) (f : Wanted → Wanted) (same : (w : Wanted) → (f w).id ≡ w.id) where
  NoId-update_wanted : (x : String) (ws : List Wanted) → NoId x ws → NoId x (update_wanted id f ws)
  unfolding update_wanted
  NoId-update_wanted x [] h = tt
  NoId-update_wanted x (w ∷ ws) h = ground (arith, same w, NoId-update_wanted x ws)

  pub DistinctIds-update_wanted :
      (ws : List Wanted) → DistinctIds ws → DistinctIds (update_wanted id f ws)
  unfolding update_wanted
  DistinctIds-update_wanted [] d = tt
  DistinctIds-update_wanted (w ∷ ws) d =
      ground (arith, same w, NoId-update_wanted w.id ws, DistinctIds-update_wanted ws)

module _ (id : String) where
  NoId-drop_wanted : (x : String) (ws : List Wanted) → NoId x ws → NoId x (drop_wanted id ws)
  unfolding drop_wanted
  NoId-drop_wanted x [] h = tt
  NoId-drop_wanted x (w ∷ ws) h = ground (arith, NoId-drop_wanted x ws)

  pub DistinctIds-drop_wanted :
      (ws : List Wanted) → DistinctIds ws → DistinctIds (drop_wanted id ws)
  unfolding drop_wanted
  DistinctIds-drop_wanted [] d = tt
  DistinctIds-drop_wanted (w ∷ ws) d =
      ground (arith, NoId-drop_wanted w.id ws, DistinctIds-drop_wanted ws)

  NoId-append :
      (x : String) (v : Wanted) (ws : List Wanted)
      → str_eq x v.id ≡ false
      → NoId x ws
      → NoId x (ws ++ (v ∷ []))
  NoId-append x v [] e h = (e, tt)
  NoId-append x v (w ∷ ws) e h = (h.0, NoId-append x v ws e h.1)

  pub DistinctIds-append :
      (v : Wanted) (ws : List Wanted)
      → find_wanted id ws ≡ none
      → v.id ≡ id
      → DistinctIds ws
      → DistinctIds (ws ++ (v ∷ []))
  unfolding find_wanted
  DistinctIds-append v [] f e d = (tt, tt)
  DistinctIds-append v (w ∷ ws) f e d =
      ground (arith, NoId-append w.id v ws, DistinctIds-append v ws)
