-- ===== src/Server/Find.antt =====
-- What is found in a list of wanted assets after a change.
use text.Mathlib.TextEquality.{eq_iff}
use allonet.Common.{◌≡◌, List, [], ◌∷◌, ◌++◌, none, some, false, String, arith}
use allonet.Server.{Peer, Wanted, find_wanted, update_wanted, drop_wanted, remove_peer}
use allonet.Server.Handle.{lose_peer, lose_peer_from, is_empty}

module _ (id : String) where
  pub find_wanted-update_wanted :
      (f : Wanted → Wanted) (ws : List Wanted) (w : Wanted)
      → (f w).id ≡ w.id
      → find_wanted id ws ≡ some w
      → find_wanted id (update_wanted id f ws) ≡ some (f w)
  unfolding find_wanted update_wanted
  find_wanted-update_wanted f [] w same e = cc
  find_wanted-update_wanted f (v ∷ ws) w same e = ground (arith, find_wanted-update_wanted f ws w)

  pub drop_wanted-update_wanted :
      (f : Wanted → Wanted) (ws : List Wanted) (w : Wanted)
      → (f w).id ≡ w.id
      → find_wanted id ws ≡ some w
      → drop_wanted id (update_wanted id f ws) ≡ drop_wanted id ws
  unfolding find_wanted update_wanted drop_wanted
  drop_wanted-update_wanted f [] w same e = cc
  drop_wanted-update_wanted f (v ∷ ws) w same e = ground (arith, drop_wanted-update_wanted f ws w)

  pub find_wanted-append :
      (ws : List Wanted) (v : Wanted)
      → v.id ≡ id
      → find_wanted id ws ≡ none
      → find_wanted id (ws ++ (v ∷ [])) ≡ some v
  unfolding find_wanted
  find_wanted-append [] v same e = ground (arith, eq_iff v.id id)
  find_wanted-append (w ∷ ws) v same e = ground (arith, find_wanted-append ws v)

  -- An asset that others can still deliver stays wanted when a peer is lost.
  pub find_wanted-lose_peer :
      (p : Peer) (ws : List Wanted) (w : Wanted)
      → is_empty (remove_peer p w.remaining) ≡ false
      → find_wanted id ws ≡ some w
      → find_wanted id ((lose_peer p ws).0) ≡ some (lose_peer_from p w)
  unfolding find_wanted lose_peer
  find_wanted-lose_peer p [] w more e = cc
  find_wanted-lose_peer p (v ∷ ws) w more e = ground (arith, find_wanted-lose_peer p ws w)
