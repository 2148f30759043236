-- ===== src/Server/Lost.antt =====
-- What is left of a client that has disconnected, src/server.c.
use allonet.Common.{ℕ, ◌≡◌, ◌≢◌, refl, ◌∙◌, List, [], ◌∷◌, none, some, false, String, arith}
use allonet.Common.All.{In}
use allonet.Common.Outcome.{ok}
use allonet.Server.{Storage, Peer, Wanted, Server, find_wanted, update_wanted, remove_peer, others}
use allonet.Server.Handle.{
  request_missing, disconnect, accept_write, is_empty, lose_peer_from, new_wanted, add_recipient,
}
use allonet.Server.Find.{find_wanted-update_wanted, find_wanted-append, find_wanted-lose_peer}

In-remains : (p q : Peer) (qs : List Peer) → In q qs → q ≢ p → is_empty (remove_peer p qs) ≡ false
unfolding remove_peer
In-remains p q [] i ne = absurd i
In-remains p q (r ∷ qs) i ne = ground (arith, In-remains p q qs)

module _ {S : Type 0} (io : Storage S) (id : String) (p : Peer) (s : Server S) (w : Wanted)
    (found : find_wanted id s.wanted ≡ some w) where
  -- The source of an asset that is lost is not forgotten: as long as some other client has not
  -- answered, the asset stays wanted after the source has disconnected, with that source, and a
  -- chunk of it that another client sends is not stored, whatever the store.
  pub accept_write-disconnect :
      (q r : Peer) (offset total : ℕ) (data' : List ℕ)
      → w.source ≡ some p
      → In r w.remaining
      → r ≢ p
      → q ≢ p
      → (left : Wanted) × (find_wanted id (disconnect p s).wanted ≡ some left)
        × (left.source ≡ some p)
        × (accept_write io id offset data' total q (disconnect p s) ≡ ok (disconnect p s, 0))
  unfolding accept_write disconnect
  accept_write-disconnect q r offset total data' source i ne other =
      let still = find_wanted-lose_peer id p s.wanted w (In-remains p r w.remaining i ne) found in
      (lose_peer_from p w, still, source, ground (arith, still))

In-others : (p q : Peer) (qs : List Peer) → In q qs → q ≢ p → In q (others p qs)
unfolding others
In-others p q [] i ne = i
In-others p q (r ∷ qs) i ne = ground (arith, In-others p q qs)

module _ {S : Type 0} (id : String) (p q : Peer) (s : Server S)
    (unwanted : find_wanted id s.wanted ≡ none) (other : In q s.clients) (ne : q ≢ p) where
  asked_once : find_wanted id (request_missing id p s).wanted ≡ some (new_wanted id p s.clients)
  unfolding request_missing
  asked_once =
      rw (unwanted, request_missing)
        (find_wanted-append id s.wanted (new_wanted id p s.clients) refl unwanted)

  asked_again :
      (t : Server S) (w : Wanted)
      → find_wanted id t.wanted ≡ some w
      → find_wanted id (request_missing id p t).wanted
        ≡ find_wanted id (update_wanted id (add_recipient p) t.wanted)
  unfolding request_missing
  asked_again t w e = rw (e, request_missing) refl

  asked_twice :
      find_wanted id (request_missing id p (request_missing id p s)).wanted
      ≡ some (add_recipient p (new_wanted id p s.clients))
  asked_twice =
      let t = request_missing id p s in
      let again : find_wanted id (request_missing id p t).wanted
          ≡ find_wanted id (update_wanted id (add_recipient p) t.wanted) =
        asked_again t (new_wanted id p s.clients) asked_once in
      again
      ∙ find_wanted-update_wanted id (add_recipient p) t.wanted (new_wanted id p s.clients) refl
          asked_once

  -- A client that asks twice for an asset that is not wanted yet, while another client is there, is
  -- twice among its recipients. When it disconnects just one of the two goes, and the asset stays
  -- wanted, with the peer that has left as its recipient.
  pub recipients_disconnect :
      (w left : Wanted) × (find_wanted id (request_missing id p (request_missing id p s)).wanted
        ≡ some w)
      × (w.recipients ≡ p ∷ p ∷ [])
      × (find_wanted id (disconnect p (request_missing id p (request_missing id p s))).wanted
          ≡ some left)
      × (left.recipients ≡ p ∷ [])
  unfolding disconnect remove_peer
  recipients_disconnect =
      let twice = add_recipient p (new_wanted id p s.clients) in
      let more = In-remains p q (others p s.clients) (In-others p q s.clients other ne) ne in
      let t = request_missing id p (request_missing id p s) in
      (
        twice,
        lose_peer_from p twice,
        asked_twice,
        refl,
        find_wanted-lose_peer id p t.wanted twice more asked_twice,
        ground arith,
      )
