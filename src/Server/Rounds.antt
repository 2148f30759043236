-- ===== src/Server/Rounds.antt =====
-- One round of the loop of `_forward_wanted_asset`, in each of its cases.
use allonet.Common.{ℕ, suc, ◌+◌, ◌≡◌, none, some, String, get_elem?}
use allonet.Common.Outcome.{ok, wild, ◌>>=◌}
use allonet.Server.{Storage, Peer, Wanted, Server, find_wanted, chunk_size}
use allonet.Server.Handle.{deliver_each, request_bytes}

module _ {S : Type 0} (io : Storage S) (fuel : ℕ) (id : String) (client : Peer) (i : ℕ)
    (s : Server S) where
  pub deliver_each_unwanted :
      find_wanted id s.wanted ≡ none → deliver_each io (suc fuel) id client i s ≡ wild
  unfolding deliver_each
  deliver_each_unwanted e = rw (e, deliver_each)

  module _ (w : Wanted) (found : find_wanted id s.wanted ≡ some w) where
    pub deliver_each_end :
        get_elem? w.recipients i ≡ none → deliver_each io (suc fuel) id client i s ≡ ok s
    unfolding deliver_each
    deliver_each_end e = rw (found, e, deliver_each)

    pub deliver_each_next :
        (r : Peer)
        → get_elem? w.recipients i ≡ some r
        → deliver_each io (suc fuel) id client i s ≡ (
            request_bytes io id 0 chunk_size client (some r) s
            >>= deliver_each io fuel id client (i + 1))
    unfolding deliver_each
    deliver_each_next r e = rw (found, e, deliver_each)
