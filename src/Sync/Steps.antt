-- ===== src/Sync/Steps.antt =====
-- A client and its server over a network that may lose, repeat and reorder what it carries on the
-- channel of states, src/client/client.c and src/standalone_server.cpp.
use allonet.Common.{◌+◌, ◌<◌, ℕ, ◌≡◌, List, [], ◌∷◌, none}
use allonet.Common.Int.{ℤ, pos}
use allonet.Common.All.{In}
use allonet.Common.Outcome.{ok}
use allonet.Delta.{Documents, History, Delta, Diffcache, compute}
use allonet.Sync.{Intent, Client, Place, last_revision, set_intent, parse_statediff, broadcast}

-- The deltas and the intents are those that were ever sent: each may arrive at any time, again, or
-- never.
pub record System (Doc W : Type 0) : Type 0 where
  pub place : Place Doc W
  pub client : Client Doc W
  pub deltas : List (Delta Doc)
  pub intents : List (Intent W)

-- `statehistory_t` after `calloc`.
abbrev pub no_history : {Doc : Type 0} → History Doc
no_history = record { slots = λ i. none; latest_revision = pos 0 }

-- Nothing sent, and nothing known; the revision is the one that the server has started with.
unfoldable pub started : {Doc W : Type 0} → W → ℕ → System Doc W
started wishes n = record {
  place = record {
    revision = n;
    hist = no_history;
    diffcache = λ i. none;
    intent = record { wishes = wishes; ack_state_rev = pos 0 };
  };
  client = record {
    history = no_history;
    latest_intent = record { wishes = wishes; ack_state_rev = pos 0 };
    revision = pos 0;
  };
  deltas = [];
  intents = [];
}

module _ {Doc W : Type 0} (d : Documents Doc) (world : ℕ → Doc) where
  -- The server broadcasts, before the revision rolls over; it computes a delta for another client, which has acknowledged `r`; the
  -- client gets a delta; the program sets an intent; the client sends it; the server gets one.
  pub data Step : System Doc W → System Doc W → Type 0 where
    broadcasted :
        (s : System Doc W) (json : Delta Doc) (p : Place Doc W)
        → s.place.revision + 1 < last_revision
        → broadcast d world s.place ≡ ok (json, p)
        → Step s (record s { place = p; deltas = json ∷ s.deltas })
    computed :
        (r : ℕ) (s : System Doc W) (json : Delta Doc) (cache : Diffcache Doc)
        → compute d s.place.hist s.place.diffcache (pos r) ≡ ok (json, cache)
        → Step s (record s { place = record s.place { diffcache = cache } })
    delivered :
        (s : System Doc W) (json : Delta Doc) (rev : ℤ) (c : Client Doc W)
        → In json s.deltas
        → parse_statediff d json s.client ≡ ok (rev, c)
        → Step s (record s { client = c })
    intended :
        (i : Intent W) (s : System Doc W) → Step s (record s { client = set_intent i s.client })
    sent : (s : System Doc W) → Step s (record s { intents = s.client.latest_intent ∷ s.intents })
    received :
        (i : Intent W) (s : System Doc W)
        → In i s.intents
        → Step s (record s { place = record s.place { intent = i } })

  pub data Reaches (s : System Doc W) : System Doc W → Type 0 where
    here : Reaches s s
    onward : {t u : System Doc W} → Reaches s t → Step t u → Reaches s u
