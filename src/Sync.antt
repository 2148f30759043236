-- ===== src/Sync.antt =====
-- How a client follows the state of the server, src/client/client.c: the deltas that it gets, what
-- it acknowledges in its intents, and `broadcast_server_state` of src/standalone_server.cpp. The
-- list of entities that a client keeps beside its history is left out, as is JSON.
pub mod Steps
pub mod Delivered
pub mod Computed
pub mod Agreed
pub mod Reach
pub mod Round
mod Examples
use allonet.Common.{
  if◌then◌else◌, ◌==◌, ℕ, suc, ◌+◌, ◌-◌, ◌^◌, ◌≡◌, min, Option, some, none, Bool, true, false, List,
  [], ◌∷◌,
}
use allonet.Common.Int.{ℤ, pos, negsuc}
use allonet.Common.Outcome.{Outcome, ok, ◌>>=◌}
use allonet.Delta.{Documents, History, Delta, Diffcache, insert, compute, apply, revision_of}

-- `allo_client_intent`: what the program wishes, and the revision that is acknowledged.
pub record Intent (W : Type 0) : Type 0 where
  pub wishes : W
  pub ack_state_rev : ℤ

-- The client: its `history`, its `latest_intent`, and `_state.revision`.
pub record Client (Doc W : Type 0) : Type 0 where
  pub history : History Doc
  pub latest_intent : Intent W
  pub revision : ℤ

-- `alloclient_ack_rev`.
unfoldable pub ack_rev : {Doc W : Type 0} → ℤ → Client Doc W → Client Doc W
ack_rev rev c = record c {
  latest_intent = record c.latest_intent { ack_state_rev = rev };
  revision = rev;
}

-- `_alloclient_set_intent`.
unfoldable pub set_intent : {Doc W : Type 0} → Intent W → Client Doc W → Client Doc W
set_intent intent c = record c {
  latest_intent = record intent { ack_state_rev = c.latest_intent.ack_state_rev };
}

-- What cJSON keeps of a number in `valueint`: the nearest `int`.
unfoldable pub valueint : ℤ → ℤ
valueint (pos n) = pos (min n (2 ^ 31 - 1))
valueint (negsuc n) = negsuc (min n (2 ^ 31 - 1))

-- The server, as far as one client sees it: `state.revision`, `hist`, the cache of
-- `allo_delta_compute`, and the intent of that client.
pub record Place (Doc W : Type 0) : Type 0 where
  pub revision : ℕ
  pub hist : History Doc
  pub diffcache : Diffcache Doc
  pub intent : Intent W

-- Where the revision rolls over.
abbrev pub last_revision : ℕ
last_revision = 9_007_199_254_740_990

-- `serv->state.revision++`, and the roll over to 0.
unfoldable pub next_revision : ℕ → ℕ
next_revision n = if n + 1 == last_revision then 0 else n + 1

module _ {Doc W : Type 0} (d : Documents Doc) where
  -- `_handle_parsed_statediff`, which is called with a state that has been merged.
  unfoldable pub handle_parsed : Doc → Client Doc W → Client Doc W
  unfolding ack_rev valueint
  handle_parsed staterep c = ack_rev (valueint (revision_of d (some staterep))) c

  unfoldable pub parsed : Option Doc → Client Doc W → ℤ × Client Doc W
  unfolding handle_parsed
  parsed none c = (pos 0, c)
  parsed (some staterep) c = (revision_of d (some staterep), handle_parsed staterep c)

  -- `alloclient_parse_statediff` of a client that has no `raw_state_delta_callback`.
  unfoldable pub parse_statediff : Delta Doc → Client Doc W → Outcome (ℤ × Client Doc W)
  unfolding parsed
  parse_statediff delta c =
      apply d c.history delta >>= λ r. ok (parsed r.0 (record c { history = r.1 }))

  -- `broadcast_server_state` for one client; `world n` is the state at revision `n`,
  -- `allo_state_to_json`.
  unfoldable pub broadcast : (ℕ → Doc) → Place Doc W → Outcome (Delta Doc × Place Doc W)
  unfolding next_revision
  broadcast world p =
      let revision = next_revision p.revision in
      insert d p.hist (world revision) >>= λ h.
      compute d h p.diffcache p.intent.ack_state_rev >>= λ r.
      ok (r.0, record p { revision = revision; hist = h; diffcache = r.1 })
