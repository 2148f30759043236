-- ===== src/Client.antt =====
-- The turn of a client, `_alloclient_poll` of src/client/client.c: what it sends at most how often,
-- and how it handles the events that have come in.
pub mod Turn
pub mod Rate
pub mod Assets
pub mod Connect
pub mod Url
pub mod Interact
mod Examples
use allonet.Common.{
  ℕ, ◌+◌, ◌≡◌, List, [], ◌∷◌, Option, none, some, Bool, true, false, ltb, if◌then◌else◌,
}
use allonet.Common.Outcome.{Outcome, ok, assertion_failed, asserted, ◌>>=◌}

-- `allochannel`.
pub data Channel : Type 0 where
  audio commands statediffs assets video clock count : Channel

abbrev pub is_statediffs : Channel → Bool
is_statediffs statediffs = true
is_statediffs _ = false

-- An event of ENet.
pub data Event (Packet : Type 0) : Type 0 where
  received : (channel : Channel) (packet : Packet) → Event Packet
  connected disconnected other : Event Packet

-- The parts of the client that handle a packet, on a state `C`. `parse_json` is that of cJSON;
-- `parse_command` says whether the client goes on, which it does not once its announcement has been
-- rejected. `lost` is the callback for a lost connection.
pub record Parts (Packet Json C : Type 0) : Type 0 where
  pub parse_json : Packet → Option Json
  pub parse_statediff : Json → C → C
  pub parse_command : Option Json → C → Bool × C
  pub parse_media : Packet → C → C
  pub parse_clock : Option Json → C → C
  pub handle_assets : Packet → C → C
  pub send_clock_request : C → C
  pub send_latest_intent : C → C
  pub lost : C → C

-- What `_alloclient_poll` keeps of its own: whether there is a peer, and when it has last sent.
pub record Polling (C : Type 0) : Type 0 where
  pub has_peer : Bool
  pub latest_clockreq_ts : ℕ
  pub latest_intent_ts : ℕ
  pub client : C

-- The loop over the events: whether it has returned early, whether it has seen any, and the packet of
-- the last state difference.
pub record Served (Packet C : Type 0) : Type 0 where
  pub returned : Bool
  pub any_messages : Bool
  pub last_diff : Option Packet
  pub client : C

module _ {Packet Json C : Type 0} (h : Parts Packet Json C) where
  -- `parse_packet_from_channel`.
  unfoldable pub parse_packet_from_channel : Channel → Packet → C → Outcome (Bool × C)
  parse_packet_from_channel statediffs p c =
      asserted (h.parse_json p) >>= λ json. ok (true, h.parse_statediff json c)
  parse_packet_from_channel commands p c = ok (h.parse_command (h.parse_json p) c)
  parse_packet_from_channel assets p c = ok (true, h.handle_assets p c)
  parse_packet_from_channel audio p c = ok (true, h.parse_media p c)
  parse_packet_from_channel video p c = ok (true, h.parse_media p c)
  parse_packet_from_channel clock p c = ok (true, h.parse_clock (h.parse_json p) c)
  parse_packet_from_channel count p c = assertion_failed

  -- The loop that calls `enet_host_service`, over the events that this gives until it gives none.
  unfoldable pub service :
      List (Event Packet) → Bool → Option Packet → C → Outcome (Served Packet C)
  unfolding parse_packet_from_channel
  service [] any last c =
      ok (record { returned = false; any_messages = any; last_diff = last; client = c })
  service (connected ∷ es) any last c = service es true last c
  service (other ∷ es) any last c = service es true last c
  service (disconnected ∷ es) any last c =
      ok (record { returned = true; any_messages = true; last_diff = last; client = h.lost c })
  service (received channel p ∷ es) any last c =
      let kept = service es true (some p) c in
      elim (is_statediffs channel) [
        | true ↦ kept
        | false ↦ parse_packet_from_channel channel p c >>= λ r. elim r.0 [
          | true ↦ service es true last r.1
          | false ↦
              ok (record { returned = true; any_messages = true; last_diff = last; client = r.1 })
        ]
      ]

  -- What follows the loop: the last state difference is parsed, unless the loop has returned.
  unfoldable pub after_service : Served Packet C → Outcome (Bool × C)
  unfolding parse_packet_from_channel
  after_service s = elim s.returned [
    | true ↦ ok (true, s.client)
    | false ↦ elim s.last_diff [
      | none ↦ ok (s.any_messages, s.client)
      | some p ↦ parse_packet_from_channel statediffs p s.client >>= λ r. ok (s.any_messages, r.1)
    ]
  ]

  -- At most once in a second, and at most twenty times in one.
  unfoldable pub send_clock : ℕ → Polling C → Polling C
  send_clock ts s =
      if ltb (s.latest_clockreq_ts + 1000) ts
      then record s { latest_clockreq_ts = ts; client = h.send_clock_request s.client }
      else s

  unfoldable pub send_intent : ℕ → Polling C → Polling C
  send_intent ts s =
      if ltb (s.latest_intent_ts + 50) ts
      then record s { latest_intent_ts = ts; client = h.send_latest_intent s.client }
      else s

  -- `_alloclient_poll`, at the time `ts`.
  unfoldable pub poll : ℕ → List (Event Packet) → Polling C → Outcome (Bool × Polling C)
  unfolding send_clock send_intent service after_service
  poll ts events s = elim s.has_peer [
    | false ↦ ok (false, s)
    | true ↦
        let t = send_intent ts (send_clock ts s) in
        service events false none t.client >>= after_service >>= λ r.
        ok (r.0, record t { client = r.1 })
  ]
