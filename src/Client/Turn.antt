-- ===== src/Client/Turn.antt =====
-- The events of one turn of `_alloclient_poll`, src/client/client.c.
use allonet.Common.{
  ℕ, ◌≡◌, refl, ap, ◌∙◌, List, [], ◌∷◌, Option, none, some, Bool, true, false, arith,
}
use allonet.Common.All.{All}
use allonet.Common.Outcome.{Outcome, ok, ◌>>=◌}
use allonet.Client.{
  audio, commands, statediffs, assets, video, clock, count, Event, received, connected,
  disconnected, other, Parts, Polling, parse_packet_from_channel, service, after_service, poll,
  send_clock, send_intent,
}

-- The packet of the last state difference, if there is one, and `last` if not.
unfoldable pub last_statediff :
    {Packet : Type 0} → List (Event Packet) → Option Packet → Option Packet
last_statediff [] last = last
last_statediff (received statediffs p ∷ es) last = last_statediff es (some p)
last_statediff (_ ∷ es) last = last_statediff es last

module _ {Packet Json C : Type 0} (h : Parts Packet Json C) where
  -- The other packets, each handled as it comes.
  pub others : List (Event Packet) → C → C
  others [] c = c
  others (received commands p ∷ es) c = others es (h.parse_command (h.parse_json p) c).1
  others (received assets p ∷ es) c = others es (h.handle_assets p c)
  others (received audio p ∷ es) c = others es (h.parse_media p c)
  others (received video p ∷ es) c = others es (h.parse_media p c)
  others (received clock p ∷ es) c = others es (h.parse_clock (h.parse_json p) c)
  others (_ ∷ es) c = others es c

  -- Events that the client goes on after: the connection is not lost, and no announcement rejected.
  abbrev GoesOn : Event Packet → Type 0
  GoesOn disconnected = ⊥
  GoesOn (received count p) = ⊥
  GoesOn (received commands p) = (c : C) → (h.parse_command (h.parse_json p) c).0 ≡ true
  GoesOn _ = Unit {0}

  service-others :
      (es : List (Event Packet)) (any : Bool) (last : Option Packet) (c : C)
      → All GoesOn es
      → (b : Bool) × (service h es any last c
          ≡ ok (record {
            returned = false;
            any_messages = b;
            last_diff = last_statediff es last;
            client = others es c;
          }))
  unfolding service last_statediff others parse_packet_from_channel
  service-others [] any last c g = (any, refl)
  service-others (connected ∷ es) any last c g = service-others es true last c g.1
  service-others (other ∷ es) any last c g = service-others es true last c g.1
  service-others (disconnected ∷ es) any last c g = absurd g.0
  service-others (received statediffs p ∷ es) any last c g = service-others es true (some p) c g.1
  service-others (received count p ∷ es) any last c g = absurd g.0
  service-others (received assets p ∷ es) any last c g =
      service-others es true last (h.handle_assets p c) g.1
  service-others (received audio p ∷ es) any last c g =
      service-others es true last (h.parse_media p c) g.1
  service-others (received video p ∷ es) any last c g =
      service-others es true last (h.parse_media p c) g.1
  service-others (received clock p ∷ es) any last c g =
      service-others es true last (h.parse_clock (h.parse_json p) c) g.1
  service-others (received commands p ∷ es) any last c g =
      let (b, e) = service-others es true last (h.parse_command (h.parse_json p) c).1 g.1 in
      let goes : (h.parse_command (h.parse_json p) c).0 ≡ true = g.0 c in (b, rw (goes) e)

  -- The last state difference, and no earlier one.
  abbrev pub with_last : Option Packet → C → C
  with_last none c = c
  with_last (some p) c = elim (h.parse_json p) [ none ↦ c | some json ↦ h.parse_statediff json c ]

  abbrev Parses : Option Packet → Type 0
  Parses none = Unit {0}
  Parses (some p) = (json : Json) × (h.parse_json p ≡ some json)

  after_service-with_last :
      (last : Option Packet) (b : Bool) (c : C)
      → Parses last
      → after_service h
          (record { returned = false; any_messages = b; last_diff = last; client = c })
        ≡ ok (b, with_last last c)
  unfolding after_service parse_packet_from_channel
  after_service-with_last none b c parses = refl
  after_service-with_last (some p) b c parses = ground (arith, parses.1)

  abbrev pub sent : ℕ → Polling C → Polling C
  sent ts s = send_intent h ts (send_clock h ts s)

  poll_connected :
      (ts : ℕ) (es : List (Event Packet)) (s : Polling C)
      → s.has_peer ≡ true
      → poll h ts es s ≡ (
          service h es false none (sent ts s).client >>= after_service h >>= λ r.
          ok (r.0, record (sent ts s) { client = r.1 }))
  unfolding poll
  poll_connected ts es s peer = ground (arith, peer)

  -- A turn of a client that is connected and stays so, whose announcement is not rejected, and to
  -- whom the last state difference is JSON: the packets of the other channels are handled, each as
  -- it comes, and then of the state differences the last one, and no other.
  pub poll-with_last :
      (ts : ℕ) (es : List (Event Packet)) (s : Polling C)
      → s.has_peer ≡ true
      → All GoesOn es
      → Parses (last_statediff es none)
      → (b : Bool) × (poll h ts es s
          ≡ ok (
            b,
            record (sent ts s) {
              client = with_last (last_statediff es none) (others es (sent ts s).client);
            },
          ))
  poll-with_last ts es s peer goes parses =
      let t = sent ts s in
      let (b, served) = service-others es false none t.client goes in
      let after = after_service-with_last (last_statediff es none) b (others es t.client) parses in
      let leave : Bool × C → Outcome (Bool × Polling C) =
        λ r. ok (r.0, record t { client = r.1 }) in
      (
        b,
        poll_connected ts es s peer
            ∙ ap (λ m. m >>= after_service h >>= leave) served
            ∙ ap (λ m. m >>= leave) after,
      )
