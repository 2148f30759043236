-- ===== src/Client/Rate.antt =====
-- How often a client sends by itself, `_alloclient_poll` of src/client/client.c.
use allonet.Common.{ℕ, ◌+◌, ◌*◌, ◌≤◌, ◌≡◌, List, [], ◌∷◌, arith}
use allonet.Common.All.{All}
use allonet.Client.{Parts, Polling, send_clock, send_intent}
use allonet.Client.Turn.{sent}

-- What turns at these times send, with no events.
pub turns : {Packet Json C : Type 0} → Parts Packet Json C → List ℕ → Polling C → Polling C
turns h [] s = s
turns h (ts ∷ rest) s = turns h rest (sent h ts s)

-- A client that counts how often it has sent a clock request and an intent.
module _ {Packet Json C : Type 0} (h : Parts Packet Json C) (clocks intents : C → ℕ)
    (clock_counts : (c : C) → clocks (h.send_clock_request c) ≡ clocks c + 1)
    (clock_keeps : (c : C) → intents (h.send_clock_request c) ≡ intents c)
    (intent_counts : (c : C) → intents (h.send_latest_intent c) ≡ intents c + 1)
    (intent_keeps : (c : C) → clocks (h.send_latest_intent c) ≡ clocks c) where
  record Limits (s t : Polling C) : Type 0 where
    clock :
        clocks t.client * 1001 + s.latest_clockreq_ts
        ≤ clocks s.client * 1001 + t.latest_clockreq_ts
    intent : intents t.client * 51 + s.latest_intent_ts ≤ intents s.client * 51 + t.latest_intent_ts

  clock-Limits : (ts : ℕ) (s : Polling C) → Limits s (send_clock h ts s)
  unfolding send_clock
  clock-Limits ts s = record {
    clock = ground (arith, clock_counts s.client);
    intent = ground (arith, clock_keeps s.client);
  }

  intent-Limits : (ts : ℕ) (s : Polling C) → Limits s (send_intent h ts s)
  unfolding send_intent
  intent-Limits ts s = record {
    clock = ground (arith, intent_keeps s.client);
    intent = ground (arith, intent_counts s.client);
  }

  Limits-trans : (s t u : Polling C) → Limits s t → Limits t u → Limits s u
  Limits-trans s t u a b = record {
    clock = omega (arith, a.clock, b.clock);
    intent = omega (arith, a.intent, b.intent);
  }

  turns-Limits : (times : List ℕ) (s : Polling C) → Limits s (turns h times s)
  unfolding turns
  turns-Limits [] s = record { clock = omega arith; intent = omega arith }
  turns-Limits (ts ∷ rest) s =
      let t = send_clock h ts s in
      Limits-trans s (sent h ts s) (turns h rest (sent h ts s))
        (Limits-trans s t (send_intent h ts t) (clock-Limits ts s) (intent-Limits ts t))
        (turns-Limits rest (sent h ts s))

  -- Neither time is later than `m`.
  abbrev Until : ℕ → Polling C → Type 0
  Until m s = (s.latest_clockreq_ts ≤ m) × (s.latest_intent_ts ≤ m)

  sent-Until : (m ts : ℕ) (s : Polling C) → ts ≤ m → Until m s → Until m (sent h ts s)
  unfolding send_clock send_intent
  sent-Until m ts s le u = (ground arith, ground arith)

  turns-Until :
      (m : ℕ) (times : List ℕ) (s : Polling C)
      → All (λ ts. ts ≤ m) times
      → Until m s
      → Until m (turns h times s)
  unfolding turns
  turns-Until m [] s le u = u
  turns-Until m (ts ∷ rest) s le u =
      turns-Until m rest (sent h ts s) le.1 (sent-Until m ts s le.0 u)

  -- A client has its turns at any times up to `m`. From the time at which it has last sent one, it
  -- sends a clock request at most once for each 1001 milliseconds, and an intent at most once for
  -- each 51.
  pub turns_rate :
      (m : ℕ) (times : List ℕ) (s : Polling C)
      → All (λ ts. ts ≤ m) times
      → s.latest_clockreq_ts ≤ m
      → s.latest_intent_ts ≤ m
      → (clocks (turns h times s).client * 1001 + s.latest_clockreq_ts ≤ clocks s.client * 1001 + m)
        × (intents (turns h times s).client * 51 + s.latest_intent_ts ≤ intents s.client * 51 + m)
  turns_rate m times s le clock intent =
      let l = turns-Limits times s in
      let u = turns-Until m times s le (clock, intent) in
      (omega (arith, l.clock, u.0), omega (arith, l.intent, u.1))
