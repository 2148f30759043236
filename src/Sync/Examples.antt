-- ===== src/Sync/Examples.antt =====
-- A client and its server at concrete values: tests, and the theorems where their hypotheses hold.
use allonet.Common.{
  ℕ, min, ◌+◌, ◌-◌, ◌^◌, ◌≡◌, ◌≢◌, refl, [], ◌∷◌, none, some, ◌==◌, if◌then◌else◌, arith, inl, inr,
  Bool-cases,
}
use allonet.Common.Int.{pos}
use allonet.Common.Outcome.{ok, assertion_failed}
use allonet.Delta.{Documents, Delta, set_delta, get, insert, compute, apply}
use allonet.Sync.{Client, Place, next_revision, parse_statediff, broadcast}
use allonet.Sync.Steps.{System, started, broadcasted, delivered, Reaches, here, onward}
use allonet.Sync.Agreed.{IsAgreed}
use allonet.Sync.Reach.{Reaches-IsAgreed}
use allonet.Sync.Round.{round_trip}

-- A state is its revision, and a patch is the state that it leads to.
abbrev numbers : Documents ℕ
numbers = record {
  revision = λ n. some (pos n);
  generate = λ m n. if m == n then none else some n;
  merge = λ m n. n;
}

abbrev world : ℕ → ℕ
world n = n

numbered : (k : ℕ) → numbers.revision (world k) ≡ some (pos k)
numbered k = refl

merges :
    (m k p : ℕ)
    → numbers.generate (world m) (world k) ≡ some p
    → numbers.merge (world m) p ≡ world k
merges m k p e = elim (Bool-cases (m == k)) [
  | inl same ↦ ground (arith, same, e)
  | inr other ↦ ground (arith, other, e)
]

differ : (m k : ℕ) → m ≢ k → (p : ℕ) × (numbers.generate (world m) (world k) ≡ some p)
differ m k h = elim (Bool-cases (m == k)) [
  | inl same ↦ absurd (h (ground (arith, same)))
  | inr other ↦ (k, rw (other) refl)
]

-- The first broadcast, of revision 2, has arrived.
abbrev first : Delta ℕ
first = set_delta numbers 2

abbrev start : System ℕ ℕ
start = started 0 1

one_broadcast : (p : Place ℕ ℕ) × (broadcast numbers world start.place ≡ ok (first, p))
unfolding broadcast started insert compute
one_broadcast = (_, refl)

-- The revision rolls over to 0, and the newest state is then the one that a client is taken to have
-- which has acknowledged nothing: there is no patch between the two, and an assertion fails.
rolls_over :
    broadcast numbers world (record start.place { revision = 9_007_199_254_740_989 })
    ≡ assertion_failed
unfolding broadcast started insert compute next_revision
rolls_over = refl

rolled_over :
    (p : Place ℕ ℕ) × (broadcast numbers world (record start.place {
      revision = 9_007_199_254_740_989;
      intent = record { wishes = 0; ack_state_rev = pos 5 };
    })
      ≡ ok (set_delta numbers 0, p))
unfolding broadcast started insert compute next_revision
rolled_over = (_, refl)

abbrev told : System ℕ ℕ
told = record start { place = one_broadcast.0; deltas = first ∷ [] }

one_delivery : (c : Client ℕ ℕ) × (parse_statediff numbers first told.client ≡ ok (pos 2, c))
unfolding parse_statediff started apply
one_delivery = (_, refl)

abbrev knowing : System ℕ ℕ
knowing = record told { client = one_delivery.0 }

to_knowing : Reaches numbers world start knowing
unfolding started
to_knowing =
    onward (onward here (broadcasted start first one_broadcast.0 (omega arith) one_broadcast.1))
      (delivered told first (pos 2) one_delivery.0 (inl refl) one_delivery.1)

Reaches-IsAgreed_example : IsAgreed numbers world knowing
Reaches-IsAgreed_example = Reaches-IsAgreed numbers world numbered merges 0 1 knowing to_knowing

acknowledged : knowing.client.latest_intent.ack_state_rev ≡ pos 2
unfolding one_delivery
acknowledged = refl

round_trip_example :
    (json : Delta ℕ) × (p : Place ℕ ℕ) × (c : Client ℕ ℕ) × (broadcast numbers world
        (record knowing.place { intent = knowing.client.latest_intent })
      ≡ ok (json, p))
    × (parse_statediff numbers json knowing.client ≡ ok (pos (knowing.place.revision + 1), c))
    × (get p.hist p.hist.latest_revision ≡ ok (some (knowing.place.revision + 1)))
    × (get c.history c.history.latest_revision ≡ ok (some (knowing.place.revision + 1)))
    × (c.latest_intent.ack_state_rev ≡ pos (min (knowing.place.revision + 1) (2 ^ 31 - 1)))
unfolding one_broadcast
round_trip_example =
    round_trip numbers world numbered merges differ 0 1 knowing 2 to_knowing acknowledged
      (omega arith) (omega arith)
