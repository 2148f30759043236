-- ===== src/Sync/Reach.antt =====
-- The states that a client and its server can get to, src/client/client.c and
-- src/standalone_server.cpp.
use allonet.Common.{
  ℕ, ◌-◌, ◌%◌, ◌^◌, ◌≡◌, refl, sym, ◌∙◌, subst, min, some, none, true, ◌==◌, arith, inl, inr,
}
use allonet.Common.Int.{ℤ, pos}
use allonet.Common.All.{In, All-In}
use allonet.Common.Outcome.{Outcome, ok, wild, assertion_failed, out_of_fuel}
use allonet.Delta.{Documents, history_length, slot, get, Delta, apply}
use allonet.Sync.{Client, ack_rev, set_intent, valueint, parse_statediff}
use allonet.Sync.Steps.{
  System, started, Step, broadcasted, computed, delivered, intended, sent, received, Reaches, here,
  onward,
}
use allonet.Sync.Delivered.{
  Holds, IsTrue, with_state, Holds-with_state, apply-cases, revision_of-world,
}
use allonet.Sync.Agreed.{HasAcked, IsAck, IsAgreed, broadcasted-IsAgreed, computed-IsAgreed}

module _ {Doc W : Type 0} (d : Documents Doc) (world : ℕ → Doc)
    (numbered : (k : ℕ) → d.revision (world k) ≡ some (pos k))
    (merges : (m k : ℕ) (p : Doc)
      → d.generate (world m) (world k) ≡ some p
      → d.merge (world m) p ≡ world k) where
  -- The client with a state of the server that has come in.
  abbrev pub holding : Client Doc W → ℕ → Client Doc W
  holding c k = record {
    history = with_state d world numbered merges c.history k;
    latest_intent = record c.latest_intent { ack_state_rev = pos (min k (2 ^ 31 - 1)) };
    revision = pos (min k (2 ^ 31 - 1));
  }

  parse_statediff_refused :
      (delta : Delta Doc) (c : Client Doc W)
      → apply d c.history delta ≡ ok (none, c.history)
      → parse_statediff d delta c ≡ ok (pos 0, c)
  unfolding parse_statediff
  parse_statediff_refused delta c e = rw (e) refl

  pub parse_statediff_held :
      (k : ℕ) (delta : Delta Doc) (c : Client Doc W)
      → apply d c.history delta
        ≡ ok (some (world k), with_state d world numbered merges c.history k)
      → parse_statediff d delta c ≡ ok (pos k, holding c k)
  unfolding parse_statediff ack_rev valueint
  parse_statediff_held k delta c e =
      let rev = revision_of-world d world numbered k in rw (e, rev) refl

  holding-HasAcked : (k : ℕ) (c : Client Doc W) → HasAcked d world (holding c k)
  holding-HasAcked k c = (
    min k (2 ^ 31 - 1),
    refl,
    λ small. inr (
        let e : min k (2 ^ 31 - 1) ≡ k = omega arith in
        let self : (k % history_length == k % history_length) ≡ true = ground arith in
        rw (e, self) refl),
  )

  abbrev AgreedWith : System Doc W → Outcome (ℤ × Client Doc W) → Type 0
  AgreedWith s (ok r) = IsAgreed d world (record s { client = r.1 })
  AgreedWith s wild = Unit {0}
  AgreedWith s assertion_failed = Unit {0}
  AgreedWith s out_of_fuel = Unit {0}

  with_client :
      (s : System Doc W) (c : Client Doc W)
      → IsAgreed d world s
      → Holds d world s.place.revision c.history
      → HasAcked d world c
      → IsAgreed d world (record s { client = c })
  with_client s c v history acked = record {
    hist = v.hist;
    current = v.current;
    cache = v.cache;
    deltas = v.deltas;
    history = history;
    acked = acked;
    intent = v.intent;
    intents = v.intents;
  }

  delivered-IsAgreed :
      (s : System Doc W) (json : Delta Doc) (rev : ℤ) (c : Client Doc W)
      → IsAgreed d world s
      → In json s.deltas
      → parse_statediff d json s.client ≡ ok (rev, c)
      → IsAgreed d world (record s { client = c })
  delivered-IsAgreed s json rev c v i e =
      let n = s.place.revision in
      let holds = All-In (IsTrue d world n) json s.deltas i v.deltas in
      elim (apply-cases d world numbered merges n s.client.history json v.history holds) [
        | inl refused ↦
            subst (AgreedWith s) (sym (parse_statediff_refused json s.client refused) ∙ e) v
        | inr (k, lo, hi, came) ↦
            subst (AgreedWith s) (sym (parse_statediff_held k json s.client came) ∙ e) (
              with_client s (holding s.client k) v
                (Holds-with_state d world numbered merges n k s.client.history lo hi v.history)
                (holding-HasAcked k s.client))
      ]

  Step-IsAgreed : {s t : System Doc W} → Step d world s t → IsAgreed d world s → IsAgreed d world t
  unfolding set_intent
  Step-IsAgreed (broadcasted s json p below e) v =
      broadcasted-IsAgreed d world numbered merges s json p below v e
  Step-IsAgreed (computed r s json cache e) v =
      computed-IsAgreed d world numbered merges r s json cache v e
  Step-IsAgreed (delivered s json rev c i e) v = delivered-IsAgreed s json rev c v i e
  Step-IsAgreed (intended i s) v = with_client s (set_intent i s.client) v v.history v.acked
  Step-IsAgreed (sent s) v =
      let (k, ack, _) = v.acked in
      record {
        hist = v.hist;
        current = v.current;
        cache = v.cache;
        deltas = v.deltas;
        history = v.history;
        acked = v.acked;
        intent = v.intent;
        intents = ((k, ack), v.intents);
      }
  Step-IsAgreed (received i s m) v = record {
    hist = v.hist;
    current = v.current;
    cache = v.cache;
    deltas = v.deltas;
    history = v.history;
    acked = v.acked;
    intent = All-In IsAck i s.intents m v.intents;
    intents = v.intents;
  }

  started-IsAgreed : (wishes : W) (n : ℕ) → IsAgreed d world (started wishes n)
  unfolding started get slot
  started-IsAgreed wishes n = record {
    hist = λ i x e. cc;
    current = inl refl;
    cache = λ i x e. cc;
    deltas = tt;
    history = λ i x e. cc;
    acked = (0, refl, λ small. inl refl);
    intent = (0, refl);
    intents = tt;
  }

  -- Over a network that loses, repeats and reorders, whatever the program wishes, and whatever other
  -- clients have acknowledged: in every state that a client and its server get to, from whatever
  -- revision the server starts with and until a broadcast rolls the revision over, each of their
  -- histories has states of the server only, each in the place of its revision, and each delta that
  -- was sent or is cached leads to one. What a client acknowledges is nothing yet or, while an `int`
  -- can say it, a state that it has. This holds if each state of the server has its revision, and
  -- merging the patch between two of them into the one gives the other.
  pub Reaches-IsAgreed :
      (wishes : W) (n : ℕ) (s : System Doc W)
      → Reaches d world (started wishes n) s
      → IsAgreed d world s
  Reaches-IsAgreed wishes n s r = reached r
    where
      reached : {t : System Doc W} → Reaches d world (started wishes n) t → IsAgreed d world t
      reached here = started-IsAgreed wishes n
      reached (onward rest st) = Step-IsAgreed st (reached rest)
