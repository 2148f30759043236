-- ===== src/Sync/Agreed.antt =====
-- What holds of a client and its server in every state that they can get to, src/client/client.c and
-- src/standalone_server.cpp.
use allonet.Common.{
  false, ◌==◌, ℕ, ◌+◌, ◌-◌, ◌%◌, ◌^◌, ◌<◌, ◌≡◌, refl, sym, ap, ◌∙◌, subst, List, [], ◌∷◌, some,
  none, arith, inl, inr, ◌⊎◌,
}
use allonet.Common.Int.{pos}
use allonet.Common.All.{All}
use allonet.Common.Cases.{>>=-ok_inv}
use allonet.Common.Outcome.{Outcome, ok, wild, assertion_failed, out_of_fuel, ◌>>=◌}
use allonet.Delta.{Documents, History, history_length, get, Delta, Diffcache, compute}
use allonet.Delta.RoundTrip.{insert-received, get-received}
use allonet.Sync.{Intent, Client, Place, broadcast, last_revision, next_revision}
use allonet.Sync.Steps.{System}
use allonet.Sync.Delivered.{Holds, IsTrue, whole, patch, with_state, Holds-with_state}
use allonet.Sync.Computed.{IsTrueCache, compute-IsTrue}

module _ {Doc : Type 0} (d : Documents Doc) (world : ℕ → Doc) where
  pub Holds-suc : (n : ℕ) (h : History Doc) → Holds d world n h → Holds d world (n + 1) h
  Holds-suc n h v i x e = let (k, lo, hi, is, at) = v i x e in (k, lo, omega arith, is, at)

  IsTrue-suc : (n : ℕ) (delta : Delta Doc) → IsTrue d world n delta → IsTrue d world (n + 1) delta
  IsTrue-suc n delta (whole k lo hi e) = whole k lo (omega arith) e
  IsTrue-suc n delta (patch m k p lo hi g e) = patch m k p lo (omega arith) g e

  All-IsTrue-suc :
      (n : ℕ) (ds : List (Delta Doc)) → All (IsTrue d world n) ds → All (IsTrue d world (n + 1)) ds
  All-IsTrue-suc n [] v = tt
  All-IsTrue-suc n (x ∷ ds) v = (IsTrue-suc n x v.0, All-IsTrue-suc n ds v.1)

  pub IsTrueCache-suc :
      (n : ℕ) (c : Diffcache Doc) → IsTrueCache d world n c → IsTrueCache d world (n + 1) c
  IsTrueCache-suc n c v i e found =
      let (holds, t, le, to) = v i e found in (IsTrue-suc n e.json holds, t, omega arith, to)

abbrev pub IsAck : {W : Type 0} → Intent W → Type 0
IsAck i = (k : ℕ) × (i.ack_state_rev ≡ pos k)

module _ {Doc W : Type 0} (d : Documents Doc) (world : ℕ → Doc) where
  -- What a client acknowledges: nothing, or a state that it has, as long as an `int` can say which.
  abbrev pub HasAcked : Client Doc W → Type 0
  HasAcked c =
      (k : ℕ) × (c.latest_intent.ack_state_rev ≡ pos k)
      × (k < 2 ^ 31 - 1 → (k ≡ 0) ⊎ (c.history.slots (k % history_length) ≡ some (world k)))

  -- The server has no state yet, or the one of its revision is its latest.
  abbrev pub IsCurrent : Place Doc W → Type 0
  IsCurrent p =
      (get p.hist p.hist.latest_revision ≡ ok none)
      ⊎ ((0 < p.revision)
          × (p.hist.latest_revision ≡ pos p.revision)
          × (get p.hist (pos p.revision) ≡ ok (some (world p.revision))))

  -- Both histories have states of the server only, each in the place of its revision; so have the
  -- deltas that were sent or are cached.
  pub record IsAgreed (s : System Doc W) : Type 0 where
    pub hist : Holds d world s.place.revision s.place.hist
    pub current : IsCurrent s.place
    pub cache : IsTrueCache d world s.place.revision s.place.diffcache
    pub deltas : All (IsTrue d world s.place.revision) s.deltas
    pub history : Holds d world s.place.revision s.client.history
    pub acked : HasAcked s.client
    pub intent : IsAck s.place.intent
    pub intents : All IsAck s.intents

  module _ (numbered : (k : ℕ) → d.revision (world k) ≡ some (pos k))
      (merges : (m k : ℕ) (p : Doc)
        → d.generate (world m) (world k) ≡ some p
        → d.merge (world m) p ≡ world k) where
    -- The state that is broadcast comes into the history first.
    pub broadcast-compute :
        (p : Place Doc W)
        → p.revision + 1 < last_revision
        → broadcast d world p ≡ (
            compute d
              (with_state d world numbered merges p.hist (p.revision + 1))
              p.diffcache
              p.intent.ack_state_rev
            >>= λ r. ok (
              r.0,
              record p {
                revision = p.revision + 1;
                hist = with_state d world numbered merges p.hist (p.revision + 1);
                diffcache = r.1;
              },
            ))
    unfolding broadcast next_revision
    broadcast-compute p below =
        let same : (p.revision + 1 == last_revision) ≡ false = ground arith in
        rw
          (
            same,
            insert-received d p.hist (world (p.revision + 1)) (p.revision + 1)
                (numbered (p.revision + 1)),
          )
          refl

    abbrev AgreedAfter : System Doc W → Outcome (Delta Doc × Place Doc W) → Type 0
    AgreedAfter s (ok r) = IsAgreed (record s { place = r.1; deltas = r.0 ∷ s.deltas })
    AgreedAfter s wild = Unit {0}
    AgreedAfter s assertion_failed = Unit {0}
    AgreedAfter s out_of_fuel = Unit {0}

    pub broadcasted-IsAgreed :
        (s : System Doc W) (json : Delta Doc) (p : Place Doc W)
        → s.place.revision + 1 < last_revision
        → IsAgreed s
        → broadcast d world s.place ≡ ok (json, p)
        → IsAgreed (record s { place = p; deltas = json ∷ s.deltas })
    broadcasted-IsAgreed s json p below v e =
        let n = s.place.revision + 1 in
        let h = with_state d world numbered merges s.place.hist n in
        let (k, ack) = v.intent in
        let (r, done, made) =
          >>=-ok_inv _ (compute d h s.place.diffcache s.place.intent.ack_state_rev)
            (sym (broadcast-compute s.place below) ∙ e) in
        let hist =
          Holds-with_state d world numbered merges n n s.place.hist (omega arith) (omega arith)
            (Holds-suc d world s.place.revision s.place.hist v.hist) in
        let newest = get-received d s.place.hist (world n) n (numbered n) in
        let (holds, cache) =
          compute-IsTrue d world numbered n k h s.place.diffcache (omega arith) hist
            (IsTrueCache-suc d world s.place.revision s.place.diffcache v.cache) refl r.0 r.1 newest
            (subst (λ a. compute d h s.place.diffcache a ≡ ok r) ack made) in
        subst (AgreedAfter s) done (record {
          hist = hist;
          current = inr (omega arith, refl, newest);
          cache = cache;
          deltas = (holds, All-IsTrue-suc d world s.place.revision s.deltas v.deltas);
          history = Holds-suc d world s.place.revision s.client.history v.history;
          acked = v.acked;
          intent = v.intent;
          intents = v.intents;
        })

    pub computed-IsAgreed :
        (r : ℕ) (s : System Doc W) (json : Delta Doc) (cache : Diffcache Doc)
        → IsAgreed s
        → compute d s.place.hist s.place.diffcache (pos r) ≡ ok (json, cache)
        → IsAgreed (record s { place = record s.place { diffcache = cache } })
    unfolding compute
    computed-IsAgreed r s json cache v e = elim v.current [
      | inl nothing ↦ absurd (ground (arith, nothing, e))
      | inr (lo, now, newest) ↦
          let n = s.place.revision in
          let (holds, c) =
            compute-IsTrue d world numbered n r s.place.hist s.place.diffcache lo v.hist v.cache now
              json cache (ap (get s.place.hist) now ∙ newest) e in
          record {
            hist = v.hist;
            current = v.current;
            cache = c;
            deltas = v.deltas;
            history = v.history;
            acked = v.acked;
            intent = v.intent;
            intents = v.intents;
          }
    ]
