-- ===== src/Sync/Round.antt =====
-- One intent to the server and one delta back, src/client/client.c and src/standalone_server.cpp.
use allonet.Common.{
  ℕ, min, ◌+◌, ◌-◌, ◌%◌, ◌^◌, ◌<◌, ◌≤◌, ◌≡◌, ◌≢◌, refl, sym, ap, ◌∙◌, subst, some, none, false,
  arith, inl, inr, ◌⊎◌,
}
use allonet.Common.Int.{ℤ, pos, same_int}
use allonet.Common.Cases.{option-cases}
use allonet.Common.Outcome.{ok, ◌>>=◌}
use allonet.Delta.{
  Documents, History, history_length, get, put, Delta, Diffcache, delta_for, set_delta, cached,
  cached_or_new, compute, apply, revision_of,
}
use allonet.Delta.RoundTrip.{apply_set, get-received, delta_for-apply}
use allonet.Sync.{Client, Place, last_revision, parse_statediff, broadcast}
use allonet.Sync.Steps.{System, started, Reaches}
use allonet.Sync.Delivered.{Holds, with_state, Holds-with_state, get-slots, revision_of-world}
use allonet.Sync.Computed.{IsTrueCache, compute_at}
use allonet.Sync.Agreed.{Holds-suc, broadcast-compute, IsTrueCache-suc}
use allonet.Sync.Reach.{holding, parse_statediff_held, Reaches-IsAgreed}

module _ {Doc : Type 0} (d : Documents Doc) (world : ℕ → Doc) where
  -- No cached delta leads to a revision that is still to come.
  cached_miss :
      (n : ℕ) (cache : Diffcache Doc) (i : ℕ) (from : ℤ)
      → IsTrueCache d world n cache
      → cached d (cache i) from (pos (n + 1)) ≡ none
  unfolding cached
  cached_miss n cache i from v = elim (option-cases (cache i)) [
    | inl empty ↦ rw (empty) refl
    | inr (e, there) ↦
        let (_, t, le, to) = v i e there in
        let other : same_int e.to (pos (n + 1)) ≡ false = ground (arith, to) in
        rw (there, other) refl
  ]

  module _ (numbered : (k : ℕ) → d.revision (world k) ≡ some (pos k))
      (merges : (m k : ℕ) (p : Doc)
        → d.generate (world m) (world k) ≡ some p
        → d.merge (world m) p ≡ world k)
      (differ : (m k : ℕ) → m ≢ k → (p : Doc) × (d.generate (world m) (world k) ≡ some p)) where
    cached_or_new_miss :
        (h : History Doc) (cache : Diffcache Doc) (from : ℤ) (n i : ℕ) (json : Delta Doc)
        → cached d (cache i) from h.latest_revision ≡ none
        → delta_for d (world n) (h.slots i) from ≡ ok json
        → cached_or_new d h cache from (world n) i
          ≡ ok (json, put i (record { from = from; to = h.latest_revision; json = json }) cache)
    unfolding cached_or_new
    cached_or_new_miss h cache from n i json miss made = rw (cached_or_new, miss, made) refl

    -- The client has nothing yet.
    first-apply :
        (n : ℕ) (h hc : History Doc)
        → Holds d world n h
        → (json : Delta Doc) × (delta_for d (world n) (h.slots 0) (pos 0) ≡ ok json)
          × (apply d hc json ≡ ok (some (world n), with_state d world numbered merges hc n))
    unfolding delta_for
    first-apply n h hc v = elim (option-cases (h.slots 0)) [
      | inl empty ↦
          (set_delta d (world n), rw (empty) refl, apply_set d hc (world n) n (numbered n))
      | inr (x, there) ↦
          let (l, lo, _, is, _) = v 0 x there in
          let rev = ap (λ y. revision_of d (some y)) is ∙ revision_of-world d world numbered l in
          let other : same_int (revision_of d (some x)) (pos 0) ≡ false = ground (arith, rev) in
          (set_delta d (world n), rw (there, other) refl, apply_set d hc (world n) n (numbered n))
    ]

    -- The client has the state that it acknowledges.
    next-apply :
        (n k : ℕ) (h hc : History Doc)
        → Holds d world n h
        → get h h.latest_revision ≡ ok (some (world n))
        → hc.slots (k % history_length) ≡ some (world k)
        → k ≢ n
        → (json : Delta Doc) × (delta_for d (world n) (h.slots (k % history_length)) (pos k)
            ≡ ok json)
          × (apply d hc json ≡ ok (some (world n), with_state d world numbered merges hc n))
    next-apply n k h hc v newest has old =
        let (p, generated) = differ k n old in
        let agree : (x : Doc)
            → h.slots (k % history_length) ≡ some x
            → d.revision x ≡ some (pos k)
            → x ≡ world k =
          λ x e rev.
            let (l, _, _, is, _) = v (k % history_length) x e in
            let same : k ≡ l = ground (arith, rev, is, numbered l) in is ∙ ap world (sym same) in
        let known : (x : Doc)
            → h.slots (k % history_length) ≡ some x
            → (r : ℤ) × (d.revision x ≡ some r) =
          λ x e.
            let (l, _, _, is, _) = v (k % history_length) x e in
            (pos l, ap d.revision is ∙ numbered l) in
        delta_for-apply d h hc (world n) (world k) p k n newest (numbered n)
          (get-slots d world numbered merges k hc (some (world k)) has) (numbered k) agree known
          generated (merges k n p generated) (h.slots (k % history_length)) refl

    -- A client holds no state that is still to come.
    held-le :
        (n k : ℕ) (hc : History Doc)
        → Holds d world n hc
        → hc.slots (k % history_length) ≡ some (world k)
        → k ≤ n
    held-le n k hc v old =
        let (l, _, hi, is, _) = v (k % history_length) (world k) old in
        let same : k ≡ l = ground (arith, sym (numbered k) ∙ ap d.revision is ∙ numbered l) in
        omega arith

    apply-acked :
        (n k : ℕ) (h hc : History Doc)
        → Holds d world (n + 1) h
        → Holds d world n hc
        → get h h.latest_revision ≡ ok (some (world (n + 1)))
        → (k ≡ 0) ⊎ (hc.slots (k % history_length) ≡ some (world k))
        → (json : Delta Doc) × (delta_for d (world (n + 1)) (h.slots (k % history_length)) (pos k)
            ≡ ok json)
          × (apply d hc json
              ≡ ok (some (world (n + 1)), with_state d world numbered merges hc (n + 1)))
    apply-acked n k h hc v vc newest (inl first) =
        subst
          (λ k.
            (json : Delta Doc) × (delta_for d (world (n + 1)) (h.slots (k % history_length)) (pos k)
              ≡ ok json)
            × (apply d hc json
                ≡ ok (some (world (n + 1)), with_state d world numbered merges hc (n + 1))))
          (sym first) (first-apply (n + 1) h hc v)
    apply-acked n k h hc v vc newest (inr old) =
        let le = held-le n k hc vc old in next-apply (n + 1) k h hc v newest old (λ e. omega arith)

  module _ {W : Type 0} (numbered : (k : ℕ) → d.revision (world k) ≡ some (pos k))
      (merges : (m k : ℕ) (p : Doc)
        → d.generate (world m) (world k) ≡ some p
        → d.merge (world m) p ≡ world k)
      (differ : (m k : ℕ) → m ≢ k → (p : Doc) × (d.generate (world m) (world k) ≡ some p)) where
    -- From every state that a client and its server get to before the revision rolls over, unless the
    -- next broadcast does that: if what the client acknowledges is below the largest `int`, and the
    -- server gets its intent and broadcasts, then the server makes a delta
    -- that the client accepts when it arrives; the client then has the server's new state as its
    -- latest, and acknowledges its revision, as far as an `int` goes. This holds if each state of the
    -- server has its revision, cJSON generates a patch between any two of them, and merging it into
    -- the one gives the other.
    pub round_trip :
        (wishes : W) (n : ℕ) (s : System Doc W) (k : ℕ)
        → Reaches d world (started wishes n) s
        → s.client.latest_intent.ack_state_rev ≡ pos k
        → k < 2 ^ 31 - 1
        → s.place.revision + 1 < last_revision
        → (json : Delta Doc) × (p : Place Doc W) × (c : Client Doc W) × (broadcast d world
              (record s.place { intent = s.client.latest_intent })
            ≡ ok (json, p))
          × (parse_statediff d json s.client ≡ ok (pos (s.place.revision + 1), c))
          × (get p.hist p.hist.latest_revision ≡ ok (some (world (s.place.revision + 1))))
          × (get c.history c.history.latest_revision ≡ ok (some (world (s.place.revision + 1))))
          × (c.latest_intent.ack_state_rev ≡ pos (min (s.place.revision + 1) (2 ^ 31 - 1)))
    round_trip wishes n0 s k r ack small below =
        let v = Reaches-IsAgreed d world numbered merges wishes n0 s r in
        let n = s.place.revision in
        let q = record s.place { intent = s.client.latest_intent } in
        let h = with_state d world numbered merges s.place.hist (n + 1) in
        let (l, is, has) = v.acked in
        let same : l ≡ k = ground (arith, is, ack) in
        let old =
          subst (λ x. (x ≡ 0) ⊎ (s.client.history.slots (x % history_length) ≡ some (world x))) same
            (has (omega arith)) in
        let hist =
          Holds-with_state d world numbered merges (n + 1) (n + 1) s.place.hist (omega arith)
            (omega arith) (Holds-suc d world n s.place.hist v.hist) in
        let newest = get-received d s.place.hist (world (n + 1)) (n + 1) (numbered (n + 1)) in
        let (json, made, applied) =
          apply-acked numbered merges differ n k h s.client.history hist v.history newest old in
        let miss = cached_miss n s.place.diffcache (k % history_length) (pos k) v.cache in
        let computes =
          compute_at d world numbered (n + 1) k h s.place.diffcache (omega arith) hist
            (IsTrueCache-suc d world n s.place.diffcache v.cache) refl newest
          ∙ cached_or_new_miss numbered merges differ h s.place.diffcache (pos k) (n + 1)
              (k % history_length) json miss made in
        (
          json,
          _,
          holding d world numbered merges s.client (n + 1),
          broadcast-compute d world numbered merges q below
              ∙ ap
                  (λ m.
                    m >>= λ r. ok (r.0, record q { revision = n + 1; hist = h; diffcache = r.1 }))
                  (ap (compute d h s.place.diffcache) ack ∙ computes),
          parse_statediff_held d world numbered merges (n + 1) json s.client applied,
          newest,
          get-received d s.client.history (world (n + 1)) (n + 1) (numbered (n + 1)),
          refl,
        )
