-- ===== src/Sync/Computed.antt =====
-- The deltas that a server computes between its states, `allo_delta_compute` of src/delta.c and
-- `broadcast_server_state` of src/standalone_server.cpp.
use allonet.Common.{
  ℕ, ◌%◌, ◌<◌, ◌≤◌, ◌≡◌, refl, sym, ap, ◌∙◌, subst, Option, some, none, ◌==◌, arith, Bool-cases,
  inl, inr,
}
use allonet.Common.Int.{pos, same_int}
use allonet.Common.Cases.{option-cases, >>=-ok_inv}
use allonet.Common.Outcome.{Outcome, ok, asserted, ◌>>=◌}
use allonet.Delta.{
  Documents, History, history_length, put, slot, get, Delta, Entry, Diffcache, merge_delta,
  revision_of, delta_for, cached, cached_or_new, compute,
}
use allonet.Delta.Cache.{same_int-eq, asserted-some, cached-some, pair-ok}
use allonet.Sync.Delivered.{Holds, IsTrue, whole, patch, revision_of-world}

module _ {Doc : Type 0} (d : Documents Doc) (world : ℕ → Doc) where
  -- The cached deltas are true, and lead to a revision that the server has had.
  abbrev pub IsTrueCache : ℕ → Diffcache Doc → Type 0
  IsTrueCache n cache =
      (i : ℕ) (e : Entry Doc)
      → cache i ≡ some e
      → IsTrue d world n e.json × (t : ℕ) × (t ≤ n) × (e.to ≡ pos t)

module _ {Doc : Type 0} (d : Documents Doc) (world : ℕ → Doc)
    (numbered : (k : ℕ) → d.revision (world k) ≡ some (pos k)) where
  made_patch :
      (n r : ℕ) (json : Delta Doc)
      → 0 < n
      → (asserted (d.generate (world r) (world n)) >>= λ p. ok (merge_delta d (pos r) p)) ≡ ok json
      → IsTrue d world n json
  made_patch n r json lo e =
      let (p, done, made) = >>=-ok_inv _ (asserted (d.generate (world r) (world n))) e in
      patch r n p lo (omega arith) (asserted-some d (d.generate (world r) (world n)) p made)
        (ground (arith, done))

  delta_for-IsTrue :
      (n r : ℕ) (h : History Doc) (o : Option Doc) (json : Delta Doc)
      → 0 < n
      → Holds d world n h
      → h.slots (r % history_length) ≡ o
      → delta_for d (world n) o (pos r) ≡ ok json
      → IsTrue d world n json
  unfolding delta_for
  delta_for-IsTrue n r h none json lo v at e = whole n lo (omega arith) (ground (arith, e))
  delta_for-IsTrue n r h (some x) json lo v at e =
      let (l, _, _, is, _) = v (r % history_length) x at in
      elim (Bool-cases (same_int (revision_of d (some x)) (pos r))) [
        | inr other ↦ whole n lo (omega arith) (ground (arith, e, other))
        | inl same ↦
            let eq : pos l ≡ pos r =
              sym (ap (λ y. revision_of d (some y)) is ∙ revision_of-world d world numbered l)
              ∙ same_int-eq (revision_of d (some x)) (pos r) same in
            let old : x ≡ world r = is ∙ ap world (ground (arith, eq)) in
            made_patch n r json lo (ground (arith, e, same, old))
      ]

  put-IsTrueCache :
      (n i : ℕ) (cache : Diffcache Doc) (e : Entry Doc)
      → IsTrueCache d world n cache
      → IsTrue d world n e.json
      → e.to ≡ pos n
      → IsTrueCache d world n (put i e cache)
  put-IsTrueCache n i cache e v holds to j e' found = elim (Bool-cases (j == i)) [
    | inl here ↦
        let own : e ≡ e' = ground (arith, here) in
        subst (λ x. IsTrue d world n x.json × (t : ℕ) × (t ≤ n) × (x.to ≡ pos t)) own
          (holds, n, omega arith, to)
    | inr other ↦ v j e' (ground (arith, other))
  ]

  module _ (n r : ℕ) (h : History Doc) (cache : Diffcache Doc) (lo : 0 < n) (v : Holds d world n h)
      (c : IsTrueCache d world n cache) (now : h.latest_revision ≡ pos n) where
    cached_or_new-IsTrue :
        (json : Delta Doc) (cache' : Diffcache Doc)
        → cached_or_new d h cache (pos r) (world n) (r % history_length) ≡ ok (json, cache')
        → IsTrue d world n json × IsTrueCache d world n cache'
    unfolding cached_or_new
    cached_or_new-IsTrue json cache' e =
        let i = r % history_length in
        elim (option-cases (cached d (cache i) (pos r) h.latest_revision)) [
          | inl miss ↦
              let new : Delta Doc → Outcome (Delta Doc × Diffcache Doc) = λ json. ok (
                json,
                put i (record { from = pos r; to = h.latest_revision; json = json }) cache,
              ) in
              let made_new : (delta_for d (world n) (h.slots i) (pos r) >>= new)
                  ≡ ok (json, cache') =
                subst (λ o. o ≡ ok (json, cache')) (rw (cached_or_new, miss) refl) e in
              let (json', done, made) =
                >>=-ok_inv new (delta_for d (world n) (h.slots i) (pos r)) made_new in
              let (same, left) = pair-ok d done in
              let holds = delta_for-IsTrue n r h (h.slots i) json' lo v refl made in
              (
                subst (IsTrue d world n) same holds,
                subst (IsTrueCache d world n) left (put-IsTrueCache n i cache _ c holds now),
              )
          | inr (json', hit) ↦
              let (e0, there, _, _, holds) =
                cached-some d (cache i) (pos r) h.latest_revision json' hit in
              let given : ◌≡◌ {A = Outcome (Delta Doc × Diffcache Doc)} (ok (json', cache))
                  (ok (json, cache')) =
                subst (λ o. o ≡ ok (json, cache')) (rw (cached_or_new, hit) refl) e in
              let (same, left) = pair-ok d given in
              (
                subst (IsTrue d world n) (holds ∙ same) (c i e0 there).0,
                subst (IsTrueCache d world n) left c,
              )
        ]

    pub compute_at :
        get h h.latest_revision ≡ ok (some (world n))
        → compute d h cache (pos r) ≡ cached_or_new d h cache (pos r) (world n) (r % history_length)
    unfolding compute slot
    compute_at newest = rw (newest) refl

    pub compute-IsTrue :
        (json : Delta Doc) (cache' : Diffcache Doc)
        → get h h.latest_revision ≡ ok (some (world n))
        → compute d h cache (pos r) ≡ ok (json, cache')
        → IsTrue d world n json × IsTrueCache d world n cache'
    compute-IsTrue json cache' newest e =
        cached_or_new-IsTrue json cache' (sym (compute_at newest) ∙ e)
