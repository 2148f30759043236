-- ===== src/Delta/RoundTrip.antt =====
-- `allo_delta_compute` on one side and `allo_delta_apply` on the other, src/delta.c.
use allonet.Common.{
  ℕ, ◌%◌, ◌≡◌, refl, ◌∙◌, ap, Option, some, none, true, ◌==◌, arith, Bool-cases, inl, inr, not,
  ◌||◌, ◌⊎◌, subst, sym,
}
use allonet.Common.Int.{ℤ, pos, same_int}
use allonet.Common.Outcome.{Outcome, ok, assert, asserted, ◌>>=◌}
use allonet.Common.Cases.{>>=-ok_inv}
use allonet.Delta.{
  Documents, History, history_length, put, slot, get, insert, Delta, set_delta, merge_delta,
  delta_for, revision_of, patched, apply, applies, is_merge, is_set, int64_value,
}
use allonet.Delta.Cache.{fresh, fresh_at, same_int-eq}

module _ {Doc : Type 0} (d : Documents Doc) (hc : History Doc) (latest : Doc) (n : ℕ)
    (numbered : d.revision latest ≡ some (pos n)) where
  abbrev pub received : History Doc
  received = record { slots = put (n % history_length) latest hc.slots; latest_revision = pos n }

  pub insert-received : insert d hc latest ≡ ok received
  unfolding insert slot
  insert-received = rw (insert, numbered) refl

  pub get-received : get received (pos n) ≡ ok (some latest)
  unfolding get slot
  get-received = let self : (n % 64 == n % 64) ≡ true = ground arith in rw self refl

  pub apply_set : apply d hc (set_delta d latest) ≡ ok (some latest, received)
  unfolding apply get slot patched
  apply_set = ground (arith, insert-received)

  pub apply_merge :
      (m : ℕ) (old patch : Doc)
      → get hc (pos m) ≡ ok (some old)
      → d.revision old ≡ some (pos m)
      → d.merge old patch ≡ latest
      → apply d hc (merge_delta d (pos m) patch) ≡ ok (some latest, received)
  unfolding apply patched
  apply_merge m old patch there rev merged =
      let from : same_int (pos m) (revision_of d (some old)) ≡ true = ground (arith, rev) in
      ground (arith, insert-received, there, from, merged)

-- A server's history and a client's. The server is asked for a delta from revision `m`, at which
-- the client has `old`; if the server still has that revision, it is the same state.
module _ {Doc : Type 0} (d : Documents Doc) (h hc : History Doc) (latest old patch : Doc) (m n : ℕ)
    (newest : get h h.latest_revision ≡ ok (some latest))
    (numbered : d.revision latest ≡ some (pos n)) (there : get hc (pos m) ≡ ok (some old))
    (rev : d.revision old ≡ some (pos m))
    (agree : (x : Doc)
      → h.slots (m % history_length) ≡ some x
      → d.revision x ≡ some (pos m)
      → x ≡ old)
    (known : (x : Doc) → h.slots (m % history_length) ≡ some x → (r : ℤ) × (d.revision x ≡ some r))
    (generated : d.generate old latest ≡ some patch) (merged : d.merge old patch ≡ latest) where
  slot_pos : slot (pos m) ≡ ok (m % history_length)
  unfolding slot
  slot_pos = refl

  pub delta_for-apply :
      (o : Option Doc)
      → h.slots (m % history_length) ≡ o
      → (json : Delta Doc) × (delta_for d latest o (pos m) ≡ ok json)
        × (apply d hc json ≡ ok (some latest, received d hc latest n numbered))
  unfolding delta_for
  delta_for-apply none e = (set_delta d latest, refl, apply_set d hc latest n numbered)
  delta_for-apply (some x) e = elim (Bool-cases (same_int (revision_of d (some x)) (pos m))) [
    | inl same ↦
        let (r, has) = known x e in
        let is : x ≡ old =
          agree x e (has ∙ ap some (same_int-eq r (pos m) (ground (arith, has, same)))) in
        (
          merge_delta d (pos m) patch,
          ground (arith, same, is, generated),
          apply_merge d hc latest n numbered m old patch there rev merged,
        )
    | inr other ↦ (set_delta d latest, rw (delta_for, other) refl, apply_set d hc latest n numbered)
  ]

  -- Whether or not the server still has the old state: the delta that it computes is accepted by
  -- the client, whose latest state then is the server's, at its revision. This holds if what the
  -- server keeps in the place of the old revision has a revision, and is the client's state where
  -- that is the old one, and if cJSON generates a patch between the two states, and merging that into
  -- the old one gives the new one.
  pub apply-fresh :
      (json : Delta Doc) × (h' : History Doc) × (fresh d h (pos m) ≡ ok json)
      × (apply d hc json ≡ ok (some latest, h'))
      × (get h' (pos n) ≡ ok (some latest))
      × (h'.latest_revision ≡ pos n)
  apply-fresh =
      let (json, made, applied) = delta_for-apply (h.slots (m % history_length)) refl in
      (
        json,
        received d hc latest n numbered,
        fresh_at d h (pos m) latest (m % history_length) newest slot_pos ∙ made,
        applied,
        get-received d hc latest n numbered,
        refl,
      )

insert-newest :
    {Doc : Type 0} (d : Documents Doc) (h h' : History Doc) (doc : Doc)
    → insert d h doc ≡ ok h'
    → get h' h'.latest_revision ≡ ok (some doc)
unfolding insert get
insert-newest d h h' doc e =
    let (rev, e1, _) = >>=-ok_inv _ (asserted (d.revision doc)) e in
    let (i, e2, at) = >>=-ok_inv _ (slot rev) e1 in
    let self : (i == i) ≡ true = ground arith in ground (arith, e2, at, self)

-- Whatever delta arrives, `allo_delta_apply` either returns nothing and leaves the history as it
-- was, or returns a state that then is the latest of the history.
pub apply-outcome :
    {Doc : Type 0} (d : Documents Doc) (h h' : History Doc) (delta : Delta Doc) (r : Option Doc)
    → apply d h delta ≡ ok (r, h')
    → (r ≡ none) × (h' ≡ h)
      ⊎ (doc : Doc) × (r ≡ some doc) × (get h' h'.latest_revision ≡ ok (some doc))
unfolding apply
apply-outcome {Doc = Doc} d h h' delta r e =
    let (style, e1, _) = >>=-ok_inv _ (asserted delta.patch_style) e in
    let (_, e2, _) =
      >>=-ok_inv _ (assert (is_set d delta.patch_from || not (is_merge d style))) e1 in
    let (current, e3, _) = >>=-ok_inv _ (get h (int64_value delta.patch_from)) e2 in
    elim (Bool-cases (applies d delta.patch_from current)) [
      | inr refused ↦ inl (ground (arith, e3, refused), ground (arith, e3, refused))
      | inl fits ↦
          let next : Doc → Outcome (Option Doc × History Doc) =
            λ result. insert d h result >>= λ t. ok (some result, t) in
          let go : (patched d style current delta.body >>= next) ≡ ok (r, h') =
            ground (arith, e3, fits) in
          let (result, e4, _) = >>=-ok_inv next (patched d style current delta.body) go in
          let (t, e5, inserted) = >>=-ok_inv _ (insert d h result) e4 in
          let is : h' ≡ t = ground (arith, e5) in
          inr (
            result,
            ground (arith, e5),
            subst (λ x. get x x.latest_revision ≡ ok (some result)) (sym is)
                (insert-newest d h t result inserted),
          )
    ]
