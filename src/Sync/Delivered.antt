-- ===== src/Sync/Delivered.antt =====
-- What a delta of the server does to the history of a client, `allo_delta_apply` of src/delta.c and
-- `alloclient_parse_statediff` of src/client/client.c.
use allonet.Common.{
  ℕ, ◌%◌, ◌<◌, ◌≤◌, ◌≡◌, sym, ap, ◌∙◌, subst, Option, some, none, false, ◌==◌, arith, Bool-cases,
  inl, inr, ◌⊎◌,
}
use allonet.Common.Int.{pos, same_int}
use allonet.Common.Cases.{option-cases}
use allonet.Common.Outcome.{ok}
use allonet.Delta.{
  Documents, History, history_length, slot, get, Delta, set_delta, merge_delta, revision_of, apply,
}
use allonet.Delta.Cache.{same_int-eq}
use allonet.Delta.RoundTrip.{received, apply_set, apply_merge}

module _ {Doc : Type 0} (d : Documents Doc) (world : ℕ → Doc) where
  -- A history that has nothing but states of the server, each in its place.
  abbrev pub Holds : ℕ → History Doc → Type 0
  Holds n h =
      (i : ℕ) (x : Doc)
      → h.slots i ≡ some x
      → (k : ℕ) × (0 < k) × (k ≤ n) × (x ≡ world k) × (k % history_length ≡ i)

  -- A delta that leads to a state of the server, and if it is a patch, from one of them.
  pub data IsTrue (n : ℕ) (delta : Delta Doc) : Type 0 where
    whole : (k : ℕ) → 0 < k → k ≤ n → delta ≡ set_delta d (world k) → IsTrue n delta
    patch :
        (m k : ℕ) (p : Doc)
        → 0 < k
        → k ≤ n
        → d.generate (world m) (world k) ≡ some p
        → delta ≡ merge_delta d (pos m) p
        → IsTrue n delta

  pub revision_of-world :
      ((k : ℕ) → d.revision (world k) ≡ some (pos k))
      → (k : ℕ) → revision_of d (some (world k)) ≡ pos k
  revision_of-world numbered k = ground (arith, numbered k)

  module _ (numbered : (k : ℕ) → d.revision (world k) ≡ some (pos k))
      (merges : (m k : ℕ) (p : Doc)
        → d.generate (world m) (world k) ≡ some p
        → d.merge (world m) p ≡ world k) where
    abbrev pub with_state : History Doc → ℕ → History Doc
    with_state h k = received d h (world k) k (numbered k)

    pub Holds-with_state :
        (n k : ℕ) (h : History Doc) → 0 < k → k ≤ n → Holds n h → Holds n (with_state h k)
    Holds-with_state n k h lo hi v i x e = elim (Bool-cases (i == k % history_length)) [
      | inl here ↦ (k, lo, hi, ground (arith, here), ground (arith, here))
      | inr other ↦ v i x (ground (arith, other))
    ]

    apply_absent :
        (m : ℕ) (h : History Doc) (p : Doc)
        → h.slots (m % history_length) ≡ none
        → apply d h (merge_delta d (pos m) p) ≡ ok (none, h)
    unfolding apply get slot
    apply_absent m h p e = ground (arith, e)

    apply_other :
        (m : ℕ) (h : History Doc) (p x : Doc)
        → h.slots (m % history_length) ≡ some x
        → same_int (pos m) (revision_of d (some x)) ≡ false
        → apply d h (merge_delta d (pos m) p) ≡ ok (none, h)
    unfolding apply get slot
    apply_other m h p x e other = ground (arith, e, other)

    pub get-slots :
        (m : ℕ) (h : History Doc) (o : Option Doc)
        → h.slots (m % history_length) ≡ o
        → get h (pos m) ≡ ok o
    unfolding get slot
    get-slots m h o e = ap ok e

    apply_patch-cases :
        (n m k : ℕ) (h : History Doc) (p : Doc)
        → Holds n h
        → 0 < k
        → k ≤ n
        → d.generate (world m) (world k) ≡ some p
        → (apply d h (merge_delta d (pos m) p) ≡ ok (none, h))
          ⊎ ((l : ℕ) × (0 < l)
              × (l ≤ n)
              × (apply d h (merge_delta d (pos m) p) ≡ ok (some (world l), with_state h l)))
    apply_patch-cases n m k h p v lo hi g = elim (option-cases (h.slots (m % history_length))) [
      | inl absent ↦ inl (apply_absent m h p absent)
      | inr (x, there) ↦
          let (l, _, _, is, _) = v (m % history_length) x there in
          elim (Bool-cases (same_int (pos m) (revision_of d (some x)))) [
            | inr other ↦ inl (apply_other m h p x there other)
            | inl same ↦
                let eq : pos m ≡ pos l =
                  same_int-eq (pos m) (revision_of d (some x)) same
                  ∙ ap (λ y. revision_of d (some y)) is
                  ∙ revision_of-world numbered l in
                let from : m ≡ l = ground (arith, eq) in
                let old : x ≡ world m = is ∙ ap world (sym from) in
                inr (
                  k,
                  lo,
                  hi,
                  apply_merge d h (world k) k (numbered k) m (world m) p
                      (get-slots m h (some (world m)) (there ∙ ap some old)) (numbered m)
                      (merges m k p g),
                )
          ]
    ]

    -- The delta is not applied, or a state of the server comes in.
    pub apply-cases :
        (n : ℕ) (h : History Doc) (delta : Delta Doc)
        → Holds n h
        → IsTrue n delta
        → (apply d h delta ≡ ok (none, h))
          ⊎ ((k : ℕ) × (0 < k) × (k ≤ n) × (apply d h delta ≡ ok (some (world k), with_state h k)))
    apply-cases n h delta v (whole k lo hi e) =
        inr (k, lo, hi, ap (apply d h) e ∙ apply_set d h (world k) k (numbered k))
    apply-cases n h delta v (patch m k p lo hi g e) =
        subst
          (λ x.
            (apply d h x ≡ ok (none, h))
            ⊎ ((l : ℕ) × (0 < l) × (l ≤ n) × (apply d h x ≡ ok (some (world l), with_state h l))))
          (sym e) (apply_patch-cases n m k h p v lo hi g)
