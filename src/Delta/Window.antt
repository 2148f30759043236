-- ===== src/Delta/Window.antt =====
-- `allo_delta_insert` and `statehistory_get` over a run of states, src/delta.c.
use allonet.Common.{
  ℕ, zero, suc, ◌+◌, ◌%◌, ◌<◌, ◌≤◌, ◌≡◌, refl, ◌∙◌, List, [], ◌∷◌, some, true, false, ◌==◌, arith,
  length, get_elem?,
}
use allonet.Common.Int.{pos}
use allonet.Common.Outcome.{Outcome, ok, ◌>>=◌}
use allonet.Delta.{Documents, History, history_length, put, slot, get, insert}

module _ {Doc : Type 0} (d : Documents Doc) where
  -- `allo_delta_insert` of one state after the other.
  pub insert_all : History Doc → List Doc → Outcome (History Doc)
  insert_all h [] = ok h
  insert_all h (doc ∷ docs) = insert d h doc >>= λ h'. insert_all h' docs

  -- The documents have the revisions from `r` on, without a gap.
  abbrev pub Numbered : ℕ → List Doc → Type 0
  Numbered r [] = Unit {0}
  Numbered r (doc ∷ docs) = (d.revision doc ≡ some (pos r)) × Numbered (r + 1) docs

  abbrev inserted : History Doc → ℕ → Doc → History Doc
  inserted h r doc = record {
    slots = put (r % history_length) doc h.slots;
    latest_revision = pos r;
  }

  insert_numbered :
      (h : History Doc) (r : ℕ) (doc : Doc)
      → d.revision doc ≡ some (pos r)
      → insert d h doc ≡ ok (inserted h r doc)
  unfolding insert slot
  insert_numbered h r doc e = rw (insert, e) refl

  insert_all_cons :
      (h : History Doc) (r : ℕ) (doc : Doc) (docs : List Doc)
      → d.revision doc ≡ some (pos r)
      → insert_all h (doc ∷ docs) ≡ insert_all (inserted h r doc) docs
  unfolding insert_all
  insert_all_cons h r doc docs e = rw (insert_numbered h r doc e) refl

  insert_all_nil : (h : History Doc) → insert_all h [] ≡ ok h
  unfolding insert_all
  insert_all_nil h = refl

  get-inserted_other :
      (h : History Doc) (r s : ℕ) (doc : Doc)
      → s < r
      → r < s + 64
      → get (inserted h r doc) (pos s) ≡ get h (pos s)
  unfolding get slot
  get-inserted_other h r s doc lo hi =
      let other : (s % 64 == r % 64) ≡ false = ground arith in rw other refl

  get-inserted_self :
      (h : History Doc) (r : ℕ) (doc : Doc) → get (inserted h r doc) (pos r) ≡ ok (some doc)
  unfolding get slot
  get-inserted_self h r doc = let self : (r % 64 == r % 64) ≡ true = ground arith in rw self refl

  inserted_all : History Doc → ℕ → List Doc → History Doc
  inserted_all h r [] = h
  inserted_all h r (doc ∷ docs) = inserted_all (inserted h r doc) (r + 1) docs

  insert_all-inserted_all :
      (h : History Doc) (r : ℕ) (docs : List Doc)
      → Numbered r docs
      → insert_all h docs ≡ ok (inserted_all h r docs)
  unfolding inserted_all
  insert_all-inserted_all h r [] n = insert_all_nil h
  insert_all-inserted_all h r (doc ∷ docs) n =
      insert_all_cons h r doc docs n.0 ∙ insert_all-inserted_all (inserted h r doc) (r + 1) docs n.1

  -- A revision stays while fewer than 64 later ones come in.
  get-inserted_all_kept :
      (h : History Doc) (q s : ℕ) (docs : List Doc)
      → s < q
      → q + length docs ≤ s + 64
      → get (inserted_all h q docs) (pos s) ≡ get h (pos s)
  unfolding inserted_all
  get-inserted_all_kept h q s [] lo hi = refl
  get-inserted_all_kept h q s (doc ∷ docs) lo hi =
      get-inserted_all_kept (inserted h q doc) (q + 1) s docs (omega arith) (omega arith)
      ∙ get-inserted_other h q s doc lo (omega arith)

  get-inserted_all :
      (h : History Doc) (r : ℕ) (docs : List Doc) (i : ℕ)
      → i < length docs
      → length docs ≤ i + 64
      → get (inserted_all h r docs) (pos (r + i)) ≡ ok (get_elem? docs i)
  unfolding inserted_all
  get-inserted_all h r [] i lo hi = absurd (omega arith)
  get-inserted_all h r (doc ∷ docs) zero lo hi =
      let e : r + 0 ≡ r = omega arith in
      rw e (
        get-inserted_all_kept (inserted h r doc) (r + 1) r docs (omega arith) (omega arith)
        ∙ get-inserted_self h r doc)
  get-inserted_all h r (doc ∷ docs) (suc i) lo hi =
      let e : r + suc i ≡ r + 1 + i = omega arith in
      rw e (get-inserted_all (inserted h r doc) (r + 1) docs i (omega arith) (omega arith))

  -- States with consecutive revisions can all be inserted, whatever was in the history before, and
  -- the last 64 of them can then be had back by their revision.
  pub get-insert_all :
      (h : History Doc) (r : ℕ) (docs : List Doc)
      → Numbered r docs
      → (h' : History Doc) × (insert_all h docs ≡ ok h')
        × ((i : ℕ)
            → i < length docs
            → length docs ≤ i + 64
            → get h' (pos (r + i)) ≡ ok (get_elem? docs i))
  get-insert_all h r docs n =
      (inserted_all h r docs, insert_all-inserted_all h r docs n, get-inserted_all h r docs)
