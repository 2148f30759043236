-- ===== src/World/Cascade.antt =====
-- `allo_state_remove_entity` with `AlloRemovalCascade`, src/state.c.
use text.Mathlib.Text.{◌==◌ as str_eq}
use text.Mathlib.TextEquality.{eq_iff}
use allonet.Common.{
  ℕ, zero, suc, ◌≤◌, ◌≡◌, refl, sym, ◌∙◌, ap, subst, List, [], ◌∷◌, Option, none, some, true, false,
  String, arith, inl, inr, length,
}
use mathlib.Core.Bool.{false≢true}
use allonet.Common.All.{In}
use allonet.Common.Outcome.{Outcome, ok}
use allonet.World.{Entity, cascade, has_parent, unlink, children_of, remove_each, remove_entity}
use allonet.World.Members.{
  Differs, Unique, All-In, unlink-Without, In-children_of, children_of-In, Unique-children_of,
}

-- The entity has no parent among these.
abbrev pub Rootless : List Entity → Entity → Type 0
Rootless es x = (p : Entity) → In p es → has_parent p.id x ≡ false

-- What removals of the entities `rs` with their descendants leave of `es`.
pub record Cleared (rs es es' : List Entity) : Type 0 where
  pub unique : Unique es'
  pub inside : (x : Entity) → In x es' → In x es
  pub gone : (x : Entity) → In x es' → In x rs → ⊥
  pub kept : (x : Entity) → In x es → (In x rs → ⊥) → Rootless es x → In x es'
  pub closed : (x p : Entity) → In x es' → In p es → has_parent p.id x ≡ true → In p es'
  pub shorter : length es' ≤ length es

-- That a removal clears, for lists of at most so many entities.
abbrev Clears : ℕ → (Entity → List Entity → Outcome (List Entity)) → Type 0
Clears n remove =
    (r : Entity) (es : List Entity)
    → Unique es
    → In r es
    → length es ≤ n
    → (es' : List Entity) × (remove r es ≡ ok es') × Cleared (r ∷ []) es es'

apart : (c d : Entity) → Differs c d → d ≡ c → ⊥
apart c d u e = false≢true (sym u.0 ∙ ground (arith, ap (λ x. x.address) e))

module _ (n : ℕ) (remove : Entity → List Entity → Outcome (List Entity))
    (clears : Clears n remove) where
  remove_each_cons :
      (c : Entity) (cs es es' : List Entity)
      → remove c es ≡ ok es'
      → remove_each remove (c ∷ cs) es ≡ remove_each remove cs es'
  unfolding remove_each
  remove_each_cons c cs es es' e = rw (remove_each, e) refl

  remove_each_nil : (es : List Entity) → remove_each remove [] es ≡ ok es
  unfolding remove_each
  remove_each_nil es = refl

  remove_each-Cleared :
      (cs es : List Entity)
      → Unique cs
      → Unique es
      → ((c : Entity) → In c cs → In c es × Rootless es c)
      → length es ≤ n
      → (fin : List Entity) × (remove_each remove cs es ≡ ok fin) × Cleared cs es fin
  remove_each-Cleared [] es uc u h l = (
    es,
    remove_each_nil es,
    record {
      unique = u;
      inside = λ x i. i;
      gone = λ x i z. z;
      kept = λ x i z r. i;
      closed = λ x p i j e. j;
      shorter = omega arith;
    },
  )
  remove_each-Cleared (c ∷ cs) es uc u h l =
      let (es1, done, v) = clears c es u (h c (inl refl)).0 l in
      let other : (d : Entity) → In d cs → In d (c ∷ []) → ⊥ =
        λ d i z. elim z [ inl e ↦ apart c d (All-In (Differs c) cs d uc.0 i) e | inr k ↦ k ] in
      let (fin, go, w) =
        remove_each-Cleared cs es1 uc.1 v.unique
          (λ d i.
            let (at, rootless) = h d (inr i) in
            (v.kept d at (other d i) rootless, λ p j. rootless p (v.inside p j)))
          (omega (arith, v.shorter)) in
      (
        fin,
        remove_each_cons c cs es es1 done ∙ go,
        record {
          unique = w.unique;
          inside = λ x i. v.inside x (w.inside x i);
          gone = λ x i z. elim z [ inl e ↦ v.gone x (w.inside x i) (inl e) | inr k ↦ w.gone x i k ];
          kept = λ x i z r.
              w.kept x (v.kept x i (λ y. elim y [ inl e ↦ z (inl e) | inr k ↦ k ]) r)
                (λ y. z (inr y)) (λ p j. r p (v.inside p j));
          closed = λ x p i j e. w.closed x p i (v.closed x p (w.inside x i) j e) e;
          shorter = omega (arith, v.shorter, w.shorter);
        },
      )

-- A child of `r` has no parent among those that differ from `r`.
one_parent : (r p x : Entity) → has_parent r.id x ≡ true → Differs r p → has_parent p.id x ≡ false
one_parent r p x h u = parents x.parent h
  where
    parents :
        (q : Option String)
        → (elim q [ none ↦ false | some i ↦ str_eq i r.id ]) ≡ true
        → (elim q [ none ↦ false | some i ↦ str_eq i p.id ]) ≡ false
    parents none e = refl
    parents (some i) e =
        ground (arith, u, e, eq_iff i r.id, eq_iff i p.id, eq_iff p.id r.id, eq_iff r.id p.id)

remove_entity-suc :
    (fuel : ℕ) (r : Entity) (es rest : List Entity)
    → unlink r.address es ≡ some rest
    → remove_entity (suc fuel) cascade r es
      ≡ remove_each (remove_entity fuel cascade) (children_of r.id rest) rest
unfolding remove_entity
remove_entity-suc fuel r es rest e = rw (remove_entity, e) refl

remove_entity-Clears : (fuel : ℕ) → Clears fuel (remove_entity fuel cascade)
remove_entity-Clears zero r [] u i l = absurd i
remove_entity-Clears zero r (e ∷ es) u i l = absurd (omega arith)
remove_entity-Clears (suc fuel) r es u i l =
    let (rest, w) = unlink-Without r es u i in
    let cs = children_of r.id rest in
    let child : (c : Entity) → In c cs → In c rest × (has_parent r.id c ≡ true) = λ c j.
      All-In (λ x. In x rest × (has_parent r.id x ≡ true)) cs c (children_of-In r.id rest) j in
    let (fin, go, v) =
      remove_each-Cleared fuel (remove_entity fuel cascade) (remove_entity-Clears fuel) cs rest
        (Unique-children_of r.id rest w.unique) w.unique
        (λ c j. ((child c j).0, λ p k. one_parent r p c (child c j).1 (w.inside p k).1))
        (omega (arith, w.shorter)) in
    (
      fin,
      remove_entity-suc fuel r es rest w.done ∙ go,
      record {
        unique = v.unique;
        inside = λ x j. (w.inside x (v.inside x j)).0;
        gone = λ x j z. elim z [ inl e ↦ apart r x (w.inside x (v.inside x j)).1 e | inr k ↦ k ];
        kept = λ x j z root. elim (w.others x j) [
          | inl e ↦ absurd (z (inl e))
          | inr k ↦
              v.kept x k (λ y. false≢true (sym (root r i) ∙ (child x y).1))
                (λ p m. root p (w.inside p m).0)
        ];
        closed = λ x p j k e. elim (w.others p k) [
          | inl same ↦ absurd (
              v.gone x j (
                In-children_of r.id rest x (v.inside x j)
                  (subst (λ y. has_parent y.id x ≡ true) same e)))
          | inr m ↦ v.closed x p j m e
        ];
        shorter = omega (arith, w.shorter, v.shorter);
      },
    )

-- Removing an entity with its descendants ends, within as many nested calls as there are entities,
-- and never removes one twice, if no two entities have one id or one address; relationships may go
-- in circles.
-- Afterwards the entity is gone; an entity whose parent was there before still has it; and another
-- entity that had no parent there is still there.
pub remove_entity-Cleared :
    (r : Entity) (es : List Entity)
    → Unique es
    → In r es
    → (es' : List Entity) × (remove_entity (length es) cascade r es ≡ ok es')
      × Cleared (r ∷ []) es es'
remove_entity-Cleared r es u i = remove_entity-Clears (length es) r es u i (omega arith)
