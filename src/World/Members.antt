-- ===== src/World/Members.antt =====
-- Lists of entities: what unlinking one leaves, and who its children are.
use text.Mathlib.Text.{◌==◌ as str_eq}
use text.Mathlib.TextEquality.{eq_iff}
use allonet.Common.{
  suc, ◌≡◌, refl, sym, ◌∙◌, ap, subst, List, [], ◌∷◌, some, true, false, String, ◌==◌, arith,
  Bool-cases, inl, inr, ◌⊎◌, length,
}
use allonet.Common.All.{All, In}
use allonet.World.{Entity, has_parent, unlink, children_of}

-- No two entities have one address or one id.
abbrev pub Differs : Entity → Entity → Type 0
Differs e f = ((f.address == e.address) ≡ false) × (str_eq f.id e.id ≡ false)

abbrev pub Unique : List Entity → Type 0
Unique [] = Unit {0}
Unique (e ∷ es) = All (Differs e) es × Unique es

pub All-In : (P : Entity → Type 0) (es : List Entity) (x : Entity) → All P es → In x es → P x
All-In P [] x a i = absurd i
All-In P (e ∷ es) x a (inl q) = subst P (sym q) a.0
All-In P (e ∷ es) x a (inr i) = All-In P es x a.1 i

-- What is left of the list without `r`.
pub record Without (r : Entity) (es rest : List Entity) : Type 0 where
  pub done : unlink r.address es ≡ some rest
  pub unique : Unique rest
  pub inside : (x : Entity) → In x rest → In x es × Differs r x
  pub others : (x : Entity) → In x es → (x ≡ r) ⊎ In x rest
  pub shorter : suc (length rest) ≡ length es

In-All : (P : Entity → Type 0) (es : List Entity) → ((x : Entity) → In x es → P x) → All P es
In-All P [] h = tt
In-All P (e ∷ es) h = (h e (inl refl), In-All P es (λ x i. h x (inr i)))

pub unlink-Without :
    (r : Entity) (es : List Entity) → Unique es → In r es → (rest : List Entity) × Without r es rest
unfolding unlink
unlink-Without r [] u i = absurd i
unlink-Without r (e ∷ es) u (inl q) = (
  es,
  record {
    done = ground (arith, ap (λ x. x.address) q);
    unique = u.1;
    inside = λ x i. (inr i, subst (λ y. Differs y x) (sym q) (All-In (Differs e) es x u.0 i));
    others = λ x i. elim i [ inl p ↦ inl (p ∙ sym q) | inr j ↦ inr j ];
    shorter = refl;
  },
)
unlink-Without r (e ∷ es) u (inr i) =
    let (rest, w) = unlink-Without r es u.1 i in
    let apart = All-In (Differs e) es r u.0 i in
    (
      e ∷ rest,
      record {
        done = ground (arith, w.done, apart);
        unique = (
          In-All (Differs e) rest (λ x j. All-In (Differs e) es x u.0 (w.inside x j).0),
          w.unique,
        );
        inside = λ x j. elim j [
          | inl p ↦ (
            inl p,
            subst (λ y. Differs r y) (sym p)
                (ground (arith, apart, eq_iff r.id e.id, eq_iff e.id r.id)),
          )
          | inr k ↦ (inr (w.inside x k).0, (w.inside x k).1)
        ];
        others = λ x j. elim j [
          | inl p ↦ inr (inl p)
          | inr k ↦ elim (w.others x k) [ inl p ↦ inl p | inr l ↦ inr (inr l) ]
        ];
        shorter = ground (arith, w.shorter);
      },
    )

module _ (i : String) where
  pub In-children_of :
      (es : List Entity) (x : Entity) → In x es → has_parent i x ≡ true → In x (children_of i es)
  unfolding children_of
  In-children_of [] x j h = j
  In-children_of (e ∷ es) x (inl q) h =
      let he : has_parent i e ≡ true = subst (λ y. has_parent i y ≡ true) q h in
      rw (children_of, he) (inl q)
  In-children_of (e ∷ es) x (inr j) h = elim (Bool-cases (has_parent i e)) [
    | inl child ↦ rw (children_of, child) (inr (In-children_of es x j h))
    | inr other ↦ rw (children_of, other) (In-children_of es x j h)
  ]

  pub children_of-In :
      (es : List Entity) → All (λ x. In x es × (has_parent i x ≡ true)) (children_of i es)
  unfolding children_of
  children_of-In [] = tt
  children_of-In (e ∷ es) = elim (Bool-cases (has_parent i e)) [
    | inl child ↦
        rw (children_of, child)
          ((inl refl, child), wider e es (children_of i es) (children_of-In es))
    | inr other ↦ rw (children_of, other) (wider e es (children_of i es) (children_of-In es))
  ]
    where
      wider :
          (e : Entity) (es cs : List Entity)
          → All (λ x. In x es × (has_parent i x ≡ true)) cs
          → All (λ x. In x (e ∷ es) × (has_parent i x ≡ true)) cs
      wider e es [] a = tt
      wider e es (c ∷ cs) a = ((inr a.0.0, a.0.1), wider e es cs a.1)

  All-children_of : (P : Entity → Type 0) (es : List Entity) → All P es → All P (children_of i es)
  unfolding children_of
  All-children_of P [] a = tt
  All-children_of P (e ∷ es) a = elim (Bool-cases (has_parent i e)) [
    | inl child ↦ rw (children_of, child) (a.0, All-children_of P es a.1)
    | inr other ↦ rw (children_of, other) (All-children_of P es a.1)
  ]

  pub Unique-children_of : (es : List Entity) → Unique es → Unique (children_of i es)
  unfolding children_of
  Unique-children_of [] u = tt
  Unique-children_of (e ∷ es) u = elim (Bool-cases (has_parent i e)) [
    | inl child ↦
        rw (children_of, child) (All-children_of (Differs e) es u.0, Unique-children_of es u.1)
    | inr other ↦ rw (children_of, other) (Unique-children_of es u.1)
  ]
