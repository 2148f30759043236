-- ===== src/Media/Tracks.antt =====
-- The list of tracks under `_alloclient_media_handle_statediff`, src/media/media.c.
use allonet.Common.{
  ℕ, ◌≡◌, ◌≢◌, refl, subst, List, [], ◌∷◌, ◌++◌, Option, none, some, false, ◌==◌, arith, Bool-cases,
  inl, inr,
}
use allonet.Common.All.{All}
use allonet.Common.Cases.{option-cases, >>=-ok_inv}
use allonet.Common.Outcome.{ok}
use allonet.Media.{
  TrackType, Track, absent, not_a_number, number, LiveMedia, find, destroy, new_track,
  type_from_string, ComponentRef, StateDiff, is_live_media, remove_from_comp, find_or_create,
  add_from_comp, add_all, update_all, remove_all, handle_statediff,
}

-- No two tracks have one id, and each is in the hands of a subsystem.
abbrev pub LacksTrack : ℕ → List Track → Type 0
LacksTrack n ts = All (λ t. (t.track_id == n) ≡ false) ts

abbrev pub AreTracks : List Track → Type 0
AreTracks [] = Unit {0}
AreTracks (t ∷ ts) = (t.subsystem ≢ none) × LacksTrack t.track_id ts × AreTracks ts

Lacks-destroy : (m n : ℕ) (ts : List Track) → LacksTrack m ts → LacksTrack m (destroy n ts)
unfolding destroy
Lacks-destroy m n [] l = tt
Lacks-destroy m n (t ∷ ts) l = ground (arith, Lacks-destroy m n ts)

AreTracks-destroy : (n : ℕ) (ts : List Track) → AreTracks ts → AreTracks (destroy n ts)
unfolding destroy
AreTracks-destroy n [] v = tt
AreTracks-destroy n (t ∷ ts) v =
    ground (arith, Lacks-destroy t.track_id n ts, AreTracks-destroy n ts)

-- What `destroy` names is gone, as no id is there twice.
destroy-LacksTrack : (n : ℕ) (ts : List Track) → AreTracks ts → LacksTrack n (destroy n ts)
unfolding destroy
destroy-LacksTrack n [] v = tt
destroy-LacksTrack n (t ∷ ts) v = elim (Bool-cases (t.track_id == n)) [
  | inl hit ↦
      let e : t.track_id ≡ n = ground (arith, hit) in rw hit (subst (λ m. LacksTrack m ts) e v.1)
  | inr miss ↦ rw miss (miss, destroy-LacksTrack n ts v.2)
]

LacksTrack-append :
    (m : ℕ) (u : Track) (ts : List Track)
    → (u.track_id == m) ≡ false
    → LacksTrack m ts
    → LacksTrack m (ts ++ (u ∷ []))
LacksTrack-append m u [] e l = (e, tt)
LacksTrack-append m u (t ∷ ts) e l = (l.0, LacksTrack-append m u ts e l.1)

AreTracks-append :
    (u : Track) (ts : List Track)
    → u.subsystem ≢ none
    → find u.track_id ts ≡ none
    → AreTracks ts
    → AreTracks (ts ++ (u ∷ []))
unfolding find
AreTracks-append u [] has new v = (has, tt, tt)
AreTracks-append u (t ∷ ts) has new v =
    ground (arith, LacksTrack-append t.track_id u ts, AreTracks-append u ts has, has)

-- A track that no subsystem took is taken out again.
destroy-append :
    (n : ℕ) (u : Track) (ts : List Track)
    → u.track_id ≡ n
    → find n ts ≡ none
    → destroy n (ts ++ (u ∷ [])) ≡ ts
unfolding find destroy
destroy-append n u [] e new = ground arith
destroy-append n u (t ∷ ts) e new = ground (arith, destroy-append n u ts e)

AreTracks-remove_from_comp :
    (m : Option LiveMedia) (ts : List Track) → AreTracks ts → AreTracks (remove_from_comp m ts)
unfolding remove_from_comp
AreTracks-remove_from_comp none ts v = v
AreTracks-remove_from_comp (some m) ts v =
    elim m.track_id as (λ i. AreTracks (remove_from_comp (some (record m { track_id = i })) ts)) [
      | absent ↦ v
      | not_a_number n ↦ AreTracks-destroy n ts v
      | number n ↦ AreTracks-destroy n ts v
    ]

module _ (initialize : ℕ → TrackType → LiveMedia → Option ℕ) where
  find_or_create-AreTracks :
      (n : ℕ) (type : TrackType) (m : LiveMedia) (ts ts' : List Track)
      → AreTracks ts
      → find_or_create initialize n type m ts ≡ ok ts'
      → AreTracks ts'
  unfolding find_or_create
  find_or_create-AreTracks n type m ts ts' v e = elim (option-cases (find n ts)) [
    | inr (t, found) ↦ ground (arith, v, found)
    | inl new ↦ elim (option-cases (initialize n type m)) [
      | inr (k, takes) ↦
          ground
            (arith, AreTracks-append (new_track n type (some k)) ts (λ z. cc) new v, new, takes)
      | inl refused ↦
          ground (arith, v, destroy-append n (new_track n type none) ts refl new, new, refused)
    ]
  ]

  add_from_comp-AreTracks :
      (m : Option LiveMedia) (ts ts' : List Track)
      → AreTracks ts
      → add_from_comp initialize m ts ≡ ok ts'
      → AreTracks ts'
  unfolding add_from_comp
  add_from_comp-AreTracks none ts ts' v = λ e. ground (arith, v)
  add_from_comp-AreTracks (some m) ts ts' v =
      elim m.track_id
        as (λ i.
          add_from_comp initialize (some (record m { track_id = i })) ts ≡ ok ts' → AreTracks ts') [
            | absent ↦ λ e. ground (arith, v)
            | not_a_number n ↦ λ e. ground (arith, v)
            | number n ↦ λ e. ground (
              arith,
              v,
              find_or_create-AreTracks n (type_from_string m.type)
                  (record m { track_id = number n }) ts ts' v,
            )
          ]

  add_all-AreTracks :
      (rs : List ComponentRef) (ts ts' : List Track)
      → AreTracks ts
      → add_all initialize rs ts ≡ ok ts'
      → AreTracks ts'
  unfolding add_all
  add_all-AreTracks [] ts ts' v e = ground (arith, v)
  add_all-AreTracks (r ∷ rs) ts ts' v e =
      let (u, rest, first) = >>=-ok_inv (add_all initialize rs) _ e in
      add_all-AreTracks rs u ts'
        (ground (arith, v, first, add_from_comp-AreTracks r.newdata ts u v)) rest

  update_all-AreTracks :
      (rs : List ComponentRef) (ts ts' : List Track)
      → AreTracks ts
      → update_all initialize rs ts ≡ ok ts'
      → AreTracks ts'
  unfolding update_all
  update_all-AreTracks [] ts ts' v e = ground (arith, v)
  update_all-AreTracks (r ∷ rs) ts ts' v e =
      let (u, rest, first) = >>=-ok_inv (update_all initialize rs) _ e in
      update_all-AreTracks rs u ts'
        (ground (
          arith,
          v,
          first,
          add_from_comp-AreTracks r.newdata (remove_from_comp r.olddata ts) u
              (AreTracks-remove_from_comp r.olddata ts v),
        ))
        rest

  remove_all-AreTracks :
      (rs : List ComponentRef) (ts : List Track)
      → AreTracks ts
      → AreTracks (remove_all initialize rs ts)
  unfolding remove_all
  remove_all-AreTracks [] ts v = v
  remove_all-AreTracks (r ∷ rs) ts v = elim (Bool-cases (is_live_media r)) [
    | inl live ↦
        rw (remove_all, live)
          (remove_all-AreTracks rs (remove_from_comp r.olddata ts)
            (AreTracks-remove_from_comp r.olddata ts v))
    | inr other ↦ rw (remove_all, other) (remove_all-AreTracks rs ts v)
  ]

  -- Handling a state difference, if no component comes with another type than its track has, keeps
  -- the list of tracks in order: no id is there twice, and each track has a subsystem.
  pub handle_statediff-AreTracks :
      (diff : StateDiff) (ts ts' : List Track)
      → AreTracks ts
      → handle_statediff initialize diff ts ≡ ok ts'
      → AreTracks ts'
  unfolding handle_statediff
  handle_statediff-AreTracks diff ts ts' v e =
      let (added, e1, a) = >>=-ok_inv _ (add_all initialize diff.new_components ts) e in
      let (updated, e2, b) =
        >>=-ok_inv _ (update_all initialize diff.updated_components added) e1 in
      let u =
        update_all-AreTracks diff.updated_components added updated
          (add_all-AreTracks diff.new_components ts added v a) b in
      ground (arith, e2, remove_all-AreTracks diff.deleted_components updated u)
