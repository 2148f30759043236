-- ===== src/Media.antt =====
-- The media tracks of a client, src/media/media.c: one for each "live_media" component in the
-- world. What the subsystems (audio, video) do with a track is a parameter; the lock is held over
-- each operation on the list.
pub mod Tracks
mod Examples
use text.Mathlib.Text.{◌==◌ as str_eq}
use allonet.Common.{
  ℕ, List, [], ◌∷◌, ◌++◌, Option, none, some, Bool, true, false, String, ◌==◌, if◌then◌else◌,
}
use allonet.Common.Outcome.{Outcome, ok, assert, ◌>>=◌, ◌>>◌}

pub data TrackType : Type 0 where
  invalid audio video : TrackType

abbrev pub same_type : TrackType → TrackType → Bool
same_type invalid invalid = true
same_type audio audio = true
same_type video video = true
same_type _ _ = false

-- `allo_media_track`; `subsystem` is the index of the one that took it.
pub record Track : Type 0 where
  pub track_id : ℕ
  pub type : TrackType
  pub subsystem : Option ℕ

-- The fields of a "live_media" component that are read. A "track_id" that is no number still has a
-- `valueint`.
pub data TrackId : Type 0 where
  absent : TrackId
  not_a_number number : ℕ → TrackId

pub record LiveMedia : Type 0 where
  pub track_id : TrackId
  pub type : Option String

-- `_media_track_find`.
unfoldable pub find : ℕ → List Track → Option Track
find n [] = none
find n (t ∷ ts) = if t.track_id == n then some t else find n ts

-- The loop of `_media_track_destroy`, for the track that `_media_track_find` gives.
unfoldable pub destroy : ℕ → List Track → List Track
destroy n [] = []
destroy n (t ∷ ts) = if t.track_id == n then ts else t ∷ destroy n ts

-- `_media_track_create`, by the subsystem that `initialize` names.
abbrev pub new_track : ℕ → TrackType → Option ℕ → Track
new_track n type subsystem = record { track_id = n; type = type; subsystem = subsystem }

-- `_media_track_type_from_string`.
unfoldable pub type_from_string : Option String → TrackType
type_from_string none = invalid
type_from_string (some s) =
    if str_eq "video" s then video else if str_eq "audio" s then audio else invalid

-- A component of a state difference, `allo_component_ref`.
pub record ComponentRef : Type 0 where
  pub name : String
  pub olddata : Option LiveMedia
  pub newdata : Option LiveMedia

pub record StateDiff : Type 0 where
  pub new_components : List ComponentRef
  pub updated_components : List ComponentRef
  pub deleted_components : List ComponentRef

abbrev pub is_live_media : ComponentRef → Bool
is_live_media r = str_eq r.name "live_media"

-- `_alloclient_media_remove_track_from_comp`, with `_alloclient_media_track_destroy`.
unfoldable pub remove_from_comp : Option LiveMedia → List Track → List Track
unfolding destroy
remove_from_comp none ts = ts
remove_from_comp (some m) ts = elim m.track_id [
  | absent ↦ ts
  | not_a_number n ↦ destroy n ts
  | number n ↦ destroy n ts
]

-- `initialize` says which of the subsystems takes a track, the first whose `track_initialize` does.
module _ (initialize : ℕ → TrackType → LiveMedia → Option ℕ) where
  -- `_alloclient_media_track_find_or_create`.
  unfoldable pub find_or_create : ℕ → TrackType → LiveMedia → List Track → Outcome (List Track)
  unfolding find destroy
  find_or_create n type comp ts = elim (find n ts) [
    | some t ↦ assert (same_type t.type type) >> ok ts
    | none ↦ elim (initialize n type comp) [
      | some subsystem ↦ ok (ts ++ (new_track n type (some subsystem) ∷ []))
      | none ↦ ok (destroy n (ts ++ (new_track n type none ∷ [])))
    ]
  ]

  -- `_alloclient_media_add_track_from_comp`.
  unfoldable pub add_from_comp : Option LiveMedia → List Track → Outcome (List Track)
  unfolding find_or_create type_from_string
  add_from_comp none ts = ok ts
  add_from_comp (some m) ts =
      if same_type (type_from_string m.type) invalid then ok ts else elim m.track_id [
        | absent ↦ ok ts
        | not_a_number n ↦ ok ts
        | number n ↦ find_or_create n (type_from_string m.type) m ts
      ]

  -- The three loops of `_alloclient_media_handle_statediff`.
  unfoldable pub add_all : List ComponentRef → List Track → Outcome (List Track)
  unfolding add_from_comp
  add_all [] ts = ok ts
  add_all (r ∷ rs) ts =
      (if is_live_media r then add_from_comp r.newdata ts else ok ts) >>= add_all rs

  unfoldable pub update_all : List ComponentRef → List Track → Outcome (List Track)
  unfolding add_from_comp remove_from_comp
  update_all [] ts = ok ts
  update_all (r ∷ rs) ts =
      (if is_live_media r then add_from_comp r.newdata (remove_from_comp r.olddata ts) else ok ts)
      >>= update_all rs

  unfoldable pub remove_all : List ComponentRef → List Track → List Track
  unfolding remove_from_comp
  remove_all [] ts = ts
  remove_all (r ∷ rs) ts =
      remove_all rs (if is_live_media r then remove_from_comp r.olddata ts else ts)

  unfoldable pub handle_statediff : StateDiff → List Track → Outcome (List Track)
  unfolding add_all update_all remove_all
  handle_statediff diff ts = do
    added ← add_all diff.new_components ts
    updated ← update_all diff.updated_components added
    ok (remove_all diff.deleted_components updated)
