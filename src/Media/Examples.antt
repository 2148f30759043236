-- ===== src/Media/Examples.antt =====
-- Media tracks at concrete values: tests, and the theorems where their hypotheses hold.
use allonet.Common.{ℕ, ◌≡◌, refl, [], ◌∷◌, Option, some, none, String}
use allonet.Common.Outcome.{ok, assertion_failed}
use allonet.Media.{
  TrackType, audio, video, invalid, LiveMedia, number, ComponentRef, StateDiff, new_track,
  handle_statediff,
}
use allonet.Media.Tracks.{AreTracks, handle_statediff-AreTracks}

-- One subsystem, which takes audio.
abbrev takes_audio : ℕ → TrackType → LiveMedia → Option ℕ
takes_audio n audio m = some 0
takes_audio n video m = none
takes_audio n invalid m = none

abbrev comp : ℕ → String → LiveMedia
comp n type = record { track_id = number n; type = some type }

abbrev appears : LiveMedia → ComponentRef
appears m = record { name = "live_media"; olddata = none; newdata = some m }

abbrev goes : LiveMedia → ComponentRef
goes m = record { name = "live_media"; olddata = some m; newdata = none }

abbrev diff : StateDiff
diff = record {
  new_components =
      appears (comp 1 "audio") ∷ appears (comp 2 "audio") ∷ appears (comp 3 "video") ∷ [];
  updated_components = [];
  deleted_components = goes (comp 1 "audio") ∷ [];
}

handles : handle_statediff takes_audio diff [] ≡ ok (new_track 2 audio (some 0) ∷ [])
unfolding handle_statediff
handles = refl

changed_type :
    handle_statediff takes_audio
      (record diff { new_components = appears (comp 1 "audio") ∷ appears (comp 1 "video") ∷ [] })
      []
    ≡ assertion_failed
unfolding handle_statediff
changed_type = refl

handle_statediff-AreTracks_example : AreTracks (new_track 2 audio (some 0) ∷ [])
handle_statediff-AreTracks_example =
    handle_statediff-AreTracks takes_audio diff [] (new_track 2 audio (some 0) ∷ []) tt handles
