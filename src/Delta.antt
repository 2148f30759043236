-- ===== src/Delta.antt =====
-- The history of world states and the deltas between them, src/delta.c. What `allo_delta_apply`
-- reports of the difference to a handler is left out: `diff` is NULL here.
pub mod Window
pub mod Cache
pub mod RoundTrip
mod Examples
use text.Mathlib.Text.{◌==◌ as str_eq}
use allonet.Common.{
  ℕ, suc, ◌+◌, ◌%◌, Option, some, none, Bool, true, false, not, ◌&&◌, ◌||◌, String, ◌==◌,
  if◌then◌else◌,
}
use allonet.Common.Int.{ℤ, pos, negsuc, same_int}
use allonet.Common.Outcome.{Outcome, ok, wild, assert, asserted, ◌>>=◌, ◌>>◌}

-- What is asked of cJSON and cJSON_Utils, of a document without its patch fields: its "revision"
-- as an `int64_t`, `cJSONUtils_GenerateMergePatchCaseSensitive(from, to)`, which may be NULL, and
-- `cJSONUtils_MergePatchCaseSensitive`.
pub record Documents (Doc : Type 0) : Type 0 where
  pub revision : Doc → Option ℤ
  pub generate : Doc → Doc → Option Doc
  pub merge : Doc → Doc → Doc

-- allo_statehistory_length
abbrev pub history_length : ℕ
history_length = 64

-- `statehistory_t`, the array as a function.
pub record History (Doc : Type 0) : Type 0 where
  pub slots : ℕ → Option Doc
  pub latest_revision : ℤ

abbrev pub put : {A : Type 0} → ℕ → A → (ℕ → Option A) → ℕ → Option A
put i a f j = if j == i then some a else f j

-- `revision % allo_statehistory_length` as an index. The remainder of a negative number is negative,
-- or 0.
unfoldable pub slot : ℤ → Outcome ℕ
slot (pos n) = ok (n % history_length)
slot (negsuc n) = if suc n % history_length == 0 then ok 0 else wild

-- A delta as it is sent: "patch_style", "patch_from", and the document without them.
pub record Delta (Doc : Type 0) : Type 0 where
  pub patch_style : Option String
  pub patch_from : Option ℤ
  pub body : Doc

-- `struct diffcache_t`, an entry that has a `json`.
pub record Entry (Doc : Type 0) : Type 0 where
  pub from : ℤ
  pub to : ℤ
  pub json : Delta Doc

abbrev pub Diffcache : Type 0 → Type 0
Diffcache Doc = ℕ → Option (Entry Doc)

-- `cjson_get_int64_value`, 0 for NULL.
abbrev pub int64_value : Option ℤ → ℤ
int64_value none = pos 0
int64_value (some n) = n

-- `statehistory_get`.
unfoldable pub get : {Doc : Type 0} → History Doc → ℤ → Outcome (Option Doc)
unfolding slot
get h revision = do i ← slot revision; ok (h.slots i)

module _ {Doc : Type 0} (d : Documents Doc) where
  open d use {revision, generate, merge}

  abbrev pub revision_of : Option Doc → ℤ
  revision_of none = pos 0
  revision_of (some doc) = int64_value (revision doc)

  -- `allo_delta_insert`.
  unfoldable pub insert : History Doc → Doc → Outcome (History Doc)
  unfolding slot
  insert h doc = do
    rev ← asserted (revision doc)
    i ← slot rev
    ok (record { slots = put i doc h.slots; latest_revision = rev })

  abbrev pub set_delta : Doc → Delta Doc
  set_delta latest = record { patch_style = some "set"; patch_from = none; body = latest }

  abbrev pub merge_delta : ℤ → Doc → Delta Doc
  merge_delta from patch = record {
    patch_style = some "merge";
    patch_from = some from;
    body = patch;
  }

  -- The delta that `allo_delta_compute` makes where none is cached, by
  -- `allo_delta_compute_cjson` if the old revision is still there.
  unfoldable pub delta_for : Doc → Option Doc → ℤ → Outcome (Delta Doc)
  delta_for latest none old_revision = ok (set_delta latest)
  delta_for latest (some old) old_revision =
      if same_int (revision_of (some old)) old_revision
      then (asserted (generate old latest) >>= λ patch. ok (merge_delta old_revision patch))
      else ok (set_delta latest)

  abbrev pub is_hit : Option (Entry Doc) → ℤ → ℤ → Bool
  is_hit none from to = false
  is_hit (some e) from to = same_int e.to to && same_int e.from from

  unfoldable pub cached : Option (Entry Doc) → ℤ → ℤ → Option (Delta Doc)
  cached none from to = none
  cached (some e) from to = if is_hit (some e) from to then some e.json else none

  -- `allo_delta_compute` once it knows the latest state and the index of the old revision: the
  -- cached delta, or a new one, which is cached. The static `diffcache` is passed in and out.
  unfoldable pub cached_or_new :
      History Doc → Diffcache Doc → ℤ → Doc → ℕ → Outcome (Delta Doc × Diffcache Doc)
  unfolding cached delta_for
  cached_or_new h cache old_revision latest i =
      elim (cached (cache i) old_revision h.latest_revision) [
        | some json ↦ ok (json, cache)
        | none ↦ delta_for latest (h.slots i) old_revision >>= λ json. ok (
          json,
          put i (record { from = old_revision; to = h.latest_revision; json = json }) cache,
        )
      ]

  -- `allo_delta_compute`.
  unfoldable pub compute : History Doc → Diffcache Doc → ℤ → Outcome (Delta Doc × Diffcache Doc)
  unfolding get slot cached_or_new
  compute h cache old_revision = get h h.latest_revision >>= λ newest.
      asserted newest >>= λ latest. slot old_revision >>= cached_or_new h cache old_revision latest

  abbrev pub is_merge : String → Bool
  is_merge style = str_eq style "merge"

  abbrev pub is_set : Option ℤ → Bool
  is_set none = false
  is_set (some _) = true

  -- Can a delta with this "patch_from" be applied to the state that is there?
  abbrev pub applies : Option ℤ → Option Doc → Bool
  applies none current = true
  applies (some from) none = false
  applies (some from) (some doc) = same_int from (revision_of (some doc))

  unfoldable pub patched : String → Option Doc → Doc → Outcome Doc
  patched style (some current) body = ok (if is_merge style then merge current body else body)
  patched style none body = if is_merge style then wild else ok body

  -- `allo_delta_apply`; `none` is the NULL that it returns for a delta that is not from a state it
  -- has.
  unfoldable pub apply : History Doc → Delta Doc → Outcome (Option Doc × History Doc)
  unfolding get insert patched
  apply h delta = asserted delta.patch_style >>= λ style.
      assert (is_set delta.patch_from || not (is_merge style))
      >> (get h (int64_value delta.patch_from) >>= λ current.
          if applies delta.patch_from current
          then (patched style current delta.body >>= λ result.
              insert h result >>= λ h'. ok (some result, h'))
          else ok (none, h))
