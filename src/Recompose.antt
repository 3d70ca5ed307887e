-- ===== src/Recompose.antt =====
-- compose/recompose.go: a compose file as it will be run.
pub mod Confined
pub mod Validated
pub mod Config
pub mod Lost
pub mod Runnable
use Prim.Native.String
use batch_scheduler.Base.{
  ℕ, String, Bool, true, false, Option, none, some, List, [], ◌∷◌, if◌then◌else◌, not,
}
use batch_scheduler.Base.Outcome.{Result, ok, err}
use batch_scheduler.Base.Texts.{split}
use batch_scheduler.Base.Dict.{Dict}
use batch_scheduler.Base.Dict
use batch_scheduler.Compose.{
  Compose, Service, Field, items, texts, labels, other, Callback, keeps, fails, panics,
  walk_services, left, inject_cache_volume,
}
use batch_scheduler.Validator.{cast_volumes}
use text.Mathlib.Text.{◌==◌, starts_with}

-- What a patcher answers; it may panic.
pub data Patched : Type 0 where
  patched : String → Patched
  refused : Patched
  panicked : Patched

abbrev pub VolumePatcher : Type 0
VolumePatcher = String → Patched

-- `src[2:]`, for a text that starts with two characters of one byte.
abbrev pub drop_two : String → String
drop_two (String.◌∷◌ a (String.◌∷◌ b s)) = s
drop_two s = ""

-- The third part of a volume.
abbrev pub mode_of : List String → String
mode_of (src ∷ dest ∷ mode ∷ []) = String.◌++◌ ":" mode
mode_of _ = ""

-- The volume with its source moved under the target; without a second part the code panics.
abbrev pub moved : String → List String → Patched
moved target (src ∷ dest ∷ rest) = patched (
    String.◌++◌ target (
      String.◌++◌ "/" (
        String.◌++◌ (drop_two src)
          (String.◌++◌ ":" (String.◌++◌ dest (mode_of (src ∷ dest ∷ rest)))))))
moved target _ = panicked

-- The first part of a volume; a split is never empty.
abbrev pub source_of : List String → String
source_of [] = ""
source_of (src ∷ _) = src

-- The patcher that `PatchVolumeInVolumes` makes.
unfoldable pub patch_volume : String → VolumePatcher
patch_volume target volume =
    let slugs = split b':' volume in
    if not (starts_with (source_of slugs) "./")
    then refused
    else if not (starts_with (source_of slugs) (String.◌++◌ target "/"))
    then moved target slugs
    else patched (source_of slugs)

-- `PatchVolumeInVolumes`
unfoldable pub patch_volume_in_volumes : String → Option VolumePatcher
patch_volume_in_volumes target =
    if starts_with target "./" then some (patch_volume target) else none

-- The loop over the patchers for one volume.
unfoldable pub patch_all : List VolumePatcher → String → Patched
patch_all [] volume = patched volume
patch_all (p ∷ ps) volume = elim (p volume) [
  | patched v ↦ patch_all ps v
  | refused ↦ refused
  | panicked ↦ panicked
]

-- The loop over the volumes of a service.
pub data PatchedList : Type 0 where
  all_patched : List String → PatchedList
  one_refused : PatchedList
  one_panicked : PatchedList

abbrev pub first_patched : Patched → PatchedList → PatchedList
first_patched (patched v) (all_patched vs) = all_patched (v ∷ vs)
first_patched (patched v) one_refused = one_refused
first_patched (patched v) one_panicked = one_panicked
first_patched refused rest = one_refused
first_patched panicked rest = one_panicked

unfoldable pub patch_volumes : List VolumePatcher → List String → PatchedList
patch_volumes ps [] = all_patched []
patch_volumes ps (volume ∷ volumes) = first_patched (patch_all ps volume) (patch_volumes ps volumes)

-- The second half of the callback: the label of the service.
abbrev pub label_field : String → Option Field → Service → Callback
label_field name none s = keeps (Dict.insert "labels" (labels (("batch", name) ∷ [])) s)
label_field name (some (labels pairs)) s =
    keeps (Dict.insert "labels" (labels (Dict.insert "batch" name pairs)) s)
label_field name (some (items vs)) s = fails s
label_field name (some (texts vs)) s = fails s
label_field name (some other) s = fails s

abbrev pub label : String → Service → Callback
label name s = label_field name (Dict.lookup "labels" s) s

-- The callback after the patches of its volumes.
abbrev pub with_volumes : String → PatchedList → Service → Callback
with_volumes name (all_patched vs) s = label name (Dict.insert "volumes" (texts vs) s)
with_volumes name one_refused s = fails s
with_volumes name one_panicked s = panics

abbrev pub with_field : List VolumePatcher → String → Option Field → Service → Callback
with_field ps name none s = label name s
with_field ps name (some field) s = elim (cast_volumes field) [
  | none ↦ fails s
  | some volumes ↦ with_volumes name (patch_volumes ps volumes) s
]

-- The callback of `Recompose` for one service.
unfoldable pub patch_service : List VolumePatcher → String → Service → Callback
patch_service ps name s = with_field ps name (Dict.lookup "volumes" s) s

-- The order in which a range over the services visits them, given the order of another range.
abbrev pub Range : Type 0
Range = Dict (Option Service) → Dict (Option Service)

-- `Recompose`, with the network that `networks.New` gives. The copies of the maps that it starts
-- from keep the caller's file as it was; the file that it makes has no volumes on the top level. The
-- cache volume is injected by a second range over the services, in the order that `again` gives.
-- `none` is a panic, `ok` a file, `err` the error of `New`.
unfoldable pub recompose :
    {E : Type 0}
    → Range
    → List VolumePatcher
    → Result E String
    → Compose
    → Option (Result E Compose)
recompose again ps (err e) c = some (err e)
recompose again ps (ok network) c = elim (left (walk_services (patch_service ps) c.services)) [
  | none ↦ none
  | some services ↦
      elim (inject_cache_volume
        (record c { network = some network; volumes = []; services = again services })) [
          | none ↦ none
          | some prod ↦ some (ok prod)
        ]
]
