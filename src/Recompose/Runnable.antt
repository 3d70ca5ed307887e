-- ===== src/Recompose/Runnable.antt =====
-- compose/recompose.go: a file whose services are all well formed goes through `Recompose`.
use batch_scheduler.Base.{
  String, Option, none, some, List, [], ◌∷◌, ◌≡◌, refl, ◌⊎◌, inl, inr, arith, All, All-map, ◌↔◌,
}
use batch_scheduler.Base.Outcome.{ok}
use batch_scheduler.Base.Dict.{Dict, lookup-insert}
use batch_scheduler.Base.Dict
use batch_scheduler.Compose.{
  Compose, Service, Field, items, texts, labels, other, keeps, default_cache_volume,
  set_cache_volume, inject, inject_into, inject_cache_volume,
}
use batch_scheduler.Compose.Cache.{
  Makes, IsService, walk_services-Makes, set_cache_volume-All, set_cache_volume-Mem,
}
use batch_scheduler.Recompose.{
  all_patched, patch_volume, patch_volumes, label_field, with_field, patch_service, recompose,
  Range,
}
use batch_scheduler.Recompose.Confined.{IsUnder}
use batch_scheduler.Validator.{cast_volumes}
use mathlib.Core.List.{Mem}

-- No volumes, or a list of texts that the patcher of the target takes and moves under the target.
abbrev pub IsPatchable : String → Option Field → Type 0
IsPatchable target none = Unit
IsPatchable target (some field) =
    (volumes vs : List String) × (cast_volumes field ≡ some volumes)
    × (patch_volumes (patch_volume target ∷ []) volumes ≡ all_patched vs)
    × All (IsUnder target) vs

-- No labels, or labels as the code makes them.
abbrev pub IsLabelMap : Option Field → Type 0
IsLabelMap none = Unit
IsLabelMap (some (labels pairs)) = Unit
IsLabelMap (some (items vs)) = ⊥
IsLabelMap (some (texts vs)) = ⊥
IsLabelMap (some other) = ⊥

abbrev pub IsReady : String → String → Service → Type 0
IsReady target name s =
    IsPatchable target (Dict.lookup "volumes" s) × IsLabelMap (Dict.lookup "labels" s)

-- No volumes, or volumes under the target.
abbrev IsPatched : String → Option Field → Type 0
IsPatched target none = Unit
IsPatched target (some (texts vs)) = All (IsUnder target) vs
IsPatched target (some (labels pairs)) = ⊥
IsPatched target (some (items vs)) = ⊥
IsPatched target (some other) = ⊥

abbrev pub IsLabelled : String → Option Field → Type 0
IsLabelled name (some (labels pairs)) = Dict.lookup "batch" pairs ≡ some name
IsLabelled name none = ⊥
IsLabelled name (some (items vs)) = ⊥
IsLabelled name (some (texts vs)) = ⊥
IsLabelled name (some other) = ⊥

abbrev IsHalfway : String → String → Service → Type 0
IsHalfway target name s =
    IsPatched target (Dict.lookup "volumes" s) × IsLabelled name (Dict.lookup "labels" s)

-- The cache volume, with volumes under the target.
abbrev pub IsConfined : String → Option Field → Type 0
IsConfined target (some (texts vs)) =
    Mem default_cache_volume vs × All (λ v. (v ≡ default_cache_volume) ⊎ IsUnder target v) vs
IsConfined target none = ⊥
IsConfined target (some (labels pairs)) = ⊥
IsConfined target (some (items vs)) = ⊥
IsConfined target (some other) = ⊥

abbrev pub IsRunnable : String → String → Service → Type 0
IsRunnable target name s =
    IsConfined target (Dict.lookup "volumes" s) × IsLabelled name (Dict.lookup "labels" s)

insert_labels-IsHalfway :
    (target name : String) (pairs : Dict String) (s : Service)
    → IsPatched target (Dict.lookup "volumes" s)
    → Dict.lookup "batch" pairs ≡ some name
    → IsHalfway target name (Dict.insert "labels" (labels pairs) s)
insert_labels-IsHalfway target name pairs s h named = (
  rw (lookup-insert "labels" "volumes" (labels pairs) s) h,
  rw (lookup-insert "labels" "labels" (labels pairs) s) named,
)

label_field-IsHalfway :
    (target name : String) (field : Option Field) (s : Service)
    → IsPatched target (Dict.lookup "volumes" s)
    → IsLabelMap field
    → (s' : Service) × (label_field name field s ≡ keeps s') × IsHalfway target name s'
unfolding Dict.lookup
label_field-IsHalfway target name none s h m =
    (_, refl, insert_labels-IsHalfway target name (("batch", name) ∷ []) s h refl)
label_field-IsHalfway target name (some (labels pairs)) s h m = (
  _,
  refl,
  insert_labels-IsHalfway target name (Dict.insert "batch" name pairs) s h
      (lookup-insert "batch" "batch" name pairs),
)
label_field-IsHalfway target name (some (items vs)) s h m = absurd m
label_field-IsHalfway target name (some (texts vs)) s h m = absurd m
label_field-IsHalfway target name (some other) s h m = absurd m

with_field-IsHalfway :
    (target name : String) (field : Option Field) (s : Service)
    → Dict.lookup "volumes" s ≡ field
    → IsPatchable target field
    → IsLabelMap (Dict.lookup "labels" s)
    → (s' : Service) × (with_field (patch_volume target ∷ []) name field s ≡ keeps s')
      × IsHalfway target name s'
with_field-IsHalfway target name none s there h m =
    label_field-IsHalfway target name (Dict.lookup "labels" s) s (rw there tt) m
with_field-IsHalfway target name (some field) s there (volumes, vs, cast, done, under) m =
    let s1 : Service = Dict.insert "volumes" (texts vs) s in
    let (s', kept, half) =
      label_field-IsHalfway target name (Dict.lookup "labels" s1) s1
        (rw (lookup-insert "volumes" "volumes" (texts vs) s) under)
        (rw (lookup-insert "volumes" "labels" (texts vs) s) m) in
    (s', ground (arith, cast, done, kept), half)

patch_service-Makes :
    (target : String)
    → Makes (patch_service (patch_volume target ∷ [])) (IsReady target) (IsHalfway target)
unfolding patch_service
patch_service-Makes target name s (h, m) =
    with_field-IsHalfway target name (Dict.lookup "volumes" s) s refl h m

confined :
    (target : String) (vs : List String)
    → All (IsUnder target) vs
    → IsConfined target (some (texts (set_cache_volume vs)))
confined target vs h = (
  set_cache_volume-Mem vs,
  set_cache_volume-All (λ v. (v ≡ default_cache_volume) ⊎ IsUnder target v) vs (inl refl)
      (All-map (IsUnder target) _ (λ v. inr) vs h),
)

insert_volumes-IsRunnable :
    (target name : String) (vs : List String) (s : Service)
    → All (IsUnder target) vs
    → IsLabelled name (Dict.lookup "labels" s)
    → IsRunnable target name (Dict.insert "volumes" (texts (set_cache_volume vs)) s)
insert_volumes-IsRunnable target name vs s h named = (
  rw (lookup-insert "volumes" "volumes" (texts (set_cache_volume vs)) s) (confined target vs h),
  rw (lookup-insert "volumes" "labels" (texts (set_cache_volume vs)) s) named,
)

inject_into-IsRunnable :
    (target name : String) (field : Option Field) (s : Service)
    → IsPatched target field
    → IsLabelled name (Dict.lookup "labels" s)
    → (s' : Service) × (inject_into field s ≡ keeps s') × IsRunnable target name s'
inject_into-IsRunnable target name none s h named =
    (_, refl, insert_volumes-IsRunnable target name [] s tt named)
inject_into-IsRunnable target name (some (texts vs)) s h named =
    (_, refl, insert_volumes-IsRunnable target name vs s h named)
inject_into-IsRunnable target name (some (labels pairs)) s h named = absurd h
inject_into-IsRunnable target name (some (items vs)) s h named = absurd h
inject_into-IsRunnable target name (some other) s h named = absurd h

inject-Makes : (target : String) → Makes inject (IsHalfway target) (IsRunnable target)
unfolding inject
inject-Makes target name s (h, named) =
    inject_into-IsRunnable target name (Dict.lookup "volumes" s) s h named

-- Two ranges over the services visit the same entries: what holds of every entry in the one order
-- holds of every entry in the other.
abbrev pub IsRange : Range → Type 1
IsRange again =
    (P : String × Option Service → Type 0) (services : Dict (Option Service))
    → All P services ↔ All P (again services)

-- Where each service of a file (the extensions `x-` apart) is a map whose volumes are absent or a
-- list that the patcher takes and moves under the target, and whose labels are absent or a map of
-- texts, `Recompose` with this patcher gives a file on the network, with the same version, in which
-- each service has the cache volume, has no other volume outside the target, and is labelled with its
-- name.
pub recompose-IsRunnable :
    {E : Type 0} (again : Range)
    → IsRange again
    → (target network : String) (c : Compose) → All (IsService (IsReady target)) c.services
    → (prod : Compose) × (recompose {E = E} again (patch_volume target ∷ []) (ok network) c
        ≡ some (ok prod))
      × (prod.network ≡ some network)
      × (prod.version ≡ c.version)
      × All (IsService (IsRunnable target)) prod.services
unfolding recompose inject_cache_volume
recompose-IsRunnable again ranges target network c h =
    let (halfway, patched_all, hs) =
      walk_services-Makes _ (IsReady target) (IsHalfway target) (patch_service-Makes target)
        c.services h in
    let (services, injected, runnable) =
      walk_services-Makes _ (IsHalfway target) (IsRunnable target) (inject-Makes target)
        (again halfway) ((ranges (IsService (IsHalfway target)) halfway).0 hs) in
    (
      record c { network = some network; volumes = []; services = services },
      ground (arith, patched_all, injected),
      refl,
      refl,
      runnable,
    )
