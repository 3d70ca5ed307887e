-- ===== src/Recompose/Validated.antt =====
-- compose/validator.go and compose/recompose.go together: what `Validate` accepts, `Recompose` takes.
use batch_scheduler.Base.{
  String, Bool, true, false, Option, none, some, List, [], ◌∷◌, ◌++◌, ◌≡◌, refl, ap, ◌∙◌, arith,
  All, Bool-cases, Option-cases, inl, inr,
}
use batch_scheduler.Base.Outcome.{ok}
use batch_scheduler.Base.Texts.{split}
use batch_scheduler.Base.Dict.{Dict}
use batch_scheduler.Base.Dict
use batch_scheduler.Compose.{Compose, Service, Field, Setting}
use batch_scheduler.Compose.Cache.{IsService}
use batch_scheduler.Recompose.{patched, all_patched, patch_volume, patch_volumes, recompose, Range}
use batch_scheduler.Recompose.Confined.{patch_all-only, patch_volume-IsUnder, IsUnder}
use batch_scheduler.Recompose.Runnable.{
  IsPatchable, IsLabelMap, IsReady, IsRunnable, IsRange, recompose-IsRunnable,
}
use batch_scheduler.Validator.{
  has_dot_dot, ComposeValidator, VolumeValidator, check_slugs, check_parts, check_volumes,
  cast_volumes, check_field, check_service, validate, validate_volume_inplace, validate_no_dot_dot,
  check_service_validators, check_bad_config,
}
use batch_scheduler.Validator.Sources.{HasKey, new_compose_validator-Catches}
use batch_scheduler.Validator.Config.{new_compose_validator}
use Prim.Native.Char.{Char}
use batch_scheduler.Validator.Reports.{IsReadThrough, append-nil_both}
use mathlib.Core.Option.{some-injective}
use text.Mathlib.Text.{starts_with}

-- What the volume validators let through stands under the working directory, and has no part that
-- starts with `..`.
abbrev pub IsStrict : List VolumeValidator → Type 0
IsStrict vs =
    (src dest : String) (ro : Bool)
    → check_slugs vs src dest ro ≡ []
    → (starts_with src "./" ≡ true) × (has_dot_dot (split b'/' src) ≡ false)

-- The parts of a volume: a source under the working directory, and a destination.
abbrev IsRelative : List String → Type 0
IsRelative slugs =
    (src dest : String) × (rest : List String) × (slugs ≡ src ∷ dest ∷ rest)
    × (starts_with src "./" ≡ true)
    × (has_dot_dot (split b'/' src) ≡ false)

module _ (vs : List VolumeValidator) (strict : IsStrict vs) where
  check_parts-IsRelative : (slugs : List String) → check_parts vs slugs ≡ some [] → IsRelative slugs
  check_parts-IsRelative [] e = absurd (ground (arith, e))
  check_parts-IsRelative (src ∷ []) e = absurd (ground (arith, e))
  check_parts-IsRelative (src ∷ dest ∷ []) e =
      let (relative, clean) = strict src dest false (some-injective _ _ e) in
      (src, dest, [], refl, relative, clean)
  check_parts-IsRelative (src ∷ dest ∷ mode ∷ []) e =
      let (relative, clean) = strict src dest _ (some-injective _ _ e) in
      (src, dest, mode ∷ [], refl, relative, clean)
  check_parts-IsRelative (src ∷ dest ∷ mode ∷ more ∷ rest) e = absurd (ground (arith, e))

  -- A volume that is accepted is patched, and then stands under the target.
  patch_volume-patched :
      (target volume : String)
      → check_parts vs (split b':' volume) ≡ some []
      → (v : String) × (patch_volume target volume ≡ patched v) × IsUnder target v
  patch_volume-patched target volume e =
      let (src, dest, rest, cut, relative, clean) = check_parts-IsRelative (split b':' volume) e in
      patch_volume-IsUnder target volume src dest rest cut relative clean

  check_volumes-patched :
      (target : String) (volumes : List String)
      → (check_volumes vs volumes).0 ≡ []
      → (check_volumes vs volumes).1 ≡ false
      → (us : List String) × (patch_volumes (patch_volume target ∷ []) volumes ≡ all_patched us)
        × All (IsUnder target) us
  unfolding check_volumes patch_volumes
  check_volumes-patched target [] e f = ([], refl, tt)
  check_volumes-patched target (volume ∷ volumes) e f =
      elim (Option-cases (check_parts vs (split b':' volume))) [
        | inl bad ↦ absurd (ground (arith, bad, f))
        | inr (found, parts) ↦
            let (clean, rest) =
              append-nil_both found (check_volumes vs volumes).0 (ground (arith, parts, e)) in
            let (v, here, under) = patch_volume-patched target volume (parts ∙ ap some clean) in
            let (us, there, all) =
              check_volumes-patched target volumes rest (ground (arith, parts, f)) in
            (
              v ∷ us,
              rw (patch_all-only (patch_volume target) volume, here, there) refl,
              (under, all),
            )
      ]

  check_field-IsPatchable :
      (target : String) (field : Option Field)
      → (check_field vs field).0 ≡ []
      → (check_field vs field).1 ≡ false
      → IsPatchable target field
  check_field-IsPatchable target none e f = tt
  check_field-IsPatchable target (some field) e f = elim (Option-cases (cast_volumes field)) [
    | inl bad ↦ absurd (ground (arith, bad, f))
    | inr (volumes, cast) ↦
        let (us, done, all) =
          check_volumes-patched target volumes (ground (arith, cast, e))
            (ground (arith, cast, f)) in
        (volumes, us, cast, done, all)
  ]

check_service-IsPatchable :
    (target : String) (cv : ComposeValidator) (s : Service)
    → IsStrict cv.volume_validators
    → (check_service cv s).0 ≡ []
    → (check_service cv s).1 ≡ false
    → IsPatchable target (Dict.lookup "volumes" s)
unfolding check_service
check_service-IsPatchable target cv s strict e f =
    let found : List _ = (check_field cv.volume_validators (Dict.lookup "volumes" s)).0 in
    let (_, clean) =
      append-nil_both
        (check_service_validators cv.service_validators s ++ check_bad_config cv.bad_config s) found
        e in
    check_field-IsPatchable cv.volume_validators strict target (Dict.lookup "volumes" s) clean f

-- An extension, or a service whose labels are absent or a map of texts.
abbrev pub HasLabelMap : String → Service → Type 0
HasLabelMap name s = IsLabelMap (Dict.lookup "labels" s)

validate-IsReady :
    (target : String) (cv : ComposeValidator) (services : Dict (Option Service))
    → IsStrict cv.volume_validators
    → All (IsReadThrough cv) services
    → All (IsService HasLabelMap) services
    → validate cv services ≡ []
    → All (IsService (IsReady target)) services
unfolding validate
validate-IsReady target cv [] strict h l e = tt
validate-IsReady target cv ((name, none) ∷ services) strict (h, hs) (_, l) e =
    (h, validate-IsReady target cv services strict hs l (ground (arith, h, e)))
validate-IsReady target cv ((name, some s) ∷ services) strict (h, hs) (labels, l) e =
    elim (Bool-cases (starts_with name "x-")) [
      | inl extension ↦ (
        (λ plain. absurd (ground (arith, extension, plain))),
        validate-IsReady target cv services strict hs l (ground (arith, extension, e)),
      )
      | inr plain ↦
          let split_up : ((check_service cv s).0 ++ validate cv services) ≡ [] =
            ground (arith, plain, h, e) in
          let (here, rest) =
            append-nil_both (check_service cv s).0 (validate cv services) split_up in
          (
            (λ p. (check_service-IsPatchable target cv s strict here h, labels p)),
            validate-IsReady target cv services strict hs l rest,
          )
    ]

new_compose_validator-IsStrict :
    (to_upper : Char → Char) (bads : Dict String) (cfg : Dict Setting) (cv : ComposeValidator)
    → HasKey "VolumeInplace" cfg
    → HasKey "NoDotDot" cfg
    → new_compose_validator to_upper bads cfg ≡ ok cv
    → IsStrict cv.volume_validators
unfolding validate_volume_inplace validate_no_dot_dot
new_compose_validator-IsStrict to_upper bads cfg cv inplace dots made src dest ro e =
    let (catches, catches_dots) =
      new_compose_validator-Catches to_upper bads cfg cv inplace dots made in
    let here = catches src dest ro e in
    let there = catches_dots src dest ro e in
    (
      elim (Bool-cases (starts_with src "./")) [
        | inl relative ↦ relative
        | inr outside ↦ absurd (ground (arith, outside, here))
      ],
      elim (Bool-cases (has_dot_dot (split b'/' src))) [
        | inr clean ↦ clean
        | inl found ↦ absurd (ground (arith, found, there))
      ],
    )

-- Where a map of configuration has the keys of the two validators of sources, in whatever order it is
-- visited, and a validator is made from it that reports nothing for a file each of whose services
-- (the extensions `x-` apart) is a map with well-formed volumes, and whose labels are absent or a map
-- of texts, `Recompose` with the patcher of the target gives, in whatever order its second range
-- visits the services, a file on the network in which each service has the cache volume, is
-- labelled with its name, and has no other volume but those whose source is a path under the target
-- without a part that starts with `..`.
pub validated-IsRunnable :
    {E : Type 0} (to_upper : Char → Char) (bads : Dict String) (cfg : Dict Setting)
    (cv : ComposeValidator) (again : Range) (target network_name : String) (c : Compose)
    → HasKey "VolumeInplace" cfg
    → HasKey "NoDotDot" cfg
    → new_compose_validator to_upper bads cfg ≡ ok cv
    → IsRange again
    → All (IsReadThrough cv) c.services
    → All (IsService HasLabelMap) c.services
    → validate cv c.services ≡ []
    → (prod : Compose) × (recompose {E = E} again (patch_volume target ∷ []) (ok network_name) c
        ≡ some (ok prod))
      × (prod.network ≡ some network_name)
      × (prod.version ≡ c.version)
      × All (IsService (IsRunnable target)) prod.services
validated-IsRunnable to_upper bads cfg cv again target network_name c inplace dots made ranges h l
      e =
    recompose-IsRunnable again ranges target network_name c (
      validate-IsReady target cv c.services
        (new_compose_validator-IsStrict to_upper bads cfg cv inplace dots made) h l e)
