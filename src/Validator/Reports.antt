-- ===== src/Validator/Reports.antt =====
-- What the report of `Validate` says of a compose file.
use batch_scheduler.Base.{
  String, true, false, Option, none, some, List, [], ◌∷◌, ◌++◌, ◌≡◌, refl, arith, All, Bool-cases,
  Option-cases, inl, inr,
}
use batch_scheduler.Base.Dict.{Dict}
use batch_scheduler.Base.Dict
use batch_scheduler.Compose.{Service}
use batch_scheduler.Validator.{
  ComposeValidator, check_service, check_bad_config, check_service_validators, validate,
}
use text.Mathlib.Text.{starts_with}

pub append-nil_both : {A : Type 0} (xs ys : List A) → (xs ++ ys) ≡ [] → (xs ≡ []) × (ys ≡ [])
append-nil_both [] ys e = (refl, e)
append-nil_both (x ∷ xs) ys e = cc e

-- A service has none of the names.
abbrev pub HasNone : List String → Service → Type 0
HasNone bads service = All (λ bad. Dict.lookup bad service ≡ none) bads

check_bad_config-nil :
    (bads : List String) (service : Service)
    → check_bad_config bads service ≡ []
    → HasNone bads service
unfolding check_bad_config
check_bad_config-nil [] service e = tt
check_bad_config-nil (bad ∷ bads) service e = elim (Option-cases (Dict.lookup bad service)) [
  | inl absent ↦ (absent, check_bad_config-nil bads service (ground (arith, absent, e)))
  | inr (f, there) ↦ absurd (ground (arith, there, e))
]

-- A service that is looked at to its end: it is a map, and its volumes are well formed.
abbrev pub IsReadThrough : ComposeValidator → String × Option Service → Type 0
IsReadThrough cv (name, none) = starts_with name "x-" ≡ true
IsReadThrough cv (name, some s) = (check_service cv s).1 ≡ false

-- An extension, or a service with none of the names.
abbrev pub IsAllowed : ComposeValidator → String × Option Service → Type 0
IsAllowed cv (name, none) = starts_with name "x-" ≡ true
IsAllowed cv (name, some s) = starts_with name "x-" ≡ false → HasNone cv.bad_config s

check_service-nil :
    (cv : ComposeValidator) (s : Service)
    → (check_service cv s).0 ≡ []
    → check_bad_config cv.bad_config s ≡ []
unfolding check_service
check_service-nil cv s e =
    let (first, _) =
      append-nil_both
        (check_service_validators cv.service_validators s ++ check_bad_config cv.bad_config s) _
        e in
    (append-nil_both (check_service_validators cv.service_validators s) _ first).1

-- Where each service of a file is a map (or an extension) with well-formed volumes and `Validate` reports nothing, no
-- service has a field whose name is not available; extensions (`x-`) are not looked at.
pub validate-IsAllowed :
    (cv : ComposeValidator) (services : Dict (Option Service))
    → All (IsReadThrough cv) services
    → validate cv services ≡ []
    → All (IsAllowed cv) services
unfolding validate
validate-IsAllowed cv [] h e = tt
validate-IsAllowed cv ((name, none) ∷ services) (h, hs) e =
    (h, validate-IsAllowed cv services hs (ground (arith, h, e)))
validate-IsAllowed cv ((name, some s) ∷ services) (h, hs) e =
    elim (Bool-cases (starts_with name "x-")) [
      | inl extension ↦ (
        (λ plain. cc (extension, plain)),
        validate-IsAllowed cv services hs (ground (arith, extension, e)),
      )
      | inr plain ↦
          let split_up : ((check_service cv s).0 ++ validate cv services) ≡ [] =
            ground (arith, plain, h, e) in
          let (here, rest) =
            append-nil_both (check_service cv s).0 (validate cv services) split_up in
          (
            (λ _. check_bad_config-nil cv.bad_config s (check_service-nil cv s here)),
            validate-IsAllowed cv services hs rest,
          )
    ]

-- A service at which the walk ends (its volumes are not a list of texts, or one of them has no
-- destination or too many parts) hides all later ones: whatever stands before it, the report is the
-- same as if the file ended with it.
pub validate_stops :
    (cv : ComposeValidator) (earlier later : Dict (Option Service)) (name : String) (s : Service)
    → starts_with name "x-" ≡ false
    → (check_service cv s).1 ≡ true
    → validate cv (earlier ++ (name, some s) ∷ later) ≡ validate cv (earlier ++ (name, some s) ∷ [])
unfolding validate
validate_stops cv [] later name s plain stops = ground (arith, plain, stops)
validate_stops cv ((k, none) ∷ earlier) later name s plain stops =
    ground (arith, validate_stops cv earlier later name s plain stops)
validate_stops cv ((k, some t) ∷ earlier) later name s plain stops =
    ground (arith, validate_stops cv earlier later name s plain stops)
