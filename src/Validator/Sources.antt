-- ===== src/Validator/Sources.antt =====
-- compose/validator.go: what the validators of sources let through, in whatever order the
-- configuration is visited.
use Prim.Native.Char.{Char}
use batch_scheduler.Base.{
  String, Bool, Option, none, some, List, [], ◌∷◌, ◌++◌, ◌≡◌, refl, ap, sym, subst, ◌∙◌, ◌⊎◌, arith,
  Bool-cases, Option-cases, inl, inr,
}
use batch_scheduler.Base.Dict.{Dict}
use batch_scheduler.Base.Dict
use batch_scheduler.Base.Outcome.{Result, ok, err, Result-cases}
use batch_scheduler.Compose.{Setting, words, number, other}
use batch_scheduler.Validator.{
  ComposeValidator, VolumeValidator, check_slugs, validate_volume_inplace, validate_no_dot_dot,
}
use batch_scheduler.Validator.Config
use batch_scheduler.Validator.Config.{
  use_key, use_keys, new_compose_validator, use_volume_validator, use_depth, use_bad_config,
  without_no,
}
use text.Mathlib.Text.{◌==◌, starts_with}
use text.Mathlib.TextEquality.{eq_iff}

-- A map has a value for the key.
abbrev pub HasKey : String → Dict Setting → Type 0
HasKey k cfg = (v : Setting) × (Dict.lookup k cfg ≡ some v)

-- What no validator of the list reports, `v` does not report.
abbrev pub Catches : VolumeValidator → List VolumeValidator → Type 0
Catches v vs =
    (src dest : String) (ro : Bool) → check_slugs vs src dest ro ≡ [] → v src dest ro ≡ none

check_slugs-append :
    (vs : List VolumeValidator) (w : VolumeValidator) (src dest : String) (ro : Bool)
    → check_slugs (vs ++ w ∷ []) src dest ro ≡ []
    → (check_slugs vs src dest ro ≡ []) × (w src dest ro ≡ none)
unfolding check_slugs
check_slugs-append [] w src dest ro e = elim (Option-cases (w src dest ro)) [
  | inl fine ↦ (refl, fine)
  | inr (x, bad) ↦ absurd (ground (arith, bad, e))
]
check_slugs-append (v ∷ vs) w src dest ro e = elim (Option-cases (v src dest ro)) [
  | inl fine ↦
      let (rest, last) = check_slugs-append vs w src dest ro (rw fine at e) in (rw fine rest, last)
  | inr (x, bad) ↦ absurd (ground (arith, bad, e))
]

append-Catches :
    (v w : VolumeValidator) (vs : List VolumeValidator) → Catches v vs → Catches v (vs ++ w ∷ [])
append-Catches v w vs h src dest ro e = h src dest ro (check_slugs-append vs w src dest ro e).0

end-Catches : (v : VolumeValidator) (vs : List VolumeValidator) → Catches v (vs ++ v ∷ [])
end-Catches v vs src dest ro e = (check_slugs-append vs v src dest ro e).1

-- A key adds one validator of volumes, or none.
abbrev Grows : ComposeValidator → ComposeValidator → Type 0
Grows cv cv' =
    (cv'.volume_validators ≡ cv.volume_validators)
    ⊎ ((w : VolumeValidator) × (cv'.volume_validators ≡ cv.volume_validators ++ w ∷ []))

grown-Catches :
    (v : VolumeValidator) (cv cv' : ComposeValidator)
    → Grows cv cv'
    → Catches v cv.volume_validators
    → Catches v cv'.volume_validators
grown-Catches v cv cv' (inl same) h = subst (Catches v) (sym same) h
grown-Catches v cv cv' (inr (w, more)) h =
    subst (Catches v) (sym more) (append-Catches v w cv.volume_validators h)

volumes_of : Result Config.Error ComposeValidator → List VolumeValidator
volumes_of (ok cv) = cv.volume_validators
volumes_of (err e) = []

volumes_eq :
    {cv cv' : ComposeValidator}
    → ◌≡◌ {A = Result Config.Error ComposeValidator} (ok cv) (ok cv')
    → cv.volume_validators ≡ cv'.volume_validators
unfolding volumes_of
volumes_eq e = ap volumes_of e

ok-injective :
    {cv cv' : ComposeValidator}
    → ◌≡◌ {A = Result Config.Error ComposeValidator} (ok cv) (ok cv')
    → cv ≡ cv'
ok-injective e = cc e

use_depth-Grows :
    {cv' : ComposeValidator} (s : Setting) (cv : ComposeValidator)
    → use_depth s cv ≡ ok cv'
    → Grows cv cv'
use_depth-Grows (number deep) cv e = inr (_, sym (volumes_eq e))
use_depth-Grows (words s) cv e = cc e
use_depth-Grows other cv e = cc e

use_bad_config-Grows :
    {cv' : ComposeValidator} (k : String) (c : Option String) (cv : ComposeValidator)
    → use_bad_config k c cv ≡ ok cv'
    → Grows cv cv'
use_bad_config-Grows k none cv e = cc e
use_bad_config-Grows k (some c) cv e = inl (sym (volumes_eq e))

module _ (to_upper : Char → Char) (bad : Dict String) where
  use_key-Grows :
      {cv' : ComposeValidator} (k : String) (v : Setting) (cv : ComposeValidator)
      → use_key to_upper bad k v cv ≡ ok cv'
      → Grows cv cv'
  unfolding use_key
  use_key-Grows {cv'} k v cv e = elim (Bool-cases (k == "VolumeInplace")) [
    | inl a ↦ inr (_, sym (volumes_eq (rw a at e)))
    | inr a ↦ elim (Bool-cases (k == "NoDotDot")) [
      | inl b ↦ inr (_, sym (volumes_eq (rw (a, b) at e)))
      | inr b ↦ elim (Bool-cases (k == "NotAsDeep")) [
        | inl c ↦ use_depth-Grows v cv (rw (a, b, c) at e)
        | inr c ↦ elim (Bool-cases (starts_with k "No")) [
          | inl d ↦ use_bad_config-Grows k _ cv (rw (a, b, c, d) at e)
          | inr d ↦ absurd (cc (rw (a, b, c, d) at e))
        ]
      ]
    ]
  ]

  use_keys-Catches :
      (w : VolumeValidator) {cv' : ComposeValidator} (cfg : Dict Setting) (cv : ComposeValidator)
      → use_keys to_upper bad cfg cv ≡ ok cv'
      → Catches w cv.volume_validators
      → Catches w cv'.volume_validators
  unfolding use_keys
  use_keys-Catches w [] cv e h = subst (Catches w) (volumes_eq e) h
  use_keys-Catches w ((k, v) ∷ cfg) cv e h = elim (Result-cases (use_key to_upper bad k v cv)) [
    | inr (x, failed) ↦ absurd (cc (rw (failed, use_keys) at e))
    | inl (cv1, used) ↦
        use_keys-Catches w cfg cv1 (rw (used, use_keys) at e)
          (grown-Catches w cv cv1 (use_key-Grows k v cv used) h)
  ]

  -- The keys of the two validators of sources add them.
  abbrev Adds : String → VolumeValidator → Type 0
  Adds key w =
      (v : Setting) (cv : ComposeValidator)
      → use_key to_upper bad key v cv ≡ ok (use_volume_validator w cv)

  inplace-Adds : Adds "VolumeInplace" validate_volume_inplace
  unfolding use_key
  inplace-Adds v cv = refl

  dots-Adds : Adds "NoDotDot" validate_no_dot_dot
  unfolding use_key
  dots-Adds v cv = refl

  key-Catches :
      (key : String) (w : VolumeValidator)
      → Adds key w
      → {cv' : ComposeValidator} (cfg : Dict Setting) (cv : ComposeValidator) → HasKey key cfg
      → use_keys to_upper bad cfg cv ≡ ok cv'
      → Catches w cv'.volume_validators
  unfolding use_keys Dict.lookup
  key-Catches key w adds [] cv (v, there) e = cc there
  key-Catches key w adds ((k, v) ∷ cfg) cv (u, there) e =
      elim (Result-cases (use_key to_upper bad k v cv)) [
        | inr (x, failed) ↦ absurd (cc (rw (failed, use_keys) at e))
        | inl (cv1, used) ↦ elim (Bool-cases (k == key)) [
          | inr miss ↦
              key-Catches key w adds cfg cv1 (u, rw miss at there) (rw (used, use_keys) at e)
          | inl hit ↦
              let same : k ≡ key = (eq_iff k key).0 hit in
              let added : use_volume_validator w cv ≡ cv1 =
                ok-injective
                  (sym (adds v cv) ∙ ap (λ j. use_key to_upper bad j v cv) (sym same) ∙ used) in
              use_keys-Catches w cfg cv1 (rw (used, use_keys) at e) (
                subst (λ c. Catches w c.volume_validators) added
                  (end-Catches w cv.volume_validators))
        ]
      ]

-- A validator that is made from a map with both keys lets only such sources through as stand under the
-- working directory and have no part that starts with `..`.
pub new_compose_validator-Catches :
    (to_upper : Char → Char) (bad : Dict String) (cfg : Dict Setting) (cv : ComposeValidator)
    → HasKey "VolumeInplace" cfg
    → HasKey "NoDotDot" cfg
    → new_compose_validator to_upper bad cfg ≡ ok cv
    → Catches validate_volume_inplace cv.volume_validators
      × Catches validate_no_dot_dot cv.volume_validators
unfolding new_compose_validator
new_compose_validator-Catches to_upper bad cfg cv inplace dots made = (
  key-Catches to_upper bad "VolumeInplace" validate_volume_inplace (inplace-Adds to_upper bad) cfg _
      inplace made,
  key-Catches to_upper bad "NoDotDot" validate_no_dot_dot (dots-Adds to_upper bad) cfg _ dots made,
)
