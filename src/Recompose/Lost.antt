-- ===== src/Recompose/Lost.antt =====
-- compose/recompose.go: what a file loses when it is recomposed.
use Prim.Native.Char.{code, Char}
use Prim.Native.String
use batch_scheduler.Base.{
  ℕ, String, true, false, Option, none, some, List, [], ◌∷◌, ◌≡◌, refl, arith, Bool-cases, ap, sym,
  ◌∙◌, All, ◌≢◌, ◌⊎◌, inl, inr,
}
use batch_scheduler.Base
use batch_scheduler.Base.Outcome.{ok}
use batch_scheduler.Base.Texts.{split, push}
use batch_scheduler.Base.Dict.{Dict, lookup-insert}
use batch_scheduler.Base.Dict
use batch_scheduler.Compose.{
  Compose, Service, items, texts, other, inject_cache_volume, inject, walk_services, Walked,
  finished, stopped, panicked, before, left, keeps, fails, inject_into, Field, labels,
}
use batch_scheduler.Recompose.{
  patched, VolumePatcher, source_of, patch_volume, patch_service, recompose, Range,
}
use batch_scheduler.Recompose.Runnable.{IsRange}
use mathlib.Core.Option.{some-injective}
use batch_scheduler.Validator.{VolumeValidator, check_parts}
use text.Mathlib.Text.{◌==◌, starts_with}
use text.Mathlib.TextEquality.{eq_iff}

source_of-push : (c : Char) (ws : List String) → source_of (push c ws) ≡ String.◌∷◌ c (source_of ws)
source_of-push c [] = refl
source_of-push c (w ∷ ws) = refl

-- The first part of a text has no separator.
split_source :
    (sep : ℕ) (s : String) → split sep (source_of (split sep s)) ≡ source_of (split sep s) ∷ []
unfolding split
split_source sep String.[] = refl
split_source sep (String.◌∷◌ c s) = elim (Bool-cases (Base.◌==◌ (code c) sep)) [
  | inl there ↦ rw there refl
  | inr absent ↦ rw (absent, source_of-push c (split sep s), absent, split_source sep s) refl
]

-- A volume whose source already stands under the target loses its destination and its mode: what
-- is left of it is the source alone, which `Validate` would not take for a volume.
pub patch_volume-source :
    (vs : List VolumeValidator) (target volume : String)
    → starts_with (source_of (split b':' volume)) "./" ≡ true
    → starts_with (source_of (split b':' volume)) (String.◌++◌ target "/") ≡ true
    → (src : String) × (patch_volume target volume ≡ patched src)
      × (check_parts vs (split b':' src) ≡ none)
unfolding patch_volume
patch_volume-source vs target volume relative under =
    (source_of (split b':' volume), rw (relative, under) refl, rw (split_source b':' volume) refl)

left-before :
    {after : Dict (Option Service)} (entry : String × Option Service) (w : Walked)
    → left w ≡ some after
    → left (before entry w) ≡ some (entry ∷ after)
left-before entry (finished services) e = ap (λ l. some (entry ∷ l)) (some-injective _ _ e)
left-before entry (stopped services) e = ap (λ l. some (entry ∷ l)) (some-injective _ _ e)
left-before entry panicked e = cc e

-- The second range either gives a service its volumes as texts, or ends at it and leaves it.
inject-cases :
    (name : String) (s : Service)
    → ((s' : Service) × (inject name s ≡ keeps s')) ⊎ (inject name s ≡ fails s)
unfolding inject
inject-cases name s = injected (Dict.lookup "volumes" s)
  where
    injected :
        (field : Option Field)
        → ((s' : Service) × (inject_into field s ≡ keeps s')) ⊎ (inject_into field s ≡ fails s)
    injected none = inl (_, refl)
    injected (some (texts vs)) = inl (_, refl)
    injected (some (items vs)) = inr refl
    injected (some (labels pairs)) = inr refl
    injected (some other) = inr refl

module _ (next : String) (t : Service) where
  -- The name stands for the service.
  abbrev Stands : Dict (Option Service) → Type 0
  Stands ds = Dict.lookup next ds ≡ some (some t)

  kept :
      (k : String) (o o' : Option Service) (ds after : Dict (Option Service))
      → (k ≡ next → o ≡ some t → o' ≡ some t)
      → (Stands ds → Stands after)
      → Stands ((k, o) ∷ ds)
      → Stands ((k, o') ∷ after)
  unfolding Dict.lookup
  kept k o o' ds after same later e = elim (Bool-cases (k == next)) [
    | inl hit ↦
        let own : o ≡ some t = some-injective _ _ (rw hit at e) in
        rw hit (ap some (same ((eq_iff k next).0 hit) own))
    | inr miss ↦ rw miss (later (rw miss at e))
  ]

  -- The second range ends, and leaves the service as it is.
  walk_inject :
      inject next t ≡ fails t
      → (ds : Dict (Option Service))
      → (after : Dict (Option Service)) × (left (walk_services inject ds) ≡ some after)
        × (Stands ds → Stands after)
  unfolding walk_services
  walk_inject stops [] = ([], refl, λ e. e)
  walk_inject stops ((k, none) ∷ ds) =
      let (after, walked, later) = walk_inject stops ds in
      elim (Bool-cases (starts_with k "x-")) [
        | inl extension ↦ (
          (k, none) ∷ after,
          rw extension (left-before (k, none) (walk_services inject ds) walked),
          kept k none none ds after (λ _ e. e) later,
        )
        | inr plain ↦ ((k, none) ∷ ds, rw plain refl, λ e. e)
      ]
  walk_inject stops ((k, some s) ∷ ds) =
      let (after, walked, later) = walk_inject stops ds in
      elim (Bool-cases (starts_with k "x-")) [
        | inl extension ↦ (
          (k, some s) ∷ after,
          rw extension (left-before (k, some s) (walk_services inject ds) walked),
          kept k (some s) (some s) ds after (λ _ e. e) later,
        )
        | inr plain ↦ elim (inject-cases k s) [
          | inr ends ↦ ((k, some s) ∷ ds, rw (plain, ends) refl, λ e. e)
          | inl (s', goes) ↦ (
            (k, some s') ∷ after,
            rw (plain, goes) (left-before (k, some s') (walk_services inject ds) walked),
            kept k (some s) (some s') ds after
                (λ same own. absurd (
                  cc (
                    sym goes
                    ∙ ap (λ n. inject n s) same
                    ∙ ap (inject next) (some-injective _ _ own)
                    ∙ stops)))
                later,
          )
        ]
      ]

  -- No entry has the name.
  abbrev IsMissing : Dict (Option Service) → Type 0
  IsMissing = All (λ entry. entry.0 ≢ next)

  -- Each entry of the name is the service.
  abbrev IsOnly : String × Option Service → Type 0
  IsOnly (k, o) = k ≡ next → o ≡ some t

  Stands-ne-missing : (ds : Dict (Option Service)) → Stands ds → IsMissing ds → ⊥
  unfolding Dict.lookup
  Stands-ne-missing [] e h = cc e
  Stands-ne-missing ((k, o) ∷ ds) e h = elim (Bool-cases (k == next)) [
    | inl hit ↦ h.0 ((eq_iff k next).0 hit)
    | inr miss ↦ Stands-ne-missing ds (rw miss at e) h.1
  ]

  Stands-of_only : (ds : Dict (Option Service)) → All IsOnly ds → (IsMissing ds → ⊥) → Stands ds
  unfolding Dict.lookup
  Stands-of_only [] h there = absurd (there tt)
  Stands-of_only ((k, o) ∷ ds) h there = elim (Bool-cases (k == next)) [
    | inl hit ↦ rw hit (ap some (h.0 ((eq_iff k next).0 hit)))
    | inr miss ↦ rw miss (
        Stands-of_only ds h.1 (λ missing.
          there ((λ same. absurd (ground (arith, miss, (eq_iff k next).1 same))), missing)))
  ]

  again-Stands :
      (again : Range)
      → IsRange again
      → (ds : Dict (Option Service)) → All IsOnly ds
      → Stands ds
      → Stands (again ds)
  again-Stands again ranges ds only e =
      Stands-of_only (again ds) ((ranges IsOnly ds).0 only)
        (λ missing. Stands-ne-missing ds e ((ranges (λ entry. entry.0 ≢ next) ds).1 missing))

-- A service whose labels are a map as it is decoded (and that has no volumes) ends the first range
-- over a file without an error when it is the first one visited. Every service that has volumes as
-- they are decoded, and whose name stands for no other, is then run as it was written, whatever the
-- order of the second range: its volumes unchecked, without the cache and without its label.
pub recompose_stops :
    {E : Type 0} (again : Range) (patchers : List VolumePatcher) (network : String) (c : Compose)
    (name next : String) (s t : Service) (volumes : List (Option String))
    (services : Dict (Option Service))
    → IsRange again
    → c.services ≡ (name, some s) ∷ services
    → starts_with name "x-" ≡ false
    → Dict.lookup "volumes" s ≡ none
    → Dict.lookup "labels" s ≡ some other
    → All (IsOnly next t) c.services
    → Dict.lookup next c.services ≡ some (some t)
    → Dict.lookup "volumes" t ≡ some (items volumes)
    → (prod : Compose) × (recompose {E = E} again patchers (ok network) c ≡ some (ok prod))
      × (Dict.lookup next prod.services ≡ some (some t))
unfolding recompose inject_cache_volume patch_service inject walk_services
recompose_stops again patchers network c name next s t volumes services ranges e plain no_volumes
      labelled only stands there =
    let (after, walked, later) = walk_inject next t (rw there refl) (again c.services) in
    (
      record c { network = some network; volumes = []; services = after },
      ground (arith, e, plain, no_volumes, labelled, walked),
      later (again-Stands next t again ranges c.services only stands),
    )
