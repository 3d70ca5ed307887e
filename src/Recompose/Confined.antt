-- ===== src/Recompose/Confined.antt =====
-- compose/recompose.go: where the volumes of a service that is run stand.
use Prim.Native.Char.{code}
use Prim.Native.String
use batch_scheduler.Base.{
  String, true, false, List, [], ◌∷◌, ◌++◌, ◌≡◌, ◌⊎◌, refl, sym, ap, subst, ◌∙◌, arith, inl, inr,
  Bool-cases, ◌==◌,
}
use batch_scheduler.Base.Texts.{split}
use batch_scheduler.Recompose.{
  refused, panicked, patched, moved, mode_of, drop_two, patch_volume, patch_all, VolumePatcher,
}
use batch_scheduler.Validator.{has_dot_dot}
use text.Mathlib.Text.{starts_with}
use text.Mathlib.TextPositions.{starts_with-append}
use text.Mathlib.TextEquality.{starts_with_iff}
use text.Mathlib.TextLemmas.{append_assoc, append-nil, nil-append, cons-append}

-- A volume whose source stands under the target: it is a path behind the target that never leaves
-- it, since no part of it starts with `..`, and behind it comes nothing, or a colon and the rest.
abbrev pub IsUnder : String → String → Type 0
IsUnder target volume =
    (path tail : String) × (volume ≡ String.◌++◌ target (String.◌++◌ "/" (String.◌++◌ path tail)))
    × (has_dot_dot (split b'/' path) ≡ false)
    × ((tail ≡ "") ⊎ (starts_with tail ":" ≡ true))

-- What stands behind a slash is cut as it is alone.
split_behind :
    (a b : String)
    → (first : String) × (mid : List String) × (split b'/' (String.◌++◌ a (String.◌++◌ "/" b))
        ≡ first ∷ (mid ++ split b'/' b))
unfolding split
split_behind String.[] b = (
  "",
  [],
  ap (split b'/') (
      nil-append (String.◌++◌ "/" b)
      ∙ cons-append "/" "" b
      ∙ ap (λ t. String.◌∷◌ "/" t) (nil-append b)),
)
split_behind (String.◌∷◌ c a) b =
    let (first, mid, cut) = split_behind a b in
    let whole = ap (split b'/') (cons-append c a (String.◌++◌ "/" b)) in
    elim (Bool-cases (code c == b'/')) [
      | inl slash ↦ ("", first ∷ mid, whole ∙ rw (slash, cut) refl)
      | inr letter ↦ (String.◌∷◌ c first, mid, whole ∙ rw (letter, cut) refl)
    ]

tail_clean : (mid ws : List String) → has_dot_dot (mid ++ ws) ≡ false → has_dot_dot ws ≡ false
unfolding has_dot_dot
tail_clean [] ws e = e
tail_clean (w ∷ mid) ws e = elim (Bool-cases (starts_with w "..")) [
  | inl bad ↦ absurd (ground (arith, bad, e))
  | inr fine ↦ tail_clean mid ws (ground (arith, fine, e))
]

behind_clean :
    (a b : String)
    → has_dot_dot (split b'/' (String.◌++◌ a (String.◌++◌ "/" b))) ≡ false
    → has_dot_dot (split b'/' b) ≡ false
behind_clean a b e =
    let (first, mid, cut) = split_behind a b in
    tail_clean (first ∷ mid) (split b'/' b) (subst (λ ws. has_dot_dot ws ≡ false) cut e)

pub patch_all-only : (p : VolumePatcher) (volume : String) → patch_all (p ∷ []) volume ≡ p volume
unfolding patch_all
patch_all-only p volume =
    elim (p volume)
      as (λ r. (elim r [ patched v ↦ patched v | refused ↦ refused | panicked ↦ panicked ]) ≡ r) [
        | patched v ↦ refl
        | refused ↦ refl
        | panicked ↦ refl
      ]

dot_clean :
    (path : String)
    → has_dot_dot (split b'/' (String.◌∷◌ "." (String.◌∷◌ "/" path))) ≡ false
    → has_dot_dot (split b'/' path) ≡ false
unfolding has_dot_dot split
dot_clean path e = e

-- A source under the working directory, behind its two first characters.
behind_dot :
    (src : String)
    → starts_with src "./" ≡ true
    → has_dot_dot (split b'/' src) ≡ false
    → has_dot_dot (split b'/' (drop_two src)) ≡ false
behind_dot src relative clean =
    let (path, whole) = (starts_with_iff src "./").0 relative in
    let split_up : src ≡ String.◌∷◌ "." (String.◌∷◌ "/" path) =
      sym whole
      ∙ cons-append "." "/" path
      ∙ ap (λ t. String.◌∷◌ "." t)
          (cons-append "/" "" path ∙ ap (λ t. String.◌∷◌ "/" t) (nil-append path)) in
    subst (λ s. has_dot_dot (split b'/' (drop_two s)) ≡ false) (sym split_up)
      (dot_clean path (subst (λ s. has_dot_dot (split b'/' s) ≡ false) split_up clean))

moved-IsUnder :
    (target src dest : String) (rest : List String)
    → starts_with src "./" ≡ true
    → has_dot_dot (split b'/' src) ≡ false
    → (v : String) × (moved target (src ∷ dest ∷ rest) ≡ patched v) × IsUnder target v
moved-IsUnder target src dest rest relative clean = (
  _,
  refl,
  (
    drop_two src,
    String.◌++◌ ":" (String.◌++◌ dest (mode_of (src ∷ dest ∷ rest))),
    refl,
    behind_dot src relative clean,
    inr (starts_with-append ":" _),
  ),
)

-- A source that stands under the target already.
source-IsUnder :
    (target src : String)
    → starts_with src (String.◌++◌ target "/") ≡ true
    → has_dot_dot (split b'/' src) ≡ false
    → IsUnder target src
source-IsUnder target src there clean =
    let (path, whole) = (starts_with_iff src (String.◌++◌ target "/")).0 there in
    let cut : src ≡ String.◌++◌ target (String.◌++◌ "/" path) =
      sym whole ∙ append_assoc target "/" path in
    (
      path,
      "",
      cut ∙ ap (λ t. String.◌++◌ target (String.◌++◌ "/" t)) (sym (append-nil path)),
      behind_clean target path (subst (λ s. has_dot_dot (split b'/' s) ≡ false) cut clean),
      inl refl,
    )

-- A volume with a destination, whose source stands under the working directory and has no part that
-- starts with `..`, is patched, and then stands under the target.
pub patch_volume-IsUnder :
    (target volume src dest : String) (rest : List String)
    → split b':' volume ≡ src ∷ dest ∷ rest
    → starts_with src "./" ≡ true
    → has_dot_dot (split b'/' src) ≡ false
    → (v : String) × (patch_volume target volume ≡ patched v) × IsUnder target v
unfolding patch_volume
patch_volume-IsUnder target volume src dest rest cut relative clean =
    elim (Bool-cases (starts_with src (String.◌++◌ target "/"))) [
      | inl there ↦ (src, rw (cut, relative, there) refl, source-IsUnder target src there clean)
      | inr outside ↦
          let (v, m, under) = moved-IsUnder target src dest rest relative clean in
          (v, rw (cut, relative, outside) m, under)
    ]
