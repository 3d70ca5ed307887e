-- ===== src/GetVolumes.antt =====
-- handlers/api/tasks.go: the request for a file of a task's volumes.
--
-- The joining of path elements, the glob and the file system are parameters.
use batch_scheduler.Base.{
  ℕ, String, Bool, Option, none, some, List, [], ◌∷◌, ◌++◌, if◌then◌else◌, not,
}
use batch_scheduler.Base.Texts.{split}
use text.Mathlib.Text.{◌==◌}

-- `glob` is `zglob.Match`, `none` where the pattern is not one.
pub record Paths : Type 0 where
  pub join : List String → String
  pub glob : String → String → Option Bool
  pub exists : String → Bool

-- The reply: the status, and the file that is served.
abbrev pub Served : Type 0
Served = ℕ × Option String

-- What `path.Split` and `strings.Split` make of a path, from its parts: the parts before the last
-- slash, with an empty one behind that, and the file.
abbrev pub directory : List String → List String
directory [] = "" ∷ []
directory (part ∷ []) = "" ∷ []
directory (part ∷ next ∷ parts) = part ∷ directory (next ∷ parts)

abbrev pub file : List String → String
file [] = ""
file (part ∷ []) = part
file (part ∷ next ∷ parts) = file (next ∷ parts)

-- `subpath[urlShrink:]`; `none` where there are too few parts.
abbrev pub shrink : List String → Option (List String)
shrink (_ ∷ _ ∷ _ ∷ _ ∷ _ ∷ subpath) = some subpath
shrink _ = none

module _ (paths : Paths) where
  -- `extractPathFromURL`; `none` is its error.
  unfoldable pub extract_path_from_url : String → Option String
  extract_path_from_url p =
      let parts = split b'/' p in
      elim (shrink (directory parts)) [
        | none ↦ none
        | some subpath ↦ some (paths.join (subpath ++ file parts ∷ []))
      ]

  -- The part of `HandleGetVolumes` behind the path of the file.
  abbrev pub serve : String → String → Served
  serve pattern full_path = elim (paths.glob pattern full_path) [
    | none ↦ (500, none)
    | some matching ↦
        if not matching
        then (401, none)
        else if not (paths.exists full_path)
        then (404, none)
        else (200, some full_path)
  ]

  -- `HandleGetVolumes`, with the directory of the data, the path's `job`, the path that the token
  -- authorises, which may not be in the context, and the path of the URL.
  unfoldable pub get_volumes : String → Option String → Option String → String → Served
  get_volumes data_dir none p url = (400, none)
  get_volumes data_dir (some job) none url = (500, none)
  get_volumes data_dir (some job) (some p) url =
      if p == "" then (400, none) else elim (extract_path_from_url url) [
        | none ↦ (400, none)
        | some sub_path ↦ serve p (paths.join (data_dir ∷ job ∷ "volumes" ∷ sub_path ∷ []))
      ]
