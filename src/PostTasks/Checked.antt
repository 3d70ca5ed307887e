-- ===== src/PostTasks/Checked.antt =====
-- handlers/api/tasks.go with compose/compose.go: a posted compose file that docker-compose refuses.
use batch_scheduler.Base.{
  String, Bool, true, false, Option, none, some, List, [], ◌||◌, ◌≡◌, refl, Bool-cases, inl, inr,
}
use batch_scheduler.Base.Dict.{Dict}
use batch_scheduler.Base.Int.{ℤ}
use batch_scheduler.Base.Outcome.{ok, Result-cases}
use batch_scheduler.Compose.{Compose, new_compose}
use batch_scheduler.Compose.Check.{Host, Checker, Error, validate}
use batch_scheduler.Compose.Check.Verdict.{IsFresh, IsAccepted, validate-IsVerdict}
use batch_scheduler.Compose.Yaml.{Node, unmarshal_yaml}
use batch_scheduler.PostTasks.{form, Form, Libraries, read_task, read_labels, read_part, read_file}
use batch_scheduler.Task.{Task}

abbrev is_error : Option Error → Bool
is_error none = false
is_error (some e) = true

-- A form whose file is checked by `Validate`.
unfoldable pub checked : Host → Checker → Form → Form
checked h k f = record f { is_rejected = λ c. is_error (validate h c k).1 }

error_free : (o : Option Error) → is_error o ≡ false → o ≡ none
error_free none e = refl
error_free (some x) e = cc e

-- The file of the form was read, and docker-compose accepts the text that is made of it.
abbrev pub IsChecked : Host → Checker → Form → Type 0
IsChecked h k f =
    (nodes : List (String × Node)) × (c : Compose) × (f.file ≡ some (some nodes))
    × (unmarshal_yaml nodes new_compose ≡ ok c)
    × ((k.compose_is_here || h.finds_bin) ≡ true)
    × IsAccepted h c k.files

module _ (libs : Libraries) (h : Host) (k : Checker) (now : ℤ) (f : Form) (t : Task)
    (fresh : IsFresh h k.files) where
  file-IsChecked :
      (nodes : List (String × Node)) (labels : Dict String)
      → f.file ≡ some (some nodes)
      → read_file libs now (checked h k f) nodes labels ≡ ok t
      → IsChecked h k f
  unfolding read_file checked
  file-IsChecked nodes labels there e = elim (Result-cases (unmarshal_yaml nodes new_compose)) [
    | inr (x, bad) ↦ absurd (cc (rw (bad, read_file) at e))
    | inl (c, read) ↦ elim (Bool-cases (is_error (validate h c k).1)) [
      | inl refused ↦ absurd (cc (rw (read, refused, read_file) at e))
      | inr fine ↦
          let (_, _, verdict) = validate-IsVerdict h c k fresh in
          let (found, accepted) = verdict.0 (error_free _ fine) in
          (nodes, c, there, read, found, accepted)
    ]
  ]

  part-IsChecked :
      (labels : Dict String) (p : Option (Option (List (String × Node))))
      → f.file ≡ p
      → read_part libs now (checked h k f) p labels ≡ ok t
      → IsChecked h k f
  part-IsChecked labels none there e = cc e
  part-IsChecked labels (some none) there e = cc e
  part-IsChecked labels (some (some nodes)) there e = file-IsChecked nodes labels there e

  labels-IsChecked :
      (l : Option (Option (Dict String)))
      → read_labels libs now (checked h k f) l ≡ ok t
      → IsChecked h k f
  unfolding checked
  labels-IsChecked none e = part-IsChecked [] f.file refl e
  labels-IsChecked (some none) e = cc e
  labels-IsChecked (some (some labels)) e = part-IsChecked labels f.file refl e

  -- Where the form's file is checked by `Validate`, and the name of a temporary file is never one that
  -- is taken, a task is read from a form only if the form has a file that is read as a compose file,
  -- docker-compose was found now or earlier, and it accepts the text that is made of the file.
  pub read_task-IsChecked : read_task libs now (form (checked h k f)) ≡ ok t → IsChecked h k f
  unfolding read_task checked read_file
  read_task-IsChecked e = elim (Bool-cases f.readable) [
    | inr bad ↦ absurd (cc (rw bad at e))
    | inl readable ↦ labels-IsChecked f.labels (rw readable at e)
  ]
