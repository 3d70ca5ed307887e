-- ===== src/Task/Codec.antt =====
-- The JSON form of a task: `RawTask`, `MarshalJSON` and `UnmarshalJSON` of task/task.go.
--
-- The text of a task is seen as the `RawTask` that encoding/json writes and reads field by field.
-- The registries of action and run factories are filled by other packages at start-up; they are a
-- parameter: a registered name gives the decoder of that type's JSON text.
use batch_scheduler.Base.{
  Option, none, some, List, [], ◌∷◌, String, if◌then◌else◌, ◌≡◌, arith, inl, inr, Option-cases, ◌≢◌,
}
use batch_scheduler.Base.Dict.{Dict}
use batch_scheduler.Base.Outcome.{Result, ok, err, ◌>>=◌}
use batch_scheduler.Base.Int.{ℤ}
use batch_scheduler.Status.{Status}
use batch_scheduler.Task.{Task, Action, Run, RunData, zero_task, CronParser}
use batch_scheduler.Base.Outcome.{>>=-eq-err}
use mathlib.Core.Option.{some-injective}
use batch_scheduler.Base.{ap, ◌∙◌}
use text.Mathlib.Text.{◌==◌}

pub record RawTask : Type 0 where
  pub start : ℤ
  pub max_wait_time : ℤ
  pub max_exection_time : ℤ
  pub cpu : ℤ
  pub ram : ℤ
  pub action : Dict String
  pub id : String
  pub status : Status
  pub mtime : ℤ
  pub owner : String
  pub retry : ℤ
  pub every : ℤ
  pub cron : String
  pub environments : Dict String
  pub run : Dict String
  pub run_counter : ℤ
  pub runs : List RunData
  pub labels : Dict String

pub record Registry : Type 0 where
  pub actions : String → Option (String → Option Action)
  pub runs : String → Option (String → Option Run)
  pub cron : CronParser

pub data Error : Type 0 where
  not_a_task two_many_actions bad_payload bad_cron : Error
  unregistered_action unregistered_run : String → Error

-- `MarshalJSON`
abbrev action_entry : Option Action → Dict String
action_entry none = []
action_entry (some a) = (a.registered_name, a.content) ∷ []

abbrev run_entry : Option Run → Dict String
run_entry none = []
run_entry (some r) = (r.registered_name, r.content) ∷ []

unfoldable pub marshal : Task → RawTask
marshal t = record {
  start = t.start;
  max_wait_time = t.max_wait_time;
  max_exection_time = t.max_exection_time;
  cpu = t.cpu;
  ram = t.ram;
  action = action_entry t.action;
  id = t.id;
  status = t.status;
  mtime = t.mtime;
  owner = t.owner;
  retry = t.retry;
  every = t.every;
  cron = t.cron;
  environments = t.environments;
  run = run_entry t.run;
  run_counter = t.run_counter;
  runs = t.runs;
  labels = t.labels;
}

-- A factory and `json.Unmarshal` into what it made.
abbrev decode_with :
    {A : Type 0} → Option (String → Option A) → Error → String → Result Error (Option A)
decode_with none unknown text = err unknown
decode_with (some decode) unknown text = elim (decode text) [
  | none ↦ err bad_payload
  | some a ↦ ok (some a)
]

module _ (reg : Registry) where
  -- The `switch` on the number of actions.
  unfoldable pub unmarshal_action : Dict String → Result Error (Option Action)
  unmarshal_action [] = ok none
  unmarshal_action ((k, v) ∷ []) = decode_with (reg.actions k) (unregistered_action k) v
  unmarshal_action (_ ∷ _ ∷ _) = err two_many_actions

  -- The `switch` on the number of runs: with more than one, the run of the target stays.
  unfoldable pub unmarshal_run : Option Run → Dict String → Result Error (Option Run)
  unmarshal_run old [] = ok none
  unmarshal_run old ((k, v) ∷ []) = decode_with (reg.runs k) (unregistered_run k) v
  unmarshal_run old (_ ∷ _ ∷ _) = ok old

  -- "Ensure cron is valid": the test looks at the target, which `raw.Cron` has not reached yet.
  unfoldable pub check_cron : String → Result Error (Unit {0})
  check_cron text =
      if text == "" then ok tt else (elim (reg.cron text) [ some _ ↦ ok tt | none ↦ err bad_cron ])

  -- `UnmarshalJSON` into the task `t`.
  unfoldable pub unmarshal : Task → RawTask → Result Error Task
  unfolding unmarshal_action unmarshal_run check_cron
  unmarshal t raw = do
    a ← unmarshal_action raw.action
    r ← unmarshal_run t.run raw.run
    _ ← check_cron t.cron
    ok (record t {
      start = raw.start;
      max_wait_time = raw.max_wait_time;
      max_exection_time = raw.max_exection_time;
      cpu = raw.cpu;
      ram = raw.ram;
      action = a;
      id = raw.id;
      status = raw.status;
      mtime = raw.mtime;
      owner = raw.owner;
      retry = raw.retry;
      every = raw.every;
      cron = raw.cron;
      environments = raw.environments;
      run = r;
      run_counter = raw.run_counter;
      runs = raw.runs;
      labels = raw.labels;
    })

  -- What the registries must hold for a task that is read back.
  pub record IsRegistered (t : Task) : Type 0 where
    pub with_action :
        (a : Action)
        → t.action ≡ some a
        → (decode : String → Option Action) × (reg.actions a.registered_name ≡ some decode)
          × (decode a.content ≡ some a)
    pub with_run :
        (r : Run)
        → t.run ≡ some r
        → (decode : String → Option Run) × (reg.runs r.registered_name ≡ some decode)
          × (decode r.content ≡ some r)

  decode-some :
      {A : Type 0} (found : Option (String → Option A)) (unknown : Error) (text : String) (a : A)
      → (decode : String → Option A) × (found ≡ some decode) × (decode text ≡ some a)
      → decode_with found unknown text ≡ ok (some a)
  decode-some none unknown text a (decode, e, d) = cc
  decode-some (some f) unknown text a (decode, e, d) =
      let same : f text ≡ some a = ap (λ g. g text) (some-injective f decode e) ∙ d in ground arith

  unmarshal_action-entry :
      (t : Task) → IsRegistered t → unmarshal_action (action_entry t.action) ≡ ok t.action
  unfolding unmarshal_action
  unmarshal_action-entry t h = elim (Option-cases t.action) [
    | inl e ↦ rw (e, action_entry, unmarshal_action)
    | inr (a, e) ↦
        rw (e, action_entry, unmarshal_action)
          (decode-some (reg.actions a.registered_name) _ a.content a (h.with_action a e))
  ]

  unmarshal_run-entry :
      (t : Task) (old : Option Run)
      → IsRegistered t
      → unmarshal_run old (run_entry t.run) ≡ ok t.run
  unfolding unmarshal_run
  unmarshal_run-entry t old h = elim (Option-cases t.run) [
    | inl e ↦ rw (e, run_entry, unmarshal_run)
    | inr (r, e) ↦
        rw (e, run_entry, unmarshal_run)
          (decode-some (reg.runs r.registered_name) _ r.content r (h.with_run r e))
  ]

  -- A task whose action and run are of registered types is read back from its JSON form as it
  -- was, but for the field `Cancel`, which is lost.
  pub unmarshal-marshal :
      (t : Task)
      → IsRegistered t
      → unmarshal zero_task (marshal t) ≡ ok (record t { cancel = none })
  unfolding unmarshal marshal
  unmarshal-marshal t h = rw (unmarshal_action-entry t h, unmarshal_run-entry t none h)

  decode_with-ne-bad_cron :
      {A : Type 0} (found : Option (String → Option A)) (unknown : Error) (text : String)
      → unknown ≢ bad_cron
      → decode_with found unknown text ≢ err bad_cron
  decode_with-ne-bad_cron none unknown text h e = h (ground arith)
  decode_with-ne-bad_cron (some f) unknown text h e = ground arith

  unmarshal_action-ne-bad_cron : (d : Dict String) → unmarshal_action d ≢ err bad_cron
  unfolding unmarshal_action
  unmarshal_action-ne-bad_cron [] e = cc e
  unmarshal_action-ne-bad_cron ((k, v) ∷ []) e =
      decode_with-ne-bad_cron (reg.actions k) (unregistered_action k) v (λ h. cc) e
  unmarshal_action-ne-bad_cron (_ ∷ _ ∷ _) e = cc e

  unmarshal_run-ne-bad_cron :
      (old : Option Run) (d : Dict String) → unmarshal_run old d ≢ err bad_cron
  unfolding unmarshal_run
  unmarshal_run-ne-bad_cron old [] e = cc e
  unmarshal_run-ne-bad_cron old ((k, v) ∷ []) e =
      decode_with-ne-bad_cron (reg.runs k) (unregistered_run k) v (λ h. cc) e
  unmarshal_run-ne-bad_cron old (_ ∷ _ ∷ _) e = cc e

  -- Reading a task into a fresh one never reports a bad cron text, whatever the text is: the test
  -- looks at the cron text of the target, which is still empty.
  pub unmarshal-ne-bad_cron : (raw : RawTask) → unmarshal zero_task raw ≢ err bad_cron
  unfolding unmarshal
  unmarshal-ne-bad_cron raw e = elim (>>=-eq-err (unmarshal_action raw.action) _ e) [
    | inl e1 ↦ unmarshal_action-ne-bad_cron raw.action e1
    | inr (a, _, e1) ↦ elim (>>=-eq-err (unmarshal_run none raw.run) _ e1) [
      | inl e2 ↦ unmarshal_run-ne-bad_cron none raw.run e2
      | inr (r, _, e2) ↦ cc e2
    ]
  ]
