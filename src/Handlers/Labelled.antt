-- ===== src/Handlers/Labelled.antt =====
-- handlers/api/tasks.go: the parameters of a query are read as labels.
use batch_scheduler.Base.{
  String, true, false, Option, some, List, [], ◌∷◌, ◌≡◌, refl, arith, ℕ, All, ap, ◌∙◌,
  if◌then◌else◌, Bool-cases, inl, inr, subst, Option-cases,
}
use batch_scheduler.Base.Dict.{Dict}
use batch_scheduler.Base.Dict
use batch_scheduler.Handlers.{query_labels, get_tasks, tasks}
use batch_scheduler.Handlers.Ownership.{get_tasks-All}
use batch_scheduler.Claims.{Owner}
use batch_scheduler.Scheduler.{Scheduler, Env, has_labels, is_wanted}
use batch_scheduler.Task.{Task, Resp}
use text.Mathlib.Text.{◌==◌}
use text.Mathlib.TextEquality.{eq_iff}

abbrev pub Query : Type 0
Query = List (String × List String)

-- The parameter has one value in the query, and stands there once.
abbrev pub HasParam : String → String → Query → Type 0
HasParam name value [] = ⊥
HasParam name value ((key, values) ∷ query) =
    if key == name
    then ((values ≡ value ∷ []) × All (λ e. (e.0 == name) ≡ false) query)
    else HasParam name value query

query_labels-other :
    (name : String) (query : Query) (acc labels : Dict String)
    → All (λ e. (e.0 == name) ≡ false) query
    → query_labels query acc ≡ some (some labels)
    → Dict.lookup name labels ≡ Dict.lookup name acc
unfolding query_labels
query_labels-other name [] acc labels h e = ground (arith, e)
query_labels-other name ((key, []) ∷ query) acc labels h e = cc
query_labels-other name ((key, v ∷ []) ∷ query) acc labels h e =
    query_labels-other name query (Dict.insert key v acc) labels h.1 e
    ∙ (rw (Dict.lookup-insert key name v acc, h.0) refl)
query_labels-other name ((key, v ∷ w ∷ vs) ∷ query) acc labels h e = cc

query_labels-param :
    (name value : String) (query : Query) (acc labels : Dict String)
    → HasParam name value query
    → query_labels query acc ≡ some (some labels)
    → Dict.lookup name labels ≡ some value
unfolding query_labels
query_labels-param name value [] acc labels h e = elim h [ ]
query_labels-param name value ((key, []) ∷ query) acc labels h e = cc
query_labels-param name value ((key, v ∷ w ∷ vs) ∷ query) acc labels h e = cc
query_labels-param name value ((key, v ∷ []) ∷ query) acc labels h e =
    elim (Bool-cases (key == name)) [
      | inr miss ↦
          let later : HasParam name value query = rw miss at h in
          query_labels-param name value query (Dict.insert key v acc) labels later e
      | inl hit ↦
          let here : ((v ∷ [] ≡ value ∷ []) × All (λ e. (e.0 == name) ≡ false) query) =
            rw hit at h in
          let same : v ≡ value = ground (arith, here.0) in
          query_labels-other name query (Dict.insert key v acc) labels here.1 e
          ∙ (rw (Dict.lookup-insert key name v acc, hit) (ap (λ x. some x) same))
    ]

-- The first wanted label stands on the task.
first_label :
    (env : Env) (key value : String) (wanted own : Dict String)
    → has_labels env ((key, value) ∷ wanted) own ≡ true
    → (Dict.lookup key own ≡ some value) × (has_labels env wanted own ≡ true)
unfolding has_labels
first_label env key value wanted own e = elim (Option-cases (Dict.lookup key own)) [
  | inl missing ↦ absurd (ground (arith, missing, e))
  | inr (v, there) ↦
      (ground (arith, there, eq_iff v value, e), ground (arith, there, eq_iff v value, e))
]

has_labels-lookup :
    (env : Env) (name value : String) (wanted own : Dict String)
    → has_labels env wanted own ≡ true
    → Dict.lookup name wanted ≡ some value
    → Dict.lookup name own ≡ some value
unfolding Dict.lookup
has_labels-lookup env name value [] own e f = cc
has_labels-lookup env name value ((key, v) ∷ wanted) own e f =
    let (there, others) = first_label env key v wanted own e in
    elim (Bool-cases (key == name)) [
      | inr miss ↦
          let later : Dict.lookup name wanted ≡ some value = ground (arith, miss, f) in
          has_labels-lookup env name value wanted own others later
      | inl hit ↦
          let same : key ≡ name = (eq_iff key name).0 hit in
          let value_same : ◌≡◌ {A = Option String} (some v) (some value) = ground (arith, hit, f) in
          subst (λ k. Dict.lookup k own ≡ some value) same (there ∙ value_same)
    ]

is_wanted-labels :
    (env : Env) (name : String) (labels : Dict String) (t : Task)
    → is_wanted env name labels t ≡ true
    → has_labels env labels t.labels ≡ true
unfolding is_wanted
is_wanted-labels env name labels t e = ground (arith, e)

-- A user who is not an administrator is shown only tasks that carry each parameter of the query that
-- has one value as a label of this value.
pub get_tasks-labelled :
    (env : Env) (u : Owner) (o : Option String) (query : Query) (s : Scheduler) (code : ℕ)
    (rs : List Resp) (name value : String)
    → u.admin ≡ false
    → HasParam name value query
    → get_tasks env u o query s ≡ some (record { code = code; body = tasks rs })
    → All (λ r. Dict.lookup name r.labels ≡ some value) rs
get_tasks-labelled env u o query s code rs name value plain h e =
    get_tasks-All env (λ _ own. Dict.lookup name own ≡ some value) u o query s code rs plain
      (λ l read t kept.
        has_labels-lookup env name value l t.labels (is_wanted-labels env u.name l t kept)
          (query_labels-param name value query [] l h read))
      e
