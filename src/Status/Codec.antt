-- ===== src/Status/Codec.antt =====
-- The JSON form of a status: its name, cut out of one long text by a table of offsets.
-- A JSON document is seen as `some s` where it is a string, and as `none` where it is anything else.
use Prim.Native.String.{slice}
use text.Mathlib.Text.{◌==◌}
use text.Mathlib.TextEquality.{eq_iff}
use batch_scheduler.Base.{
  ℕ, zero, suc, ◌+◌, Option, none, some, String, ◌≡◌, refl, List, [], ◌∷◌, if◌then◌else◌,
  Bool-cases, inl, inr,
}
use batch_scheduler.Base.Outcome.{Result, ok, err}
use batch_scheduler.Status.{
  Status, waiting, running, done, timeout, canceled, error, index, of_index,
}

-- `_Status_name`
abbrev status_name : String
status_name = "WaitingRunningDoneTimeoutCanceledError"

-- `_Status_index[1:]`
abbrev status_ends : List ℕ
status_ends = 7 ∷ 14 ∷ 18 ∷ 25 ∷ 33 ∷ 38 ∷ []

-- `_Status_index[i]`
abbrev status_offset : ℕ → ℕ
status_offset zero = 0
status_offset (suc zero) = 7
status_offset (suc (suc zero)) = 14
status_offset (suc (suc (suc zero))) = 18
status_offset (suc (suc (suc (suc zero)))) = 25
status_offset (suc (suc (suc (suc (suc zero))))) = 33
status_offset _ = 38

-- `String`: the slice between two neighbouring offsets.
unfoldable pub string : Status → String
string s = slice status_name (status_offset (index s)) (status_offset (suc (index s)))

pub data Error : Type 0 where
  not_a_string : Error
  unknown_status : String → Error

-- `MarshalJSON`
unfoldable pub marshal : Status → Option String
unfolding string
marshal s = some (string s)

-- The loop of `UnmarshalJSON`, at the name number `i`, which begins at `start`.
scan : String → ℕ → ℕ → List ℕ → Result Error Status
scan raw i start [] = err (unknown_status raw)
scan raw i start (end ∷ ends) =
    let rest = scan raw (i + 1) end ends in
    if slice status_name start end == raw
    then (elim (of_index i) [ some s ↦ ok s | none ↦ err (unknown_status raw) ])
    else rest

unfoldable pub unmarshal : Option String → Result Error Status
unfolding scan
unmarshal none = err not_a_string
unmarshal (some raw) = scan raw 0 0 status_ends

-- Reading what was written gives the status back.
pub unmarshal-marshal : (s : Status) → unmarshal (marshal s) ≡ ok s
unfolding unmarshal marshal
unmarshal-marshal waiting = refl
unmarshal-marshal running = refl
unmarshal-marshal done = refl
unmarshal-marshal timeout = refl
unmarshal-marshal canceled = refl
unmarshal-marshal error = refl

-- The loop, unrolled over the table.
unmarshal-some :
    (raw : String)
    → unmarshal (some raw) ≡ (
        if "Waiting" == raw
        then ok waiting
        else if "Running" == raw
        then ok running
        else if "Done" == raw
        then ok done
        else if "Timeout" == raw
        then ok timeout
        else if "Canceled" == raw
        then ok canceled
        else if "Error" == raw
        then ok error
        else err (unknown_status raw))
unfolding unmarshal
unmarshal-some raw = refl

-- One entry of the table: a document that it reads is the one that it writes.
entry :
    (t s : Status) (raw : String) (rest : Result Error Status)
    → (rest ≡ ok s → marshal s ≡ some raw)
    → (if string t == raw then ok t else rest) ≡ ok s
    → marshal s ≡ some raw
unfolding marshal
entry t s raw rest later e = elim (Bool-cases (string t == raw)) [
  | inl hit ↦
      let t_is_s : ◌≡◌ {A = Result Error Status} (ok t) (ok s) = rw hit at e in
      cc (t_is_s, (eq_iff (string t) raw).0 hit)
  | inr miss ↦ later (rw miss at e)
]

-- A document is read as a status only if it is the document that this status is written as.
pub marshal-unmarshal : (doc : Option String) (s : Status) → unmarshal doc ≡ ok s → marshal s ≡ doc
unfolding string
marshal-unmarshal none s e = unfold unmarshal in cc e
marshal-unmarshal (some raw) s e =
    entry waiting s raw _
      (entry running s raw _ (
        entry done s raw _ (
          entry timeout s raw _
            (entry canceled s raw _ (entry error s raw (err (unknown_status raw)) (λ e. cc))))))
      (rw (unmarshal-some raw) at e)
