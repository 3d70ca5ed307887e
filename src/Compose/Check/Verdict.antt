-- ===== src/Compose/Check/Verdict.antt =====
-- compose/compose.go and compose/bin.go: what `Validate` answers, and what it leaves.
use batch_scheduler.Base.{
  String, true, Option, none, some, [], ◌∷◌, ◌||◌, ◌≡◌, ◌↔◌, refl, arith, Bool-cases, inl, inr, ap,
  sym, ◌∙◌,
}
use batch_scheduler.Base.Dict.{Dict, lookup-insert}
use batch_scheduler.Base.Dict
use batch_scheduler.Base.Outcome.{Result, ok, err}
use batch_scheduler.Compose.{Compose}
use batch_scheduler.Compose.Up.{Bytes}
use batch_scheduler.Compose.Yaml.{marshal_yaml}
use batch_scheduler.Compose.Check.{
  Host, Checker, Error, lazy_ensure_bin, validate, check_in, check_encoded, refusal,
}
use text.Mathlib.TextEquality.{eq_iff}

-- A file that was not there is written and removed: the directory is as before.
erase-insert :
    {V : Type 0} (k : String) (v : V) (m : Dict V)
    → Dict.lookup k m ≡ none
    → Dict.erase k (Dict.insert k v m) ≡ m
unfolding Dict.lookup Dict.erase Dict.insert
erase-insert k v [] e = ground (arith, eq_iff k k)
erase-insert k v ((j, w) ∷ m) e = ground (arith, eq_iff j k, erase-insert k v m)

lookup-insert_same :
    {V : Type 0} (k : String) (v : V) (m : Dict V) → Dict.lookup k (Dict.insert k v m) ≡ some v
lookup-insert_same k v m = ground (arith, lookup-insert k k v m, eq_iff k k)

-- The name of a temporary file is not taken.
abbrev pub IsFresh : Host → Dict Bytes → Type 0
IsFresh h files = (name : String) → h.temp_file files ≡ some name → Dict.lookup name files ≡ none

-- docker-compose has read the whole text of the file, and accepts it.
abbrev pub IsAccepted : Host → Compose → Dict Bytes → Type 0
IsAccepted h c files =
    (name : String) × (text : Bytes) × (h.temp_file files ≡ some name)
    × (h.write_yaml (marshal_yaml c) ≡ ok text)
    × (h.config (some text) ≡ none)

abbrev pub IsVerdict : Host → Compose → Checker → Checker × Option Error → Type 0
IsVerdict h c k (k', e) =
    (k'.files ≡ k.files)
    × (k'.compose_is_here ≡ (k.compose_is_here || h.finds_bin))
    × ((e ≡ none) ↔ (((k.compose_is_here || h.finds_bin) ≡ true) × IsAccepted h c k.files))

refusal-none : (o : Option String) → refusal o ≡ none → o ≡ none
refusal-none none e = refl
refusal-none (some stderr) e = cc e

module _ (h : Host) (c : Compose) (k : Checker) where
  encoded-eq :
      (name : String)
      → h.temp_file k.files ≡ some name
      → Dict.lookup name k.files ≡ none
      → (r : Result Bytes Bytes) → h.write_yaml (marshal_yaml c) ≡ r
      → ((check_encoded h name r k).0 ≡ k)
        × (((check_encoded h name r k).1 ≡ none) ↔ IsAccepted h c k.files)
  encoded-eq name named free (err part) e = (
    ap (λ fs. record k { files = fs }) (erase-insert name part k.files free),
    ((λ bad. cc bad), λ (_, text, _, encoded, _). cc (sym e ∙ encoded)),
  )
  encoded-eq name named free (ok text) e =
      let read = lookup-insert_same name text k.files in
      (
        ap (λ fs. record k { files = fs }) (erase-insert name text k.files free),
        (
          (λ fine. (name, text, named, e, refusal-none _ (rw read at fine))),
          λ (_, text', _, encoded, fine).
              let same : text ≡ text' = cc (sym e ∙ encoded) in
              rw read (ap refusal (ap (λ t. h.config (some t)) same ∙ fine)),
        ),
      )

  in-eq :
      IsFresh h k.files
      → (o : Option String) → h.temp_file k.files ≡ o
      → ((check_in h c o k).0 ≡ k) × (((check_in h c o k).1 ≡ none) ↔ IsAccepted h c k.files)
  in-eq fresh none e = (refl, ((λ bad. cc bad), λ (_, _, named, _, _). cc (sym e ∙ named)))
  in-eq fresh (some name) e = encoded-eq name e (fresh name e) (h.write_yaml (marshal_yaml c)) refl

  here-IsVerdict :
      k.compose_is_here ≡ true
      → IsFresh h k.files
      → IsVerdict h c k (check_in h c (h.temp_file k.files) k)
  here-IsVerdict here fresh =
      let (kept, verdict) = in-eq fresh (h.temp_file k.files) refl in
      (
        ap (λ k'. k'.files) kept,
        ap (λ k'. k'.compose_is_here) kept ∙ ground (arith, here),
        ((λ fine. (ground (arith, here), verdict.0 fine)), λ (_, accepted). verdict.1 accepted),
      )

-- Where the name of a temporary file is never one that is taken, `Validate` leaves the directory of
-- the temporary files as it was, whatever it answers; it remembers docker-compose if it was found
-- now or earlier; and it gives no error exactly when docker-compose was found now or earlier, the
-- temporary file and the text of the compose file are made, and docker-compose accepts that text.
pub validate-IsVerdict :
    (h : Host) (c : Compose) (k : Checker) → IsFresh h k.files → IsVerdict h c k (validate h c k)
unfolding validate lazy_ensure_bin
validate-IsVerdict h c k fresh = elim (Bool-cases k.compose_is_here) [
  | inl here ↦ rw (here, validate, lazy_ensure_bin) (rw here at (here-IsVerdict h c k here fresh))
  | inr new ↦ elim (Bool-cases h.finds_bin) [
    | inl finds ↦
        rw (new, finds, validate, lazy_ensure_bin)
          (here-IsVerdict h c (record k { compose_is_here = true }) refl fresh)
    | inr fails ↦
        rw (new, fails, validate, lazy_ensure_bin)
          (refl, new, ((λ bad. cc bad), λ (bad, _). cc bad))
  ]
]
