-- ===== src/Compose/Up/Written.antt =====
-- compose/compose.go: what docker-compose finds in the files of a run.
use batch_scheduler.Base.{
  ℕ, zero, suc, String, Option, none, some, List, [], ◌∷◌, ◌++◌, length, ◌≡◌, sym, subst, refl, ap,
  arith, inl, inr, Bool-cases,
}
use batch_scheduler.Base.Outcome.{Result, ok, err}
use batch_scheduler.Base.Int.{ℤ}
use batch_scheduler.Base.Dict.{Dict}
use batch_scheduler.Compose.{Compose, guess_main_container}
use batch_scheduler.Compose.Up.{
  Error, Bytes, World, Files, write, env_text, up, up_main, started, main_container,
}
use batch_scheduler.Base.Sort.{Holds}
use mathlib.Core.List.{append-nil}
use batch_scheduler.DockerRun.{DockerRun}

-- The list without its first entries.
unfoldable pub drop : ℕ → Bytes → Bytes
drop n [] = []
drop zero (b ∷ bytes) = b ∷ bytes
drop (suc n) (b ∷ bytes) = drop n bytes

write-eq : (new old : Bytes) → write new old ≡ new ++ drop (length new) old
unfolding write drop
write-eq [] [] = refl
write-eq [] (b ∷ old) = refl
write-eq (b ∷ new) [] = ap (λ l. b ∷ l) (sym (append-nil new))
write-eq (b ∷ new) (_ ∷ old) = ap (λ l. b ∷ l) (write-eq new old)

-- What a run that came up says of the files, and which container it watches.
abbrev pub IsUp :
    (Compose → Bytes)
    → (String → String → Bytes)
    → World
    → Dict String
    → Compose
    → Files
    → Files × Result Error DockerRun
    → Type 0
IsUp encode line w environments c f (f', err e) = Unit
IsUp encode line w environments c f (f', ok run) =
    (f'.compose_yml ≡ encode c ++ drop (length (encode c)) f.compose_yml)
    × (f'.env ≡ env_text line environments ++ drop (length (env_text line environments)) f.env)
    × ((main : String) × (guess_main_container c ≡ ok main)
        × ((others : List String) × (w.containers main ≡ some (run.rid ∷ others))))

module _ (encode : Compose → Bytes) (line : String → String → Bytes) (w : World) (now : ℤ)
    (path : String) (environments : Dict String) (run_id : ℤ) (c : Compose) (f : Files) where
  listed-IsUp :
      (main : String)
      → guess_main_container c ≡ ok main
      → (ids : Option (List String)) → w.containers main ≡ ids
      → Holds (IsUp encode line w environments c f) (elim (started path run_id now ids) [
        | none ↦ none
        | some r ↦ some (
          record f {
            compose_yml = write (encode c) f.compose_yml;
            env = write (env_text line environments) f.env;
          },
          r,
        )
      ])
  listed-IsUp main guessed none e = tt
  listed-IsUp main guessed (some []) e = tt
  listed-IsUp main guessed (some (rid ∷ others)) e = (
    write-eq (encode c) f.compose_yml,
    write-eq (env_text line environments) f.env,
    (main, guessed, (others, e)),
  )

  main-IsUp :
      (main : String)
      → guess_main_container c ≡ ok main
      → Holds
          (IsUp encode line w environments c f)
          (up_main encode line w now path environments run_id c f main)
  main-IsUp main guessed = elim (Bool-cases w.opens_compose) [
    | inr bad ↦ rw bad tt
    | inl opens ↦ elim (Bool-cases w.opens_env) [
      | inr bad ↦ rw (opens, bad) tt
      | inl opens' ↦ elim (Bool-cases w.comes_up) [
        | inr bad ↦ rw (opens, opens', bad) tt
        | inl comes ↦ elim (Bool-cases w.connects) [
          | inr bad ↦ rw (opens, opens', comes, bad) tt
          | inl connects ↦
              rw (opens, opens', comes, connects)
                (listed-IsUp main guessed (w.containers main) refl)
        ]
      ]
    ]
  ]

  guessed-IsUp :
      (g : Result _ String)
      → guess_main_container c ≡ g
      → Holds (IsUp encode line w environments c f) (elim g [
        | err e ↦ some (f, err (main_container e))
        | ok main ↦ up_main encode line w now path environments run_id c f main
      ])
  guessed-IsUp (err e) h = tt
  guessed-IsUp (ok main) h = main-IsUp main h

  -- Where `Up` gives a run, `docker-compose.yml` holds the text of the file, and `.env` the lines of
  -- the variables, each followed by what an older and longer file had behind that many bytes; and
  -- the run watches the first of the running containers of the file's only service.
  pub up-IsUp :
      (f' : Files) (run : DockerRun)
      → up encode line w now path environments run_id c f ≡ some (f', ok run)
      → IsUp encode line w environments c f (f', ok run)
  unfolding up
  up-IsUp f' run e = elim (Bool-cases w.has_bin) [
    | inr bad ↦ absurd (ground (arith, bad, e))
    | inl there ↦
        subst (Holds (IsUp encode line w environments c f)) (rw there at e)
          (guessed-IsUp (guess_main_container c) refl)
  ]
