-- ===== src/Witnesses/Builds.antt =====
-- The theorems on builds of Go packages.
use taskrunner.Prelude.{
  if◌then◌else◌, ◌==◌, ◌≡◌, refl, Bool, true, false, none, some, List, [], ◌∷◌, ◌++◌, Text, bytes,
  lookup, text_eq, any, arith,
}
use taskrunner.Task.{file_change}
use taskrunner.GoBuild.{should_invalidate, has_suffix}
use taskrunner.GoBuild.Packages.{IsRight, concerns, front, listed, should_invalidate-listed}
use taskrunner.GoBuild.Batch.{
  GoBuilder, new_go_builder, BuilderOutcome, went, panicked, outside, entered, waiting,
  BuilderLabel, send_label, enter_label, look_label, fire_label, take_label, finish_label,
  run_builder,
}
use taskrunner.GoBuild.Batch.Sound.{Seen}
use taskrunner.GoBuild.Batch.Requests.{run_builder-Seen}
use taskrunner.GoBuild.Batch.Races.{late_request, late_request-panics, slow_look-IsLost}

-- Only `fmt` is of the standard library.
abbrev stat : Text → Bool
stat pkg = text_eq pkg (bytes "fmt")

nothing_known : IsRight stat []
unfolding lookup
nothing_known = λ pkg found e. absurd (ground arith)

should_invalidate-listed_example :
    let (b, err) = listed (bytes "app") (bytes "fmt") (bytes "lib" ∷ []) in
    let (invalidates, table) = should_invalidate stat b (file_change (bytes "lib/x.go")) [] in
    (err ≡ false)
    × (invalidates
        ≡ any
            (concerns stat (bytes "lib/x.go"))
            (front (bytes "fmt") (bytes "lib" ∷ []) ++ bytes "app" ∷ []))
    × IsRight stat table
unfolding has_suffix
should_invalidate-listed_example =
    should_invalidate-listed stat (bytes "app") (bytes "fmt") (bytes "lib" ∷ []) (bytes "lib/x.go")
      [] ((refl, (refl, (refl, tt))), ((refl, (refl, (refl, tt))), tt))
      (refl, (refl, (refl, (refl, (refl, (refl, (refl, (refl, tt)))))))) refl nothing_known

abbrev reached : BuilderOutcome → GoBuilder
reached (went b) = b
reached _ = new_go_builder

-- A request is taken and built.
abbrev one_build : List BuilderLabel
one_build =
    send_label 0 (bytes "app") 7
    ∷ enter_label 0
    ∷ take_label
    ∷ fire_label
    ∷ look_label 0
    ∷ finish_label false
    ∷ []

abbrev built : GoBuilder
built = reached (run_builder one_build new_go_builder)

built_run : run_builder one_build new_go_builder ≡ went built
unfolding run_builder
built_run = refl

run_builder-Seen_example : Seen (bytes "app") built.requests built.packages built.commands
unfolding run_builder
run_builder-Seen_example = run_builder-Seen one_build built 0 (bytes "app") built_run refl

-- A build is due.
abbrev due : GoBuilder
due = record new_go_builder {
  packages = bytes "app" ∷ [];
  loggers = 7 ∷ [];
  timer = true;
  done_ch = some 0;
  next_ch = 1;
}

late_request-panics_example :
    run_builder (late_request 1 (bytes "lib") 8 false false) due ≡ panicked
late_request-panics_example =
    late_request-panics 1 (bytes "lib") 8 0 false false due refl refl refl refl refl

-- A build runs, and a caller has not yet read its channel.
abbrev busy : GoBuilder
busy = record due {
  building = true;
  phase = λ c. if c == 0 then entered (bytes "app") else outside;
}

-- Another request comes before the slow caller reads.
abbrev slow : List BuilderLabel
slow = finish_label false ∷ send_label 1 (bytes "lib") 8 ∷ look_label 0 ∷ take_label ∷ []

abbrev lost : GoBuilder
lost = reached (run_builder slow busy)

lost_run : run_builder slow busy ≡ went lost
unfolding run_builder
lost_run = refl

slow_look-IsLost_example : lost.phase 0 ≡ waiting (bytes "app") none
slow_look-IsLost_example =
    slow_look-IsLost 0 (bytes "app") false (send_label 1 (bytes "lib") 8 ∷ []) (take_label ∷ [])
      busy lost refl (refl, tt) lost_run
