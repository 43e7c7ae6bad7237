-- ===== src/Watch.antt =====
-- watch.go: which tasks a changed file invalidates. `glob` is `zglob.Match` of the package
-- go-zglob: whether a pattern matches a path, `none` for a pattern that is refused.
pub mod Sources
pub mod Calls
pub mod Loop
use taskrunner.Prelude.{
  ℕ, if◌then◌else◌, if_some, Bool, true, false, Option, none, some, List, [], ◌∷◌, ◌++◌, Text,
}
use taskrunner.Watcher.{WatchEvent}
use taskrunner.Task.{Task, InvalidationEvent, file_change}

module _ (glob : Text → Text → Option Bool) where
  -- The body of both loops of `IsTaskSource`: a pattern that matches sets `matches` to `value`. A
  -- refused pattern ends the program.
  unfoldable pub apply_globs : Bool → Text → List Text → Bool → Option Bool
  apply_globs value path [] matches = some matches
  apply_globs value path (pattern ∷ patterns) matches = elim (glob pattern path) [
    | none ↦ none
    | some ok ↦ apply_globs value path patterns (if ok then value else matches)
  ]

  -- `IsTaskSource`
  unfoldable pub is_task_source : Task → Text → Option Bool
  unfolding apply_globs
  is_task_source task path =
      if_some (apply_globs true path task.sources false) (apply_globs false path task.ignore)

  module _ (definition : ℕ → Task) where
    -- The calls of `Invalidate` that a file event leads to, in the order of `range e.tasks`.
    unfoldable pub invalidations : Text → List ℕ → Option (List (ℕ × InvalidationEvent))
    unfolding is_task_source
    invalidations path [] = some []
    invalidations path (t ∷ order) =
        let rest = invalidations path order in
        if_some (is_task_source (definition t) path) (λ touched.
          if_some rest (λ calls. some (if touched then (t, file_change path) ∷ calls else calls)))

    -- The loop of `runWatch` over the events of a watcher.
    unfoldable pub watch_events : List ℕ → List WatchEvent → Option (List (ℕ × InvalidationEvent))
    unfolding invalidations
    watch_events order [] = some []
    watch_events order (event ∷ events) =
        let rest = watch_events order events in
        if_some (invalidations event.relative_filename order)
          (λ calls. if_some rest (λ later. some (calls ++ later)))
