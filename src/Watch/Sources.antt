-- ===== src/Watch/Sources.antt =====
-- What `IsTaskSource` decides.
use taskrunner.Prelude.{
  ◌≡◌, ◌≢◌, refl, inl, inr, if◌then◌else◌, Bool, true, false, not, ◌&&◌, Option, none, some, List,
  [], ◌∷◌, Text, any, All, Option-cases, arith,
}
use taskrunner.Task.{Task}
use taskrunner.Watch.{apply_globs, is_task_source}

abbrev pub is_yes : Option Bool → Bool
is_yes none = false
is_yes (some b) = b

module _ (glob : Text → Text → Option Bool) where
  -- The pattern is one that `zglob` accepts.
  abbrev pub IsGlob : Text → Text → Type 0
  IsGlob path pattern = glob pattern path ≢ none

  abbrev pub matches_any : Text → List Text → Bool
  matches_any path patterns = any (λ pattern. is_yes (glob pattern path)) patterns

  apply_globs_lem :
      (value : Bool) (path : Text) (patterns : List Text) (matches : Bool)
      → All (IsGlob path) patterns
      → apply_globs glob value path patterns matches
        ≡ some (if matches_any path patterns then value else matches)
  unfolding apply_globs
  apply_globs_lem value path [] matches h = refl
  apply_globs_lem value path (p ∷ ps) matches h = elim (Option-cases (glob p path)) [
    | inl e ↦ absurd (h.0 e)
    | inr (ok, e) ↦
        rw (e, apply_globs, apply_globs_lem value path ps (if ok then value else matches) h.1)
          (ground arith)
  ]

  -- Where its patterns are accepted, a file is a source of a task if it matches one of the sources
  -- and none of the patterns to ignore, in whichever order they stand.
  pub is_task_source_lem :
      (task : Task) (path : Text)
      → All (IsGlob path) task.sources
      → All (IsGlob path) task.ignore
      → is_task_source glob task path
        ≡ some (matches_any path task.sources && not (matches_any path task.ignore))
  unfolding is_task_source
  is_task_source_lem task path s i = rw (apply_globs_lem true path task.sources false s) (
      rw
        (apply_globs_lem false path task.ignore
          (if matches_any path task.sources then true else false) i)
        (ground arith))
