-- ===== src/GoBuild.antt =====
-- goextensions/builder.go: which files concern a Go package (shouldInvalidate), what a task wrapped
-- with a build does (WrapWithGoBuild), and the batching of builds (GoBuilder, below in Batch).
pub mod Packages
pub mod Batch
use taskrunner.Prelude.{
  ℕ, ◌==◌, if◌then◌else◌, Bool, true, false, not, ◌&&◌, ◌||◌, Option, none, some, List, [], ◌∷◌,
  ◌++◌, Text, bytes, text_eq, is_empty, has_prefix, split, lookup, insert,
}
use taskrunner.Task.{
  Task, InvalidationEvent, file_change, dependency_change, keep_alive_stopped, user_restart,
}

-- `stdlibLookup`: what was found of packages before.
abbrev pub StdlibLookup : Type 0
StdlibLookup = List (Text × Bool)

-- `strings.Contains`
unfoldable pub contains : Text → Text → Bool
unfolding has_prefix
contains [] d = has_prefix [] d
contains (c ∷ s) d = has_prefix (c ∷ s) d || contains s d

-- `strings.HasSuffix`
unfoldable pub has_suffix : Text → Text → Bool
unfolding text_eq
has_suffix [] d = text_eq [] d
has_suffix (c ∷ s) d = text_eq (c ∷ s) d || has_suffix s d

-- `strings.TrimPrefix` and `strings.TrimSuffix` of one byte.
unfoldable pub trim_prefix : ℕ → Text → Text
trim_prefix b [] = []
trim_prefix b (c ∷ s) = if c == b then s else c ∷ s

unfoldable pub trim_suffix : ℕ → Text → Text
trim_suffix b [] = []
trim_suffix b (c ∷ []) = if c == b then [] else c ∷ []
trim_suffix b (c ∷ d ∷ s) = c ∷ trim_suffix b (d ∷ s)

-- `buildBinder`. Its dependencies are nil until `saveDependencies` has listed them.
pub record BuildBinder : Type 0 where
  pub pkg : Text
  pub pkg_dependencies : Option (List Text)

abbrev pub new_build_binder : Text → BuildBinder
new_build_binder pkg = record { pkg = pkg; pkg_dependencies = none }

-- `saveDependencies`, given the output of `go list`, or `none` if it fails: the binder, and whether
-- there is an error.
unfoldable pub save_dependencies : Option Text → BuildBinder → BuildBinder × Bool
unfolding trim_prefix trim_suffix split
save_dependencies none b = (b, true)
save_dependencies (some output) b = (
  record b { pkg_dependencies = some (split 32 [] (trim_suffix 93 (trim_prefix 91 output))) },
  false,
)

-- `stat`: whether the directory of a package is found under GOROOT.
module _ (stat : Text → Bool) where
  -- `isStdLib`: the answer, and the table after it.
  unfoldable pub is_std_lib : Text → StdlibLookup → Bool × StdlibLookup
  unfolding lookup insert
  is_std_lib pkg table = elim (lookup pkg table) [
    | some found ↦ (found, table)
    | none ↦ (stat pkg, insert pkg (stat pkg) table)
  ]

  -- The loop of `shouldInvalidate` over dependencies.
  unfoldable pub touches : Text → List Text → StdlibLookup → Bool × StdlibLookup
  unfolding is_std_lib contains
  touches file [] table = (false, table)
  touches file (dep ∷ deps) table =
      let (std, table') = is_std_lib dep table in
      let rest = touches file deps table' in
      if std then rest else if contains file dep then (true, table') else rest

  -- `shouldInvalidate`
  unfoldable pub should_invalidate :
      BuildBinder → InvalidationEvent → StdlibLookup → Bool × StdlibLookup
  unfolding touches has_suffix
  should_invalidate b (file_change file) table = elim b.pkg_dependencies [
    | none ↦ (true, table)
    | some deps ↦
        if not (has_suffix file (bytes ".go"))
        then (true, table)
        else touches file (deps ++ b.pkg ∷ []) table
  ]
  should_invalidate b (dependency_change t) table = (true, table)
  should_invalidate b keep_alive_stopped table = (true, table)
  should_invalidate b user_restart table = (true, table)

  abbrev pub delegated : Option (InvalidationEvent → Bool) → InvalidationEvent → Bool
  delegated none event = true
  delegated (some f) event = f event

  -- `WrapWithGoBuild`: the task that it makes of `task`, while its binder and the table are as given.
  unfoldable pub wrap_with_go_build : BuildBinder → StdlibLookup → Task → Task
  unfolding should_invalidate
  wrap_with_go_build b table task = record task {
    run_with_flags = (if task.run then task.run_with_flags else true);
    should_invalidate =
        some
          (λ event. (should_invalidate b event table).0 && delegated task.should_invalidate event);
  }

-- What the function of a wrapped task came to.
pub data Ended : Type 0 where
  build_failed list_failed : Ended
  ran : (err : Bool) → Ended
  nothing_to_run : Ended

-- Both functions that `WrapWithGoBuild` may set, given whether the build failed, what `go list`
-- printed, and what the function of the task returns, if it has one.
unfoldable pub wrapped_run : Bool → Option Text → Option Bool → BuildBinder → BuildBinder × Ended
unfolding save_dependencies
wrapped_run build_err output run b =
    let (b', err) = save_dependencies output b in
    if build_err
    then (b, build_failed)
    else if err
    then (b', list_failed)
    else (b', elim run [ none ↦ nothing_to_run | some e ↦ ran e ])

-- `injectShellRunOptions`: the options of a command with those of the builder behind them.
unfoldable pub inject_options : {A : Type 0} → List A → List A → List A
inject_options opts additional = opts ++ additional
