-- ===== src/Cache/Skips.antt =====
-- When a task with a persistent cache is skipped.
use taskrunner.Prelude.{
  ℕ, ◌≡◌, ◌↔◌, refl, subst, inl, inr, Bool, true, false, ◌++◌, Option, none, some, List, [], ◌∷◌,
  Text, arith, ==_refl, Bool-cases, Option-cases, In,
}
use taskrunner.Task.{Task}
use taskrunner.Snapshot.{Snapshotter}
use taskrunner.Snapshot.Maps.{listed}
use taskrunner.Snapshot.Unchanged.{IsTotal, diff-unchanged, In-unlisted}
use taskrunner.Watch.{is_task_source}
use taskrunner.Cache.{
  Cache, new_cache, start, finish, is_first_run, is_valid, no_source, outcome, Ran, maybe_run,
  called, reported,
}

-- After a run that ended with `Finish` and with nothing changed since, the next run's cache is not all
-- dirty, and a file is dirty exactly if `git diff` against the current commit lists it and it is
-- neither new nor modified in the working tree, where that gives every file a hash. So no file that is
-- uncommitted is dirty.
pub start-finish :
    (s : Snapshotter)
    → IsTotal s
    → (sha : Text) (new_files modified_files ds : List Text) (c : Cache) (truncates : Bool)
    → s.commit_func ≡ some sha
    → s.uncommitted_files_func ≡ some (new_files, modified_files)
    → s.diff_func sha ≡ some ds
    → (let (last, failed) = finish s true true c in
        let next = start s truncates (new_cache last.cache_file) in
        (failed ≡ false)
        × (next.all_dirty ≡ false)
        × ((f : Text)
            → In f next.dirty_files
              ↔ (In f ds × (listed s f (new_files ++ modified_files) ≡ false))))
unfolding finish start
start-finish s total sha ns ms ds c truncates commit uncommitted git =
    let (hs, taken, same) = diff-unchanged s total sha ns ms ds commit uncommitted git in
    rw (taken, same) (refl, refl, λ f. In-unlisted s total f (ns ++ ms) ds)

no_source_lem :
    (glob : Text → Text → Option Bool) (task : Task) (files : List Text)
    → no_source glob task files ≡ some true
    → (f : Text) → In f files
    → is_task_source glob task f ≡ some false
unfolding no_source
no_source_lem glob task [] h f i = elim i [ ]
no_source_lem glob task (g ∷ files) h f i = elim (Option-cases (is_task_source glob task g)) [
  | inl e ↦ absurd (ground arith)
  | inr (true, e) ↦ absurd (ground arith)
  | inr (false, e) ↦ elim i [
    | inl q ↦ rw q e
    | inr j ↦ no_source_lem glob task files (ground arith) f j
  ]
]

-- The task is marked as one that has run.
abbrev Marks : ℕ → Option (Cache × Ran) → Type 0
Marks t none = Unit
Marks t (some (c, ran)) = c.ran_once t ≡ true

Marks-outcome :
    (t : ℕ) (has_logger : Bool) (c : Cache) (valid : Option Bool)
    → c.ran_once t ≡ true
    → Marks t (outcome has_logger c valid)
Marks-outcome t has_logger c none h = tt
Marks-outcome t has_logger c (some valid) h = h

-- A task is skipped only on its first run in a cache where not all is dirty and no dirty file is a
-- source of it. Its next run is not skipped.
pub maybe_run-reported :
    (glob : Text → Text → Option Bool) (definition : ℕ → Task) (has_logger : Bool) (t : ℕ)
    (c c' : Cache)
    → maybe_run glob definition has_logger t c ≡ some (c', reported)
    → (c.ran_once t ≡ false)
      × (c.all_dirty ≡ false)
      × ((f : Text) → In f c.dirty_files → is_task_source glob (definition t) f ≡ some false)
      × ((c'' : Cache) × (maybe_run glob definition has_logger t c' ≡ some (c'', called)))
unfolding maybe_run is_first_run is_valid
maybe_run-reported glob definition has_logger t c c' h = elim (Bool-cases (c.ran_once t)) [
  | inl e ↦ absurd (ground arith)
  | inr e ↦ elim (Bool-cases c.all_dirty) [
    | inl d ↦ absurd (ground arith)
    | inr d ↦ elim (Option-cases (no_source glob (definition t) c.dirty_files)) [
      | inl n ↦ absurd (ground arith)
      | inr (false, n) ↦ absurd (ground arith)
      | inr (true, n) ↦
          let ran : c'.ran_once t ≡ true = subst (Marks t) h (
            rw (e, d, n)
              (Marks-outcome t has_logger (is_first_run t c).0 (some true)
                (rw (==_refl t) refl))) in
          (
            e,
            d,
            no_source_lem glob (definition t) c.dirty_files n,
            ((is_first_run t c').0, rw ran refl),
          )
    ]
  ]
]
