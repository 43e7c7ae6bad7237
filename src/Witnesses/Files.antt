-- ===== src/Witnesses/Files.antt =====
-- The theorems on the cache and on watched files.
use taskrunner.Prelude.{
  ◌↔◌, In, ◌≡◌, refl, Bool, true, false, Option, none, some, List, [], ◌∷◌, ◌++◌, Text, bytes,
  text_eq, In, All,
}
use taskrunner.Snapshot.{Snapshotter, Snapshot, snapshot_of, compare_all, committed}
use taskrunner.Snapshot.Maps.{listed}
use taskrunner.Snapshot.Diff.{replaced, last_of, changed as changed_files, compare_all_lem}
use taskrunner.Snapshot.Unchanged.{IsTotal}
use taskrunner.Watch.{is_task_source}
use taskrunner.Cache.{Cache, new_cache, start, finish, maybe_run, called, reported, Ran}
use taskrunner.Cache.Skips.{start-finish, maybe_run-reported}
use taskrunner.Git.{trim_space, uncommitted_files}
use taskrunner.Git.Lines.{printed}
use taskrunner.Git.Status.{Status, untracked, changed, lines_of, IsStatus, uncommitted_files_lem}
use taskrunner.GitCache.{WorkingTree, new_snapshotter, start-finish_clean}
use taskrunner.Witnesses.{definition}

-- A working tree with a new file `n` and a modified file `m`. The hash of a file is its name.
abbrev tree : Snapshotter
tree = record {
  commit_func = some (bytes "c0");
  diff_func = λ sha. some (bytes "m" ∷ []);
  uncommitted_files_func = some (bytes "n" ∷ [], bytes "m" ∷ []);
  hash_func = λ path. (bytes "h" ++ path, false);
}

tree_lem : IsTotal tree
tree_lem = λ p. (refl, refl)

start-finish_example :
    (let (last, failed) = finish tree true true (new_cache none) in
      let next = start tree true (new_cache last.cache_file) in
      (failed ≡ false)
      × (next.all_dirty ≡ false)
      × ((f : Text)
          → In f next.dirty_files
            ↔ (In f (bytes "m" ∷ []) × (listed tree f (bytes "n" ∷ bytes "m" ∷ []) ≡ false))))
start-finish_example =
    start-finish tree tree_lem (bytes "c0") (bytes "n" ∷ []) (bytes "m" ∷ []) (bytes "m" ∷ [])
      (new_cache none) true refl refl refl

-- Patterns match by equality.
abbrev glob : Text → Text → Option Bool
glob pattern path = some (text_eq pattern path)

-- A cache in which the file `b` is dirty, which no task has for a source.
abbrev cache : Cache
cache = record (new_cache none) { dirty_files = bytes "b" ∷ [] }

abbrev ran_of : Option (Cache × Ran) → Cache
ran_of (some (c, ran)) = c
ran_of none = cache

abbrev after : Cache
after = ran_of (maybe_run glob definition true 0 cache)

reported_lem : maybe_run glob definition true 0 cache ≡ some (after, reported)
unfolding maybe_run text_eq
reported_lem = refl

maybe_run-reported_example :
    (false ≡ false)
    × (false ≡ false)
    × ((f : Text) → In f (bytes "b" ∷ []) → is_task_source glob (definition 0) f ≡ some false)
    × ((c : Cache) × (maybe_run glob definition true 0 after ≡ some (c, called)))
maybe_run-reported_example = maybe_run-reported glob definition true 0 cache after reported_lem

-- Two files that were committed when the last snapshot was taken are now new ones.
abbrev old : Snapshot
old = snapshot_of (bytes "c0") []

abbrev current_state : Snapshot
current_state = snapshot_of (bytes "c0") (
    record { path = bytes "p"; md5 = bytes "1" }
    ∷ record { path = bytes "q"; md5 = bytes "2" }
    ∷ [])

compare_all_lem_example :
    (compare_all tree old current_state (bytes "m" ∷ [])).0
    ≡ replaced
        (bytes "m" ∷ [])
        (committed old (bytes "m" ∷ []))
        (last_of (changed_files tree old current_state))
compare_all_lem_example = compare_all_lem tree old current_state (bytes "m" ∷ [])

abbrev statuses : List Status
statuses = untracked (bytes "new") ∷ changed 32 77 (bytes "main") ∷ []

statuses_lem : All IsStatus statuses
unfolding trim_space
statuses_lem = (
  ((refl, (refl, (refl, (refl, (refl, (refl, (refl, tt))))))), refl, refl),
  (((refl, (refl, (refl, (refl, (refl, (refl, (refl, (refl, tt)))))))), refl, refl), tt),
)

uncommitted_files_lem_example :
    uncommitted_files (some (printed (lines_of statuses)))
    ≡ some (bytes "new" ∷ [], bytes "main" ∷ [])
uncommitted_files_lem_example = uncommitted_files_lem statuses statuses_lem

-- A clean working tree.
abbrev clean_tree : WorkingTree
clean_tree = record {
  rev_parse = some (bytes "c0" ++ 10 ∷ []);
  diff_names = λ sha. some [];
  status = some [];
  walk = λ path. [];
}

start-finish_clean_example :
    (let s = new_snapshotter (λ content. content) clean_tree in
      let (last, failed) = finish s true true (new_cache none) in
      let next = start s true (new_cache last.cache_file) in
      (failed ≡ false) × (next.all_dirty ≡ false) × (next.dirty_files ≡ [] ∷ []))
start-finish_clean_example =
    start-finish_clean (λ content. content) clean_tree (bytes "c0" ++ 10 ∷ []) (new_cache none) true
      refl refl (λ sha. refl)
