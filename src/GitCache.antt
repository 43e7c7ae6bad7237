-- ===== src/GitCache.antt =====
-- The snapshotter that the cache uses: newSnapshotter of cache/snapshot.go over the output of git,
-- with hashSum of cache/md5sum.go; and WrapWithPersistentCache and getCacheFilePath of
-- cache/cache.go.
use taskrunner.Prelude.{
  ◌≡◌, refl, fun_ext, ◌==◌, if◌then◌else◌, Bool, true, false, Option, none, some, List, [], ◌∷◌,
  ◌++◌, Text, lookup,
}
use taskrunner.Task.{Task}
use taskrunner.Git.{
  current_commit, uncommitted_files, trim_left, trim_right, strip_stdout, split_stdout, read_status,
  trim_space,
}
use taskrunner.Git
use taskrunner.Snapshot.{Snapshotter}
use taskrunner.Cache.{Cache, new_cache, start, finish}

-- What `hashSum` writes into its hash: the name and the time of each file of the walk that could be
-- read. `mod_time` is `none` where the walk or `os.Stat` has an error.
unfoldable pub hashable_content : List (Text × Option Text) → Text
hashable_content [] = []
hashable_content ((path, none) ∷ walk) = hashable_content walk
hashable_content ((path, some mod_time) ∷ walk) = path ++ 58 ∷ (mod_time ++ hashable_content walk)

-- `hashSum`, with `md5` in hexadecimal. The function of the walk returns no error, so the walk has
-- none.
unfoldable pub hash_sum : (Text → Text) → List (Text × Option Text) → Text × Bool
unfolding hashable_content
hash_sum md5 walk = (md5 (hashable_content walk), false)

-- The commands of a git client, by what they print, `none` if they fail, and the walk from a path.
pub record WorkingTree : Type 0 where
  pub rev_parse : Option Text
  pub diff_names : Text → Option Text
  pub status : Option Text
  pub walk : Text → List (Text × Option Text)

-- `newSnapshotter`
unfoldable pub new_snapshotter : (Text → Text) → WorkingTree → Snapshotter
unfolding current_commit Git.diff uncommitted_files hash_sum
new_snapshotter md5 tree = record {
  commit_func = current_commit tree.rev_parse;
  diff_func = λ sha. Git.diff (tree.diff_names sha);
  uncommitted_files_func = uncommitted_files tree.status;
  hash_func = λ path. hash_sum md5 (tree.walk path);
}

-- `WrapWithPersistentCache`: a task without sources ends the program, `none`.
unfoldable pub wrap_with_persistent_cache : Task → Option Task
wrap_with_persistent_cache task = elim task.sources [
  | [] ↦ none
  | source ∷ sources ↦ some (record task { run = true })
]

-- The name of a cache file: the directory with each slash replaced.
unfoldable pub hashed_name : Text → Text
hashed_name [] = []
hashed_name (c ∷ dir) = (if c == 47 then 37 else c) ∷ hashed_name dir

-- In a clean working tree git prints nothing. Then after a run that ended with `Finish`, and with
-- nothing changed since, the cache of the next run still has a dirty file: the one with the empty path.
pub start-finish_clean :
    (md5 : Text → Text) (tree : WorkingTree) (commit : Text) (c : Cache) (truncates : Bool)
    → tree.rev_parse ≡ some commit
    → tree.status ≡ some []
    → ((sha : Text) → tree.diff_names sha ≡ some [])
    → let s = new_snapshotter md5 tree in
      let (last, failed) = finish s true true c in
      let next = start s truncates (new_cache last.cache_file) in
      (failed ≡ false) × (next.all_dirty ≡ false) × (next.dirty_files ≡ [] ∷ [])
unfolding new_snapshotter finish start lookup
start-finish_clean md5 tree commit c truncates known clean same =
    rw (known, clean, fun_ext same) (refl, refl, refl)
