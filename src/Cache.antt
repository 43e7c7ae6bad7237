-- ===== src/Cache.antt =====
-- cache/cache.go: the persistent cache. The cache file is the commit and the files of a snapshot,
-- `none` where it is missing or does not parse; reading builds the map again.
pub mod Skips
use taskrunner.Prelude.{
  ℕ, ◌==◌, if◌then◌else◌, Bool, true, false, not, ◌&&◌, Option, none, some, List, [], ◌∷◌, Text,
}
use taskrunner.Task.{Task}
use taskrunner.Snapshot.{
  Snapshotter, Snapshot, UncommittedFile, snapshot_of, empty_snapshot, snapshot, diff,
}
use taskrunner.Watch.{is_task_source}

pub record CacheFile : Type 0 where
  pub commit_sha : Text
  pub uncommitted_files : List UncommittedFile

pub record Cache : Type 0 where
  pub ran_once : ℕ → Bool
  pub all_dirty : Bool
  pub dirty_files : List Text
  pub cache_file : Option CacheFile

-- `New`, where the last run left a cache file.
abbrev pub new_cache : Option CacheFile → Cache
new_cache file = record {
  ran_once = λ t. false;
  all_dirty = false;
  dirty_files = [];
  cache_file = file;
}

-- `Ignore`
abbrev pub ignore : Cache → Cache
ignore c = record c { all_dirty = true }

-- `Read`
abbrev pub read : Option CacheFile → Option Snapshot
read none = none
read (some file) = some (snapshot_of file.commit_sha file.uncommitted_files)

abbrev pub diff_or_all_dirty : List Text × Bool → Cache → Cache
diff_or_all_dirty (files, failed) c =
    if failed then record c { all_dirty = true } else record c { dirty_files = files }

abbrev pub write_snapshot : Bool → Cache → Option Snapshot → Cache × Bool
write_snapshot written c none = (c, false)
write_snapshot written c (some current) =
    let file : CacheFile = record {
      commit_sha = current.commit_sha;
      uncommitted_files = current.uncommitted_files;
    } in
    (record c { cache_file = if written then some file else none }, false)

module _ (s : Snapshotter) where
  -- `Start`. `truncates` is whether `os.Truncate` empties the file.
  unfoldable pub start : Bool → Cache → Cache
  unfolding diff
  start truncates c =
      let file = if truncates then none else c.cache_file in
      elim (read c.cache_file) [
        | none ↦
            diff_or_all_dirty (diff s empty_snapshot)
              (record c { all_dirty = true; cache_file = file })
        | some previous ↦ diff_or_all_dirty (diff s previous) (record c { cache_file = file })
      ]

  -- `Finish`, and whether it returns an error. `made` is whether the directory could be made, and
  -- `written` whether the file could be written: where not, it does not parse.
  unfoldable pub finish : Bool → Bool → Cache → Cache × Bool
  unfolding snapshot
  finish made written c = if made then write_snapshot written c (snapshot s true) else (c, true)

-- `isFirstRun`
unfoldable pub is_first_run : ℕ → Cache → Cache × Bool
is_first_run t c =
    (record c { ran_once = λ u. if u == t then true else c.ran_once u }, not (c.ran_once t))

pub data Ran : Type 0 where
  -- The task's function is called, or the task is reported as unchanged instead.
  called reported : Ran

abbrev pub outcome : Bool → Cache → Option Bool → Option (Cache × Ran)
outcome has_logger c none = none
outcome has_logger c (some valid) = some (c, if valid && has_logger then reported else called)

module _ (glob : Text → Text → Option Bool) where
  -- The loop of `isValid`; `none` where a pattern ends the program.
  unfoldable pub no_source : Task → List Text → Option Bool
  unfolding is_task_source
  no_source task [] = some true
  no_source task (f ∷ files) =
      let rest = no_source task files in
      elim (is_task_source glob task f) [
        | none ↦ none
        | some matches ↦ if matches then some false else rest
      ]

  module _ (definition : ℕ → Task) where
    -- `isValid`
    unfoldable pub is_valid : Cache → ℕ → Option Bool
    unfolding no_source
    is_valid c t = if c.all_dirty then some false else no_source (definition t) c.dirty_files

    -- The function that `maybeRun` gives, up to the call of the task's own. `has_logger` is whether
    -- the context carries a logger.
    unfoldable pub maybe_run : Bool → ℕ → Cache → Option (Cache × Ran)
    unfolding is_first_run is_valid
    maybe_run has_logger t c =
        let (c', first) = is_first_run t c in
        if first then outcome has_logger c' (is_valid c' t) else some (c', called)
