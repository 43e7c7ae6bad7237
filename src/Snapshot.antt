-- ===== src/Snapshot.antt =====
-- cache/snapshot.go: what the cache compares between two runs. A `Snapshotter` is what its four
-- functions return at one moment, `none` for an error; the hash comes with whether it failed.
pub mod Maps
pub mod Unchanged
pub mod Diff
use taskrunner.Prelude.{
  if◌then◌else◌, if_some, Bool, true, false, not, ◌||◌, Option, none, some, List, [], ◌∷◌, ◌++◌,
  Text, text_eq, is_empty, lookup, insert,
}

pub record Snapshotter : Type 0 where
  pub commit_func : Option Text
  pub diff_func : Text → Option (List Text)
  pub uncommitted_files_func : Option (List Text × List Text)
  pub hash_func : Text → Text × Bool

pub record UncommittedFile : Type 0 where
  pub path : Text
  pub md5 : Text

pub record Snapshot : Type 0 where
  pub commit_sha : Text
  pub uncommitted_files : List UncommittedFile
  pub uncommitted_files_map : List (Text × Text)

abbrev pub empty_snapshot : Snapshot
empty_snapshot = record { commit_sha = []; uncommitted_files = []; uncommitted_files_map = [] }

-- `loadMap`
unfoldable pub load_map : List UncommittedFile → List (Text × Text) → List (Text × Text)
load_map [] m = m
load_map (f ∷ files) m = load_map files (insert f.path f.md5 m)

abbrev pub or_empty : Option Text → Text
or_empty none = []
or_empty (some t) = t

-- `hashFor`: the empty string where the file was not recorded.
abbrev pub hash_for : Snapshot → Text → Text
hash_for s path = or_empty (lookup path s.uncommitted_files_map)

abbrev pub files_of : Bool → List Text × List Text → List Text
files_of with_changed (new_files, modified_files) =
    if with_changed then new_files ++ modified_files else new_files

abbrev pub snapshot_of : Text → List UncommittedFile → Snapshot
snapshot_of sha files = record {
  commit_sha = sha;
  uncommitted_files = files;
  uncommitted_files_map = load_map files [];
}

-- The first loop of `Diff`.
unfoldable pub committed : Snapshot → List Text → List Text
committed previous [] = []
committed previous (f ∷ fs) =
    let rest = committed previous fs in if is_empty (hash_for previous f) then f ∷ rest else rest

abbrev pub differs : Text → Text → Bool
differs md5 recorded = is_empty md5 || not (text_eq md5 recorded)

-- The third loop, over the files of the current snapshot.
unfoldable pub compare_current : Snapshot → List Text → List UncommittedFile → List Text → List Text
compare_current previous git_diff_files [] modified = modified
compare_current previous git_diff_files (file ∷ files) modified =
    compare_current previous git_diff_files files (
      if differs (hash_for previous file.path) file.md5
      then git_diff_files ++ file.path ∷ []
      else modified)

module _ (c : Snapshotter) where
  -- The loop of `snapshot`: the first hash that fails ends it.
  unfoldable pub hash_files : List Text → Option (List UncommittedFile)
  hash_files [] = some []
  hash_files (file ∷ files) =
      let rest = hash_files files in
      let (hash, failed) = c.hash_func file in
      if failed
      then none
      else if_some rest (λ hashed. some (record { path = file; md5 = hash } ∷ hashed))

  -- `snapshot`
  unfoldable pub snapshot : Bool → Option Snapshot
  unfolding hash_files load_map
  snapshot with_changed = if_some c.commit_func (λ sha. if_some c.uncommitted_files_func (λ files.
      if_some (hash_files (files_of with_changed files)) (λ hashed. some (snapshot_of sha hashed))))

  -- The hash that the second loop compares, and whether `err` is set after it.
  abbrev pub current_hash : Snapshot → Text → Bool → Text × Bool
  current_hash current path err =
      if is_empty (hash_for current path) then c.hash_func path else (hash_for current path, err)

  -- The second loop of `Diff`, over the files of the previous snapshot, with the variables
  -- `modifiedFiles` and `err`. What it appends to is `gitDiffFiles`, not `modifiedFiles`.
  unfoldable pub recheck :
      Snapshot → List Text → List UncommittedFile → List Text × Bool → List Text × Bool
  recheck current git_diff_files [] s = s
  recheck current git_diff_files (file ∷ files) (modified, err) =
      let (md5, err') = current_hash current file.path err in
      recheck current git_diff_files files
        ((if differs md5 file.md5 then git_diff_files ++ file.path ∷ [] else modified), err')

  -- The loops of `Diff` one after the other.
  unfoldable pub compare_all : Snapshot → Snapshot → List Text → List Text × Bool
  unfolding committed recheck compare_current
  compare_all previous current git_diff_files =
      let (modified, err) =
        recheck current git_diff_files previous.uncommitted_files
          (committed previous git_diff_files, false) in
      (compare_current previous git_diff_files current.uncommitted_files modified, err)

  -- `Diff`: the files, and whether there is an error.
  unfoldable pub diff : Snapshot → List Text × Bool
  unfolding snapshot compare_all
  diff previous = elim (snapshot false) [
    | none ↦ ([], true)
    | some current ↦ elim (c.diff_func previous.commit_sha) [
      | none ↦ ([], true)
      | some git_diff_files ↦ compare_all previous current git_diff_files
    ]
  ]
