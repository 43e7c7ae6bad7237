-- ===== src/Snapshot/Diff.antt =====
-- Which files `Diff` reports.
use taskrunner.Prelude.{
  ◌≡◌, refl, ap, ◌∙◌, inl, inr, if◌then◌else◌, Bool, false, Option, none, some, List, [], ◌∷◌, ◌++◌,
  Text, is_empty, Bool-cases,
}
use taskrunner.Snapshot.{
  Snapshotter, Snapshot, UncommittedFile, hash_for, committed, current_hash, differs, recheck,
  compare_current, compare_all,
}

-- The last of the files.
abbrev pub last_of : List Text → Option Text
last_of [] = none
last_of (p ∷ ps) = elim (last_of ps) [ none ↦ some p | some q ↦ some q ]

-- Each of the files takes the place of what was reported before it.
pick : List Text → List Text → List Text → List Text
pick ds m [] = m
pick ds m (p ∷ ps) = pick ds (ds ++ p ∷ []) ps

pick-append : (ds m ps qs : List Text) → pick ds (pick ds m ps) qs ≡ pick ds m (ps ++ qs)
unfolding pick
pick-append ds m [] qs = refl
pick-append ds m (p ∷ ps) qs = pick-append ds (ds ++ p ∷ []) ps qs

abbrev pub replaced : List Text → List Text → Option Text → List Text
replaced ds m none = m
replaced ds m (some p) = ds ++ p ∷ []

replaced_cons :
    (ds m : List Text) (p : Text) (o : Option Text)
    → replaced ds (ds ++ p ∷ []) o ≡ replaced ds m (elim o [ none ↦ some p | some q ↦ some q ])
replaced_cons ds m p none = refl
replaced_cons ds m p (some q) = refl

pick-last : (ds m ps : List Text) → pick ds m ps ≡ replaced ds m (last_of ps)
unfolding pick
pick-last ds m [] = refl
pick-last ds m (p ∷ ps) = pick-last ds (ds ++ p ∷ []) ps ∙ replaced_cons ds m p (last_of ps)

module _ (c : Snapshotter) where
  -- The files of the previous snapshot whose present hash is another.
  abbrev pub changed_before : Snapshot → List UncommittedFile → List Text
  changed_before current [] = []
  changed_before current (file ∷ files) =
      if differs (current_hash c current file.path false).0 file.md5
      then file.path ∷ changed_before current files
      else changed_before current files

  -- The files of the current snapshot for which the previous has no hash, or another.
  abbrev pub changed_now : Snapshot → List UncommittedFile → List Text
  changed_now previous [] = []
  changed_now previous (file ∷ files) =
      if differs (hash_for previous file.path) file.md5
      then file.path ∷ changed_now previous files
      else changed_now previous files

  abbrev pub changed : Snapshot → Snapshot → List Text
  changed previous current =
      changed_before current previous.uncommitted_files
      ++ changed_now previous current.uncommitted_files

  recheck-pick :
      (current : Snapshot) (ds : List Text) (files : List UncommittedFile) (m : List Text)
      (err : Bool)
      → (recheck c current ds files (m, err)).0 ≡ pick ds m (changed_before current files)
  unfolding recheck pick
  recheck-pick current ds [] m err = refl
  recheck-pick current ds (file ∷ files) m err =
      elim (Bool-cases (is_empty (hash_for current file.path))) [
        | inl e ↦
            rw (e, recheck)
              (elim (Bool-cases (differs (c.hash_func file.path).0 file.md5)) [
                | inl d ↦ rw d (recheck-pick current ds files (ds ++ file.path ∷ []) _)
                | inr d ↦ rw d (recheck-pick current ds files m _)
              ])
        | inr e ↦
            rw (e, recheck)
              (elim (Bool-cases (differs (hash_for current file.path) file.md5)) [
                | inl d ↦ rw d (recheck-pick current ds files (ds ++ file.path ∷ []) _)
                | inr d ↦ rw d (recheck-pick current ds files m _)
              ])
      ]

  compare_current-pick :
      (previous : Snapshot) (ds : List Text) (files : List UncommittedFile) (m : List Text)
      → compare_current previous ds files m ≡ pick ds m (changed_now previous files)
  unfolding compare_current pick
  compare_current-pick previous ds [] m = refl
  compare_current-pick previous ds (file ∷ files) m =
      elim (Bool-cases (differs (hash_for previous file.path) file.md5)) [
        | inl e ↦ rw e (compare_current-pick previous ds files (ds ++ file.path ∷ []))
        | inr e ↦ rw e (compare_current-pick previous ds files m)
      ]

  -- Where files that were or are uncommitted have a changed hash, `Diff` reports the files that
  -- `git diff` lists and only the last of these; where there are none, those that `git diff` lists
  -- and the previous snapshot has no hash for.
  pub compare_all_lem :
      (previous current : Snapshot) (ds : List Text)
      → (compare_all c previous current ds).0
        ≡ replaced ds (committed previous ds) (last_of (changed previous current))
  unfolding compare_all
  compare_all_lem previous current ds =
      compare_current-pick previous ds current.uncommitted_files _
      ∙ (ap (λ m. pick ds m (changed_now previous current.uncommitted_files))
            (recheck-pick current ds previous.uncommitted_files (committed previous ds) false)
          ∙ (pick-append ds (committed previous ds)
                (changed_before current previous.uncommitted_files)
                (changed_now previous current.uncommitted_files)
              ∙ pick-last ds (committed previous ds) (changed previous current)))
