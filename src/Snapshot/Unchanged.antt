-- ===== src/Snapshot/Unchanged.antt =====
-- `Diff` against a snapshot of the state that it finds.
use taskrunner.Prelude.{
  ◌≡◌, ◌↔◌, refl, sym, ap, ◌∙◌, inl, inr, subst, if◌then◌else◌, Bool, true, false, some, List, [],
  ◌∷◌, ◌++◌, Text, text_eq_refl, text_eq_iff, In, In-append_left, is_empty, arith, Bool-cases, All,
  lookup,
}
use taskrunner.Snapshot.{
  Snapshotter, files_of, Snapshot, UncommittedFile, snapshot_of, snapshot, hash_for, committed,
  current_hash, differs, recheck, compare_current, compare_all, diff, hash_files,
}
use taskrunner.Snapshot.Maps.{Hashes, hashed, hash_files-hashed, listed, load_map-hashed}

-- The hash function gives every file a hash.
abbrev pub IsTotal : Snapshotter → Type 0
IsTotal c = (p : Text) → ((c.hash_func p).1 ≡ false) × (is_empty (c.hash_func p).0 ≡ false)

module _ (c : Snapshotter) (total : IsTotal c) where
  All-Hashes : (ps : List Text) → All (Hashes c) ps
  All-Hashes [] = tt
  All-Hashes (p ∷ ps) = ((total p).0, All-Hashes ps)

  abbrev taken : Text → List Text → Snapshot
  taken sha ps = snapshot_of sha (hashed c ps)

  hash_for-taken :
      (sha p : Text) (ps : List Text)
      → hash_for (taken sha ps) p ≡ (if listed c p ps then (c.hash_func p).0 else [])
  unfolding lookup
  hash_for-taken sha p ps =
      rw (load_map-hashed c p ps [])
        (elim (Bool-cases (listed c p ps)) [ inl e ↦ rw e refl | inr e ↦ rw e refl ])

  abbrev Listed : List Text → Text → Type 0
  Listed ps p = listed c p ps ≡ true

  hash_for-Listed :
      (sha p : Text) (ps : List Text) → Listed ps p → hash_for (taken sha ps) p ≡ (c.hash_func p).0
  hash_for-Listed sha p ps h = hash_for-taken sha p ps ∙ rw h refl

  same : (p : Text) → differs (c.hash_func p).0 (c.hash_func p).0 ≡ false
  same p = rw ((total p).1, text_eq_refl (c.hash_func p).0) refl

  -- The files among `ds` that are not uncommitted ones of the snapshot.
  abbrev pub unlisted : List Text → List Text → List Text
  unlisted ps [] = []
  unlisted ps (d ∷ ds) = let rest = unlisted ps ds in if listed c d ps then rest else d ∷ rest

  committed-unlisted :
      (sha : Text) (ps ds : List Text) → committed (taken sha ps) ds ≡ unlisted ps ds
  unfolding committed
  committed-unlisted sha ps [] = refl
  committed-unlisted sha ps (d ∷ ds) =
      let rest = committed-unlisted sha ps ds in
      let hash = hash_for-taken sha d ps in
      elim (Bool-cases (listed c d ps)) [
        | inl e ↦ rw (hash, e, (total d).1) rest
        | inr e ↦ rw (hash, e) (ap (λ l. d ∷ l) rest)
      ]

  pub In-unlisted :
      (f : Text) (ps ds : List Text) → In f (unlisted ps ds) ↔ (In f ds × (listed c f ps ≡ false))
  In-unlisted f ps [] = (λ i. absurd i, λ h. h.0)
  In-unlisted f ps (d ∷ ds) =
      let (to, back) = In-unlisted f ps ds in
      elim (Bool-cases (listed c d ps)) [
        | inl e ↦ rw e (
          λ i. let (j, l) = to i in (inr j, l),
          λ h. elim h.0 [
            | inl q ↦
                let here = ap (λ x. listed c x ps) q ∙ e in let out = h.1 in absurd (ground arith)
            | inr j ↦ back (j, h.1)
          ],
        )
        | inr e ↦ rw e (
          λ i. elim i [
            | inl q ↦ (inl q, ap (λ x. listed c x ps) q ∙ e)
            | inr j ↦ let (k, l) = to j in (inr k, l)
          ],
          λ h. elim h.0 [ inl q ↦ inl q | inr j ↦ inr (back (j, h.1)) ],
        )
      ]

  current_hash-same :
      (sha p : Text) (ns : List Text)
      → current_hash c (taken sha ns) p false ≡ ((c.hash_func p).0, false)
  current_hash-same sha p ns = elim (Bool-cases (listed c p ns)) [
    | inl e ↦
        let h : hash_for (taken sha ns) p ≡ (c.hash_func p).0 = hash_for-Listed sha p ns e in
        subst (λ x. (if is_empty x then c.hash_func p else (x, false)) ≡ ((c.hash_func p).0, false))
          (sym h) (rw (total p).1 refl)
    | inr e ↦
        let h : hash_for (taken sha ns) p ≡ [] = hash_for-taken sha p ns ∙ rw e refl in
        subst (λ x. (if is_empty x then c.hash_func p else (x, false)) ≡ ((c.hash_func p).0, false))
          (sym h) (ap (λ b. ((c.hash_func p).0, b)) (total p).0)
  ]

  recheck-same :
      (sha : Text) (ns ds ps m : List Text)
      → recheck c (taken sha ns) ds (hashed c ps) (m, false) ≡ (m, false)
  unfolding recheck
  recheck-same sha ns ds [] m = refl
  recheck-same sha ns ds (p ∷ ps) m =
      rw (current_hash-same sha p ns, same p, recheck) (recheck-same sha ns ds ps m)

  compare_current-same :
      (sha : Text) (ps ds ns m : List Text)
      → All (Listed ps) ns
      → compare_current (taken sha ps) ds (hashed c ns) m ≡ m
  unfolding compare_current
  compare_current-same sha ps ds [] m h = refl
  compare_current-same sha ps ds (n ∷ ns) m h =
      rw (hash_for-Listed sha n ps h.0, same n, compare_current)
        (compare_current-same sha ps ds ns m h.1)

  Listed-of_In : (p : Text) (ps : List Text) → In p ps → Listed ps p
  Listed-of_In p [] i = elim i [ ]
  Listed-of_In p (q ∷ qs) (inl e) = ground (arith, text_eq_iff q p)
  Listed-of_In p (q ∷ qs) (inr i) = ground (arith, Listed-of_In p qs i)

  All-of_In : {P : Text → Type 0} (ps : List Text) → ((p : Text) → In p ps → P p) → All P ps
  All-of_In [] h = tt
  All-of_In (p ∷ ps) h = (h p (inl refl), All-of_In ps (λ q i. h q (inr i)))

  Listed-append : (ns ms : List Text) → All (Listed (ns ++ ms)) ns
  Listed-append ns ms = All-of_In ns (λ p i. Listed-of_In p (ns ++ ms) (In-append_left p ns ms i))

  snapshot_eq :
      (with_changed : Bool) (sha : Text) (new_files modified_files : List Text)
      (hs : List UncommittedFile)
      → c.commit_func ≡ some sha
      → c.uncommitted_files_func ≡ some (new_files, modified_files)
      → hash_files c (files_of with_changed (new_files, modified_files)) ≡ some hs
      → snapshot c with_changed ≡ some (snapshot_of sha hs)
  unfolding snapshot
  snapshot_eq with_changed sha ns ms hs commit uncommitted hash = simp (commit, uncommitted, hash)

  compared :
      (sha : Text) (ns ms ds : List Text)
      → compare_all c (taken sha (ns ++ ms)) (taken sha ns) ds ≡ (unlisted (ns ++ ms) ds, false)
  unfolding compare_all
  compared sha ns ms ds =
      rw
        (
          committed-unlisted sha (ns ++ ms) ds,
          recheck-same sha ns ds (ns ++ ms) (unlisted (ns ++ ms) ds),
          compare_current-same sha (ns ++ ms) ds ns (unlisted (ns ++ ms) ds) (Listed-append ns ms),
        )
        refl

  -- Where every file has a hash, a snapshot with the modified files is taken, and against it `Diff`
  -- reports, without an error, the files that `git diff` lists but that are not uncommitted.
  pub diff-unchanged :
      (sha : Text) (new_files modified_files ds : List Text)
      → c.commit_func ≡ some sha
      → c.uncommitted_files_func ≡ some (new_files, modified_files)
      → c.diff_func sha ≡ some ds
      → (hs : List UncommittedFile) × (snapshot c true ≡ some (snapshot_of sha hs))
        × (diff c (snapshot_of sha hs) ≡ (unlisted (new_files ++ modified_files) ds, false))
  unfolding diff
  diff-unchanged sha ns ms ds commit uncommitted git =
      let current : snapshot c false ≡ some (taken sha ns) =
        snapshot_eq false sha ns ms (hashed c ns) commit uncommitted
          (hash_files-hashed c ns (All-Hashes ns)) in
      (
        hashed c (ns ++ ms),
        snapshot_eq true sha ns ms (hashed c (ns ++ ms)) commit uncommitted
            (hash_files-hashed c (ns ++ ms) (All-Hashes (ns ++ ms))),
        rw (current, git, diff) (compared sha ns ms ds),
      )
