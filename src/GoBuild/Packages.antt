-- ===== src/GoBuild/Packages.antt =====
-- Which files concern a package.
use mathlib.Core.List.{append_assoc}
use taskrunner.Prelude.{
  All-append, has_prefix, ◌≡◌, refl, sym, ap, subst, ◌∙◌, ◌==◌, Bool, true, false, not, ◌&&◌, ◌||◌,
  some, List, [], ◌∷◌, ◌++◌, Text, bytes, text_eq_iff, IsFree, split, split-line, split-last,
  lookup, lookup-insert, any, All, arith, inl, inr, Option-cases,
}
use taskrunner.Task.{file_change}
use taskrunner.GoBuild.{
  StdlibLookup, new_build_binder, contains, has_suffix, trim_prefix, trim_suffix, BuildBinder,
  save_dependencies, is_std_lib, touches, should_invalidate,
}

module _ (stat : Text → Bool) where
  -- What the table knows is what the file system says.
  abbrev pub IsRight : StdlibLookup → Type 0
  IsRight table = (pkg : Text) (found : Bool) → lookup pkg table ≡ some found → found ≡ stat pkg

  is_std_lib_lem :
      (pkg : Text) (table : StdlibLookup)
      → IsRight table
      → let (std, table') = is_std_lib stat pkg table in (std ≡ stat pkg) × IsRight table'
  unfolding is_std_lib
  is_std_lib_lem pkg table h = elim (Option-cases (lookup pkg table)) [
    | inl e ↦
        rw (e, is_std_lib)
          (
            refl,
            λ p found q.
                ground (arith, lookup-insert pkg p (stat pkg) table, text_eq_iff pkg p, h p found),
          )
    | inr (found, e) ↦ rw (e, is_std_lib) (h pkg found e, h)
  ]

  abbrev pub concerns : Text → Text → Bool
  concerns file dep = not (stat dep) && contains file dep

  touches_lem :
      (file : Text) (deps : List Text) (table : StdlibLookup)
      → IsRight table
      → let (touched, table') = touches stat file deps table in
        (touched ≡ any (concerns file) deps) × IsRight table'
  unfolding touches
  touches_lem file [] table h = (refl, h)
  touches_lem file (dep ∷ deps) table h =
      let (answer, right) = is_std_lib_lem dep table h in
      let (rest, right') = touches_lem file deps (is_std_lib stat dep table).1 right in ground arith

-- A list of packages as `go list` prints it.
abbrev pub printed : Text → List Text → Text
printed dep [] = dep
printed dep (next ∷ deps) = dep ++ 32 ∷ printed next deps

abbrev pub front : Text → List Text → List Text
front dep [] = []
front dep (next ∷ deps) = dep ∷ front next deps

abbrev pub back : Text → List Text → Text
back dep [] = dep
back dep (next ∷ deps) = back next deps

-- The end of the line that `go list` prints.
abbrev pub line_end : Text
line_end = 93 ∷ 10 ∷ []

split-printed :
    (dep : Text) (deps : List Text)
    → All (IsFree 32) (dep ∷ deps)
    → split 32 [] (printed dep deps ++ line_end)
      ≡ front dep deps ++ (back dep deps ++ line_end) ∷ []
split-printed dep [] h =
    split-last 32 [] (dep ++ line_end)
      (All-append (λ c. (c == 32) ≡ false) dep line_end h.0 (refl, (refl, tt)))
split-printed dep (next ∷ deps) h =
    ap (split 32 []) (append_assoc dep (32 ∷ printed next deps) line_end)
    ∙ split-line 32 [] dep (printed next deps ++ line_end) h.0
    ∙ ap (λ l. dep ∷ l) (split-printed next deps h.1)

-- A text that ends in a line end has no bracket at its end.
trim_suffix-newline : (s : Text) → trim_suffix 93 (s ++ 10 ∷ []) ≡ s ++ 10 ∷ []
unfolding trim_suffix
trim_suffix-newline [] = refl
trim_suffix-newline (c ∷ []) = refl
trim_suffix-newline (c ∷ d ∷ s) = ap (λ t. c ∷ t) (trim_suffix-newline (d ∷ s))

has_prefix-newline : (file s : Text) → IsFree 10 file → has_prefix file (s ++ 10 ∷ []) ≡ false
unfolding has_prefix
has_prefix-newline [] [] h = refl
has_prefix-newline [] (d ∷ s) h = refl
has_prefix-newline (c ∷ file) [] h = rw (h.0) refl
has_prefix-newline (c ∷ file) (d ∷ s) h = ground (arith, has_prefix-newline file s h.1)

contains-newline : (file s : Text) → IsFree 10 file → contains file (s ++ 10 ∷ []) ≡ false
unfolding contains
contains-newline [] s h = has_prefix-newline [] s h
contains-newline (c ∷ file) s h =
    ground (arith, has_prefix-newline (c ∷ file) s h, contains-newline file s h.1)

any-append_none :
    (p : Text → Bool) (xs ys : List Text) (x : Text)
    → p x ≡ false
    → any p ((xs ++ x ∷ []) ++ ys) ≡ any p (xs ++ ys)
any-append_none p [] ys x h = rw h refl
any-append_none p (y ∷ xs) ys x h = ap (λ b. p y || b) (any-append_none p xs ys x h)

-- A binder that has the list of a package's dependencies from `go list`.
abbrev pub listed : Text → Text → List Text → BuildBinder × Bool
listed pkg dep deps =
    save_dependencies (some (91 ∷ (printed dep deps ++ line_end))) (new_build_binder pkg)

module _ (stat : Text → Bool) where
  listed_lem :
      (pkg dep : Text) (deps : List Text)
      → All (IsFree 32) (dep ∷ deps)
      → listed pkg dep deps ≡ (
        record {
          pkg = pkg;
          pkg_dependencies = some (front dep deps ++ (back dep deps ++ line_end) ∷ []);
        },
        false,
      )
  unfolding save_dependencies trim_prefix
  listed_lem pkg dep deps h =
      ap (λ (l : List Text). (record { pkg = pkg; pkg_dependencies = some l }, false))
        (ap (split 32 []) (
            ap (trim_suffix 93) (sym (append_assoc (printed dep deps) (93 ∷ []) (10 ∷ [])))
            ∙ trim_suffix-newline (printed dep deps ++ 93 ∷ [])
            ∙ append_assoc (printed dep deps) (93 ∷ []) (10 ∷ []))
          ∙ split-printed dep deps h)

  -- Once `go list` has printed the dependencies of a package, a change of a Go file invalidates its
  -- task exactly if the path of the file has in it the package, or one of the dependencies other than
  -- the last, that is not of the standard library: the last one has kept the end of the line. What is
  -- remembered of packages stays right.
  pub should_invalidate-listed :
      (pkg dep : Text) (deps : List Text) (file : Text) (table : StdlibLookup)
      → All (IsFree 32) (dep ∷ deps)
      → IsFree 10 file
      → has_suffix file (bytes ".go") ≡ true
      → IsRight stat table
      → let (b, err) = listed pkg dep deps in
        let (invalidates, table') = should_invalidate stat b (file_change file) table in
        (err ≡ false)
        × (invalidates ≡ any (concerns stat file) (front dep deps ++ pkg ∷ []))
        × IsRight stat table'
  should_invalidate-listed pkg dep deps file table h free go right =
      subst
        (λ (r : BuildBinder × Bool).
          (r.1 ≡ false)
          × ((should_invalidate stat r.0 (file_change file) table).0
              ≡ any (concerns stat file) (front dep deps ++ pkg ∷ []))
          × IsRight stat (should_invalidate stat r.0 (file_change file) table).1)
        (sym (listed_lem pkg dep deps h))
        (
          refl,
          ap (λ (r : Bool × StdlibLookup). r.0) told_by
              ∙ told
              ∙ any-append_none (concerns stat file) (front dep deps) (pkg ∷ [])
                  (back dep deps ++ line_end) unseen,
          subst (λ (r : Bool × StdlibLookup). IsRight stat r.1) (sym told_by) right',
        )
    where
      all : List Text
      all = (front dep deps ++ (back dep deps ++ line_end) ∷ []) ++ pkg ∷ []

      told_by :
          should_invalidate stat
            (record {
              pkg = pkg;
              pkg_dependencies = some (front dep deps ++ (back dep deps ++ line_end) ∷ []);
            })
            (file_change file)
            table
          ≡ touches stat file all table
      told_by = unfold should_invalidate in rw go refl

      told : (touches stat file all table).0 ≡ any (concerns stat file) all
      told = (touches_lem stat file all table right).0

      right' : IsRight stat (touches stat file all table).1
      right' = (touches_lem stat file all table right).1

      unseen : concerns stat file (back dep deps ++ line_end) ≡ false
      unseen = ground (
        arith,
        ap (contains file) (sym (append_assoc (back dep deps) (93 ∷ []) (10 ∷ []))),
        contains-newline file (back dep deps ++ 93 ∷ []) free,
      )
