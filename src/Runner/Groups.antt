-- ===== src/Runner/Groups.antt =====
-- `groupTaskAndFlagArgs` as a whole.
use taskrunner.Prelude.{
  ◌≡◌, subst, inl, inr, refl, sym, ◌∙◌, if◌then◌else◌, Bool, true, false, not, ◌&&◌, ◌||◌, some,
  List, [], ◌∷◌, ◌++◌, append-nil, append_one, Text, text_eq, is_empty, lookup, insert,
  lookup-insert, arith, Bool-cases, All,
}
use taskrunner.Registry.{Registry}
use taskrunner.Runner.{
  FlagGroups, is_flag, Grouping, ungrouped, store, is_defined, group_arg, group_all,
  group_task_and_flag_args,
}

abbrev pub AreFlags : List Text → Type 0
AreFlags fs = All (λ f. is_flag f ≡ true) fs

group_all-append :
    (r : Registry) (xs ys : List Text) (g : Grouping)
    → group_all r (xs ++ ys) g ≡ group_all r ys (group_all r xs g)
unfolding group_all
group_all-append r [] ys g = refl
group_all-append r (x ∷ xs) ys g = group_all-append r xs ys (group_arg r x g)

-- Without a current task, flags are dropped.
group_all-dropped :
    (r : Registry) (fs : List Text) (g : Grouping)
    → AreFlags fs
    → is_empty g.curr_task ≡ true
    → group_all r fs g ≡ g
unfolding group_all group_arg
group_all-dropped r [] g h e = refl
group_all-dropped r (f ∷ fs) g h e = rw (h.0, e, group_all-dropped r fs g h.1 e) refl

-- With a current task, they are collected for it.
group_all-collected :
    (r : Registry) (fs : List Text) (g : Grouping)
    → AreFlags fs
    → is_empty g.curr_task ≡ false
    → group_all r fs g ≡ record g { curr_flags = g.curr_flags ++ fs }
unfolding group_all group_arg
group_all-collected r [] g h e = rw (append-nil g.curr_flags) refl
group_all-collected r (f ∷ fs) g h e =
    rw (h.0, e, sym (append_one g.curr_flags f fs))
      (group_all-collected r fs (record g { curr_flags = g.curr_flags ++ f ∷ [] }) h.1 e)

abbrev started : Text → Grouping → Grouping
started t g = record g { groups = store g; curr_task = t; curr_flags = [] }

abbrev ended : Grouping → Grouping
ended g = record g {
  groups = store g;
  found_invalid = true;
  curr_task = [];
  curr_flags = if is_empty g.curr_task then g.curr_flags else [];
}

group_arg-task :
    (r : Registry) (t : Text) (g : Grouping)
    → is_flag t ≡ false
    → group_arg r t g ≡ (if is_defined r t then started t g else ended g)
unfolding group_arg
group_arg-task r t g n = rw (n, group_arg) refl

-- What the arguments from the last task on add to the groups.
abbrev Segment : Registry → Text → List Text → Grouping → Grouping → Type 0
Segment r t fs g g' =
    (store g' ≡ (if is_defined r t && not (is_empty t) then insert t fs (store g) else store g))
    × (g'.found_invalid ≡ (g.found_invalid || not (is_defined r t)))

group_all-Segment :
    (r : Registry) (t : Text) (fs : List Text) (g : Grouping)
    → is_flag t ≡ false
    → AreFlags fs
    → Segment r t fs g (group_all r (t ∷ fs) g)
unfolding group_all
group_all-Segment r t fs g n h = elim (Bool-cases (is_defined r t)) [
  | inl d ↦
      let s : group_arg r t g ≡ started t g = group_arg-task r t g n ∙ rw d refl in
      elim (Bool-cases (is_empty t)) [
        | inl e ↦
            let all : group_all r (t ∷ fs) g ≡ started t g =
              rw s (group_all-dropped r fs (started t g) h e) in
            subst (Segment r t fs g) (sym all) (rw (d, e) (refl, ground arith))
        | inr e ↦
            let all : group_all r (t ∷ fs) g ≡ record (started t g) { curr_flags = fs } =
              rw s (group_all-collected r fs (started t g) h e) in
            subst (Segment r t fs g) (sym all) (rw (d, e) (refl, ground arith))
      ]
  | inr d ↦
      let s : group_arg r t g ≡ ended g = group_arg-task r t g n ∙ rw d refl in
      let all : group_all r (t ∷ fs) g ≡ ended g = rw s (group_all-dropped r fs (ended g) h refl) in
      subst (Segment r t fs g) (sym all) (rw d (refl, ground arith))
]

segment-lookup :
    (name t : Text) (fs : List Text) (m m' : FlagGroups) (b : Bool)
    → m' ≡ (if b then insert t fs m else m)
    → lookup name m' ≡ (if b && text_eq t name then some fs else lookup name m)
segment-lookup name t fs m m' true h = rw h (lookup-insert t name fs m)
segment-lookup name t fs m m' false h = rw h refl

-- The groups of a list of arguments are those of the arguments before its last task, and, where
-- that task is defined and has a name, the flags after it under its name; flags alone make no
-- groups. Whether an unknown task was found goes along.
pub group_task_and_flag_args_lem :
    (r : Registry) (pre : List Text) (t : Text) (fs : List Text)
    → is_flag t ≡ false
    → AreFlags fs
    → (group_task_and_flag_args r fs ≡ ([], false))
      × (let (before, invalid) = group_task_and_flag_args r pre in
          let (after, invalid') = group_task_and_flag_args r (pre ++ t ∷ fs) in
          ((name : Text)
            → lookup name after ≡ (
                if (is_defined r t && not (is_empty t)) && text_eq t name
                then some fs
                else lookup name before))
          × (invalid' ≡ (invalid || not (is_defined r t))))
unfolding group_task_and_flag_args store
group_task_and_flag_args_lem r pre t fs n h =
    let g = group_all r pre ungrouped in
    let (p, q) = group_all-Segment r t fs g n h in
    (
      rw (group_all-dropped r fs ungrouped h refl) refl,
      rw (group_all-append r pre (t ∷ fs) ungrouped) (
        λ name.
            segment-lookup name t fs (store g) (store (group_all r (t ∷ fs) g))
              (is_defined r t && not (is_empty t)) p,
        q,
      ),
    )
