-- ===== src/Runner/Names.antt =====
-- Which tasks have a group.
use taskrunner.Prelude.{
  ◌≡◌, ◌↔◌, ◌⊎◌, inl, inr, refl, sym, ap, subst, ◌∙◌, Bool, true, false, not, ◌&&◌, ◌||◌, List, [],
  ◌∷◌, ◌++◌, Text, text_eq, text_eq_iff, is_empty, insert, any, In, arith, Bool-cases,
}
use taskrunner.Registry.{Registry}
use taskrunner.Runner.{
  FlagGroups, is_flag, Grouping, ungrouped, store, is_defined, group_arg, group_all,
  group_task_and_flag_args, keys,
}

-- The argument is the name of a task, or of none.
abbrev pub is_task : Registry → Text → Bool
is_task r arg = not (is_flag arg) && (is_defined r arg && not (is_empty arg))

abbrev pub is_unknown : Registry → Text → Bool
is_unknown r arg = not (is_flag arg) && not (is_defined r arg)

In-keys-insert :
    (name k : Text) (flags : List Text) (m : FlagGroups)
    → In name (keys (insert k flags m)) ↔ ((name ≡ k) ⊎ In name (keys m))
unfolding insert
In-keys-insert name k flags [] = (λ i. i, λ i. i)
In-keys-insert name k flags ((j, old) ∷ m) =
    let (to, back) = In-keys-insert name k flags m in
    elim (Bool-cases (text_eq j k)) [
      | inl e ↦
          let same : j ≡ k = (text_eq_iff j k).0 e in
          rw e (
            λ i. elim i [ inl q ↦ inl q | inr x ↦ inr (inr x) ],
            λ i. elim i [
              | inl q ↦ inl q
              | inr x ↦ elim x [ inl q ↦ inl (q ∙ same) | inr y ↦ inr y ]
            ],
          )
      | inr e ↦ rw e (
        λ i. elim i [
          | inl q ↦ inr (inl q)
          | inr x ↦ elim (to x) [ inl q ↦ inl q | inr y ↦ inr (inr y) ]
        ],
        λ i. elim i [
          | inl q ↦ inr (back (inl q))
          | inr x ↦ elim x [ inl q ↦ inl q | inr y ↦ inr (back (inr y)) ]
        ],
      )
    ]

-- A task of a group, or the current one.
abbrev Grouped : Text → Grouping → Type 0
Grouped name g = ((name ≡ g.curr_task) × (is_empty g.curr_task ≡ false)) ⊎ In name (keys g.groups)

In-store : (name : Text) (g : Grouping) → In name (keys (store g)) ↔ Grouped name g
unfolding store
In-store name g =
    let (to, back) = In-keys-insert name g.curr_task g.curr_flags g.groups in
    elim (Bool-cases (is_empty g.curr_task)) [
      | inl e ↦
          rw e
            (λ i. inr i, λ h. elim h [ inl q ↦ let f = q.1 in absurd (ground arith) | inr i ↦ i ])
      | inr e ↦ rw e (
        λ i. elim (to i) [ inl q ↦ inl (q, refl) | inr j ↦ inr j ],
        λ h. elim h [ inl q ↦ back (inl q.0) | inr j ↦ back (inr j) ],
      )
    ]

-- What one argument adds.
abbrev Adds : Registry → Text → Text → Grouping → Grouping → Type 0
Adds r name arg g g' = Grouped name g' ↔ (Grouped name g ⊎ ((name ≡ arg) × (is_task r arg ≡ true)))

flag-Adds :
    (r : Registry) (name arg : Text) (g : Grouping) (flags : List Text)
    → is_flag arg ≡ true
    → Adds r name arg g (record g { curr_flags = flags })
flag-Adds r name arg g flags f =
    (λ h. inl h, λ h. elim h [ inl i ↦ i | inr q ↦ let no = q.1 in absurd (ground arith) ])

group_arg-Adds :
    (r : Registry) (name arg : Text) (g : Grouping) → Adds r name arg g (group_arg r arg g)
unfolding group_arg
group_arg-Adds r name arg g =
    let (to, back) = In-store name g in
    elim (Bool-cases (is_flag arg)) [
      | inl f ↦ elim (Bool-cases (is_empty g.curr_task)) [
        | inl e ↦
            let step : group_arg r arg g ≡ record g { curr_flags = g.curr_flags } =
              rw (f, e, group_arg) refl in
            subst (Adds r name arg g) (sym step) (flag-Adds r name arg g g.curr_flags f)
        | inr e ↦
            let step : group_arg r arg g ≡ record g { curr_flags = g.curr_flags ++ arg ∷ [] } =
              rw (f, e, group_arg) refl in
            subst (Adds r name arg g) (sym step)
              (flag-Adds r name arg g (g.curr_flags ++ arg ∷ []) f)
      ]
      | inr f ↦ elim (Bool-cases (is_defined r arg)) [
        | inl d ↦
            rw (f, d, group_arg)
              (
                λ h. elim h [ inl q ↦ inr (q.0, rw q.1 refl) | inr i ↦ inl (to i) ],
                λ h. elim h [
                  | inl i ↦ inr (back i)
                  | inr q ↦ let yes = q.1 in inl (q.0, ground arith)
                ],
              )
        | inr d ↦
            rw (f, d, group_arg)
              (
                λ h. elim h [ inl q ↦ let no = q.1 in absurd (ground arith) | inr i ↦ inl (to i) ],
                λ h. elim h [
                  | inl i ↦ inr (back i)
                  | inr q ↦ let no = q.1 in absurd (ground arith)
                ],
              )
      ]
    ]

group_all-Grouped :
    (r : Registry) (name : Text) (args : List Text) (g : Grouping)
    → Grouped name (group_all r args g)
      ↔ (Grouped name g ⊎ (In name args × (is_task r name ≡ true)))
unfolding group_all
group_all-Grouped r name [] g = (λ h. inl h, λ h. elim h [ inl i ↦ i | inr q ↦ absurd q.0 ])
group_all-Grouped r name (arg ∷ args) g =
    let (to, back) = group_all-Grouped r name args (group_arg r arg g) in
    let (to', back') = group_arg-Adds r name arg g in
    (
      λ h. elim (to h) [
        | inl i ↦ elim (to' i) [ inl j ↦ inl j | inr q ↦ inr (inl q.0, ap (is_task r) q.0 ∙ q.1) ]
        | inr q ↦ inr (inr q.0, q.1)
      ],
      λ h. elim h [
        | inl i ↦ back (inl (back' (inl i)))
        | inr q ↦ elim q.0 [
          | inl e ↦ back (inl (back' (inr (e, ap (is_task r) (sym e) ∙ q.1))))
          | inr i ↦ back (inr (i, q.1))
        ]
      ],
    )

group_all-found_invalid :
    (r : Registry) (args : List Text) (g : Grouping)
    → (group_all r args g).found_invalid ≡ (g.found_invalid || any (is_unknown r) args)
unfolding group_all group_arg
group_all-found_invalid r [] g = ground arith
group_all-found_invalid r (arg ∷ args) g =
    ground (arith, group_all-found_invalid r args (group_arg r arg g))

-- The tasks with a group are the arguments that are names of tasks, and an unknown task was found if an
-- argument is one.
pub groups-names :
    (r : Registry) (args : List Text)
    → let (groups, invalid) = group_task_and_flag_args r args in
      ((name : Text) → In name (keys groups) ↔ (In name args × (is_task r name ≡ true)))
      × (invalid ≡ any (is_unknown r) args)
unfolding group_task_and_flag_args
groups-names r args = (
  λ name.
      let (to, back) = In-store name (group_all r args ungrouped) in
      let (to', back') = group_all-Grouped r name args ungrouped in
      (
        λ i. elim (to' (to i)) [
          | inl h ↦ elim h [ inl q ↦ let no = q.1 in absurd (ground arith) | inr j ↦ absurd j ]
          | inr q ↦ q
        ],
        λ q. back (back' (inr q)),
      ),
  group_all-found_invalid r args ungrouped,
)
