-- ===== src/Main/Outcomes.antt =====
-- Every outcome of `Run`, up to the executor.
use taskrunner.Prelude.{
  ℕ, ◌≡◌, ◌≢◌, ◌↔◌, ◌⊎◌, inl, inr, refl, sym, ap, subst, ◌∙◌, Bool, true, false, not, ◌&&◌, ◌||◌,
  some, List, [], ◌∷◌, ◌++◌, Text, any, In, arith, Bool-cases,
}
use taskrunner.Task.{Task}
use taskrunner.Registry.{Registry, tasks}
use taskrunner.Runner.{keys, group_task_and_flag_args}
use taskrunner.Runner.Names.{is_task, is_unknown, groups-names}
use taskrunner.Options.{RuntimeCall, Settings, run_executor}
use taskrunner.Options.Order.{given, flat, last_mode, run_executor_lem}
use taskrunner.Main.{
  Options, bad_flags, unreadable_config, no_definitions, both_lists, invalid_targets, Launch, fatal,
  listed, described, launched, is_nil, list_heading, task_list, descriptions, choose, run_main,
}

any-In : {A : Type 0} (p : A → Bool) (xs : List A) (a : A) → In a xs → p a ≡ true → any p xs ≡ true
any-In p [] a i h = absurd i
any-In p (x ∷ xs) a (inl e) h = let here = ap p (sym e) ∙ h in rw here refl
any-In p (x ∷ xs) a (inr i) h = ground (arith, any-In p xs a i h)

any-found :
    {A : Type 0} (p : A → Bool) (xs : List A) → any p xs ≡ true → (a : A) × In a xs × (p a ≡ true)
any-found p [] h = absurd (ground arith)
any-found p (x ∷ xs) h = elim (Bool-cases (p x)) [
  | inl e ↦ (x, inl refl, e)
  | inr e ↦ let (a, i, q) = any-found p xs (ground arith) in (a, inr i, q)
]

module _ (definition : ℕ → Task) (r : Registry) (o : Options) (args default_tasks : List Text)
    (options : List (List RuntimeCall)) where
  -- The run gets to its tasks.
  abbrev pub Proceeds : Type 0
  Proceeds =
      (is_nil (tasks definition r) ≡ false)
      × ((o.list_tasks || o.list_all_tasks) ≡ false)
      × (o.describe_tasks ≡ false)

  -- The settings of the executor: the groups of the arguments, the flags of the registry, and the watch
  -- mode of the last option that sets one.
  abbrev pub IsConfigured : Bool → Settings → Type 0
  IsConfigured watch_mode e =
      (e.task_flag_args ≡ (group_task_and_flag_args r args).0)
      × (e.task_flags_registry ≡ r.flags_by_task)
      × (e.watch_mode ≡ last_mode watch_mode (given (flat options)))

  -- An executor for the tasks that arguments name, or for those of the configuration.
  abbrev pub Runs : Bool → Settings → List Text → Type 0
  Runs true e desired =
      IsConfigured o.watch e
      × ((name : Text) → In name desired ↔ (In name args × (is_task r name ≡ true)))
  Runs false e desired =
      IsConfigured (not o.non_interactive) e
      × (any (is_unknown r) args ≡ false)
      × (desired ≡ default_tasks)

  -- What an outcome of `Run` says of its arguments.
  abbrev pub Explains : Launch → Type 0
  Explains (fatal bad_flags) = ⊥
  Explains (fatal unreadable_config) = ⊥
  Explains (fatal no_definitions) = tasks definition r ≡ []
  Explains (fatal both_lists) =
      (tasks definition r ≢ []) × (o.list_tasks ≡ true) × (o.list_all_tasks ≡ true)
  Explains (fatal invalid_targets) =
      Proceeds × (any (is_task r) args ≡ false) × (any (is_unknown r) args ≡ true)
  Explains (listed text) =
      (tasks definition r ≢ [])
      × ((o.list_tasks || o.list_all_tasks) ≡ true)
      × ((o.list_tasks && o.list_all_tasks) ≡ false)
      × (text ≡ list_heading ++ task_list definition o.list_tasks (tasks definition r))
  Explains (described rows) =
      (tasks definition r ≢ [])
      × ((o.list_tasks || o.list_all_tasks) ≡ false)
      × (o.describe_tasks ≡ true)
      × (rows ≡ descriptions definition (tasks definition r))
  Explains (launched ts e desired) =
      Proceeds × (ts ≡ tasks definition r) × Runs (any (is_task r) args) e desired

  configured :
      (watch_mode : Bool)
      → IsConfigured watch_mode
          (run_executor watch_mode (group_task_and_flag_args r args).0 r.flags_by_task options)
  configured watch_mode =
      let (a, b, c, we, mode, shell, groups, flags) =
        run_executor_lem watch_mode (group_task_and_flag_args r args).0 r.flags_by_task options in
      (groups, flags, mode)

  nil-cases :
      {A : Type 0} (l : List A) → ((is_nil l ≡ true) × (l ≡ [])) ⊎ ((is_nil l ≡ false) × (l ≢ []))
  nil-cases [] = inl (refl, refl)
  nil-cases (x ∷ l) = inr (refl, λ e. cc)

  module _ (iterate : List Text → List Text)
      (same : (l : List Text) (t : Text) → In t (iterate l) ↔ In t l) where
    -- The names that `range` over the groups gives.
    desired_lem :
        (name : Text)
        → In name (iterate (keys (group_task_and_flag_args r args).0))
          ↔ (In name args × (is_task r name ≡ true))
    desired_lem name =
        let (to, back) = same (keys (group_task_and_flag_args r args).0) name in
        let (to', back') = (groups-names r args).0 name in (λ i. to' (to i), λ h. back (back' h))

    names_none :
        iterate (keys (group_task_and_flag_args r args).0) ≡ [] → any (is_task r) args ≡ false
    names_none e = elim (Bool-cases (any (is_task r) args)) [
      | inr h ↦ h
      | inl h ↦
          let (name, i, q) = any-found (is_task r) args h in
          absurd (subst (In name) e ((desired_lem name).1 (i, q)))
    ]

    names_some :
        (l : List Text)
        → iterate (keys (group_task_and_flag_args r args).0) ≡ l
        → l ≢ []
        → any (is_task r) args ≡ true
    names_some [] e n = absurd (n refl)
    names_some (name ∷ l) e n =
        let (i, q) = (desired_lem name).0 (subst (In name) (sym e) (inl refl)) in
        any-In (is_task r) args name i q

    choose-Explains :
        Proceeds
        → Explains (
            choose definition options iterate r o default_tasks
              (tasks definition r)
              (group_task_and_flag_args r args))
    unfolding choose
    choose-Explains p =
        let unknown = (groups-names r args).1 in
        elim (nil-cases (iterate (keys (group_task_and_flag_args r args).0))) [
          | inl (n, e) ↦ elim (Bool-cases (group_task_and_flag_args r args).1) [
            | inl u ↦ rw (n, u, choose) (p, names_none e, sym unknown ∙ u)
            | inr u ↦
                rw (n, u, choose, names_none e)
                  (p, refl, (configured (not o.non_interactive), sym unknown ∙ u, refl))
          ]
          | inr (n, e) ↦
              rw (n, choose, names_some _ refl e) (p, refl, (configured o.watch, desired_lem))
        ]

    -- `Run` with flags that parse and a configuration that reads has one of these outcomes. Without
    -- tasks, or if both lists are asked for, it fails; else it lists or describes the tasks if it is
    -- asked to. Else, if arguments name tasks, an executor runs exactly these, and if none does, those of
    -- the configuration, in watch mode unless the run is non-interactive; but it fails if an argument is
    -- unknown and none names a task. The executor has all tasks of the registry, the flags of the
    -- arguments and of the registry, and the watch mode of the last option that sets one. Go may visit
    -- the groups in any order.
    pub run_main-Explains :
        Explains (run_main definition options iterate r (some (o, args)) (some default_tasks))
    unfolding run_main
    run_main-Explains = elim (nil-cases (tasks definition r)) [
      | inl (n, e) ↦ rw (n, run_main) e
      | inr (n, e) ↦ elim (Bool-cases (o.list_tasks && o.list_all_tasks)) [
        | inl b ↦ rw (n, b, run_main) (e, ground arith, ground arith)
        | inr b ↦ elim (Bool-cases (o.list_tasks || o.list_all_tasks)) [
          | inl l ↦ rw (n, b, l, run_main) (e, l, b, refl)
          | inr l ↦ elim (Bool-cases o.describe_tasks) [
            | inl d ↦ rw (n, b, l, d, run_main) (e, l, refl, refl)
            | inr d ↦
                let step : run_main definition options iterate r (some (o, args))
                      (some default_tasks)
                    ≡ choose definition options iterate r o default_tasks (tasks definition r)
                        (group_task_and_flag_args r args) =
                  rw (n, b, l, d, run_main) refl in
                subst Explains (sym step) (choose-Explains (n, l, d))
          ]
        ]
      ]
    ]
