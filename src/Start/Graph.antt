-- ===== src/Start/Graph.antt =====
-- Every outcome of `Run` before its first pass.
use taskrunner.Prelude.{
  ℕ, ◌≡◌, refl, ◌≢◌, ◌<◌, ◌∙◌, subst, ap, inl, inr, ◌⊎◌, Bool, true, false, Option, none, some,
  List, [], ◌∷◌, Text, arith, Option-cases, In, ◌↔◌, any, Bool-cases,
}
use taskrunner.Task.{Task}
use taskrunner.TaskSet.{TaskExecution, TaskSet, Build, add}
use taskrunner.TaskSet.Closure.{recorded, IsComplete, Added, AddsTask}
use taskrunner.TaskSet.Add.{add-AddsTask, add-Returns, IsRanked, Returns}
use taskrunner.Executor.{root, is_nil, idle}
use taskrunner.Start.{
  Outcome, undefined_task, out_of_fuel, help, hook_errors, started, task_registry, with_help,
  is_help, failing, empty_build, begin, run_names, start,
}
use taskrunner.Start.Fresh.{IsFresh, Freshens, add-Freshens}

abbrev pub IsAdded : (Text → Option ℕ) → TaskSet → Text → Type 0
IsAdded registry s name =
    (t : ℕ) × (l : List ℕ) × (registry name ≡ some t) × (recorded s t ≡ some l)

module _ (definition : ℕ → Task) (registry : Text → Option ℕ) where
  pub record IsGraph (names : List Text) (s : TaskSet) : Type 0 where
    pub complete : IsComplete definition s
    pub fresh : IsFresh s
    pub added : (name : Text) → In name names → IsAdded registry s name

  module _ (rank : ℕ → ℕ) (ranked : IsRanked definition rank) (fuel : ℕ)
      (enough : (name : Text) (t : ℕ) → registry name ≡ some t → rank t < fuel)
      (finish : Build → Outcome) (Q : Outcome → Type 0) where
    run_names_ind :
        (names : List Text) (b : Build)
        → IsComplete definition b.tasks
        → IsFresh b.tasks
        → ((name : Text) → In name names → registry name ≡ none → Q (undefined_task name))
        → ((b' : Build)
            → IsGraph names b'.tasks
            → ((u : ℕ) (l : List ℕ)
                → recorded b.tasks u ≡ some l
                → (m : List ℕ) × (recorded b'.tasks u ≡ some m))
            → Q (finish b'))
        → Q (run_names definition fuel registry finish names b)
    unfolding run_names
    run_names_ind [] b c f undefined finished =
        finished b (record { complete = c; fresh = f; added = λ name i. absurd i })
          (λ u l h. (l, h))
    run_names_ind (name ∷ names) b c f undefined finished = elim (Option-cases (registry name)) [
      | inl e ↦ rw (e, run_names) (undefined name (inl refl) e)
      | inr (t, e) ↦ elim (Option-cases (add definition fuel root t b)) [
        | inl q ↦
            absurd
              (subst Returns q (add-Returns definition rank ranked fuel root t b (enough name t e)))
        | inr ((b₁, deps), q) ↦
            let a : Added definition t b.tasks b₁.tasks deps =
              subst (AddsTask definition t b.tasks) q (add-AddsTask definition fuel root t b c) in
            rw (e, q, run_names)
              (run_names_ind names b₁ a.complete
                (subst Freshens q (add-Freshens definition fuel root t b f))
                (λ n i. undefined n (inr i))
                (λ b' g kept.
                  finished b'
                    (record {
                      complete = g.complete;
                      fresh = g.fresh;
                      added = λ n i. elim i [
                        | inl p ↦ let (m, r) = kept t deps a.found in (t, m, ap registry p ∙ e, r)
                        | inr j ↦ g.added n j
                      ];
                    })
                    (λ u l h. let (m, r) = a.extends u l h in kept u m r)))
      ]
    ]

  -- A task that the visit of the set comes to, is in the set, and was given a help flag.
  abbrev pub IsHelped : (Text → List Text) → List ℕ → TaskSet → ℕ → Type 0
  IsHelped flag_args order s t =
      In t order
      × ((e : TaskExecution) × (s t ≡ some e))
      × (any is_help (flag_args (definition t).name) ≡ true)

  -- What an outcome of `Run` says of its arguments.
  abbrev pub Explains : (Text → List Text) → List ℕ → List Bool → List Text → Outcome → Type 0
  Explains flag_args order hooks names (undefined_task name) =
      In name names × (registry name ≡ none)
  Explains flag_args order hooks names out_of_fuel = ⊥
  Explains flag_args order hooks names (help ts) =
      (s : TaskSet) × IsGraph names s
      × (ts ≢ [])
      × ((t : ℕ) → In t ts ↔ IsHelped flag_args order s t)
  Explains flag_args order hooks names (hook_errors errors) =
      (s : TaskSet) × IsGraph names s
      × (errors ≡ failing 0 hooks)
      × (errors ≢ [])
      × ((t : ℕ) → ¬ (IsHelped flag_args order s t))
  Explains flag_args order hooks names (started x) =
      IsGraph names x.tasks
      × (x.runs ≡ [])
      × (x.plan ≡ idle)
      × (failing 0 hooks ≡ [])
      × ((t : ℕ) → ¬ (IsHelped flag_args order x.tasks t))

  In-with_help :
      (flag_args : Text → List Text) (order : List ℕ) (s : TaskSet) (t : ℕ)
      → In t (with_help definition flag_args order s) ↔ IsHelped flag_args order s t
  unfolding with_help
  In-with_help flag_args [] s t = (λ i. absurd i, λ h. absurd h.0)
  In-with_help flag_args (u ∷ order) s t =
      let (to, back) = In-with_help flag_args order s t in
      elim (Option-cases (s u)) [
        | inl n ↦
            rw (n, with_help)
              (
                λ i. let (m, e, h) = to i in (inr m, e, h),
                λ h. elim h.0 [
                  | inl q ↦ let (e, found) = h.1 in absurd (absent q n e found)
                  | inr m ↦ back (m, h.1, h.2)
                ],
              )
        | inr (x, n) ↦ elim (Bool-cases (any is_help (flag_args (definition u).name))) [
          | inl a ↦
              rw (n, a, with_help)
                (
                  λ i. elim i [
                    | inl q ↦ (
                      inl q,
                      (x, ap s q ∙ n),
                      ap (λ v. any is_help (flag_args (definition v).name)) q ∙ a,
                    )
                    | inr j ↦ let (m, e, h) = to j in (inr m, e, h)
                  ],
                  λ h. elim h.0 [ inl q ↦ inl q | inr m ↦ inr (back (m, h.1, h.2)) ],
                )
          | inr a ↦
              rw (n, a, with_help)
                (
                  λ i. let (m, e, h) = to i in (inr m, e, h),
                  λ h. elim h.0 [
                    | inl q ↦
                        let not_asked =
                          ap (λ v. any is_help (flag_args (definition v).name)) q ∙ a in
                        let asked = h.2 in absurd (ground arith)
                    | inr m ↦ back (m, h.1, h.2)
                  ],
                )
        ]
      ]
    where
      absent : t ≡ u → s u ≡ none → (e : TaskExecution) → s t ≡ some e → ⊥
      absent q n e found = let here = ap s q ∙ n in absurd (ground arith)

  no_help :
      (flag_args : Text → List Text) (order : List ℕ) (s : TaskSet)
      → with_help definition flag_args order s ≡ []
      → (t : ℕ) → ¬ (IsHelped flag_args order s t)
  no_help flag_args order s e t h = subst (In t) e ((In-with_help flag_args order s t).1 h)

nil-cases : (l : List ℕ) → ((is_nil l ≡ true) × (l ≡ [])) ⊎ ((is_nil l ≡ false) × (l ≢ []))
nil-cases [] = inl (refl, refl)
nil-cases (x ∷ l) = inr (refl, λ e. cc)

begin-Explains :
    (definition : ℕ → Task) (registry : Text → Option ℕ) (flag_args : Text → List Text)
    (order : List ℕ) (hooks : List Bool) (names : List Text) (b : Build)
    → IsGraph definition registry names b.tasks
    → Explains definition registry flag_args order hooks names
        (begin definition flag_args order hooks b)
begin-Explains definition registry flag_args order hooks names b g =
    elim (nil-cases (with_help definition flag_args order b.tasks)) [
      | inr (n, e) ↦ rw n (b.tasks, g, e, In-with_help definition registry flag_args order b.tasks)
      | inl (n, e) ↦
          let none_asks = no_help definition registry flag_args order b.tasks e in
          elim (nil-cases (failing 0 hooks)) [
            | inr (m, q) ↦ rw (n, m) (b.tasks, g, refl, q, none_asks)
            | inl (m, q) ↦ rw (n, m) (g, refl, refl, q, none_asks)
          ]
    ]

-- Where the dependencies have no cycle and the fuel is above the rank of every registered task,
-- `Run` has one of four outcomes before its first pass. It reports a name that is not registered.
-- Or all names are registered, and the graph is built: each named task is in the set, and every task of
-- it has recorded exactly the tasks that it needs. Then, if some task of the set was given a help flag,
-- help is shown for exactly those that the visit of the set comes to. Else, if start hooks fail, these
-- are reported. Else the executor starts with that set, and nothing runs.
pub start-Explains :
    (definition : ℕ → Task) (fuel : ℕ) (all : List ℕ) (flag_args : Text → List Text)
    (order : List ℕ) (hooks : List Bool) (names : List Text) (rank : ℕ → ℕ)
    → IsRanked definition rank
    → ((name : Text) (t : ℕ) → task_registry definition all name ≡ some t → rank t < fuel)
    → Explains definition
        (task_registry definition all)
        flag_args
        order
        hooks
        names
        (start definition fuel all flag_args order hooks names)
unfolding start
start-Explains definition fuel all flag_args order hooks names rank ranked enough =
    run_names_ind definition (task_registry definition all) rank ranked fuel enough
      (begin definition flag_args order hooks)
      (Explains definition (task_registry definition all) flag_args order hooks names) names
      empty_build
      (record {
        sound = λ t l h. absurd (ground arith);
        complete = λ t l h. absurd (ground arith);
        registered = λ t l h. absurd (ground arith);
      })
      (λ t. tt) (λ name i e. (i, e))
      (λ b g kept.
        begin-Explains definition (task_registry definition all) flag_args order hooks names b g)
