-- ===== src/Watch/Loop.antt =====
-- From the output of fswatch to the calls of Invalidate.
use taskrunner.Prelude.{
  ℕ, ◌≡◌, ◌↔◌, refl, sym, ap, subst, ◌∙◌, inl, inr, Bool, true, Option, some, List, [], ◌∷◌, ◌++◌,
  map, Text, In, In-append, In-append_left, In-append_right, All, arith, Option-cases,
}
use taskrunner.Task.{Task, InvalidationEvent, file_change}
use taskrunner.Watcher.{FilePaths, WatchEvent, End, run_fswatch}
use taskrunner.Watcher.Scan.{printed}
use taskrunner.Watcher.Fswatch.{Report, line_of, event_of, IsReport, run_fswatch_lem}
use taskrunner.Watch.{invalidations, is_task_source, watch_events}
use taskrunner.Watch.Calls.{invalidations_lem}

some_inj : {A : Type 0} {a b : A} → some a ≡ some b → a ≡ b
some_inj h = cc

module _ (glob : Text → Text → Option Bool) (definition : ℕ → Task) (order : List ℕ) where
  -- A task that has the path for a source, and the event that tells it.
  abbrev Told : ℕ → InvalidationEvent → Text → Type 0
  Told t event path =
      In t order
      × (is_task_source glob (definition t) path ≡ some true)
      × (event ≡ file_change path)

  -- A call that one of the reports leads to.
  abbrev pub Caused : ℕ → InvalidationEvent → List Report → Type 0
  Caused t event reports = (report : Report) × In report reports × Told t event report.relative

  Caused-cons :
      (t : ℕ) (event : InvalidationEvent) (report : Report) (reports : List Report)
      (calls later : List (ℕ × InvalidationEvent))
      → (In (t, event) calls ↔ Told t event report.relative)
      → (In (t, event) later ↔ Caused t event reports)
      → In (t, event) (calls ++ later) ↔ Caused t event (report ∷ reports)
  Caused-cons t event report reports calls later first rest = (
    λ i. elim (In-append (t, event) calls later i) [
      | inl j ↦ (report, inl refl, first.0 j)
      | inr j ↦ let (r, k, told) = rest.0 j in (r, inr k, told)
    ],
    λ w.
        let (r, k, told) = w in
        elim k [
          | inl e ↦
              In-append_left (t, event) calls later
                (first.1 (subst (λ (q : Report). Told t event q.relative) e told))
          | inr k' ↦ In-append_right (t, event) calls later (rest.1 (r, k', told))
        ],
  )

  watch_events-Caused :
      (reports : List Report) (calls : List (ℕ × InvalidationEvent))
      → watch_events glob definition order (map event_of reports) ≡ some calls
      → (t : ℕ) (event : InvalidationEvent) → In (t, event) calls ↔ Caused t event reports
  unfolding watch_events
  watch_events-Caused [] calls h t event =
      subst (λ l. In {A = ℕ × InvalidationEvent} (t, event) l ↔ Caused t event []) (some_inj h)
        (λ i. elim i [ ], λ w. elim (w.1) [ ])
  watch_events-Caused (report ∷ reports) calls h t event =
      elim (Option-cases (invalidations glob definition report.relative order)) [
        | inl e ↦ absurd (ground arith)
        | inr (first, e) ↦
            elim (Option-cases (watch_events glob definition order (map event_of reports))) [
              | inl q ↦ absurd (ground arith)
              | inr (later, q) ↦
                  subst
                    (λ l.
                      In {A = ℕ × InvalidationEvent} (t, event) l
                      ↔ Caused t event (report ∷ reports))
                    (some_inj (ground arith))
                    (Caused-cons t event report reports first later
                      (invalidations_lem glob definition report.relative order first e t event)
                      (watch_events-Caused reports later q t event))
            ]
      ]

  -- What fswatch prints of events at paths without spaces becomes calls of Invalidate: where no pattern
  -- ends the program, exactly the tasks of the set that have a changed file for a source are told, each
  -- of that file.
  pub watch_events_lem :
      (paths : FilePaths) (directory : Text) (reports : List Report)
      (calls : List (ℕ × InvalidationEvent)) (t : ℕ) (event : InvalidationEvent)
      → All (IsReport paths directory) reports
      → watch_events glob definition order
          (run_fswatch paths directory (printed (map line_of reports))).0
        ≡ some calls
      → In (t, event) calls ↔ Caused t event reports
  watch_events_lem paths directory reports calls t event h run =
      watch_events-Caused reports calls
        (ap (λ (l : List WatchEvent). watch_events glob definition order l)
            (sym
              (ap (λ (r : List WatchEvent × End). r.0) (run_fswatch_lem paths directory reports h)))
          ∙ run)
        t event
