-- ===== src/Buildkite/Annotation.antt =====
-- What the annotation holds, and what becomes of it when taskrunner stops.
use taskrunner.Prelude.{
  ℕ, zero, suc, ◌+◌, ◌≤◌, ◌≡◌, ◌↔◌, ◌≢◌, refl, sym, ap, subst, ◌∙◌, if◌then◌else◌, Bool, true,
  false, some, List, [], ◌∷◌, ◌++◌, Text, bytes, text_eq, length, drop, arith, inl, inr, Bool-cases,
  In, All,
}
use mathlib.Core.List.{append_assoc}
use taskrunner.Task.{Task}
use taskrunner.Buildkite.{
  Reporter, failed_tasks, failed_section, failed_sections, heading, write_annotation, Disk,
  overwrite, nothing, wrote, write_file, upload, finish_reporter,
}

abbrev pub is_error : (ℕ → Text) → ℕ → Bool
is_error state t = text_eq (state t) (bytes "error")

abbrev pub errors_among : (ℕ → Text) → List ℕ → ℕ
errors_among state [] = 0
errors_among state (t ∷ tasks) = (if is_error state t then 1 else 0) + errors_among state tasks

-- A text that stands somewhere in another.
abbrev pub Holds : Text → Text → Type 0
Holds part s = (before : Text) × (after : Text) × (s ≡ before ++ (part ++ after))

Holds-behind : (part s front : Text) → Holds part s → Holds part (front ++ s)
Holds-behind part s front (before, after, e) = (
  front ++ before,
  after,
  ap (λ t. front ++ t) e ∙ sym (append_assoc front before (part ++ after)),
)

length-failed_tasks :
    (state : ℕ → Text) (tasks : List ℕ)
    → length (failed_tasks state tasks) ≡ errors_among state tasks
unfolding failed_tasks
length-failed_tasks state [] = refl
length-failed_tasks state (t ∷ tasks) = elim (Bool-cases (is_error state t)) [
  | inl e ↦ rw e (omega (arith, length-failed_tasks state tasks))
  | inr e ↦ rw e (omega (arith, length-failed_tasks state tasks))
]

In-failed_tasks :
    (state : ℕ → Text) (t : ℕ) (tasks : List ℕ)
    → In t tasks
    → is_error state t ≡ true
    → In t (failed_tasks state tasks)
unfolding failed_tasks
In-failed_tasks state t [] i h = elim i [ ]
In-failed_tasks state t (u ∷ tasks) (inl e) h =
    let same : is_error state u ≡ true = subst (λ v. is_error state v ≡ true) e h in rw same (inl e)
In-failed_tasks state t (u ∷ tasks) (inr i) h = elim (Bool-cases (is_error state u)) [
  | inl e ↦ rw e (inr (In-failed_tasks state t tasks i h))
  | inr e ↦ rw e (In-failed_tasks state t tasks i h)
]

errors_among_none :
    (state : ℕ → Text) (tasks : List ℕ)
    → (errors_among state tasks ≡ 0) ↔ All (λ t. is_error state t ≡ false) tasks
errors_among_none state [] = (λ h. tt, λ h. refl)
errors_among_none state (t ∷ tasks) =
    let (to, back) = errors_among_none state tasks in
    elim (Bool-cases (is_error state t)) [
      | inl e ↦ (λ h. absurd (ground arith), λ h. absurd (ground arith))
      | inr e ↦ (λ h. (e, to (ground arith)), λ h. ground (arith, back h.1))
    ]

module _ (definition : ℕ → Task) where
  Holds-sections :
      (stderrs : ℕ → List Text) (t : ℕ) (failed : List ℕ)
      → In t failed
      → Holds
          (failed_section (definition t) (stderrs t))
          (failed_sections definition stderrs failed)
  unfolding failed_sections
  Holds-sections stderrs t [] i = elim i [ ]
  Holds-sections stderrs t (u ∷ failed) (inl e) = (
    [],
    failed_sections definition stderrs failed,
    ap (λ v. failed_section (definition v) (stderrs v) ++ failed_sections definition stderrs failed)
        (sym e),
  )
  Holds-sections stderrs t (u ∷ failed) (inr i) =
      Holds-behind (failed_section (definition t) (stderrs t))
        (failed_sections definition stderrs failed) (failed_section (definition u) (stderrs u))
        (Holds-sections stderrs t failed i)

  -- The annotation counts the tasks in the state "error", and for each of them holds its section with
  -- the lines that the reporter kept of it.
  pub write_annotation_lem :
      (label : Text) (state : ℕ → Text) (tasks : List ℕ) (r : Reporter) (t : ℕ)
      → In t tasks
      → is_error state t ≡ true
      → let (annotation, count) = write_annotation definition label state tasks r in
        (count ≡ errors_among state tasks)
        × Holds (failed_section (definition t) (r.stderrs t)) annotation
  unfolding write_annotation
  write_annotation_lem label state tasks r t i h = (
    length-failed_tasks state tasks,
    Holds-behind (failed_section (definition t) (r.stderrs t))
        (failed_sections definition r.stderrs (failed_tasks state tasks))
        (heading label (length (failed_tasks state tasks)))
        (Holds-sections r.stderrs t (failed_tasks state tasks) (In-failed_tasks state t tasks i h)),
  )

drop-all : (n : ℕ) (s : Text) → (drop n s ≡ []) ↔ (length s ≤ n)
drop-all zero [] = (λ h. omega arith, λ h. refl)
drop-all zero (c ∷ s) = (λ h. absurd (ground arith), λ h. absurd (omega arith))
drop-all (suc n) [] = (λ h. omega arith, λ h. refl)
drop-all (suc n) (c ∷ s) =
    let (to, back) = drop-all n s in (λ h. omega (arith, to h), λ h. back (omega arith))

append-same : (s t : Text) → (s ++ t ≡ s) ↔ (t ≡ [])
append-same [] t = (λ h. h, λ h. h)
append-same (c ∷ s) t =
    let (to, back) = append-same s t in (λ h. to (cc), λ h. ap (λ u. c ∷ u) (back h))

overwrite-same : (text old : Text) → (overwrite text (some old) ≡ text) ↔ (length old ≤ length text)
overwrite-same text old =
    let (to, back) = append-same text (drop (length text) old) in
    let (short, long) = drop-all (length text) old in (λ h. short (to h), λ h. back (long h))

module _ (definition : ℕ → Task) (label : Text) (state : ℕ → Text) (disk : Disk)
    (r : Reporter) where
  finish_reporter-wrote :
      (tasks : List ℕ)
      → errors_among state tasks ≢ 0
      → r.upload_directly ≡ false
      → disk.mkdir_fails ≡ false
      → disk.open_fails ≡ false
      → disk.copy_fails ≡ false
      → finish_reporter definition label state tasks disk r
        ≡ wrote (overwrite (write_annotation definition label state tasks r).0 disk.contents)
  unfolding finish_reporter write_annotation write_file
  finish_reporter-wrote tasks h direct m o c = ground (arith, length-failed_tasks state tasks)

  some_error :
      (t : ℕ) (tasks : List ℕ) → In t tasks → is_error state t ≡ true → errors_among state tasks ≢ 0
  some_error t [] i h = elim i [ ]
  some_error t (u ∷ tasks) (inl e) h =
      let same : is_error state u ≡ true = subst (λ v. is_error state v ≡ true) e h in
      λ z. ground arith
  some_error t (u ∷ tasks) (inr i) h = λ z. some_error t tasks i h (ground arith)

  -- With no task in the state "error" nothing is written or uploaded when taskrunner stops, and only
  -- then.
  pub finish_reporter-nothing :
      (tasks : List ℕ)
      → (finish_reporter definition label state tasks disk r ≡ nothing)
        ↔ All (λ t. is_error state t ≡ false) tasks
  unfolding finish_reporter write_annotation write_file upload
  finish_reporter-nothing tasks =
      let (to, back) = errors_among_none state tasks in
      let silent : (finish_reporter definition label state tasks disk r ≡ nothing)
          ↔ (errors_among state tasks ≡ 0) =
        ground (arith, length-failed_tasks state tasks) in
      (λ h. to (silent.0 h), λ h. silent.1 (back h))

  -- Where a task is in the state "error", the annotation goes to a file and no call of the system
  -- fails: a file that was there before holds the annotation and nothing else exactly if it was not
  -- longer than that.
  pub finish_reporter_lem :
      (tasks : List ℕ) (t : ℕ) (old : Text)
      → In t tasks
      → is_error state t ≡ true
      → r.upload_directly ≡ false
      → disk.mkdir_fails ≡ false
      → disk.open_fails ≡ false
      → disk.copy_fails ≡ false
      → disk.contents ≡ some old
      → let annotation = (write_annotation definition label state tasks r).0 in
        (text : Text) × (finish_reporter definition label state tasks disk r ≡ wrote text)
        × ((text ≡ annotation) ↔ (length old ≤ length annotation))
  finish_reporter_lem tasks t old i h direct m o c held =
      let annotation = (write_annotation definition label state tasks r).0 in
      (
        overwrite annotation (some old),
        finish_reporter-wrote tasks (some_error t tasks i h) direct m o c
            ∙ ap (λ d. wrote (overwrite annotation d)) held,
        overwrite-same annotation old,
      )
