-- ===== src/Console/Padding.antt =====
-- The prefixes of registered tasks.
use taskrunner.Prelude.{
  ℕ, zero, suc, ◌-◌, ◌≤◌, ◌≡◌, ◌⊎◌, refl, ap, ◌==◌, if◌then◌else◌, some, List, [], ◌∷◌, Text,
  length, length-append, ltb, In, arith, inl, inr, Bool-cases,
}
use taskrunner.Task.{Task}
use taskrunner.Console.{
  PrefixedWriter, CliLogger, spaces, left_pad, longest_task_name_length, add_writers,
  register_tasks,
}

length-spaces : (n : ℕ) → length (spaces n) ≡ n
length-spaces zero = refl
length-spaces (suc n) = ap suc (length-spaces n)

length-left_pad : (s : Text) (l : ℕ) → length s ≤ l → length (left_pad s l) ≡ l
unfolding left_pad
length-left_pad s l h =
    omega (arith, length-append (spaces (l - length s)) s, length-spaces (l - length s))

module _ (definition : ℕ → Task) where
  longest-le : (tasks : List ℕ) (m : ℕ) → m ≤ longest_task_name_length definition tasks m
  unfolding longest_task_name_length
  longest-le [] m = omega arith
  longest-le (t ∷ tasks) m = elim (Bool-cases (ltb m (length (definition t).name))) [
    | inl e ↦ rw e (ground (arith, longest-le tasks (length (definition t).name)))
    | inr e ↦ rw e (longest-le tasks m)
  ]

  name-le-longest :
      (t : ℕ) (tasks : List ℕ) (m : ℕ)
      → In t tasks
      → length (definition t).name ≤ longest_task_name_length definition tasks m
  unfolding longest_task_name_length
  name-le-longest t [] m i = elim i [ ]
  name-le-longest t (u ∷ tasks) m (inl e) =
      let rest =
        longest-le tasks
          (if ltb m (length (definition u).name) then length (definition u).name else m) in
      let same : length (definition t).name ≡ length (definition u).name =
        ap (λ v. length (definition v).name) e in
      ground arith
  name-le-longest t (u ∷ tasks) m (inr i) =
      name-le-longest t tasks
        (if ltb m (length (definition u).name) then length (definition u).name else m) i

  abbrev writer_of : ℕ → Text → ℕ → PrefixedWriter
  writer_of longest separator t = record {
    prefix = (definition t).name;
    padding = longest;
    separator = separator;
  }

  add_writers-has :
      (longest t : ℕ) (tasks : List ℕ) (l : CliLogger)
      → (l.writers t ≡ some (writer_of longest l.separator t)) ⊎ In t tasks
      → (add_writers definition longest tasks l).writers t ≡ some (writer_of longest l.separator t)
  unfolding add_writers
  add_writers-has longest t [] l (inl h) = h
  add_writers-has longest t [] l (inr i) = elim i [ ]
  add_writers-has longest t (u ∷ tasks) l h =
      add_writers-has longest t tasks
        (record l {
          writers = λ v. if v == u then some (writer_of longest l.separator u) else l.writers v;
        })
        (elim (Bool-cases (t == u)) [
          | inl e ↦ let same : t ≡ u = ground arith in inl (rw (e, same) refl)
          | inr e ↦ elim h [
            | inl k ↦ inl (rw e k)
            | inr i ↦ elim i [ inl same ↦ absurd (ground arith) | inr j ↦ inr j ]
          ]
        ])

  -- Each registered task has a writer with its name and the separator of the logger, and the padded
  -- names of all of them have one width, so that the messages of all tasks are aligned.
  pub register_tasks_lem :
      (tasks : List ℕ) (l : CliLogger) (t : ℕ)
      → In t tasks
      → (w : PrefixedWriter) × ((register_tasks definition tasks l).writers t ≡ some w)
        × (w.prefix ≡ (definition t).name)
        × (w.separator ≡ l.separator)
        × (length (left_pad w.prefix w.padding) ≡ longest_task_name_length definition tasks 0)
  unfolding register_tasks
  register_tasks_lem tasks l t i =
      let longest = longest_task_name_length definition tasks 0 in
      (
        writer_of longest l.separator t,
        add_writers-has longest t tasks l (inr i),
        refl,
        refl,
        length-left_pad (definition t).name longest (name-le-longest t tasks 0 i),
      )
