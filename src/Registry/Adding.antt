-- ===== src/Registry/Adding.antt =====
-- `Add` on the registry as a whole.
use taskrunner.Prelude.{
  ℕ, ◌≡◌, ◌↔◌, inl, inr, if◌then◌else◌, true, false, ◌&&◌, none, some, List, [], Text, text_eq,
  text_eq_iff, lookup, lookup-insert, arith, In, Option-cases, Bool-cases,
}
use taskrunner.Task.{Task, TaskFlag}
use taskrunner.Registry.{FlagMap, Registry, duplicate_task, check_flag, add_flags, add}
use taskrunner.Registry.Flags.{has_key, Finds, add_flags-Finds, add_flags-passed}

pub record IsRegistered (task : Task) (t : ℕ) (r r' : Registry) (m : FlagMap) : Type 0 where
  pub unnamed : lookup task.name r.definitions ≡ none
  pub one_function : (task.run && task.run_with_flags) ≡ false
  pub named :
      (name : Text)
      → lookup name r'.definitions
        ≡ (if text_eq task.name name then some t else lookup name r.definitions)
  pub mapped :
      (name : Text)
      → lookup name r'.flags_by_task
        ≡ (if text_eq task.name name then some m else lookup name r.flags_by_task)
  pub listed :
      (k : Text) (f : TaskFlag) → (lookup k m ≡ some f) ↔ (In f task.flags × (has_key f k ≡ true))
  pub passed : (f : TaskFlag) → In f task.flags → check_flag task.name f ≡ none

no_nil :
    (flags : List TaskFlag) (k : Text) (f : TaskFlag)
    → Finds flags k [] f
    → In f flags × (has_key f k ≡ true)
unfolding lookup
no_nil flags k f (inl e) = absurd (ground arith)
no_nil flags k f (inr c) = c

-- Where `Add` does not panic, the name was free, not both functions were set, and every flag has
-- passed the checks. The task is registered under its name and nothing else changes. Its flag map
-- holds each of its flags under each of its names, and nothing else: no two share a name.
pub add-IsRegistered :
    (definition : ℕ → Task) (r r' : Registry) (t : ℕ)
    → add definition r t ≡ (r', none)
    → (m : FlagMap) × IsRegistered (definition t) t r r' m
unfolding add
add-IsRegistered definition r r' t h =
    elim (Option-cases (lookup (definition t).name r.definitions)) [
      | inr (u, e) ↦ absurd (ground arith)
      | inl e ↦ elim (Bool-cases ((definition t).run && (definition t).run_with_flags)) [
        | inl b ↦ absurd (ground arith)
        | inr b ↦
            let (m, panic) = add_flags (definition t).name (definition t).flags [] in
            let q : add_flags (definition t).name (definition t).flags [] ≡ (m, none) =
              ground arith in
            (
              m,
              record {
                unnamed = e;
                one_function = b;
                named =
                    λ name. ground (arith, lookup-insert (definition t).name name t r.definitions);
                mapped = λ name.
                    ground (arith, lookup-insert (definition t).name name m r.flags_by_task);
                listed = λ k f.
                    let (to, back) =
                      add_flags-Finds (definition t).name (definition t).flags [] m k q f in
                    (λ g. no_nil (definition t).flags k f (to g), λ c. back (inr c));
                passed = add_flags-passed (definition t).name (definition t).flags [] m q;
              },
            )
      ]
    ]

-- A second task of a name is refused, and the registry stays as it was.
pub add_twice :
    (definition : ℕ → Task) (r r' : Registry) (t u : ℕ)
    → add definition r t ≡ (r', none)
    → (definition u).name ≡ (definition t).name
    → add definition r' u ≡ (r', some duplicate_task)
unfolding add
add_twice definition r r' t u h same =
    let (m, g) = add-IsRegistered definition r r' t h in
    let named = g.named (definition u).name in
    let found : lookup (definition u).name r'.definitions ≡ some t =
      ground (arith, text_eq_iff (definition t).name (definition u).name) in
    rw found
