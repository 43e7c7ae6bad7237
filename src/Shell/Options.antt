-- ===== src/Shell/Options.antt =====
-- Which of several options of a command holds.
use taskrunner.Prelude.{
  ℕ, ◌≡◌, refl, sym, ap, ◌∙◌, Bool, true, Option, none, some, List, [], ◌∷◌, ◌++◌, Text, arith,
}
use taskrunner.Shell.{
  InterpRunner, RunOption, stdout_option, stderr_option, stdin_option, env_option, logger_option,
  dir_option, apply_run_option, apply_run_options, ran, run_shell, shell_run,
}
use taskrunner.GoBuild.{inject_options}

abbrev pub or_else : {A : Type 0} → Option A → Option A → Option A
or_else none b = b
or_else (some a) b = some a

-- What one option says of the standard output and error.
abbrev out_of : RunOption → Option ℕ
out_of (stdout_option w) = some w
out_of (logger_option (some (out, err))) = some out
out_of _ = none

abbrev err_of : RunOption → Option ℕ
err_of (stderr_option w) = some w
err_of (logger_option (some (out, err))) = some err
err_of _ = none

-- What the last option that says something of it says.
abbrev pub last_out : List RunOption → Option ℕ
last_out [] = none
last_out (opt ∷ opts) = or_else (last_out opts) (out_of opt)

abbrev pub last_err : List RunOption → Option ℕ
last_err [] = none
last_err (opt ∷ opts) = or_else (last_err opts) (err_of opt)

or_else_assoc : {A : Type 0} (a b c : Option A) → or_else (or_else a b) c ≡ or_else a (or_else b c)
or_else_assoc none b c = refl
or_else_assoc (some x) b c = refl

apply_run_option-out :
    (opt : RunOption) (r : InterpRunner)
    → (apply_run_option opt r).stdout ≡ or_else (out_of opt) r.stdout
unfolding apply_run_option
apply_run_option-out (stdout_option w) r = refl
apply_run_option-out (stderr_option w) r = refl
apply_run_option-out (stdin_option w) r = refl
apply_run_option-out (env_option vars) r = refl
apply_run_option-out (logger_option none) r = refl
apply_run_option-out (logger_option (some (out, err))) r = refl
apply_run_option-out (dir_option dir) r = refl

apply_run_option-err :
    (opt : RunOption) (r : InterpRunner)
    → (apply_run_option opt r).stderr ≡ or_else (err_of opt) r.stderr
unfolding apply_run_option
apply_run_option-err (stdout_option w) r = refl
apply_run_option-err (stderr_option w) r = refl
apply_run_option-err (stdin_option w) r = refl
apply_run_option-err (env_option vars) r = refl
apply_run_option-err (logger_option none) r = refl
apply_run_option-err (logger_option (some (out, err))) r = refl
apply_run_option-err (dir_option dir) r = refl

apply_run_options-out :
    (opts : List RunOption) (r : InterpRunner)
    → (apply_run_options opts r).stdout ≡ or_else (last_out opts) r.stdout
unfolding apply_run_options
apply_run_options-out [] r = refl
apply_run_options-out (opt ∷ opts) r =
    apply_run_options-out opts (apply_run_option opt r)
    ∙ ap (or_else (last_out opts)) (apply_run_option-out opt r)
    ∙ sym (or_else_assoc (last_out opts) (out_of opt) r.stdout)

apply_run_options-err :
    (opts : List RunOption) (r : InterpRunner)
    → (apply_run_options opts r).stderr ≡ or_else (last_err opts) r.stderr
unfolding apply_run_options
apply_run_options-err [] r = refl
apply_run_options-err (opt ∷ opts) r =
    apply_run_options-err opts (apply_run_option opt r)
    ∙ ap (or_else (last_err opts)) (apply_run_option-err opt r)
    ∙ sym (or_else_assoc (last_err opts) (err_of opt) r.stderr)

last_out-append :
    (xs ys : List RunOption) → last_out (xs ++ ys) ≡ or_else (last_out ys) (last_out xs)
last_out-append [] ys = ground arith
last_out-append (x ∷ xs) ys =
    ap (λ o. or_else o (out_of x)) (last_out-append xs ys)
    ∙ or_else_assoc (last_out ys) (last_out xs) (out_of x)

last_err-append :
    (xs ys : List RunOption) → last_err (xs ++ ys) ≡ or_else (last_err ys) (last_err xs)
last_err-append [] ys = ground arith
last_err-append (x ∷ xs) ys =
    ap (λ o. or_else o (err_of x)) (last_err-append xs ys)
    ∙ or_else_assoc (last_err ys) (last_err xs) (err_of x)

abbrev logger_out : Option (ℕ × ℕ) → Option ℕ
logger_out none = none
logger_out (some (out, err)) = some out

abbrev logger_err : Option (ℕ × ℕ) → Option ℕ
logger_err none = none
logger_err (some (out, err)) = some err

module _ (parses : Text → Bool) (interpreter : Option InterpRunner)
    (exec : InterpRunner → Text → Bool) where
  -- A command that parses, with the options of a task and, as a task wrapped with a build has them,
  -- those of the builder behind them: it writes to the writer of the last option of the builder that
  -- names one, else of the task's, else of the executor's, else to the logger of the task, else where
  -- the interpreter writes by itself; and so it does with its errors.
  pub shell_run_lem :
      (logger : Option (ℕ × ℕ)) (shell_run_options opts builder_opts : List RunOption)
      (command : Text) (r : InterpRunner)
      → parses command ≡ true
      → interpreter ≡ some r
      → (u : InterpRunner) × (shell_run parses interpreter exec logger shell_run_options command
            (inject_options opts builder_opts)
          ≡ ran u (exec u command))
        × (u.stdout
            ≡ or_else (last_out builder_opts) (
                or_else
                  (last_out opts)
                  (or_else (last_out shell_run_options) (or_else (logger_out logger) r.stdout))))
        × (u.stderr
            ≡ or_else (last_err builder_opts) (
                or_else
                  (last_err opts)
                  (or_else (last_err shell_run_options) (or_else (logger_err logger) r.stderr))))
  unfolding shell_run run_shell inject_options
  shell_run_lem logger shell_run_options opts builder_opts command r parsed made = (
    apply_run_options all r,
    rw (parsed, made) refl,
    apply_run_options-out all r
        ∙ ap (λ o. or_else o r.stdout)
            (last_out-append (logger_option logger ∷ shell_run_options) (opts ++ builder_opts)
              ∙ ap (λ o. or_else o (last_out (logger_option logger ∷ shell_run_options)))
                  (last_out-append opts builder_opts))
        ∙ nested_out logger,
    apply_run_options-err all r
        ∙ ap (λ o. or_else o r.stderr)
            (last_err-append (logger_option logger ∷ shell_run_options) (opts ++ builder_opts)
              ∙ ap (λ o. or_else o (last_err (logger_option logger ∷ shell_run_options)))
                  (last_err-append opts builder_opts))
        ∙ nested_err logger,
  )
    where
      all : List RunOption
      all = (logger_option logger ∷ shell_run_options) ++ (opts ++ builder_opts)

      nest :
          (a b c d e : Option ℕ)
          → or_else (or_else (or_else a b) (or_else c d)) e
            ≡ or_else a (or_else b (or_else c (or_else d e)))
      nest none none none none e = refl
      nest none none none (some x) e = refl
      nest none none (some x) d e = refl
      nest none (some x) c d e = refl
      nest (some x) b c d e = refl

      nested_out :
          (l : Option (ℕ × ℕ))
          → or_else
              (or_else
                (or_else (last_out builder_opts) (last_out opts))
                (last_out (logger_option l ∷ shell_run_options)))
              r.stdout
            ≡ or_else (last_out builder_opts) (
                or_else
                  (last_out opts)
                  (or_else (last_out shell_run_options) (or_else (logger_out l) r.stdout)))
      nested_out none =
          nest (last_out builder_opts) (last_out opts) (last_out shell_run_options) none r.stdout
      nested_out (some (out, err)) =
          nest (last_out builder_opts) (last_out opts) (last_out shell_run_options) (some out)
            r.stdout

      nested_err :
          (l : Option (ℕ × ℕ))
          → or_else
              (or_else
                (or_else (last_err builder_opts) (last_err opts))
                (last_err (logger_option l ∷ shell_run_options)))
              r.stderr
            ≡ or_else (last_err builder_opts) (
                or_else
                  (last_err opts)
                  (or_else (last_err shell_run_options) (or_else (logger_err l) r.stderr)))
      nested_err none =
          nest (last_err builder_opts) (last_err opts) (last_err shell_run_options) none r.stderr
      nested_err (some (out, err)) =
          nest (last_err builder_opts) (last_err opts) (last_err shell_run_options) (some err)
            r.stderr
