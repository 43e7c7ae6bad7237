-- ===== src/Shell.antt =====
-- shell/shell.go, and `ShellRun` of executor.go: with which options a command is run. The parser and
-- the interpreter of the package mvdan.cc/sh are parameters; writers and readers are numbers.
pub mod Options
use taskrunner.Prelude.{
  ℕ, if◌then◌else◌, Bool, true, false, Option, none, some, List, [], ◌∷◌, ◌++◌, Text, insert,
}

-- The fields of an `interp.Runner` that options set.
pub record InterpRunner : Type 0 where
  pub stdout : Option ℕ
  pub stderr : Option ℕ
  pub stdin : Option ℕ
  pub env : List (Text × Text)
  pub dir : Text

-- `RunOption`: those of the package, the one that `ShellRun` puts first, which takes the writers of
-- the logger of the task, and any other.
pub data RunOption : Type 0 where
  stdout_option stderr_option stdin_option : ℕ → RunOption
  env_option : List (Text × Text) → RunOption
  logger_option : Option (ℕ × ℕ) → RunOption
  dir_option : Text → RunOption

unfoldable pub set_env : List (Text × Text) → List (Text × Text) → List (Text × Text)
unfolding insert
set_env [] env = env
set_env ((k, v) ∷ vars) env = set_env vars (insert k v env)

unfoldable pub apply_run_option : RunOption → InterpRunner → InterpRunner
unfolding set_env
apply_run_option (stdout_option w) r = record r { stdout = some w }
apply_run_option (stderr_option w) r = record r { stderr = some w }
apply_run_option (stdin_option i) r = record r { stdin = some i }
apply_run_option (env_option vars) r = record r { env = set_env vars r.env }
apply_run_option (logger_option none) r = r
apply_run_option (logger_option (some (out, err))) r = record r {
  stdout = some out;
  stderr = some err;
}
apply_run_option (dir_option dir) r = record r { dir = dir }

unfoldable pub apply_run_options : List RunOption → InterpRunner → InterpRunner
unfolding apply_run_option
apply_run_options [] r = r
apply_run_options (opt ∷ opts) r = apply_run_options opts (apply_run_option opt r)

pub data ShellResult : Type 0 where
  parse_error setup_panic : ShellResult
  ran : InterpRunner → (err : Bool) → ShellResult

-- `parses` is whether a command is one, `interpreter` what `interp.New` gives, `exec` whether a
-- command fails.
module _ (parses : Text → Bool) (interpreter : Option InterpRunner)
    (exec : InterpRunner → Text → Bool) where
  -- `Run` of the package
  unfoldable pub run_shell : Text → List RunOption → ShellResult
  unfolding apply_run_options
  run_shell command opts =
      if parses command
      then (elim interpreter [
        | none ↦ setup_panic
        | some r ↦ ran (apply_run_options opts r) (exec (apply_run_options opts r) command)
      ])
      else parse_error

  -- `ShellRun` of an executor: `logger` are the writers of the logger of the context.
  unfoldable pub shell_run : Option (ℕ × ℕ) → List RunOption → Text → List RunOption → ShellResult
  unfolding run_shell
  shell_run logger shell_run_options command opts =
      run_shell command ((logger_option logger ∷ shell_run_options) ++ opts)
