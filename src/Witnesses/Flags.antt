-- ===== src/Witnesses/Flags.antt =====
-- The theorems on the registry, the flags and the command line, on the task `build`.
use taskrunner.Prelude.{
  ◌≡◌, refl, inl, true, false, not, ◌&&◌, ◌||◌, if◌then◌else◌, none, some, List, [], ◌∷◌, ◌++◌,
  Text, text_eq, utf8, is_empty, lookup, insert, bytes, arith,
}
use taskrunner.Registry.{check_flag, put_name, FlagMap, Registry, new_registry, add}
use taskrunner.Registry.Adding.{IsRegistered, add-IsRegistered}
use taskrunner.FlagArgs.{passed_arg, ArgMap, Parsed, args, parse_flags}
use taskrunner.FlagArgs.Names.{Agree}
use taskrunner.FlagArgs.Passed.{long_flag, parse_flags_passed}
use taskrunner.FlagArgs.Parse.{parse_flags_registered}
use taskrunner.Runner.{is_flag, group_task_and_flag_args, is_defined}
use taskrunner.Main.{Options, run_main}
use taskrunner.Options.{RuntimeCall, executor_options_call, with_watch_mode}
use taskrunner.Runner.Groups.{AreFlags, group_task_and_flag_args_lem}
use taskrunner.Main.Outcomes.{Explains, run_main-Explains}
use taskrunner.Witnesses.{mode, definition}

abbrev registered : Registry
registered = (add definition new_registry 0).0

registered_lem : add definition new_registry 0 ≡ (registered, none)
unfolding add lookup insert text_eq check_flag utf8 put_name
registered_lem = refl

add-IsRegistered_example : (m : FlagMap) × IsRegistered (definition 0) 0 new_registry registered m
add-IsRegistered_example = add-IsRegistered definition new_registry registered 0 registered_lem

abbrev passed : List Text
passed = bytes "--mode=prod" ∷ bytes "-m" ∷ []

abbrev args_of : Parsed → ArgMap
args_of (args m) = m
args_of _ = []

abbrev parsed_args : ArgMap
parsed_args = args_of (parse_flags registered.flags_by_task (bytes "build") passed)

parsed_lem : parse_flags registered.flags_by_task (bytes "build") passed ≡ args parsed_args
unfolding add lookup insert text_eq parse_flags check_flag utf8 put_name
parsed_lem = refl

parse_flags_registered_example : Agree mode parsed_args
parse_flags_registered_example =
    parse_flags_registered definition new_registry registered 0 mode passed parsed_args
      registered_lem (inl refl) (omega arith) (omega arith) (omega arith) parsed_lem

build_lem : is_flag (bytes "build") ≡ false
unfolding is_flag
build_lem = refl

passed_lem : AreFlags passed
unfolding is_flag
passed_lem = (refl, (refl, tt))

group_task_and_flag_args_lem_example :
    (group_task_and_flag_args registered passed ≡ ([], false))
    × (let (before, invalid) = group_task_and_flag_args registered (bytes "clean" ∷ []) in
        let (after, invalid') =
          group_task_and_flag_args registered ((bytes "clean" ∷ []) ++ bytes "build" ∷ passed) in
        ((name : Text)
          → lookup name after ≡ (
              if (is_defined registered (bytes "build") && not (is_empty (bytes "build")))
                && text_eq (bytes "build") name
              then some passed
              else lookup name before))
        × (invalid' ≡ (invalid || not (is_defined registered (bytes "build")))))
group_task_and_flag_args_lem_example =
    group_task_and_flag_args_lem registered (bytes "clean" ∷ []) (bytes "build") passed build_lem
      passed_lem

abbrev options : Options
options = record {
  non_interactive = false;
  list_tasks = false;
  list_all_tasks = false;
  watch = true;
  describe_tasks = false;
}

-- The watch mode is turned off by an option, and one argument is unknown.
abbrev no_watch : List (List RuntimeCall)
no_watch = (executor_options_call (with_watch_mode false ∷ []) ∷ []) ∷ []

abbrev arguments : List Text
arguments = bytes "clean" ∷ bytes "build" ∷ passed

run_main-Explains_example :
    Explains definition registered options arguments [] no_watch
      (run_main definition no_watch (λ l. l) registered (some (options, arguments)) (some []))
run_main-Explains_example =
    run_main-Explains definition registered options arguments [] no_watch (λ l. l)
      (λ l t. (λ i. i, λ i. i))

parse_flags_passed_example :
    (m : ArgMap) × (parse_flags registered.flags_by_task
        (bytes "build")
        (passed ++ long_flag (bytes "mode") (bytes "test") ∷ [])
      ≡ args m)
    × (lookup (bytes "mode") m ≡ some (passed_arg mode (bytes "test")))
    × (lookup (utf8 109) m ≡ some (passed_arg mode (bytes "test")))
parse_flags_passed_example =
    parse_flags_passed definition new_registry registered 0 mode passed (bytes "test") parsed_args
      registered_lem (inl refl) (omega arith) (omega arith) (omega arith)
      (refl, (refl, (refl, (refl, tt)))) (refl, (refl, (refl, (refl, tt)))) refl parsed_lem
