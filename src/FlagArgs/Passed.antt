-- ===== src/FlagArgs/Passed.antt =====
-- A flag that is passed with a value, after others.
use taskrunner.Prelude.{
  ℕ, ◌≡◌, refl, ap, ◌∙◌, ◌<◌, inl, false, none, some, List, [], ◌∷◌, ◌++◌, Text, has_prefix,
  is_empty, utf8, lookup, length, split, IsFree, split-line, split-last, arith, In,
}
use taskrunner.Task.{Task, TaskFlag}
use taskrunner.Registry.{FlagMap, Registry, add}
use taskrunner.Registry.Adding.{add-IsRegistered}
use taskrunner.FlagArgs.{
  passed_arg, ArgMap, Parsed, bad_key, bad_syntax, args, verified, task_flags, verify_key, set_arg,
  then_parse, parse_flag, parse_flags_from, parse_flags, default_map,
}
use taskrunner.FlagArgs.Names.{set_both}
use taskrunner.FlagArgs.Parse.{IsRegistered-IsFlagMap, IsRegistered-HasBoth, task_flags-add}

-- `--name=value`
abbrev pub long_flag : Text → Text → Text
long_flag name value = (45 ∷ 45 ∷ name) ++ 61 ∷ value

module _ (registry : List (Text × FlagMap)) (task : Text) where
  from_parsed :
      (flags more : List Text)
      → ((m : ArgMap)
          → parse_flags_from registry task (flags ++ more) m
            ≡ then_parse
                (parse_flags_from registry task flags m)
                (parse_flags_from registry task more))
      → (p : Parsed)
      → then_parse p (parse_flags_from registry task (flags ++ more))
        ≡ then_parse
            (then_parse p (parse_flags_from registry task flags))
            (parse_flags_from registry task more)
  from_parsed flags more rest (bad_key e) = refl
  from_parsed flags more rest bad_syntax = refl
  from_parsed flags more rest (args m) = rest m

  parse_flags_from-append :
      (flags more : List Text) (m : ArgMap)
      → parse_flags_from registry task (flags ++ more) m
        ≡ then_parse (parse_flags_from registry task flags m) (parse_flags_from registry task more)
  unfolding parse_flags_from
  parse_flags_from-append [] more m = refl
  parse_flags_from-append (flag ∷ flags) more m =
      from_parsed flags more (parse_flags_from-append flags more) (parse_flag registry task flag m)

  verify_key-long :
      (name : Text) (f : TaskFlag)
      → 1 < length name
      → lookup name (task_flags registry task) ≡ some f
      → verify_key registry task (45 ∷ 45 ∷ name) ≡ verified name
  unfolding verify_key has_prefix
  verify_key-long name f h e = ground arith

  split-long :
      (name value : Text)
      → IsFree 61 name
      → IsFree 61 value
      → split 61 [] (long_flag name value) ≡ (45 ∷ 45 ∷ name) ∷ value ∷ []
  split-long name value n v =
      split-line 61 [] (45 ∷ 45 ∷ name) value (refl, (refl, n))
      ∙ ap (λ l. (45 ∷ 45 ∷ name) ∷ l) (split-last 61 [] value v)

  parse_flag-long :
      (name value : Text) (f : TaskFlag) (m : ArgMap)
      → 1 < length name
      → lookup name (task_flags registry task) ≡ some f
      → IsFree 61 name
      → IsFree 61 value
      → parse_flag registry task (long_flag name value) m ≡ args (set_arg name f value m)
  unfolding parse_flag
  parse_flag-long name value f m h e n v =
      rw (split-long name value n v, verify_key-long name f h e, e) refl

  parse_flags-last :
      (flags : List Text) (name value : Text) (f : TaskFlag) (m : ArgMap)
      → 1 < length name
      → lookup name (task_flags registry task) ≡ some f
      → IsFree 61 name
      → IsFree 61 value
      → parse_flags registry task flags ≡ args m
      → parse_flags registry task (flags ++ long_flag name value ∷ [])
        ≡ args (set_arg name f value m)
  unfolding parse_flags parse_flags_from
  parse_flags-last flags name value f m h e n v p =
      let start = default_map (task_flags registry task) in
      parse_flags_from-append flags (long_flag name value ∷ []) start
      ∙ (ap (λ q. then_parse q (parse_flags_from registry task (long_flag name value ∷ []))) p
          ∙ ap (λ q. then_parse q args) (parse_flag-long name value f m h e n v))

-- Take a flag with a name of two bytes or more and a name of one ASCII character, of a task that
-- `Add` has registered. If `--name=value` is passed after flags whose parsing does not panic, and
-- the value is not empty and neither text has an equals sign, then parsing does not panic, and the
-- flag has this value under both names, whatever it was given before.
pub parse_flags_passed :
    (definition : ℕ → Task) (r r' : Registry) (t : ℕ) (f : TaskFlag) (flags : List Text)
    (value : Text) (m : ArgMap)
    → add definition r t ≡ (r', none)
    → In f (definition t).flags
    → 1 < length f.long_name
    → 0 < f.short_name
    → f.short_name < 128
    → IsFree 61 f.long_name
    → IsFree 61 value
    → is_empty value ≡ false
    → parse_flags r'.flags_by_task (definition t).name flags ≡ args m
    → (m' : ArgMap) × (parse_flags r'.flags_by_task
          (definition t).name
          (flags ++ long_flag f.long_name value ∷ [])
        ≡ args m')
      × (lookup f.long_name m' ≡ some (passed_arg f value))
      × (lookup (utf8 f.short_name) m' ≡ some (passed_arg f value))
parse_flags_passed definition r r' t f flags value m added i long short ascii n v given h =
    let (fs, g) = add-IsRegistered definition r r' t added in
    let same = task_flags-add (definition t) t r r' fs g in
    let both = IsRegistered-HasBoth (definition t) t r r' fs g f i long short ascii in
    let closed = IsRegistered-IsFlagMap (definition t) t r r' fs g in
    let (a, b) = set_both fs closed f both f.long_name value m (inl refl) given in
    (
      set_arg f.long_name f value m,
      parse_flags-last r'.flags_by_task (definition t).name flags f.long_name value f m long
          (ap (lookup f.long_name) same ∙ both.by_long) n v h,
      a,
      b,
    )
