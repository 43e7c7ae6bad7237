-- ===== src/FlagArgs/Parse.antt =====
-- `parseTaskFlagsIntoMap` as a whole.
use taskrunner.Prelude.{
  split, sym, ◌∙◌, In, ◌<◌, true, false, is_empty, ℕ, ◌≡◌, refl, subst, inl, inr, Option, none,
  some, List, [], ◌∷◌, Text, text_eq_iff, utf8, lookup, length, arith, Bool-cases, ltb,
  text_eq_refl,
}
use taskrunner.Task.{Task, TaskFlag}
use taskrunner.Registry.{FlagMap, Registry, add}
use taskrunner.Registry.Flags.{has_key}
use taskrunner.Registry.Adding.{IsRegistered, add-IsRegistered}
use taskrunner.FlagArgs.{
  default_arg, ArgMap, Parsed, bad_key, bad_syntax, args, Key, verified, refused, default_map,
  set_found, with_key, then_parse, task_flags, parse_flag, parse_flags_from, parse_flags,
  verify_key, head_of, second_of,
}
use taskrunner.FlagArgs.Names.{IsFlagMap, HasBoth, Agree, set_arg-Agree, default_map-lookup}

-- The map that `Add` makes of the flags of a task is a flag map.
pub IsRegistered-IsFlagMap :
    (task : Task) (t : ℕ) (r r' : Registry) (m : FlagMap) → IsRegistered task t r r' m → IsFlagMap m
IsRegistered-IsFlagMap task t r r' m g = record {
  own = λ k f h ne.
      let (i, b) = (g.listed k f).0 h in
      ground (arith, text_eq_iff f.long_name k, text_eq_iff (utf8 f.short_name) k);
  long = λ k f h e.
      let (i, b) = (g.listed k f).0 h in
      (g.listed f.long_name f).1 (i, ground (arith, text_eq_refl f.long_name));
  short = λ k f h e.
      let (i, b) = (g.listed k f).0 h in
      (g.listed (utf8 f.short_name) f).1 (i, ground (arith, text_eq_refl (utf8 f.short_name)));
}

abbrev OnArgs : (ArgMap → Type 0) → Parsed → Type 0
OnArgs P (args m) = P m
OnArgs P _ = Unit

default_map-lookup-some :
    (k : Text) (f : TaskFlag) (r : FlagMap)
    → lookup k r ≡ some f
    → lookup k (default_map r) ≡ some (default_arg f)
default_map-lookup-some k f r h = rw (default_map-lookup r k, h) refl

then_parse-OnArgs :
    (P : ArgMap → Type 0) (p : Parsed) (k : ArgMap → Parsed)
    → OnArgs P p
    → ((m : ArgMap) → P m → OnArgs P (k m))
    → OnArgs P (then_parse p k)
then_parse-OnArgs P (bad_key e) k h next = tt
then_parse-OnArgs P bad_syntax k h next = tt
then_parse-OnArgs P (args m) k h next = next m h

module _ (registry : List (Text × FlagMap)) (task : Text) (f : TaskFlag)
    (closed : IsFlagMap (task_flags registry task))
    (both : HasBoth (task_flags registry task) f) where
  set_found-Agree :
      (key : Text) (o : Option TaskFlag) (val : Text) (m : ArgMap)
      → lookup key (task_flags registry task) ≡ o
      → Agree f m
      → Agree f (set_found key o val m)
  set_found-Agree key none val m h a = a
  set_found-Agree key (some g) val m h a =
      set_arg-Agree (task_flags registry task) closed f both key g val m h a

  with_key-Agree :
      (key : Key) (parts : List Text) (m : ArgMap)
      → Agree f m
      → OnArgs (Agree f) (with_key (task_flags registry task) key parts m)
  with_key-Agree (refused e) parts m a = tt
  with_key-Agree (verified key) parts m a = elim (Bool-cases (ltb 2 (length parts))) [
    | inl h ↦ rw h tt
    | inr h ↦
        rw h
          (set_found-Agree key (lookup key (task_flags registry task)) (second_of parts) m refl a)
  ]

  parse_flag-Agree :
      (flag : Text) (m : ArgMap) → Agree f m → OnArgs (Agree f) (parse_flag registry task flag m)
  unfolding parse_flag
  parse_flag-Agree flag m a =
      with_key-Agree (verify_key registry task (head_of (split b'=' [] flag))) (split b'=' [] flag)
        m a

  parse_flags_from-Agree :
      (flags : List Text) (m : ArgMap)
      → Agree f m
      → OnArgs (Agree f) (parse_flags_from registry task flags m)
  unfolding parse_flags_from
  parse_flags_from-Agree [] m a = a
  parse_flags_from-Agree (flag ∷ flags) m a =
      then_parse-OnArgs (Agree f) (parse_flag registry task flag m) _ (parse_flag-Agree flag m a)
        (parse_flags_from-Agree flags)

  default_map-Agree : Agree f (default_map (task_flags registry task))
  default_map-Agree = (
    default_arg f,
    default_map-lookup-some f.long_name f (task_flags registry task) both.by_long,
    default_map-lookup-some (utf8 f.short_name) f (task_flags registry task) both.by_short,
    refl,
  )

  parse_flags-Agree :
      (flags : List Text) {m : ArgMap} → parse_flags registry task flags ≡ args m → Agree f m
  unfolding parse_flags
  parse_flags-Agree flags h =
      subst (OnArgs (Agree f)) h
        (parse_flags_from-Agree flags (default_map (task_flags registry task)) default_map-Agree)

-- The flags that `Add` has registered, as the executor looks them up.
pub task_flags-add :
    (task : Task) (t : ℕ) (r r' : Registry) (m : FlagMap)
    → IsRegistered task t r r' m
    → task_flags r'.flags_by_task task.name ≡ m
task_flags-add task t r r' m g =
    let h : lookup task.name r'.flags_by_task ≡ some m =
      g.mapped task.name ∙ rw (text_eq_refl task.name) refl in
    rw (h, task_flags) refl

nonempty_of_length : (s : Text) → 1 < length s → is_empty s ≡ false
nonempty_of_length [] h = absurd (ground arith)
nonempty_of_length (c ∷ s) h = refl

by_long_key : (f : TaskFlag) → 1 < length f.long_name → has_key f f.long_name ≡ true
by_long_key f h = rw (nonempty_of_length f.long_name h, text_eq_refl f.long_name) refl

by_short_key : (f : TaskFlag) → 0 < f.short_name → has_key f (utf8 f.short_name) ≡ true
by_short_key f h = ground (arith, text_eq_refl (utf8 f.short_name))

pub IsRegistered-HasBoth :
    (task : Task) (t : ℕ) (r r' : Registry) (m : FlagMap)
    → IsRegistered task t r r' m
    → (f : TaskFlag) → In f task.flags
    → 1 < length f.long_name
    → 0 < f.short_name
    → f.short_name < 128
    → HasBoth m f
IsRegistered-HasBoth task t r r' m g f i long short ascii = record {
  long = long;
  short = short;
  ascii = ascii;
  by_long = (g.listed f.long_name f).1 (i, by_long_key f long);
  by_short = (g.listed (utf8 f.short_name) f).1 (i, by_short_key f short);
}

-- Take a flag with a name of two bytes or more and a name of one ASCII character, of a task that
-- `Add` has registered. However flags are passed to the task, if their parsing does not panic, then
-- the flag has an argument, and it is the same under both names.
pub parse_flags_registered :
    (definition : ℕ → Task) (r r' : Registry) (t : ℕ) (f : TaskFlag) (flags : List Text)
    (m : ArgMap)
    → add definition r t ≡ (r', none)
    → In f (definition t).flags
    → 1 < length f.long_name
    → 0 < f.short_name
    → f.short_name < 128
    → parse_flags r'.flags_by_task (definition t).name flags ≡ args m
    → Agree f m
parse_flags_registered definition r r' t f flags m added i long short ascii h =
    let (fs, g) = add-IsRegistered definition r r' t added in
    let same = task_flags-add (definition t) t r r' fs g in
    parse_flags-Agree r'.flags_by_task (definition t).name f
      (subst IsFlagMap (sym same) (IsRegistered-IsFlagMap (definition t) t r r' fs g))
      (subst (λ q. HasBoth q f) (sym same)
        (IsRegistered-HasBoth (definition t) t r r' fs g f i long short ascii))
      flags h
