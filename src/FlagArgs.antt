-- ===== src/FlagArgs.antt =====
-- executor.go: the flags that are passed to a task. A `FlagArg` is the flag with the text that was
-- passed, if any; its functions are `bool_val` and the others. `strconv` and `time` parse the
-- numbers, and are parameters here.
pub mod Names
pub mod Parse
pub mod Passed
use taskrunner.Prelude.{
  ℕ, suc, zero, ◌-◌, ◌==◌, if◌then◌else◌, Bool, true, false, not, ◌&&◌, ◌||◌, Option, none, some,
  List, [], ◌∷◌, ◌++◌, Text, bytes, text_eq, is_empty, has_prefix, utf8, lookup, insert, ltb, leb,
  length, split,
}
use taskrunner.Task.{
  TaskFlag, ValueType, string_type, bool_type, int_type, float64_type, duration_type,
}
use taskrunner.Registry.{FlagMap}

pub data FlagArg : Type 0 where
  default_arg : TaskFlag → FlagArg
  passed_arg : TaskFlag → Text → FlagArg

-- What a function of a `FlagArg` does: it panics, returns nil, or a pointer to a value.
pub data Got (A : Type 0) : Type 0 where
  wrong_type : Got A
  unparsable : Got A
  nil : Got A
  got : A → Got A

abbrev pub ArgMap : Type 0
ArgMap = List (Text × FlagArg)

-- All but the last byte.
unfoldable pub init : Text → Text
init [] = []
init (c ∷ []) = []
init (c ∷ d ∷ s) = c ∷ init (d ∷ s)

-- `strings.HasSuffix` for one byte.
unfoldable pub ends_with : ℕ → Text → Bool
ends_with b [] = false
ends_with b (c ∷ []) = c == b
ends_with b (c ∷ d ∷ s) = ends_with b (d ∷ s)

abbrev pub tail_of : Text → Text
tail_of [] = []
tail_of (c ∷ s) = s

unfoldable pub strip_wrapping_quotations : Text → Text
unfolding init ends_with has_prefix
strip_wrapping_quotations s =
    if leb 2 (length s) && (has_prefix s (bytes "\"") && ends_with b'"' s)
    then init (tail_of s)
    else s

pub data KeyError : Type 0 where
  unknown_flag two_dashes no_dashes unsupported : KeyError

pub data Key : Type 0 where
  verified : Text → Key
  refused : KeyError → Key

abbrev pub task_flags : List (Text × FlagMap) → Text → FlagMap
task_flags registry task = elim (lookup task registry) [ none ↦ [] | some m ↦ m ]

abbrev supported : List (Text × FlagMap) → Text → Text → Key
supported registry task key = elim (lookup key (task_flags registry task)) [
  | none ↦ refused unsupported
  | some f ↦ verified key
]

-- `getVerifiedFlagKey`
unfoldable pub verify_key : List (Text × FlagMap) → Text → Text → Key
unfolding has_prefix
verify_key registry task key =
    if has_prefix key (bytes "--")
    then (let name = tail_of (tail_of key) in
        if leb (length name) 1 then refused unknown_flag else supported registry task name)
    else if has_prefix key (bytes "-")
    then (let name = tail_of key in
        if not (length name == 1) then refused two_dashes else supported registry task name)
    else refused no_dashes

abbrev pub parsed : {A : Type 0} → Option A → Got A
parsed none = unparsable
parsed (some a) = got a

-- The functions of a `FlagArg` differ in the type that they want and in the parser.
unfoldable pub value : {A : Type 0} → (ValueType → Bool) → (Text → Option A) → FlagArg → Got A
unfolding strip_wrapping_quotations
value wanted parse (default_arg f) =
    if not (wanted f.value_type)
    then wrong_type
    else if is_empty f.default
    then nil
    else parsed (parse f.default)
value wanted parse (passed_arg f v) =
    if not (wanted f.value_type) then wrong_type else parsed (parse (strip_wrapping_quotations v))

abbrev pub is_string : ValueType → Bool
is_string string_type = true
is_string _ = false

abbrev pub is_bool : ValueType → Bool
is_bool bool_type = true
is_bool _ = false

abbrev pub is_int : ValueType → Bool
is_int int_type = true
is_int _ = false

abbrev pub is_float64 : ValueType → Bool
is_float64 float64_type = true
is_float64 _ = false

abbrev pub is_duration : ValueType → Bool
is_duration duration_type = true
is_duration _ = false

abbrev one_of : List Text → Text → Bool
one_of [] s = false
one_of (w ∷ ws) s = text_eq w s || one_of ws s

-- `strconv.ParseBool`
unfoldable pub parse_bool : Text → Option Bool
parse_bool s =
    if one_of (bytes "1" ∷ bytes "t" ∷ bytes "T" ∷ bytes "true" ∷ bytes "TRUE" ∷ bytes "True" ∷ [])
      s
    then some true
    else if one_of
        (bytes "0" ∷ bytes "f" ∷ bytes "F" ∷ bytes "false" ∷ bytes "FALSE" ∷ bytes "False" ∷ []) s
    then some false
    else none

abbrev pub string_val : FlagArg → Got Text
string_val = value is_string some

abbrev pub bool_val : FlagArg → Got Bool
bool_val = value is_bool parse_bool

-- `IntVal`, `Float64Val` and `DurationVal`, by the parser of the standard library.
module _ {A : Type 0} (parse : Text → Option A) where
  abbrev pub int_val : FlagArg → Got A
  int_val = value is_int parse

  abbrev pub float64_val : FlagArg → Got A
  float64_val = value is_float64 parse

  abbrev pub duration_val : FlagArg → Got A
  duration_val = value is_duration parse

-- `getDefaultTaskFlagMap`
unfoldable pub default_map : FlagMap → ArgMap
default_map [] = []
default_map ((k, f) ∷ m) = (k, default_arg f) ∷ default_map m

pub data Parsed : Type 0 where
  bad_key : KeyError → Parsed
  bad_syntax : Parsed
  args : ArgMap → Parsed

-- A flag that was passed as `key` with a value: it is set under both of its names.
unfoldable pub set_arg : Text → TaskFlag → Text → ArgMap → ArgMap
set_arg key f val m =
    if is_empty val
    then m
    else (let arg = passed_arg f val in
        let m₁ = insert key arg m in
        if length key == 1 && (not (text_eq key f.long_name) && not (is_empty f.long_name))
        then insert f.long_name arg m₁
        else if ltb 1 (length key) && (text_eq key f.long_name && not (f.short_name == 0))
        then insert (utf8 f.short_name) arg m₁
        else m₁)

abbrev pub set_found : Text → Option TaskFlag → Text → ArgMap → ArgMap
set_found key none val m = m
set_found key (some f) val m = set_arg key f val m

abbrev pub head_of : List Text → Text
head_of [] = []
head_of (s ∷ l) = s

abbrev pub second_of : List Text → Text
second_of (s ∷ t ∷ []) = t
second_of _ = []

abbrev pub with_key : FlagMap → Key → List Text → ArgMap → Parsed
with_key flags (refused e) parts m = bad_key e
with_key flags (verified key) parts m =
    if ltb 2 (length parts)
    then bad_syntax
    else args (set_found key (lookup key flags) (second_of parts) m)

-- The code panics at the first flag that is refused.
abbrev pub then_parse : Parsed → (ArgMap → Parsed) → Parsed
then_parse (bad_key e) k = bad_key e
then_parse bad_syntax k = bad_syntax
then_parse (args m) k = k m

module _ (registry : List (Text × FlagMap)) (task : Text) where
  -- The body of the loop of `parseTaskFlagsIntoMap`.
  unfoldable pub parse_flag : Text → ArgMap → Parsed
  unfolding split verify_key set_arg
  parse_flag flag m =
      let parts = split b'=' [] flag in
      with_key (task_flags registry task) (verify_key registry task (head_of parts)) parts m

  unfoldable pub parse_flags_from : List Text → ArgMap → Parsed
  unfolding parse_flag
  parse_flags_from [] m = args m
  parse_flags_from (flag ∷ flags) m =
      then_parse (parse_flag flag m) (λ m'. parse_flags_from flags m')

  -- `parseTaskFlagsIntoMap`
  unfoldable pub parse_flags : List Text → Parsed
  unfolding parse_flags_from default_map
  parse_flags flags = parse_flags_from flags (default_map (task_flags registry task))
