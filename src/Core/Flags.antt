-- ===== src/Core/Flags.antt =====
-- RULES/core/flags.go: the configuration flags. The floating-point numbers are the parameter `F`,
-- with what strconv reads and prints of them. `DefaultFn` is `none` where it is nil, and stands
-- for its value.
pub mod Priority
pub mod Checked
pub mod Stored
use dbt_rules.Base.{
  ℕ, String, ◌<>◌, Bool, true, false, Option, none, some, List, [], ◌∷◌, ◌++◌, map, length, elem,
  get_elem?, set, ◌==◌, nat_eq, string_eq, if◌then◌else◌, Result, ok, fail, panic, ◌>>=◌, ◌>>◌,
}
use dbt_rules.Base.Int.{ℤ, Parsed, format_int, parse_int}
use dbt_rules.Base.Map.{Map, lookup, insert, has}
use dbt_rules.Base.Text.Paths.{join_path, dir}
use dbt_rules.Core.Input.{GeneratorInput, Outcome, done, error, fatal}
use dbt_rules.Core.Context.AddBuildStep.{Os}

abbrev pub flags_file_name : String
flags_file_name = "FLAGS.json"

pub record FlagInfo : Type 0 where
  pub description : String
  pub type : String
  pub allowed_values : List String
  pub value : String

-- What a flag of each type has: the allowed values, the default and the value.
pub data Body (F : Type 0) : Type 0 where
  string_body : List String → Option String → String → Body F
  bool_body : Option Bool → Bool → Body F
  int_body : List ℤ → Option ℤ → ℤ → Body F
  float_body : Option F → F → Body F

pub record Flag (F : Type 0) : Type 0 where
  pub name : String
  pub description : String
  pub body : Body F
  pub is_initialized : Bool

pub record Floats (F : Type 0) : Type 0 where
  pub parse : String → Parsed F
  pub format : F → String

-- The package's variables. The flag objects stand in `flags`, and the source's pointers are their
-- positions.
pub record FlagState (F : Type 0) : Type 0 where
  pub flag_values : Map String String
  pub flags_locked : Bool
  pub registered_flags : Map String ℕ
  pub flags : List (Flag F)

-- strconv.FormatBool
abbrev pub format_bool : Bool → String
format_bool true = "true"
format_bool false = "false"

-- setToDefault: nothing where there is no default.
unfoldable pub set_to_default : {F : Type 0} → Body F → Option (Body F)
set_to_default (string_body allowed (some d) v) = some (string_body allowed (some d) d)
set_to_default (bool_body (some d) v) = some (bool_body (some d) d)
set_to_default (int_body allowed (some d) v) = some (int_body allowed (some d) d)
set_to_default (float_body (some d) v) = some (float_body (some d) d)
set_to_default _ = none

module _ (input : GeneratorInput) {F : Type 0} (floats : Floats F) where
  unfoldable pub flag_info : Flag F → FlagInfo
  unfolding format_int
  flag_info flag = elim flag.body [
    | string_body allowed d v ↦ record {
      description = flag.description;
      type = "string";
      allowed_values = allowed;
      value = v;
    }
    | bool_body d v ↦ record {
      description = flag.description;
      type = "bool";
      allowed_values = "true" ∷ "false" ∷ [];
      value = format_bool v;
    }
    | int_body allowed d v ↦ record {
      description = flag.description;
      type = "int";
      allowed_values = map format_int allowed;
      value = format_int v;
    }
    | float_body d v ↦ record {
      description = flag.description;
      type = "float";
      allowed_values = [];
      value = floats.format v;
    }
  ]

  -- Fatal while no target is processed. A flag that is first read during a build, when the flags are
  -- locked, is reported with the name of the target, which stands nowhere in this state.
  abbrev message : String → Result (Unit {0})
  message msg = fatal input "" msg

  set_bool : String → String → Option Bool → Bool → Result (Body F)
  set_bool name value d v =
      if value == "true"
      then ok (bool_body d true)
      else if value == "false"
      then ok (bool_body d false)
      else (do
        message ("invalid value '" <> value <> "' for boolean flag '" <> name <> "'")
        ok (bool_body d v))

  parse_message : Option String → String → Result (Unit {0})
  parse_message none msg = ok tt
  parse_message (some err) msg = message (msg <> err)

  unfoldable pub set_from_string : String → String → Body F → Result (Body F)
  unfolding set_bool parse_message
  set_from_string name value (string_body allowed d v) = ok (string_body allowed d value)
  set_from_string name value (bool_body d v) = set_bool name value d v
  set_from_string name value (int_body allowed d v) = do
    parse_message (parse_int value).error
        ("invalid value '" <> value <> "' for integer flag '" <> name <> "': ")
    ok (int_body allowed d (parse_int value).value)
  set_from_string name value (float_body d v) = do
    parse_message (floats.parse value).error
        ("invalid value '" <> value <> "' for floating-point flag '" <> name <> "': ")
    ok (float_body d (floats.parse value).value)

  -- The value that the inputs give the flag, or its default.
  unfoldable pub choose_value : Map String String → Flag F → Result (Flag F)
  choose_value values flag = elim (lookup flag.name values) [
    | some value ↦ do
      body ← set_from_string flag.name value flag.body
      ok (record flag { body = body })
    | none ↦ elim (set_to_default flag.body) [
      | some body ↦ ok (record flag { body = body })
      | none ↦ do message ("flag '" <> flag.name <> "' has no value"); ok flag
    ]
  ]

  unfoldable pub is_allowed : FlagInfo → Bool
  is_allowed info = elim info.allowed_values [ [] ↦ true | x ∷ xs ↦ elem info.value (x ∷ xs) ]

  unfoldable pub check_allowed : Flag F → Result (Unit {0})
  unfolding is_allowed flag_info
  check_allowed flag =
      if is_allowed (flag_info flag)
      then ok tt
      else message
          ("flag '" <> flag.name <> "' has disallowed value '" <> (flag_info flag).value <> "'")

  -- The object at position `id`, which is `flag` and is not initialised yet.
  unfoldable pub initialize : ℕ → Flag F → FlagState F → Result (FlagState F)
  unfolding choose_value check_allowed
  initialize id flag st = do
    (if st.flags_locked
        then message ("flag '" <> flag.name <> "' accessed, but not reistered")
        else ok tt)
    (if has flag.name st.registered_flags
        then message ("multiple flags with name '" <> flag.name <> "'")
        else ok tt)
    flag' ← choose_value st.flag_values (record flag { is_initialized = true })
    check_allowed flag'
    ok (record st {
      registered_flags = insert flag.name id st.registered_flags;
      flags = set st.flags id flag';
    })

  unfoldable pub initialize_flag : ℕ → FlagState F → Result (FlagState F)
  unfolding initialize
  initialize_flag id st = elim (get_elem? st.flags id) [
    | none ↦ fail (panic "invalid memory address or nil pointer dereference")
    | some flag ↦ elim flag.is_initialized [ true ↦ ok st | false ↦ initialize id flag st ]
  ]

  -- Register copies the flag and gives the copy's position.
  unfoldable pub register : Flag F → FlagState F → Result (ℕ × FlagState F)
  unfolding initialize_flag
  register flag st = do
    st' ← initialize_flag (length st.flags) (record st { flags = st.flags ++ flag ∷ [] })
    ok (length st.flags, st')

  -- Value: the object as it is behind the call.
  unfoldable pub value : ℕ → FlagState F → Result (Body F × FlagState F)
  unfolding initialize_flag
  value id st = do
    st' ← initialize_flag id st
    (elim (get_elem? st'.flags id) [
      | none ↦ fail (panic "invalid memory address or nil pointer dereference")
      | some flag ↦ ok (flag.body, st')
    ])
