-- ===== src/Samples/Configuration.antt =====
-- RULES/core/flags.go: flags at concrete data.
use dbt_rules.Base.{◌≡◌, refl, true, false, none, some, [], ◌∷◌, ok, String, ℕ, string_eq}
use dbt_rules.Base.Int.{Parsed}
use dbt_rules.Base.Map.{Map, lookup, insert}
use dbt_rules.Core.Input.{GeneratorInput}
use dbt_rules.Core.Flags.{Flag, Floats, FlagState, string_body, initialize_flag, set_from_string}
use dbt_rules.Core.Flags.Stored.{contents, persisted_flags, get_flag_values}
use dbt_rules.Core.Flags.Priority.{first_of, get_flag_values_priority}
use dbt_rules.Core.Flags.Checked.{Initialized, initialize_flag_accepts}
use dbt_rules.Samples.{sample_input}

abbrev flagged : GeneratorInput
flagged = record sample_input {
  cmdline_flags = ("opt", "2") ∷ [];
  workspace_flags = ("opt", "0") ∷ ("cc", "gcc") ∷ ("log", "no") ∷ [];
}

abbrev stored : Map String String
stored = ("opt", "1") ∷ ("cc", "clang") ∷ []

decode : String → Parsed (Map String String)
decode text = record { value = stored; error = none }

abbrev merged : Map String String
merged = ("opt", "2") ∷ ("cc", "clang") ∷ ("log", "no") ∷ []

merge_run : get_flag_values flagged decode (contents "{}") ≡ ok merged
unfolding get_flag_values decode insert
merge_run = refl

read_run : persisted_flags flagged decode (contents "{}") ≡ ok stored
unfolding persisted_flags decode
read_run = refl

get_flag_values_priority_example :
    lookup "cc" merged
    ≡ first_of
        (lookup "cc" flagged.cmdline_flags)
        (first_of (lookup "cc" stored) (lookup "cc" flagged.workspace_flags))
get_flag_values_priority_example =
    get_flag_values_priority flagged decode (contents "{}") stored merged read_run (refl, tt)
      (refl, (refl, tt)) (refl, (refl, (refl, tt))) merge_run "cc"

-- No flag of the samples is a floating-point number.
abbrev no_floats : Floats ℕ
no_floats = record { parse = λ s. record { value = 0; error = none }; format = λ x. "" }

abbrev opt_flag : Flag ℕ
opt_flag = record {
  name = "opt";
  description = "Optimisation";
  body = string_body ("0" ∷ "2" ∷ []) (some "0") "";
  is_initialized = false;
}

abbrev before : FlagState ℕ
before = record {
  flag_values = merged;
  flags_locked = false;
  registered_flags = [];
  flags = opt_flag ∷ [];
}

abbrev behind : FlagState ℕ
behind = record before {
  registered_flags = ("opt", 0) ∷ [];
  flags =
      record opt_flag { body = string_body ("0" ∷ "2" ∷ []) (some "0") "2"; is_initialized = true }
      ∷ [];
}

initialize_run : initialize_flag sample_input no_floats 0 before ≡ ok behind
unfolding initialize_flag lookup insert set_from_string
initialize_run = refl

initialize_flag_accepts_example : Initialized sample_input no_floats refl 0 opt_flag before behind
initialize_flag_accepts_example =
    initialize_flag_accepts sample_input no_floats refl 0 opt_flag before behind refl refl
      initialize_run
