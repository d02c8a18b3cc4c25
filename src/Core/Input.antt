-- ===== src/Core/Input.antt =====
-- RULES/core/main.go and util.go: the generator's input, its version check, and `Fatal`.
pub mod Versions
use dbt_rules.Base.{
  ℕ, String, ◌<>◌, Bool, true, false, Option, none, some, List, [], ltb, ◌==◌, nat_eq, string_eq,
  not, if◌then◌else◌, Result, ok, fail, exit, ◌>>=◌, ◌>>◌,
}
use dbt_rules.Base.Map.{Map}
use dbt_rules.Base.Text.{decimal}

pub data Mode : Type 0 where
  mode_build mode_list mode_run mode_test mode_report mode_flags : Mode

pub record Version : Type 0 where
  pub major : ℕ
  pub minor : ℕ
  pub patch : ℕ

pub record GeneratorInput : Type 0 where
  pub dbt_version : Version
  pub source_dir : String
  pub working_dir : String
  pub output_dir : String
  pub cmdline_flags : Map String String
  pub workspace_flags : Map String String
  pub completions_only : Bool
  pub run_args : List String
  pub test_args : List String
  pub layout : String
  pub selected_targets : List String
  pub persist_flags : Bool
  pub positive_patterns : List String
  pub negative_patterns : List String
  pub mode : Mode

unfoldable pub version_string : Version → String
version_string v = "v" <> decimal v.major <> "." <> decimal v.minor <> "." <> decimal v.patch

abbrev pub min_dbt_version : Version
min_dbt_version = record { major = 3; minor = 0; patch = 0 }

unfoldable pub check_version : Version → Version → Bool
check_version cur min =
    if not (cur.major == min.major)
    then ltb min.major cur.major
    else if not (cur.minor == min.minor)
    then ltb min.minor cur.minor
    else not (ltb cur.patch min.patch)

-- What the decoder starts from: only `PersistFlags` is set.
abbrev pub default_input : GeneratorInput
default_input = record {
  dbt_version = record { major = 0; minor = 0; patch = 0 };
  source_dir = "";
  working_dir = "";
  output_dir = "";
  cmdline_flags = [];
  workspace_flags = [];
  completions_only = false;
  run_args = [];
  test_args = [];
  layout = "";
  selected_targets = [];
  persist_flags = true;
  positive_patterns = [];
  negative_patterns = [];
  mode = mode_build;
}

-- What reading a file or decoding JSON gives: the value, or the error's text.
pub data Outcome {ℓ} (A : Type ℓ) : Type ℓ where
  done : A → Outcome A
  error : String → Outcome A

or_exit {ℓ} : {A : Type ℓ} → String → Outcome A → Result A
or_exit what (done a) = ok a
or_exit what (error e) = fail (exit ("Error: " <> what <> ": " <> e <> ".\n"))

require_version : GeneratorInput → Result GeneratorInput
unfolding check_version version_string
require_version input =
    if check_version input.dbt_version min_dbt_version
    then ok input
    else fail (
        exit (
          "Error: dbt-rules require dbt >= "
          <> version_string min_dbt_version
          <> ", but have been called from dbt "
          <> version_string input.dbt_version
          <> ".\n"))

-- The file's contents and the decoder (encoding/json) are the caller's. A decoder is given the
-- value to decode into.
unfoldable pub load_input :
    Outcome String → (String → GeneratorInput → Outcome GeneratorInput) → Result GeneratorInput
unfolding or_exit require_version
load_input file unmarshal = do
  text ← or_exit "Could not read DBT input file" file
  input ← or_exit "Could not parse DBT input" (unmarshal text default_input)
  require_version input

-- `currentTarget` is the second argument. In a run for completions the call returns.
unfoldable pub fatal : GeneratorInput → String → String → Result (Unit {0})
fatal input current_target msg =
    if input.completions_only
    then ok tt
    else if current_target == ""
    then fail (exit ("Error: " <> msg <> ".\n"))
    else fail (exit ("Error while processing target '" <> current_target <> "': " <> msg <> ".\n"))
