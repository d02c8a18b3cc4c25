-- ===== src/Hdl/Simulation.antt =====
-- RULES/hdl/simulator.go: simulations, their names, parameter sets and test cases.
-- `params`, `tool_flags` and the paths are `none` where they are nil. `log.Fatal` ends the run; the
-- time that it prints is left out.
pub mod Scan
pub mod Preamble
pub mod Selection
pub mod Binaries
use dbt_rules.Base.{
  String, ◌<>◌, Bool, true, false, Option, none, some, List, [], ◌∷◌, ◌++◌, map, ◌==◌, string_eq,
  if◌then◌else◌, Result, ok, fail, exit, panic, ◌>>=◌, ◌>>◌,
}
use dbt_rules.Base.Map.{Map, keys, insert, index, has}
use dbt_rules.Base.Sort.{sort_strings}
use dbt_rules.Base.Text.{replace_char}
use dbt_rules.Core.Input.{GeneratorInput, Outcome}
use dbt_rules.Core.Path.{FilePath, OutPath, absolute, build_path}
use dbt_rules.Core.Context.AddBuildStep.{Os}
use dbt_rules.Hdl.Ip.{FlagMap, Ip, Ips, nil, cons, parts_of}
use dbt_rules.Hdl.Settings.{Settings}
use dbt_rules.Hdl.Templates.{HdlTemplates}
use dbt_rules.Hdl.Xci.{Xci}

abbrev pub ParamMap : Type 0
ParamMap = Map String (Map String String)

pub record Simulation : Type 0 where
  pub name : String
  pub srcs : List FilePath
  pub ips : Ips
  pub libs : List String
  pub params : Option ParamMap
  pub defines : Map String String
  pub tool_flags : Option FlagMap
  pub top : String
  pub tops : List String
  pub dut : String
  pub test_case_generator : Option FilePath
  pub test_case_generator_flags : String
  pub test_case_elf : Option FilePath
  pub test_cases_dir : Option FilePath
  pub waveform_init : Option FilePath
  pub report_cov_ips : Ips

-- What the package reads of the run: the input, the values of its flags, the file system and the
-- template engine.
pub record Host : Type 0 where
  pub input : GeneratorInput
  pub os : Os
  pub settings : Settings
  -- os.ReadDir: the names of the items.
  pub read_dir : String → Outcome (List String)
  -- os.Stat gives an error that is os.ErrNotExist.
  pub is_missing : String → Bool
  -- ReadXci: the file's contents as encoding/json reads them.
  pub read_xci : String → Outcome Xci
  pub templates : HdlTemplates

abbrev pub log_fatal {ℓ} : {A : Type ℓ} → String → Result A
log_fatal msg = fail (exit msg)

abbrev pub nil_dereference {ℓ} : {A : Type ℓ} → Result A
nil_dereference = fail (panic "invalid memory address or nil pointer dereference")

unfoldable pub lib : Simulation → String
lib rule = rule.name <> "_lib"

unfoldable pub sim_path : Simulation → OutPath
unfolding build_path
sim_path rule = build_path ("/" <> rule.name)

abbrev pub param_map : Simulation → ParamMap
param_map rule = elim rule.params [ none ↦ [] | some m ↦ m ]

unfoldable pub sorted_params : Simulation → List String
unfolding sort_strings
sorted_params rule = sort_strings (keys (param_map rule))

unfoldable pub sorted_param_set : Simulation → String → List String
unfolding sort_strings
sorted_param_set rule paramset = sort_strings (keys (index [] (param_map rule) paramset))

-- The test that Target and paramFlags make of a parameter set that is not "".
unfoldable pub check_params : Simulation → String → Result (Unit {0})
check_params rule params = elim rule.params [
  | none ↦
      log_fatal ("parameter set " <> params <> " requested, but no parameters sets are defined!")
  | some m ↦
      if has params m then ok tt else log_fatal ("parameter set " <> params <> " not defined!")
]

unfoldable pub target : Simulation → String → Bool → Result String
unfolding replace_char check_params
target rule params coverage =
    let name = replace_char b'-' "_" rule.name in
    let suffix = if coverage then "_cover" else "" in
    if params == ""
    then ok (name <> suffix)
    else (check_params rule params >>= λ _. ok (name <> "_" <> params <> suffix))

module _ (input : GeneratorInput) where
  source_names : Ips → List String
  source_names nil = []
  source_names (cons i is) = map (absolute input) (parts_of i).srcs ++ source_names is

  file_set : List String → Map String Bool → Map String Bool
  file_set [] set = set
  file_set (file ∷ files) set = file_set files (insert file true set)

  unfoldable pub report_cov_files : Simulation → List String
  unfolding source_names file_set
  report_cov_files rule = keys (file_set (source_names rule.report_cov_ips) [])
