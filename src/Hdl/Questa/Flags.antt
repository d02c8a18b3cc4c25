-- ===== src/Hdl/Questa/Flags.antt =====
-- RULES/hdl/questa.go: the flags of the tools' commands.
pub mod Once
pub mod Levels
use dbt_rules.Base.{
  ℕ, String, ◌<>◌, Bool, true, false, Option, none, some, List, [], ◌∷◌, ◌++◌, map, ◌==◌, string_eq,
  if◌then◌else◌, Result, ok, ◌>>=◌,
}
use dbt_rules.Base.Map.{Map, index, lookup}
use dbt_rules.Base.Text.{split}
use dbt_rules.Base.Text.Paths.{dir}
use dbt_rules.Core.Path.{FilePath, absolute, source_path}
use dbt_rules.Hdl.Unique.{Unique, none_seen, push_new}
use dbt_rules.Hdl.Files.{sorted_string_keys}
use dbt_rules.Hdl.Ip.{FlagMap}
use dbt_rules.Hdl.Simulation.{
  Simulation, Host, log_fatal, param_map, sorted_param_set, check_params,
}

abbrev pub common_flags : String
common_flags = "-nologo -quiet -work work"

generics : Map String String → List String → String
generics set [] = ""
generics set (name ∷ names) = " -g " <> name <> "=" <> index "" set name <> generics set names

unfoldable pub param_flags : Simulation → String → Result String
unfolding check_params generics sorted_param_set
param_flags rule params =
    if params == ""
    then ok ""
    else (check_params rule params >>= λ _.
        ok (generics (index [] (param_map rule) params) (sorted_param_set rule params)))

-- The libraries, without those that are empty or that stand twice.
unfoldable pub new_libs : List String → Unique String → Unique String
unfolding push_new
new_libs [] u = u
new_libs (lib ∷ libs) u = new_libs libs (if lib == "" then u else push_new lib lib u)

pub with_dash_l : List String → String
with_dash_l [] = ""
with_dash_l (lib ∷ libs) = " -L " <> lib <> with_dash_l libs

unfoldable pub lib_flags : Host → Simulation → String
unfolding new_libs with_dash_l split
lib_flags host rule =
    with_dash_l
      (new_libs (split b' ' host.settings.simulator_lib_search ++ rule.libs) none_seen).items

new_dirs : Host → List FilePath → Unique String → Unique String
unfolding push_new
new_dirs host [] u = u
new_dirs host (inc ∷ incs) u =
    let inc_path = dir (absolute host.input inc) in
    new_dirs host incs (push_new inc_path inc_path u)

incdirs : List String → String
incdirs [] = ""
incdirs (dir ∷ dirs) = " +incdir+" <> dir <> incdirs dirs

unfoldable pub inc_dir_flags : Host → List FilePath → String
unfolding new_dirs incdirs
inc_dir_flags host incs = incdirs (new_dirs host incs none_seen).items

-- The flag, and whether the output is printed.
unfoldable pub verbosity_level_to_flag : String → Result (String × Bool)
verbosity_level_to_flag level =
    if level == "none"
    then ok (" +verbosity=DVM_VERB_NONE", false)
    else if level == "low"
    then ok (" +verbosity=DVM_VERB_LOW", true)
    else if level == "medium"
    then ok (" +verbosity=DVM_VERB_MED", true)
    else if level == "high"
    then ok (" +verbosity=DVM_VERB_HIGH", true)
    else if level == "all"
    then ok (" +verbosity=DVM_VERB_ALL", true)
    else log_fatal (
        "invalid verbosity flag '" <> level
        <> "', only 'low', 'medium', 'high', 'all'  or 'none' allowed!")

tool_flags : String → FlagMap → String
tool_flags tool flags = elim (lookup tool flags) [ none ↦ "" | some v ↦ " " <> v ]

define_flags : Map String String → List String → String
define_flags m [] = ""
define_flags m (key ∷ rest) =
    let value = index "" m key in
    " -define " <> key <> (if value == "" then "" else "=" <> value) <> define_flags m rest

module _ (host : Host) where
  unfoldable pub vlog_cmd : Simulation → List FilePath → FlagMap → String
  unfolding lib_flags inc_dir_flags tool_flags define_flags sorted_string_keys
  vlog_cmd rule incs flags =
      "vlog "
      <> common_flags
      <> lib_flags host rule
      <> " +incdir+"
      <> absolute host.input (source_path "")
      <> inc_dir_flags host incs
      <> tool_flags "vlog" flags
      <> "  -define SIMULATION"
      <> define_flags rule.defines (sorted_string_keys rule.defines)

unfoldable pub vcom_cmd : FlagMap → String
unfolding tool_flags
vcom_cmd flags = "vcom " <> common_flags <> tool_flags "vcom" flags
