-- ===== src/Hdl/Questa/Simulate.antt =====
-- RULES/hdl/questa.go: the commands that run a simulation.
use dbt_rules.Base.{
  String, ◌<>◌, Bool, true, false, ◌&&◌, none, some, List, [], ◌∷◌, ◌++◌, ◌==◌, string_eq, not,
  if◌then◌else◌, Result, ok, ◌>>=◌,
}
use dbt_rules.Base.Map.{lookup}
use dbt_rules.Core.Path.{out_path, absolute}
use dbt_rules.Hdl.Ip.{FlagMap}
use dbt_rules.Hdl.Simulation.{Simulation, Host, sorted_params, target}
use dbt_rules.Hdl.Simulation.Preamble.{preamble}
use dbt_rules.Hdl.Simulation.Selection.{is_some, select, chain}
use dbt_rules.Hdl.Questa.Flags.{lib_flags}
use dbt_rules.Hdl.Questa.Arguments.{VsimArgs, no_args, vsim_args}
use dbt_rules.Hdl.Questa.Optimize.{sim_file}

-- The databases, the test case's name and the text before the run.
pub record Names : Type 0 where
  pub main_coverage_db : String
  pub coverage_db : String
  pub testcase : String
  pub echo : String

set_names : String → String → String → Names
set_names name params testcase =
    if testcase == ""
    then record {
      main_coverage_db = name <> "_" <> params;
      coverage_db = name <> "_" <> params;
      testcase = params;
      echo = "Testcase " <> params <> ":";
    }
    else record {
      main_coverage_db = name <> "_" <> params;
      coverage_db = name <> "_" <> params <> "_" <> testcase;
      testcase = params <> "_" <> testcase;
      echo = "Testcase " <> params <> "/" <> testcase <> ":";
    }

plain_names : String → String → Names
plain_names name testcase =
    if testcase == ""
    then record { main_coverage_db = name; coverage_db = name; testcase = "default"; echo = "" }
    else record {
      main_coverage_db = name;
      coverage_db = name <> "_" <> testcase;
      testcase = testcase;
      echo = "Testcase " <> testcase <> ":";
    }

unfoldable pub names : Simulation → String → String → Names
unfolding set_names plain_names
names rule params testcase =
    if is_some rule.params && not (params == "")
    then set_names rule.name params testcase
    else plain_names rule.name testcase

scope_flag : String → String
scope_flag scope =
    if scope == "signals"
    then "+signal"
    else if scope == "assertions"
    then "+signal+assertions=pass,atv"
    else if scope == "memory"
    then "+signal+assertions=pass,atv+memory"
    else if scope == "queues"
    then "+signal+assertions=pass,atv+memory+queues"
    else if scope == "all"
    then "+signal+assertions=pass,atv+memory+queues+class+classmemory+classdynarray"
    else ""

abbrev with_params : String → String → String
with_params file params = if params == "" then file else file <> "_" <> params

with_do : List String → String
with_do [] = ""
with_do (flag ∷ flags) = " -do " <> flag <> with_do flags

-- `own` is the rule's map of tool flags as compilation leaves it, none where it is nil.
module _ (host : Host) (rule : Simulation) (own : FlagMap) where
  abbrev file_name : String → String
  file_name suffix = absolute host.input (out_path (sim_file rule suffix))

  log_file : String → String → String
  unfolding sim_file
  log_file testcase params = file_name (
      "/"
      <> (if params == "" then "" else params <> "_")
      <> (if testcase == "" then "" else testcase <> "_")
      <> "vsim.log")

  qwavedb_flag : String → String
  unfolding scope_flag sim_file
  qwavedb_flag params =
      if host.settings.dump_qwavedb
      then " -qwavedb="
        <> scope_flag host.settings.dump_qwavedb_scope
        <> "+wavefile="
        <> file_name ("/" <> with_params "waves" params <> ".db")
      else ""

  mode_flag : Bool → Bool → String → String
  unfolding sim_file
  mode_flag gui print params =
      if gui
      then if host.settings.designfile
        then " -visualizer=+designfile=" <> file_name ("/" <> with_params "design" params <> ".bin")
        else " -gui"
      else " -batch -quiet" <> (if print then "" else " -nostdout")

  -- The commands for vsim, in the order in which it runs them.
  do_flags : Bool → VsimArgs → Names → String → List String
  do_flags gui a n target_name =
      a.do_flags
      ++ ("\"set target " <> target_name <> "\"")
        ∷ ("\"set testcase " <> n.testcase <> "\"")
        ∷ ("\"set main_coverage_db " <> n.main_coverage_db <> "\"")
        ∷ ("\"set coverage_db " <> n.coverage_db <> "\"")
        ∷ (if gui then "\"set gui 1\"" ∷ [] else [])

  vsim_flags : Bool → VsimArgs → Names → String → String → String → String
  unfolding mode_flag qwavedb_flag do_flags with_do lib_flags sim_file
  vsim_flags gui a n target_name log params =
      " -onfinish final -l "
      <> log
      <> lib_flags host rule
      <> mode_flag gui a.print_output params
      <> a.seed_flag
      <> (if host.settings.coverage then " -coverage -assertdebug" else "")
      <> qwavedb_flag params
      <> a.verbosity_flag
      <> a.plusargs_flag
      <> " "
      <> host.settings.vsim_flags
      <> elim (lookup "vsim" own) [ none ↦ "" | some flags ↦ " " <> flags ]
      <> with_do (do_flags gui a n target_name)
      <> " -do "
      <> file_name "/vsim.do"

  -- " Coverage: …" behind PASS and FAIL.
  with_coverage : String → Names → String
  with_coverage word n =
      if host.settings.coverage
      then word <> " Coverage: $$(pwd)/" <> n.main_coverage_db <> ".ucdb"
      else word

  postamble : VsimArgs → Names → String → String
  unfolding with_coverage
  postamble a n log =
      if a.print_output
      then ""
      else "|| { "
        <> (if n.echo == "" then ":" else "echo")
        <> "; cat "
        <> log
        <> "; echo "
        <> with_coverage "FAIL" n
        <> "; exit 1; }"

  unfoldable pub wrapped : String → String → String → String
  wrapped before cmd behind =
      if before == ""
      then "{ " <> cmd <> " " <> behind <> " }"
      else "{ { { " <> before <> " } && " <> cmd <> " } " <> behind <> " }"

  unfoldable pub vsim_cmd : List String → Bool → String → String → Result String
  unfolding log_file names vsim_flags with_coverage postamble wrapped no_args
  vsim_cmd args gui testcase params = do
    let log = log_file testcase params
    target_name ← target rule params host.settings.coverage
    a ← vsim_args args (no_args (if host.settings.coverage then "\"set coverage 1\"" ∷ [] else []))
    (before, testcase') ← preamble host rule testcase
    let n = names rule params testcase'
    ok (
        wrapped before
          ("{ echo -n "
            <> n.echo
            <> " && vsim "
            <> vsim_flags gui a n target_name log params
            <> " -work work "
            <> target_name
            <> " && echo "
            <> with_coverage "PASS" n
            <> "; }")
          (postamble a n log))

  unfoldable pub simulate_questa : List String → Bool → Result String
  unfolding sorted_params select chain vsim_cmd
  simulate_questa args gui = do
    sel ← select host rule (sorted_params rule) args
    chain (vsim_cmd args gui) gui sel

  unfoldable pub run_questa : List String → Result String
  unfolding simulate_questa
  run_questa args = simulate_questa args true

  unfoldable pub test_questa : List String → Result String
  unfolding simulate_questa
  test_questa args = simulate_questa args false
