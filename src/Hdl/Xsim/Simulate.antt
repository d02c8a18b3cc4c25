-- ===== src/Hdl/Xsim/Simulate.antt =====
-- RULES/hdl/xsim.go: the commands that run a simulation.
pub mod Snapshots
use dbt_rules.Base.{
  String, ◌<>◌, Bool, true, false, ◌&&◌, ◌||◌, Option, none, some, List, [], ◌∷◌, ◌++◌, ◌==◌,
  string_eq, not, if◌then◌else◌, Result, ok, ◌>>=◌,
}
use dbt_rules.Base.Int.{ℤ, pos, format_int}
use dbt_rules.Base.Map.{keys}
use dbt_rules.Base.Text.{has_prefix, has_suffix, trim_prefix, join}
use dbt_rules.Core.Path.{FilePath, out_path, absolute, with_suffix}
use dbt_rules.Hdl.Simulation.{Simulation, Host, log_fatal, sim_path, param_map}
use dbt_rules.Hdl.Simulation.Scan.{scan_string, scan_int}
use dbt_rules.Hdl.Simulation.Preamble.{preamble}
use dbt_rules.Hdl.Simulation.Selection.{is_some, select, chain}

-- The flag, and whether the output is printed.
unfoldable pub xsim_verbosity_level_to_flag : String → Result (String × Bool)
xsim_verbosity_level_to_flag level =
    if level == "none"
    then ok (" --testplusarg verbosity=DVM_VERB_NONE", false)
    else if level == "low"
    then ok (" --testplusarg verbosity=DVM_VERB_LOW", true)
    else if level == "medium"
    then ok (" --testplusarg verbosity=DVM_VERB_MED", true)
    else if level == "high"
    then ok (" --testplusarg verbosity=DVM_VERB_HIGH", true)
    else if level == "all"
    then ok ("--testplusarg verbosity=DVM_VERB_ALL", true)
    else log_fatal (
        "invalid verbosity flag '" <> level
        <> "', only 'low', 'medium', 'high', 'all' or 'none' allowed!")

pub record XsimArgs : Type 0 where
  pub seed : ℤ
  pub verbosity : String
  pub cmd : List String

set_seed : XsimArgs → Option ℤ → Result XsimArgs
set_seed a none = log_fatal "-seed expects an integer argument!"
set_seed a (some seed) = ok (record a { seed = seed })

export : String → XsimArgs → Option String → Result XsimArgs
export name a none =
    log_fatal ("-" <> name <> " expects an argument of '<timesteps>[<time units>]'!")
export name a (some time) =
    ok (record a { cmd = ("export " <> name <> "=" <> time <> " &&") ∷ a.cmd })

set_verbosity : XsimArgs → Option String → Result XsimArgs
set_verbosity a none =
    log_fatal "-verbosity expects an argument of 'low', 'medium', 'high' or 'none'!"
set_verbosity a (some level) = ok (record a { verbosity = level })

unfoldable pub xsim_arg : String → XsimArgs → Result XsimArgs
unfolding set_seed set_verbosity export scan_string scan_int trim_prefix
xsim_arg arg a =
    if has_prefix arg "-seed="
    then set_seed a (scan_int "-seed=" arg)
    else if has_prefix arg "-from="
    then export "from" a (scan_string "-from=" arg)
    else if has_prefix arg "-duration="
    then export "duration" a (scan_string "-duration=" arg)
    else if has_prefix arg "-verbosity="
    then set_verbosity a (scan_string "-verbosity=" arg)
    else if has_prefix arg "+"
    then ok (record a { cmd = a.cmd ++ "--testplusarg" ∷ trim_prefix arg "+" ∷ [] })
    else ok a

unfoldable pub xsim_args : List String → XsimArgs → Result XsimArgs
unfolding xsim_arg
xsim_args [] a = ok a
xsim_args (arg ∷ args) a = do a' ← xsim_arg arg a; xsim_args args a'

-- The text before the run; `testcase` is that of the preamble.
unfoldable pub xsim_echo : Simulation → String → String → String
xsim_echo rule params testcase =
    if is_some rule.params && not (params == "")
    then "Testcase " <> params <> (if testcase == "" then "" else "/" <> testcase) <> ":"
    else if testcase == ""
    then ""
    else "Testcase " <> testcase <> ":"

-- The snapshot that a parameter set is run from.
unfoldable pub snapshot_name : Simulation → String → String
snapshot_name rule params = if params == "" then rule.name else rule.name <> "_" <> params

file_suffix : String → String → String
file_suffix testcase params =
    if params == "" then testcase else params <> (if testcase == "" then "" else "_" <> testcase)

module _ (host : Host) (rule : Simulation) where
  file_name : String → String
  unfolding sim_path
  file_name suffix = absolute host.input (out_path (with_suffix (out_path (sim_path rule)) suffix))

  log_file : String → String → String
  unfolding file_name file_suffix
  log_file testcase params = file_name (
      "/"
      <> file_suffix testcase params
      <> (if testcase == "" && params == "" then "" else "_")
      <> "xsim.log")

  wdb_args : Bool → String → String → List String
  unfolding file_name file_suffix
  wdb_args gui testcase params =
      if gui || host.settings.xsim_dump_wdb
      then "--wdb" ∷ file_name ("/" <> file_suffix testcase params <> ".wdb") ∷ []
      else []

  waveform_args : Option FilePath → List String
  waveform_args none = []
  waveform_args (some p) =
      if has_suffix (absolute host.input p) ".tcl"
      then "--tclbatch" ∷ absolute host.input p ∷ []
      else []

  mode_args : Bool → List String
  unfolding waveform_args
  mode_args gui = if gui then "--gui" ∷ waveform_args rule.waveform_init else "--onfinish quit" ∷ []

  postamble : Bool → String → String → String
  postamble gui echo log =
      if gui
      then ""
      else "|| { " <> (if echo == "" then ":" else "echo") <> "; cat " <> log <> "; exit 1; }"

  start_args : String → XsimArgs
  unfolding file_name
  start_args log = record {
    seed = pos 1;
    verbosity = "none";
    cmd =
        "xsim"
        ∷ "--log"
        ∷ log
        ∷ "--tclbatch"
        ∷ file_name "/xsim.tcl"
        ∷ host.settings.xsim_flags
        ∷ [];
  }

  wrapped : String → String → String → String
  wrapped before cmd behind =
      if before == ""
      then "{ " <> cmd <> " " <> behind <> " }"
      else "{ { { " <> before <> " } && " <> cmd <> " } " <> behind <> " }"

  unfoldable pub xsim_cmd : List String → Bool → String → String → Result String
  unfolding log_file wdb_args mode_args postamble start_args wrapped snapshot_name xsim_echo
      xsim_verbosity_level_to_flag format_int join
  xsim_cmd args gui testcase params = do
    let log = log_file testcase params
    a ← xsim_args args (start_args log)
    (before, testcase') ← preamble host rule testcase
    let echo = xsim_echo rule params testcase'
    (verbosity_flag, print) ← xsim_verbosity_level_to_flag a.verbosity
    let words =
        a.cmd
        ++ (("--sv_seed" ∷ format_int a.seed ∷ [])
            ++ (wdb_args gui testcase params
                ++ (mode_args gui ++ verbosity_flag ∷ snapshot_name rule params ∷ [])))
    ok (
        wrapped before
          ("{ echo -n "
            <> echo
            <> " && "
            <> join " " words
            <> " "
            <> (if print then "" else "> /dev/null")
            <> " && { { ! grep -q FAIL "
            <> log
            <> "; } && echo PASS; } }")
          (postamble gui echo log))

  -- All parameter sets are taken in the order of the map.
  unfoldable pub simulate_xsim : List String → Bool → Result String
  unfolding select chain xsim_cmd
  simulate_xsim args gui = do
    sel ← select host rule (keys (param_map rule)) args
    chain (xsim_cmd args gui) gui sel

  unfoldable pub run_xsim : List String → Result String
  unfolding simulate_xsim
  run_xsim args = simulate_xsim args true

  unfoldable pub test_xsim : List String → Result String
  unfolding simulate_xsim
  test_xsim args = simulate_xsim args false
