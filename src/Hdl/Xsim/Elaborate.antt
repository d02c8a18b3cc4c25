-- ===== src/Hdl/Xsim/Elaborate.antt =====
-- RULES/hdl/xsim.go: `elaborate`, `tclFile` and `BuildXsim`.
use dbt_rules.Base.{
  String, ◌<>◌, Option, none, some, List, [], ◌∷◌, ◌++◌, map, ◌==◌, string_eq, if◌then◌else◌,
  Result, ok, ◌>>=◌,
}
use dbt_rules.Base.Map.{Map, keys, lookup}
use dbt_rules.Base.Text.{join, to_lower}
use dbt_rules.Core.Path.{FilePath, out_path, OutPath, absolute, with_suffix}
use dbt_rules.Core.Context.{Action}
use dbt_rules.Core.Context.AddBuildStep.{add_build_step}
use dbt_rules.Core.Template.{compile_template}
use dbt_rules.Core.Rules.{zero_step}
use dbt_rules.Hdl.Templates.{TclFileParams, tcl_file_params}
use dbt_rules.Hdl.Simulation.{Simulation, ParamMap, Host, log_fatal, lib, sim_path}
use dbt_rules.Hdl.Xsim.Script.{xsim_tcl_file_template}
use dbt_rules.Hdl.Xsim.Project.{create_prj_file}

-- A log file, the snapshot's name and the parameter set.
pub record Snapshot : Type 0 where
  pub log_file : OutPath
  pub target : String
  pub params : String

-- `Tops` is read only where there is no `Top`.
unfoldable pub xsim_tops : Simulation → List String
xsim_tops rule =
    if rule.top == "" then elim rule.tops [ [] ↦ "board" ∷ [] | t ∷ ts ↦ t ∷ ts ] else rule.top ∷ []

lib_args : List String → List String
lib_args [] = []
lib_args (l ∷ ls) = "--lib" ∷ l ∷ lib_args ls

generic_args : Map String String → List String
generic_args [] = []
generic_args ((param, value) ∷ m) =
    "-generic_top" ∷ ("\"" <> param <> "=" <> value <> "\"") ∷ generic_args m

module _ (rule : Simulation) where
  xsim_file : String → OutPath
  unfolding sim_path
  xsim_file suffix = with_suffix (out_path (sim_path rule)) suffix

  unfoldable pub snapshot : String → Snapshot
  unfolding xsim_file
  snapshot key = record {
    log_file = xsim_file ("/" <> key <> "_xelab.log");
    target = rule.name <> "_" <> key;
    params = key;
  }

  unfoldable pub snapshots_of : Option ParamMap → List Snapshot
  unfolding snapshot xsim_file
  snapshots_of none =
      record { log_file = xsim_file "/xelab.log"; target = rule.name; params = "" } ∷ []
  snapshots_of (some m) = map snapshot (keys m)

  unfoldable pub snapshots : List Snapshot
  unfolding snapshots_of
  snapshots = snapshots_of rule.params

  -- The message prints the nil map, not the set's name.
  missing_set : Result (List String)
  missing_set =
      log_fatal ("parameter set 'map[]' not defined for Simulation target '" <> rule.name <> "'!")

  -- The parameters of a set, in the order of the map. A set that is missing ends the run.
  unfoldable pub set_args : String → Result (List String)
  unfolding generic_args missing_set
  set_args params = if params == "" then ok [] else elim rule.params [
    | none ↦ missing_set
    | some m ↦ elim (lookup params m) [ none ↦ missing_set | some set ↦ ok (generic_args set) ]
  ]

module _ (host : Host) (rule : Simulation) where
  base_cmd : OutPath → List String
  unfolding xsim_tops lib_args to_lower lib
  base_cmd prj =
      ("xelab"
        ∷ "--timescale"
        ∷ "1ns/1ps"
        ∷ "--debug"
        ∷ host.settings.xelab_debug
        ∷ "--prj"
        ∷ absolute host.input (out_path prj)
        ∷ host.settings.xelab_flags
        ∷ [])
      ++ (lib_args rule.libs ++ map (λ top. to_lower (lib rule) <> "." <> top) (xsim_tops rule))

  xelab_cmd : OutPath → Snapshot → List String → String
  unfolding base_cmd join
  xelab_cmd prj s generics =
      let log = absolute host.input (out_path s.log_file) in
      join " " (base_cmd prj ++ ("--log" ∷ log ∷ "--snapshot" ∷ s.target ∷ []) ++ generics)
      <> " > /dev/null || { cat "
      <> log
      <> "; rm "
      <> log
      <> "; exit 1; }"

  elaborate_deps : OutPath → List FilePath
  elaborate_deps prj = out_path prj ∷ elim rule.test_case_generator [ none ↦ [] | some p ↦ p ∷ [] ]

  unfoldable pub elaborate_snapshots : OutPath → List Snapshot → Action
  unfolding set_args xelab_cmd elaborate_deps join
  elaborate_snapshots prj [] ctx = ok ctx
  elaborate_snapshots prj (s ∷ rest) ctx = do
    generics ← set_args rule s.params
    ctx' ←
        add_build_step host.input host.os
          (record zero_step {
            out = some s.log_file;
            ins = elaborate_deps prj;
            cmd = xelab_cmd prj s generics;
            descr = "xelab: " <> join " " (xsim_tops rule) <> " " <> s.target;
          })
          ctx
    elaborate_snapshots prj rest ctx'

  unfoldable pub elaborate : OutPath → Action
  unfolding elaborate_snapshots snapshots
  elaborate prj ctx = elaborate_snapshots prj (snapshots rule) ctx

  unfoldable pub tcl_file : Action
  unfolding xsim_file
  tcl_file ctx = do
    let out = xsim_file rule "/xsim.tcl"
    let params : TclFileParams = record {
      dump_wdb = host.settings.xsim_dump_wdb;
      dump_vcd = host.settings.dump_vcd;
      dump_vcd_file = absolute host.input (out_path (xsim_file rule ("/" <> rule.name <> ".vcd")));
    }
    text ←
        compile_template host.input host.templates ctx.current_target xsim_tcl_file_template "tcl"
          (tcl_file_params params)
    add_build_step host.input host.os
        (record zero_step { out = some out; data' = text; descr = "xsim: " <> out.rel }) ctx

  unfoldable pub build_xsim : Action
  unfolding create_prj_file elaborate tcl_file
  build_xsim ctx = do
    (prj, ctx1) ← create_prj_file host rule ctx
    ctx2 ← elaborate prj ctx1
    tcl_file ctx2
