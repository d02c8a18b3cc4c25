-- ===== src/Hdl/Vivado/Export.antt =====
-- RULES/hdl/xilinx.go: XCI files and block designs that are exported to a simulator.
use dbt_rules.Base.{
  String, ◌<>◌, Option, none, some, List, [], ◌∷◌, ◌++◌, ◌==◌, string_eq, if◌then◌else◌, Result, ok,
  fail, panic, ◌>>=◌,
}
use dbt_rules.Base.Map.{Map, keys, index, lookup}
use dbt_rules.Base.Text.{join, trim_suffix, to_lower}
use dbt_rules.Base.Text.Paths.{dir, ext}
use dbt_rules.Core.Input.{Outcome, done, error}
use dbt_rules.Core.Path.{FilePath, out_path, OutPath, absolute, relative, build_path, with_suffix}
use dbt_rules.Core.Context.{Context}
use dbt_rules.Core.Context.AddBuildStep.{add_build_step}
use dbt_rules.Core.Template.{compile_template}
use dbt_rules.Core.Rules.{zero_step}
use dbt_rules.Hdl.Files.{sorted_string_keys}
use dbt_rules.Hdl.Ip.{FlagMap, Ip}
use dbt_rules.Hdl.Ip.Sources.{filter_sources}
use dbt_rules.Hdl.Xci.{Xci}
use dbt_rules.Hdl.Templates.{ExportParams, export_params}
use dbt_rules.Hdl.Simulation.{Host, log_fatal}
use dbt_rules.Hdl.Vivado.Scripts.{
  export_ip_template, vivado_command, create_project_template, export_add_files_template,
  export_simulation_template, source_utils,
}

-- `values[0].Value`
first_value : List String → Result String
first_value [] = fail (panic "index out of range [0] with length 0")
first_value (v ∷ vs) = ok v

unfoldable pub part_of : Xci → Result String
unfolding first_value
part_of xci = do
  device ← first_value xci.device
  pkg ← first_value xci.package'
  speed ← first_value xci.speedgrade
  grade ← first_value xci.temperature_grade
  ok (device <> "-" <> pkg <> speed <> (if grade == "" then "" else "-" <> grade))

-- The defines and the options, for the names of the maps.
defines : Map String String → List String → List String
defines m [] = []
defines m (key ∷ rest) =
    let value = index "" m key in
    (if value == "" then key else key <> "=" <> value) ∷ defines m rest

unfoldable pub define_list : Map String String → List String → List String
unfolding defines
define_list m names = "SIMULATION" ∷ defines m names

unfoldable pub options : FlagMap → List String → List String
options m [] = []
options m (tool ∷ rest) = (tool <> ":" <> index "" m tool) ∷ options m rest

module _ (host : Host) where
  abbrev script : String → String → ExportParams → Context → Result String
  script tmpl name params ctx =
      compile_template host.input host.templates ctx.current_target tmpl name (export_params params)

  unfoldable pub need_xci : FilePath → Outcome Xci → Result Xci
  need_xci src (done xci) = ok xci
  need_xci src (error err) = log_fatal ("unable to read XCI file " <> relative src)

  unfoldable pub need_lib_dir : Result String
  need_lib_dir =
      if host.settings.simulator_lib_dir == ""
      then log_fatal "hdl-simulator-lib-dir must be set when compiling XCI files!"
      else ok host.settings.simulator_lib_dir

  do_path : String → OutPath
  do_path rel =
      with_suffix (out_path (build_path rel)) ("/" <> host.settings.simulator <> "/compile.do")

  -- The two maps are read in their order.
  unfoldable pub export_xilinx_ip_checkpoint :
      FilePath → Map String String → FlagMap → Context → Result (FilePath × Context)
  unfolding need_xci need_lib_dir do_path part_of define_list options trim_suffix to_lower
  export_xilinx_ip_checkpoint src def flags ctx = do
    xci ← need_xci src (host.read_xci (absolute host.input src))
    lib_dir ← need_lib_dir
    part ← part_of xci
    let params : ExportParams = record {
      sources = src ∷ [];
      simulator = host.settings.simulator;
      name = "";
      args = [];
      part = to_lower part;
      board = "";
      dir = absolute host.input (out_path (build_path (dir (relative src))));
      lib_dir = lib_dir;
      defines = define_list def (keys def);
      options = options flags (keys flags);
    }
    text ←
        script (vivado_command <> create_project_template <> export_ip_template) "export_ip" params
          ctx
    let out = do_path (trim_suffix (relative src) (ext (relative src)))
    ctx' ←
        add_build_step host.input host.os
          (record zero_step {
            out = some out;
            in' = some src;
            script = text;
            descr = "export: " <> relative src;
          })
          ctx
    ok (out_path out, ctx')

  -- `flags[name]`, and the flag's value where it is missing.
  abbrev or_setting : Option String → String → String
  or_setting (some v) d = v
  or_setting none d = d

  -- The names are sorted. The block design is given with its name and arguments.
  unfoldable pub export_block_design :
      Ip
      → String
      → List String
      → Map String String
      → FlagMap
      → Context
      → Result (FilePath × Context)
  unfolding define_list options filter_sources to_lower sorted_string_keys join
  export_block_design bd name args def flags ctx = do
    let sources = filter_sources host.input bd ".tcl" ++ filter_sources host.input bd ".v"
    let params : ExportParams = record {
      sources = sources;
      simulator = host.settings.simulator;
      name = name;
      args = [];
      part = to_lower (or_setting (lookup "part" flags) host.settings.part_name);
      board = to_lower (or_setting (lookup "board" flags) host.settings.board_name);
      dir = absolute host.input (out_path ctx.cwd);
      lib_dir = host.settings.simulator_lib_dir;
      defines = define_list def (sorted_string_keys def);
      options = options flags (sorted_string_keys flags);
    }
    text ←
        script
          (vivado_command
            <> create_project_template
            <> export_add_files_template
            <> source_utils
            <> name
            <> " "
            <> join " " args
            <> export_simulation_template)
          "export_bd" params ctx
    let out = with_suffix (out_path ctx.cwd) ("/" <> host.settings.simulator <> "/compile.do")
    ctx' ←
        add_build_step host.input host.os
          (record zero_step {
            ins = sources;
            out = some out;
            script = text;
            descr = "export: " <> name;
          })
          ctx
    ok (out_path out, ctx')
