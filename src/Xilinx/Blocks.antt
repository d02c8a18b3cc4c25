-- ===== src/Xilinx/Blocks.antt =====
-- RULES/xilinx/ip.go and sim_ip_export.go, and the sorted paths of RULES/core/util.go.
use dbt_rules.Base.{
  String, ◌<>◌, code, Bool, false, none, some, List, [], ◌∷◌, map, ◌==◌, string_eq, nat_eq,
  if◌then◌else◌, Result, ok, ◌>>=◌, ◌>>◌,
}
use dbt_rules.Base.Map.{Map, keys, lookup}
use dbt_rules.Base.Sort.{sort_strings}
use dbt_rules.Core.Input.{fatal}
use dbt_rules.Core.Path.{FilePath, out_path, OutPath, absolute, relative, with_suffix}
use dbt_rules.Core.Context.{Context, Action}
use dbt_rules.Core.Context.AddBuildStep.{add_build_step}
use dbt_rules.Core.Template.{compile_template, compile_template_file}
use dbt_rules.Core.Rules.{zero_step}
use dbt_rules.Xilinx.Templates.{XilinxHost, export_script_params, ip_script_params}
use dbt_rules.Xilinx.Scripts.{export_script}

values_at : {A : Type 0} → Map String A → List String → List A
values_at m [] = []
values_at m (k ∷ ks) =
    let rest = values_at m ks in elim (lookup k m) [ none ↦ rest | some v ↦ v ∷ rest ]

-- GetSortedPaths and GetSortedOutPaths
unfoldable pub get_sorted_paths : {A : Type 0} → Map String A → List A
unfolding values_at sort_strings
get_sorted_paths m = values_at m (sort_strings (keys m))

pub record XilinxIp : Type 0 where
  pub module_name : String
  pub out_xci : OutPath
  pub out_sim : OutPath
  pub design : FilePath
  pub xci_path : String
  pub board_files : List FilePath
  pub sim_scripts : Map String FilePath
  pub data_files : Map String OutPath
  pub verbose : Bool

unfoldable pub xilinx_ip_sources : XilinxIp → List FilePath
xilinx_ip_sources rule = out_path rule.out_sim ∷ out_path rule.out_xci ∷ []

unfoldable pub xilinx_ip_data : XilinxIp → List FilePath
xilinx_ip_data rule = map (λ e. out_path e.1) rule.data_files

pub record ExportSimulatorIp : Type 0 where
  pub family : String
  pub language : String
  pub library : String

or_all : String → String
or_all s = if s == "" then "all" else s

is_absolute : String → Bool
is_absolute String.[] = false
is_absolute (String.◌∷◌ c s) = code c == b'/'

module _ {F : Type 0} (x : XilinxHost F) where
  unfoldable pub xilinx_ip_build : XilinxIp → Action
  unfolding get_sorted_paths
  xilinx_ip_build rule ctx = do
    let xci_path =
        if rule.xci_path == ""
        then "./.srcs/sources_1/ip/" <> rule.module_name <> "/" <> rule.module_name <> ".xci"
        else rule.xci_path
    text ←
        compile_template_file x.host.input x.templates ctx.current_target
          (absolute x.host.input x.ip_script_tmpl)
          (ip_script_params (record {
            part_name = x.host.settings.part_name;
            board_name = x.host.settings.board_name;
            name = rule.module_name;
            design = rule.design;
            xci_path = xci_path;
            out_sim = rule.out_sim;
            out_xci = rule.out_xci;
            board_files = rule.board_files;
            sim_scripts = rule.sim_scripts;
            data_files = rule.data_files;
            verbose = rule.verbose;
          }))
    add_build_step x.host.input x.host.os
        (record zero_step {
          outs = some (rule.out_xci ∷ rule.out_sim ∷ get_sorted_paths rule.data_files);
          ins = rule.design ∷ get_sorted_paths rule.sim_scripts;
          script = text;
          descr = "Generating IP from " <> relative rule.design;
        })
        ctx

  -- The directory of the libraries.
  unfoldable pub sim_libs : Context → Result String
  unfolding is_absolute
  sim_libs ctx =
      let dir = x.host.settings.simulator_lib_dir in
      if dir == ""
      then ok (absolute x.host.input (out_path ctx.cwd))
      else if is_absolute dir
      then ok dir
      else (do
        fatal x.host.input ctx.current_target
            ("hdl-simulator-libs needs to contain an absolute path; current value: " <> dir)
        ok dir)

  unfoldable pub export_simulator_ip_build : ExportSimulatorIp → Action
  unfolding sim_libs or_all
  export_simulator_ip_build rule ctx = if x.host.settings.simulator == "xsim" then ok ctx else (do
    libs ← sim_libs ctx
    text ←
        compile_template x.host.input x.templates ctx.current_target export_script
          "export-ip-script"
          (export_script_params (record {
            family = or_all rule.family;
            language = or_all rule.language;
            library = or_all rule.library;
            simulator = x.host.settings.simulator;
            output = libs;
          }))
    add_build_step x.host.input x.host.os
        (record zero_step {
          out = some (with_suffix (out_path ctx.cwd) "/dummy");
          script = text;
          descr = "Exporting simulator IP for " <> x.host.settings.simulator <> " to " <> libs;
        })
        ctx)
