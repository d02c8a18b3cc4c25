-- ===== src/Hdl/Vivado/Implementation.antt =====
-- RULES/hdl/hdl.go and xilinx.go: the implementation of an FPGA design.
use dbt_rules.Base.{String, ◌<>◌, some, List, [], ◌∷◌, ◌++◌, ◌==◌, string_eq, if◌then◌else◌, ◌>>=◌}
use dbt_rules.Base.Map.{Map}
use dbt_rules.Core.Path.{out_path, build_path, with_suffix}
use dbt_rules.Core.Context.{Action}
use dbt_rules.Core.Context.AddBuildStep.{add_build_step}
use dbt_rules.Core.Template.{compile_template}
use dbt_rules.Core.Rules.{zero_step}
use dbt_rules.Hdl.Ip.{Kind, Parts, Ip, ip, Ips, nil, cons, block_design, fpga}
use dbt_rules.Hdl.Ip.Sources.{all_sources, all_inc_dirs}
use dbt_rules.Hdl.Templates.{ImplementationParams, implementation_params}
use dbt_rules.Hdl.Simulation.{Host, log_fatal}
use dbt_rules.Hdl.Vivado.Project.{implementation_project_template}

-- Fpga embeds a Library; `parts` and `ips` are its fields.
pub record Fpga : Type 0 where
  pub parts : Parts
  pub ips : Ips
  pub name : String
  pub top : String
  pub part : String
  pub board : String
  pub params : Map String String
  pub defines : Map String String
  pub tool_props : Map String (Map String String)

abbrev pub fpga_ip : Fpga → Ip
fpga_ip rule = ip (record rule.parts { kind = fpga rule.part rule.board }) rule.ips

abbrev own_bds : Kind → Ip → List Ip
own_bds (block_design name args) i = i ∷ []
own_bds _ i = []

unfoldable mutual
  pub all_bds : Ip → List Ip
  all_bds (ip parts ips) = own_bds parts.kind (ip parts ips) ++ all_bds_of ips

  pub all_bds_of : Ips → List Ip
  all_bds_of nil = []
  all_bds_of (cons i is) = all_bds i ++ all_bds_of is

unfoldable pub vivado_step : String → String
vivado_step step =
    if step == "placement"
    then "place_design"
    else if step == "routing"
    then "route_design"
    else if step == "bitstream"
    then "write_bitstream"
    else step

unfoldable pub project_name : Fpga → String
project_name rule = if rule.name == "" then rule.top else rule.name

module _ (host : Host) where
  unfoldable pub implementation_data : Fpga → ImplementationParams
  unfolding all_sources all_inc_dirs all_bds vivado_step project_name
  implementation_data rule = record {
    top = rule.top;
    gui = host.settings.implementation_gui;
    sources = all_sources host.input (fpga_ip rule);
    inc_dirs = all_inc_dirs host.input (fpga_ip rule);
    block_designs = all_bds (fpga_ip rule);
    step = vivado_step host.settings.implementation_step;
    part = rule.part;
    board = rule.board;
    dir = build_path ("/" <> project_name rule);
    params = rule.params;
    defines = rule.defines;
    properties = [];
  }

  unfoldable pub build_vivado : Fpga → Action
  unfolding implementation_data
  build_vivado rule ctx = do
    let data' = implementation_data rule
    text ←
        compile_template host.input host.templates ctx.current_target
          implementation_project_template "implementation" (implementation_params data')
    add_build_step host.input host.os
        (record zero_step {
          ins = data'.sources;
          out = some (with_suffix (out_path data'.dir) ("/" <> project_name rule <> ".xpr"));
          script = text;
          descr = "vivado: " <> rule.top;
        })
        ctx

  unfoldable pub fpga_build : Fpga → Action
  unfolding build_vivado
  fpga_build rule ctx =
      if host.settings.implementation == "vivado"
      then build_vivado rule ctx
      else log_fatal
          ("invalid value '" <> host.settings.implementation <> "' for hdl-implementation flag")
