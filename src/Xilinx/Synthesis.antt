-- ===== src/Xilinx/Synthesis.antt =====
-- RULES/xilinx/bitstream.go and synth_out_of_context.go: the scripts that synthesise a design. The
-- checksum of an Ip is the parameter `sum`.
pub mod Sorted
use dbt_rules.Base.{
  String, ◌<>◌, Bool, true, false, Option, none, some, List, [], ◌∷◌, ◌++◌, ◌==◌, string_eq,
  if◌then◌else◌, Result, ok, ◌>>=◌,
}
use dbt_rules.Core.Path.{FilePath, out_path, OutPath, absolute, source_path, with_ext, with_suffix}
use dbt_rules.Core.Context.{Context, Action}
use dbt_rules.Core.Context.AddBuildStep.{add_build_step}
use dbt_rules.Core.Template.{compile_template_file}
use dbt_rules.Core.Rules.{zero_step}
use dbt_rules.Hdl.Files.{is_rtl, is_constraint, is_xilinx_ip_checkpoint}
use dbt_rules.Hdl.Ip.{Ip, Ips, nil, cons, parts_of}
use dbt_rules.Hdl.Ip.Flatten.{flatten_ip_graph}
use dbt_rules.Xilinx.Templates.{
  XilinxHost, XilinxParams, build_file_params, run_synthesis_params, constraints_params,
  BuildFileParams,
}

pub record Bitstream : Type 0 where
  pub name : String
  pub src : FilePath
  pub constraints : Option FilePath
  pub ips : Ips
  pub postprocess : String
  pub board_files : List FilePath
  pub verbose : Bool

pub record SynthOutOfContext (F : Type 0) : Type 0 where
  pub name : String
  pub ip' : Ip
  pub clock_signal : String
  pub clock_period : F
  pub constraints : Option FilePath
  pub board_files : List FilePath

-- The sources by their kind, and all of them.
pub record Inputs : Type 0 where
  pub ips : List FilePath
  pub rtls : List FilePath
  pub constrs : List FilePath
  pub ins : List FilePath

module _ {F : Type 0} (x : XilinxHost F) (sum : Ip → String) where
  abbrev pub path_name : FilePath → String
  path_name p = absolute x.host.input p

  unfoldable pub sort_source : FilePath → Inputs → Inputs
  unfolding is_rtl is_constraint is_xilinx_ip_checkpoint
  sort_source src i =
      let path = path_name src in
      let all = i.ins ++ src ∷ [] in
      if is_rtl path
      then record i { rtls = i.rtls ++ src ∷ []; ins = all }
      else if is_constraint path
      then record i { constrs = i.constrs ++ src ∷ []; ins = all }
      else if is_xilinx_ip_checkpoint path
      then record i { ips = i.ips ++ src ∷ []; ins = all }
      else record i { ins = all }

  unfoldable pub sort_sources : List FilePath → Inputs → Inputs
  unfolding sort_source
  sort_sources [] i = i
  sort_sources (src ∷ srcs) i = sort_sources srcs (sort_source src i)

  unfoldable pub sort_ips : List Ip → Inputs → Inputs
  unfolding sort_sources
  sort_ips [] i = i
  sort_ips (p ∷ ps) i = sort_ips ps (sort_sources (parts_of p).srcs i)

  unfoldable pub inputs : Ips → Inputs
  unfolding sort_ips flatten_ip_graph
  inputs ips =
      sort_ips (flatten_ip_graph sum ips) (record { ips = []; rtls = []; constrs = []; ins = [] })

  unfoldable pub with_constraints : Option FilePath → Inputs → Inputs
  with_constraints none i = i
  with_constraints (some c) i = record i { ins = i.ins ++ c ∷ []; constrs = i.constrs ++ c ∷ [] }

  build_file : OutPath → String → List FilePath → Bool → Inputs → BuildFileParams
  build_file out name board_files out_of_context i = record {
    out = out_path out;
    part_name = x.host.settings.part_name;
    board_name = x.host.settings.board_name;
    name = name;
    inc_dir = source_path "";
    board_files = board_files;
    ips = i.ips;
    constrs = i.constrs;
    rtls = i.rtls;
    out_of_context = out_of_context;
    report_dir = source_path ("../synth_reports/" <> name);
    flatten_strategy = x.flatten_strategy;
  }

  template : FilePath → XilinxParams F → Context → Result String
  template tmpl params ctx =
      compile_template_file x.host.input x.templates ctx.current_target (path_name tmpl) params

  unfoldable pub bitstream_inputs : Bitstream → Inputs
  unfolding inputs with_constraints
  bitstream_inputs rule =
      let i = inputs rule.ips in
      with_constraints rule.constraints
        (record i { ins = i.ins ++ rule.src ∷ []; rtls = i.rtls ++ rule.src ∷ [] })

  unfoldable pub bitstream_build : Bitstream → Action
  unfolding bitstream_inputs build_file template with_ext
  bitstream_build rule ctx = do
    let i = bitstream_inputs rule
    let bit = with_ext rule.src "bit"
    let probes = with_ext rule.src "ltx"
    let script = with_ext rule.src "tcl"
    text ←
        template x.build_script_tmpl
          (build_file_params (build_file script rule.name rule.board_files false i)) ctx
    ctx1 ←
        add_build_step x.host.input x.host.os
          (record zero_step {
            out = some script;
            ins = i.ins;
            script = text;
            descr = "Generating a bitstream build file " <> script.rel;
          })
          ctx
    run ←
        template x.run_synthesis_script_tmpl
          (run_synthesis_params (record {
            build_script = out_path script;
            bitstream = out_path bit;
            debug_probes = out_path probes;
            verbose = rule.verbose;
            postprocess = rule.postprocess;
          }))
          ctx1
    add_build_step x.host.input x.host.os
        (record zero_step {
          outs = some (bit ∷ probes ∷ []);
          in' = some (out_path script);
          script = run;
          descr = "Generating bitstream " <> bit.rel;
        })
        ctx1

  -- The constraints of the rule, or a file that is generated for the clock.
  unfoldable pub own_constraints : SynthOutOfContext F → Context → Result (FilePath × Context)
  unfolding template
  own_constraints rule ctx = elim rule.constraints [
    | some c ↦ ok (c, ctx)
    | none ↦ do
      let out = with_suffix (out_path ctx.cwd) ("/" <> rule.name <> "_constraints.xdc")
      text ←
          template x.out_of_context_constraints_tmpl
            (constraints_params (record {
              out = out_path out;
              clock_signal = if rule.clock_signal == "" then "clk_i" else rule.clock_signal;
              clock_period =
                  if x.is_zero rule.clock_period then x.default_period else rule.clock_period;
            }))
            ctx
      ctx' ←
          add_build_step x.host.input x.host.os
            (record zero_step {
              out = some out;
              data' = text;
              descr = "Generating automatic out-of-context constraints file: " <> out.rel <> ".";
            })
            ctx
      ok (out_path out, ctx')
  ]

  unfoldable pub synth_out_of_context_build : SynthOutOfContext F → Action
  unfolding inputs own_constraints with_constraints build_file template
  synth_out_of_context_build rule ctx = do
    (constraints, ctx1) ← own_constraints rule ctx
    let i = with_constraints (some constraints) (inputs (cons rule.ip' nil))
    let out = with_suffix (out_path ctx1.cwd) ("/" <> rule.name <> "_synth.tcl")
    text ←
        template x.build_script_tmpl
          (build_file_params (build_file out rule.name rule.board_files true i)) ctx1
    add_build_step x.host.input x.host.os
        (record zero_step {
          out = some out;
          ins = i.ins;
          script = text;
          descr = "Generating synthesis script: " <> out.rel;
        })
        ctx1
