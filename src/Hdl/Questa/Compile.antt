-- ===== src/Hdl/Questa/Compile.antt =====
-- RULES/hdl/questa.go: the build steps that compile the sources. `rules` is the package's variable,
-- and `flags` the map of tool flags, one object for all calls of a compilation.
pub mod Commands
pub mod Noted
pub mod Order
pub mod Inputs
pub mod Merged
pub mod Sound
pub mod Whole
use dbt_rules.Base.{
  String, ◌<>◌, Bool, true, false, Option, none, some, List, [], ◌∷◌, ◌++◌, ◌==◌, string_eq,
  if◌then◌else◌, Result, ok, ◌>>=◌,
}
use dbt_rules.Base.Map.{Map, insert, index, lookup}
use dbt_rules.Base.Text.{join, quote}
use dbt_rules.Core.Path.{FilePath, out_path, OutPath, absolute, relative, build_path, with_suffix}
use dbt_rules.Core.Step.{BuildStep}
use dbt_rules.Core.Context.{Context, Action}
use dbt_rules.Core.Context.AddBuildStep.{add_build_step}
use dbt_rules.Core.Rules.{zero_step}
use dbt_rules.Hdl.Files.{is_rtl, is_verilog, is_vhdl, is_header, is_xilinx_ip_checkpoint}
use dbt_rules.Hdl.Ip.{FlagMap, Kind, library, fpga, block_design, Parts, Ip, ip, Ips, nil, cons}
use dbt_rules.Hdl.Simulation.{Simulation, Host}
use dbt_rules.Hdl.Vivado.Export.{export_xilinx_ip_checkpoint, export_block_design}
use dbt_rules.Hdl.Questa.Flags.{vlog_cmd, vcom_cmd}

pub record Session : Type 0 where
  pub ctx : Context
  pub rules : Map String Bool
  pub flags : FlagMap

-- The dependencies and the include files, which each call extends.
pub record Collected : Type 0 where
  pub deps : List FilePath
  pub incs : List FilePath

-- What a source is compiled by; `cmd` is "" where it is not compiled.
pub record Command : Type 0 where
  pub tool : String
  pub cmd : String
  pub src : FilePath
  pub incs : List FilePath

vsim_do : String → String → String
vsim_do script log =
    "vsim -batch -do \"set t [exec date -R -r modelsim.ini]\" -do " <> script
    <> " -do \"exec touch -d \\$$t modelsim.ini\" -do exit -logfile " <> log

-- The first text where there is no value, and the value and the second text where there is one.
abbrev pub appended : Option String → String → String → String
appended none d e = d
appended (some v) d e = v <> " " <> e

abbrev pub own_flags : Simulation → FlagMap
own_flags rule = elim rule.tool_flags [ none ↦ [] | some m ↦ m ]

module _ (host : Host) (rule : Simulation) where
  abbrev pub path_name : FilePath → String
  path_name p = absolute host.input p

  abbrev pub log_name : OutPath → String
  log_name log = path_name (out_path log)

  -- ctx.AddBuildStep
  abbrev pub step : BuildStep → Session → Result Session
  step s st = do ctx' ← add_build_step host.input host.os s st.ctx; ok (record st { ctx = ctx' })

  unfoldable pub create_modelsim_ini : List FilePath → Session → Result (List FilePath × Session)
  unfolding join quote
  create_modelsim_ini deps st = do
    let questa_lib = build_path "questa_lib"
    st1 ←
        step
          (record zero_step {
            out = some questa_lib;
            cmd = "mkdir " <> quote (log_name questa_lib);
            descr = "mkdir: " <> quote (log_name questa_lib);
          })
          st
    let ini = build_path "modelsim.ini"
    let dir = host.settings.simulator_lib_dir
    let libs =
        if dir == ""
        then []
        else ("if [ -d \"" <> dir <> "\" ]; then for lib in $$(find " <> dir
            <> " -mindepth 1 -maxdepth 1 -type d); do vmap $$(basename $$lib) $$lib; done; fi")
          ∷ []
    st2 ←
        step
          (record zero_step {
            in' = some (out_path questa_lib);
            out = some ini;
            cmd = join " && " (
                ("vlib questa_lib/work" ∷ "vlib questa_lib/msim"
                  ∷ "vlib questa_lib/msim/xil_defaultlib" ∷ "vmap work questa_lib/work"
                  ∷ "vmap xil_defaultlib questa_lib/msim/xil_defaultlib" ∷ [])
                ++ libs);
            descr = "vmap: " <> log_name ini;
          })
          st1
    ok (deps ++ out_path questa_lib ∷ out_path ini ∷ [], st2)

  unfoldable pub log_of : FilePath → OutPath
  log_of src = with_suffix (out_path (build_path (relative src))) ".log"

  unfoldable pub rtl_command : FilePath → List FilePath → FlagMap → Command
  unfolding is_verilog is_vhdl vlog_cmd vcom_cmd log_of
  rtl_command src incs flags =
      let tail =
        (if host.settings.lint then " -lint" else "")
        <> " -l "
        <> log_name (log_of src)
        <> " "
        <> path_name src in
      if is_verilog (path_name src)
      then record {
        tool = "vlog";
        cmd = vlog_cmd host rule incs flags <> tail;
        src = src;
        incs = incs;
      }
      else if is_vhdl (path_name src)
      then record { tool = "vcom"; cmd = vcom_cmd flags <> tail; src = src; incs = incs }
      else record { tool = ""; cmd = tail; src = src; incs = incs }

  unfoldable pub source_command : FilePath → List FilePath → Session → Result (Command × Session)
  unfolding is_rtl is_xilinx_ip_checkpoint is_header rtl_command vsim_do log_of
  source_command src incs st =
      if is_rtl (path_name src)
      then ok (rtl_command src incs st.flags, st)
      else if is_xilinx_ip_checkpoint (path_name src)
      then (do
        (script, ctx') ← export_xilinx_ip_checkpoint host src rule.defines st.flags st.ctx
        ok (
          record {
            tool = "vsim";
            cmd = vsim_do (path_name script) (log_name (log_of src));
            src = script;
            incs = incs;
          },
          record st { ctx = ctx' },
        ))
      else ok (
        record {
          tool = "";
          cmd = "";
          src = src;
          incs = if is_header (path_name src) then incs ++ src ∷ [] else incs;
        },
        st,
      )

  -- A build step, unless there is one for this log file.
  unfoldable pub note_step : OutPath → BuildStep → Session → Result Session
  note_step log s st =
      if index false st.rules (log_name log)
      then ok st
      else (do st' ← step s st; ok (record st' { rules = insert (log_name log) true st'.rules }))

  unfoldable pub compile_step : OutPath → Command → List FilePath → BuildStep
  compile_step log c deps = record zero_step {
    out = some log;
    ins = deps;
    cmd = c.cmd <> " || { rm " <> log_name log <> " && exit 1; }";
    descr = c.tool <> ": " <> path_name c.src;
  }

  unfoldable pub compile_src : FilePath → Collected → Session → Result (Collected × Session)
  unfolding source_command note_step compile_step log_of
  compile_src src c st = do
    (command, st1) ← source_command src c.incs st
    let deps = c.deps ++ command.src ∷ []
    let log = log_of src
    (if command.cmd == "" then ok (record { deps = deps; incs = command.incs }, st1) else (do
      st2 ← note_step log (compile_step log command deps) st1
      ok (record { deps = deps ++ out_path log ∷ []; incs = command.incs }, st2)))

  unfoldable pub compile_srcs : List FilePath → Collected → Session → Result (Collected × Session)
  unfolding compile_src
  compile_srcs [] c st = ok (c, st)
  compile_srcs (src ∷ srcs) c st = do (c', st') ← compile_src src c st; compile_srcs srcs c' st'

  unfoldable pub set_flags : FlagMap → FlagMap → FlagMap
  set_flags [] flags = flags
  set_flags ((tool, flag) ∷ rest) flags = set_flags rest (insert tool flag flags)

  -- Each flag behind those that the map has for its tool.
  unfoldable pub merge_flags : FlagMap → FlagMap → FlagMap
  merge_flags [] flags = flags
  merge_flags ((tool, flag) ∷ rest) flags =
      merge_flags rest (insert tool (appended (lookup tool flags) flag flag) flags)

  unfoldable pub export_step :
      OutPath
      → Ip
      → String
      → List String
      → FlagMap
      → List FilePath
      → Session
      → Result (List FilePath × Session)
  unfolding note_step set_flags vsim_do
  export_step log bd name args own deps st = do
    let flags = set_flags own st.flags
    (script, ctx') ← export_block_design host bd name args rule.defines flags st.ctx
    st' ←
        note_step log
          (record zero_step {
            out = some log;
            in' = some script;
            cmd = vsim_do (path_name script) (log_name log);
            descr = "vsim: " <> path_name script;
          })
          (record st { ctx = ctx'; flags = flags })
    ok (deps ++ out_path log ∷ [], st')

  unfoldable pub compile_block_design :
      Ip
      → String
      → List String
      → FlagMap
      → List FilePath
      → Session
      → Result (List FilePath × Session)
  compile_block_design bd name args own deps st =
      let log = with_suffix (out_path st.ctx.cwd) ("/" <> name <> ".log") in
      if index false st.rules (log_name log)
      then ok (deps ++ out_path log ∷ [], st)
      else export_step log bd name args own deps st

  fpga_flags : Kind → FlagMap → FlagMap
  fpga_flags (fpga part board) flags = insert "board" board (insert "part" part flags)
  fpga_flags _ flags = flags

  unfoldable pub kind_steps : Ip → Parts → Collected → Session → Result (Collected × Session)
  unfolding compile_block_design export_step
  kind_steps i parts c st = elim parts.kind [
    | block_design name args ↦ do
      (deps, st') ← compile_block_design i name args parts.tool_flags c.deps st
      ok (record c { deps = deps }, st')
    | _ ↦ ok (c, st)
  ]

  unfoldable mutual
    unfolding merge_flags fpga_flags compile_srcs kind_steps

    pub compile_ip : Ip → Collected → Session → Result (Collected × Session)
    compile_ip (ip parts ips) c st = do
      let flags = fpga_flags parts.kind (merge_flags parts.tool_flags st.flags)
      (c1, st1) ← compile_ips ips c (record st { flags = flags })
      (c2, st2) ← compile_srcs parts.srcs c1 st1
      kind_steps (ip parts ips) parts c2 st2

    pub compile_ips : Ips → Collected → Session → Result (Collected × Session)
    compile_ips nil c st = ok (c, st)
    compile_ips (cons i is) c st = do (c', st') ← compile_ip i c st; compile_ips is c' st'

  -- The flags of the two compilers. The one for vcom gets `VlogFlags` behind the rule's own.
  unfoldable pub compiler_flags : FlagMap → FlagMap
  compiler_flags flags =
      let s = host.settings in
      let vlog = appended (lookup "vlog" flags) s.vlog_flags s.vlog_flags in
      let vcom = appended (lookup "vcom" flags) s.vcom_flags s.vlog_flags in
      insert "vcom" vcom (insert "vlog" vlog flags)

  -- `flags` is the rule's own map, unless that is nil.
  unfoldable pub compile : Context → Map String Bool → Result (List FilePath × Session)
  unfolding compiler_flags create_modelsim_ini compile_ips compile_srcs
  compile ctx rules = do
    (deps, st) ←
        create_modelsim_ini []
          (record { ctx = ctx; rules = rules; flags = compiler_flags (own_flags rule) })
    (c1, st1) ← compile_ips rule.ips (record { deps = deps; incs = [] }) st
    (c2, st2) ← compile_srcs rule.srcs c1 st1
    ok (c2.deps, st2)
