-- ===== src/Samples/Hardware.antt =====
-- RULES/hdl and RULES/xilinx: Ips and their sources at concrete data.
use mathlib.Core.List.Perm as Perms
use dbt_rules.Base.{
  some, ◌++◌, ℕ, String, ◌≡◌, refl, false, List, [], ◌∷◌, map, elem, Distinct, string_eq,
}
use dbt_rules.Base.Map.{insert, lookup}
use dbt_rules.Base.Text.Paths.{join_path}
use dbt_rules.Core.Input.{done, error}
use dbt_rules.Core.Path.{FilePath, in_path, absolute}
use dbt_rules.Core.Template.{Templates, text}
use dbt_rules.Core.Context.{new_context}
use dbt_rules.Core.Rules.{expand_template_sorted}
use dbt_rules.Core.Rules.Sorted.{expand_template_sorted-perm}
use dbt_rules.Hdl.Unique.{none_seen, push_all}
use dbt_rules.Hdl.Ip.{Kind, block_design, Ip, ip, Ips, nil, cons}
use dbt_rules.Hdl.Ip.Flatten.{flatten_ip_graph}
use dbt_rules.Hdl.Ip.Flatten.Order.{ReachedAll, IsOrdered, among, flatten_ip_graph-IsOrdered}
use dbt_rules.Hdl.Ip.Sources.{name, filter_sources}
use dbt_rules.Hdl.Ip.Sources.Exact.{sources_of, wanted, filter_sources_exact}
use dbt_rules.Hdl.Settings.{Settings}
use dbt_rules.Hdl.Simulation.{Host}
use dbt_rules.Xilinx.Templates.{XilinxHost}
use dbt_rules.Xilinx.Synthesis.{Bitstream, bitstream_inputs}
use dbt_rules.Xilinx.Synthesis.Sorted.{
  all_of, those, rtl, constraint, checkpoint, bitstream_inputs-Sorted,
}
use dbt_rules.Samples.{sample_input, sample_os, out_at}

abbrev pub src_at : String → FilePath
src_at rel = in_path rel ""

-- An Ip with a name, its sources and the Ips below it.
abbrev pub ip_of : String → List FilePath → Ips → Ip
ip_of label srcs below =
    ip (record { kind = block_design label []; srcs = srcs; data_files = []; tool_flags = [] })
      below

-- The name stands for the checksum.
label_of : Kind → String
label_of (block_design label args) = label
label_of _ = ""

abbrev label : Ip → String
label (ip parts below) = label_of parts.kind

abbrev pub fifo : Ip
fifo = ip_of "fifo" (src_at "fifo.sv" ∷ src_at "types.svh" ∷ []) nil

abbrev mac : Ip
mac = ip_of "mac" (src_at "mac.v" ∷ src_at "pins.xdc" ∷ []) (cons fifo nil)

abbrev pub uart : Ip
uart = ip_of "uart" (src_at "uart.vhd" ∷ src_at "fifo.sv" ∷ []) (cons fifo nil)

-- Two Ips over a third.
abbrev shared : Ips
shared = cons mac (cons uart nil)

flatten_run : flatten_ip_graph label shared ≡ fifo ∷ mac ∷ uart ∷ []
unfolding flatten_ip_graph label_of lookup insert
flatten_run = refl

flatten_ip_graph-IsOrdered_example :
    Distinct (map label (flatten_ip_graph label shared))
    × ReachedAll label shared (among label (map label (flatten_ip_graph label shared)))
    × IsOrdered label [] (flatten_ip_graph label shared)
flatten_ip_graph-IsOrdered_example = flatten_ip_graph-IsOrdered label shared

filter_run : filter_sources sample_input uart ".sv" ≡ src_at "fifo.sv" ∷ []
unfolding filter_sources absolute join_path lookup insert
filter_run = refl

filter_sources_exact_example :
    (filter_sources sample_input uart ".sv"
      ≡ (push_all
          (name sample_input)
          (wanted sample_input ".sv" (sources_of uart))
          none_seen).items)
    × Distinct (map (name sample_input) (filter_sources sample_input uart ".sv"))
    × ((k : String)
        → elem k (map (name sample_input) (filter_sources sample_input uart ".sv"))
          ≡ elem k (map (name sample_input) (wanted sample_input ".sv" (sources_of uart))))
filter_sources_exact_example = filter_sources_exact sample_input ".sv" uart

abbrev plain_settings : Settings
plain_settings = record {
  simulator = "questa";
  simulator_lib_dir = "";
  simulator_lib_search = "xil_defaultlib";
  dump_vcd = false;
  board_name = "";
  part_name = "xczu3eg-sbva484-1-e";
  implementation = "vivado";
  implementation_step = "bitstream";
  implementation_gui = false;
  vlog_flags = "-svinputport=net";
  vcom_flags = "";
  vopt_flags = "-fsmverbose";
  vsim_flags = "";
  lint = false;
  designfile = false;
  access = "acc";
  coverage = false;
  dump_qwavedb = false;
  dump_qwavedb_scope = "all";
  xsim_dump_wdb = false;
  xelab_flags = "";
  xelab_debug = "typical";
  xsim_flags = "";
}

-- The templates are not expanded.
abbrev verbatim : {P : Type 0} → Templates P
verbatim = record { render = λ tmpl name params. text tmpl; render_file = λ file params. text file }

abbrev pub sample_host : Host
sample_host = record {
  input = sample_input;
  os = sample_os;
  settings = plain_settings;
  read_dir = λ dir. done ("short.json" ∷ []);
  is_missing = λ path. false;
  read_xci = λ path. error "no such file";
  templates = verbatim;
}

abbrev xilinx_host : XilinxHost ℕ
xilinx_host = record {
  host = sample_host;
  flatten_strategy = "rebuilt";
  templates = verbatim;
  ip_script_tmpl = src_at "hdl/XilinxIpScript.tmpl";
  build_script_tmpl = src_at "hdl/XilinxBuildScript.tmpl";
  run_synthesis_script_tmpl = src_at "hdl/XilinxRunSynthesisScript.tmpl";
  out_of_context_constraints_tmpl = src_at "hdl/XilinxOutOfContextConstraints.tmpl";
  match_string = λ pattern s. done false;
  is_zero = λ x. false;
  default_period = 1550;
}

abbrev design : Bitstream
design = record {
  name = "top";
  src = src_at "top.sv";
  constraints = some (src_at "top.xdc");
  ips = shared;
  postprocess = "";
  board_files = [];
  verbose = false;
}

bitstream_inputs-Sorted_example :
    let i = bitstream_inputs xilinx_host label design in
    let srcs = all_of (flatten_ip_graph label shared) in
    (i.ins ≡ (srcs ++ src_at "top.sv" ∷ []) ++ src_at "top.xdc" ∷ [])
    × (i.rtls ≡ those xilinx_host label (rtl xilinx_host label) srcs ++ src_at "top.sv" ∷ [])
    × (i.constrs
        ≡ those xilinx_host label (constraint xilinx_host label) srcs ++ src_at "top.xdc" ∷ [])
    × (i.ips ≡ those xilinx_host label (checkpoint xilinx_host label) srcs)
bitstream_inputs-Sorted_example = bitstream_inputs-Sorted xilinx_host label design

expand_template_sorted-perm_example :
    expand_template_sorted sample_input sample_os
      (out_at "config.h")
      (src_at "config.h.in")
      (("@A@", "1") ∷ ("@B@", "2") ∷ [])
      new_context
    ≡ expand_template_sorted sample_input sample_os
        (out_at "config.h")
        (src_at "config.h.in")
        (("@B@", "2") ∷ ("@A@", "1") ∷ [])
        new_context
expand_template_sorted-perm_example =
    expand_template_sorted-perm sample_input sample_os (out_at "config.h") (src_at "config.h.in")
      new_context (Perms.swap ("@B@", "2") ("@A@", "1") [])
