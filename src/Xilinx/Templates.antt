-- ===== src/Xilinx/Templates.antt =====
-- RULES/xilinx: the data of the package's templates, and what the package reads of the run. The
-- floating-point numbers are the parameter `F`.
use dbt_rules.Base.{String, Bool, Option, List}
use dbt_rules.Base.Map.{Map}
use dbt_rules.Core.Input.{Outcome}
use dbt_rules.Core.Path.{FilePath, OutPath}
use dbt_rules.Core.Template.{Templates}
use dbt_rules.Hdl.Simulation.{Host}

pub record BuildFileParams : Type 0 where
  pub out : FilePath
  pub part_name : String
  pub board_name : String
  pub name : String
  pub inc_dir : FilePath
  pub board_files : List FilePath
  pub ips : List FilePath
  pub constrs : List FilePath
  pub rtls : List FilePath
  pub out_of_context : Bool
  pub report_dir : FilePath
  pub flatten_strategy : String

pub record RunSynthesisParams : Type 0 where
  pub build_script : FilePath
  pub bitstream : FilePath
  pub debug_probes : FilePath
  pub verbose : Bool
  pub postprocess : String

pub record ConstraintsParams (F : Type 0) : Type 0 where
  pub out : FilePath
  pub clock_signal : String
  pub clock_period : F

pub record BootPayloadParams : Type 0 where
  pub out : OutPath
  pub fsbl : FilePath
  pub pmu_fw : FilePath
  pub bl31 : FilePath
  pub u_boot : FilePath

pub record HandoffParams : Type 0 where
  pub hw_def : Option FilePath
  pub embedded_sw : FilePath
  pub fsbl : FilePath
  pub pmu_fw : FilePath
  pub patch : Option FilePath

pub record AtfParams : Type 0 where
  pub bl31 : FilePath
  pub repo : FilePath

pub record UBootParams : Type 0 where
  pub out : OutPath
  pub repo : FilePath
  pub config : String

pub record ExportScriptParams : Type 0 where
  pub family : String
  pub language : String
  pub library : String
  pub simulator : String
  pub output : String

pub record IpScriptParams : Type 0 where
  pub part_name : String
  pub board_name : String
  pub name : String
  pub design : FilePath
  pub xci_path : String
  pub out_sim : OutPath
  pub out_xci : OutPath
  pub board_files : List FilePath
  pub sim_scripts : Map String FilePath
  pub data_files : Map String OutPath
  pub verbose : Bool

pub data XilinxParams (F : Type 0) : Type 0 where
  build_file_params : BuildFileParams → XilinxParams F
  run_synthesis_params : RunSynthesisParams → XilinxParams F
  constraints_params : ConstraintsParams F → XilinxParams F
  boot_payload_params : BootPayloadParams → XilinxParams F
  handoff_params : HandoffParams → XilinxParams F
  atf_params : AtfParams → XilinxParams F
  u_boot_params : UBootParams → XilinxParams F
  export_script_params : ExportScriptParams → XilinxParams F
  ip_script_params : IpScriptParams → XilinxParams F

pub record XilinxHost (F : Type 0) : Type 0 where
  pub host : Host
  -- The flag xilinx-synth-flatten_strategy.
  pub flatten_strategy : String
  pub templates : Templates (XilinxParams F)
  -- hdl/BUILD.go: the template files, which `in` makes to paths.
  pub ip_script_tmpl : FilePath
  pub build_script_tmpl : FilePath
  pub run_synthesis_script_tmpl : FilePath
  pub out_of_context_constraints_tmpl : FilePath
  -- regexp.MatchString
  pub match_string : String → String → Outcome Bool
  -- A period is 0.0; the default is 1.55.
  pub is_zero : F → Bool
  pub default_period : F
