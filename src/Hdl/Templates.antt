-- ===== src/Hdl/Templates.antt =====
-- RULES/hdl: the data of the package's templates.
use dbt_rules.Base.{String, Bool, List}
use dbt_rules.Base.Map.{Map}
use dbt_rules.Core.Path.{FilePath, OutPath}
use dbt_rules.Core.Template.{Templates}
use dbt_rules.Hdl.Ip.{Ip}

pub record DoFileParams : Type 0 where
  pub waveform_init : String
  pub dump_vcd : Bool
  pub dump_vcd_file : String
  pub cov_files : String

pub record TclFileParams : Type 0 where
  pub dump_wdb : Bool
  pub dump_vcd : Bool
  pub dump_vcd_file : String

pub record ExportParams : Type 0 where
  pub sources : List FilePath
  pub simulator : String
  pub name : String
  pub args : List String
  pub part : String
  pub board : String
  pub dir : String
  pub lib_dir : String
  pub defines : List String
  pub options : List String

pub record ImplementationParams : Type 0 where
  pub top : String
  pub gui : Bool
  pub sources : List FilePath
  pub inc_dirs : List FilePath
  pub block_designs : List Ip
  pub step : String
  pub part : String
  pub board : String
  pub dir : OutPath
  pub params : Map String String
  pub defines : Map String String
  pub properties : Map String (Map String String)

pub data HdlParams : Type 0 where
  do_file_params : DoFileParams → HdlParams
  tcl_file_params : TclFileParams → HdlParams
  export_params : ExportParams → HdlParams
  implementation_params : ImplementationParams → HdlParams

abbrev pub HdlTemplates : Type 0
HdlTemplates = Templates HdlParams
