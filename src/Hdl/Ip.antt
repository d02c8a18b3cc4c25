-- ===== src/Hdl/Ip.antt =====
-- RULES/hdl/hdl.go and flatten_ip_graph.go: the interface Ip and its implementations. An Ip is a
-- value that holds the Ips it depends on.
pub mod Sources
pub mod Flatten
use dbt_rules.Base.{String, List, [], ◌∷◌}
use dbt_rules.Base.Map.{Map}
use dbt_rules.Core.Path.{FilePath}

abbrev pub FlagMap : Type 0
FlagMap = Map String String

-- The implementations, with the fields that the rules read by a type assertion.
pub data Kind : Type 0 where
  library : Kind
  -- The part and the board.
  fpga : String → String → Kind
  -- The name and the arguments.
  block_design : String → List String → Kind

-- The fields that an Ip has besides the Ips.
pub record Parts : Type 0 where
  pub kind : Kind
  pub srcs : List FilePath
  pub data_files : List FilePath
  pub tool_flags : FlagMap

mutual
  pub data Ip : Type 0 where
    ip : Parts → Ips → Ip

  pub data Ips : Type 0 where
    nil : Ips
    cons : Ip → Ips → Ips

abbrev pub parts_of : Ip → Parts
parts_of (ip parts ips) = parts

abbrev pub ips_of : Ip → Ips
ips_of (ip parts ips) = ips
