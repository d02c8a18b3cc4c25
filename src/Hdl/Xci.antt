-- ===== src/Hdl/Xci.antt =====
-- RULES/hdl/xilinx.go: the parts of an XCI file that the rules read.
use dbt_rules.Base.{String, List}

-- The values of the project's parameters.
pub record Xci : Type 0 where
  pub device : List String
  pub package' : List String
  pub speedgrade : List String
  pub temperature_grade : List String
