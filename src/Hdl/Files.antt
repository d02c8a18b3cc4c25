-- ===== src/Hdl/Files.antt =====
-- RULES/hdl/utils.go: the kinds of files, by their suffix.
use dbt_rules.Base.{String, Bool, ◌||◌, List}
use dbt_rules.Base.Map.{Map, keys}
use dbt_rules.Base.Sort.{sort_strings}
use dbt_rules.Base.Text.{has_suffix}

unfoldable pub is_verilog : String → Bool
unfolding has_suffix
is_verilog path = has_suffix path ".v" || has_suffix path ".sv"

unfoldable pub is_system_verilog : String → Bool
unfolding has_suffix
is_system_verilog path = has_suffix path ".sv"

unfoldable pub is_vhdl : String → Bool
unfolding has_suffix
is_vhdl path = has_suffix path ".vhdl" || has_suffix path ".vhd"

unfoldable pub is_rtl : String → Bool
unfolding has_suffix
is_rtl path =
    has_suffix path ".v"
    || has_suffix path ".sv"
    || has_suffix path ".vhdl"
    || has_suffix path ".vhd"

unfoldable pub is_header : String → Bool
unfolding has_suffix
is_header path = has_suffix path ".vh" || has_suffix path ".svh" || has_suffix path ".svp"

unfoldable pub is_constraint : String → Bool
unfolding has_suffix
is_constraint path = has_suffix path ".xdc"

unfoldable pub is_xilinx_ip_checkpoint : String → Bool
unfolding has_suffix
is_xilinx_ip_checkpoint path = has_suffix path ".xci"

unfoldable pub is_simulation_archive : String → Bool
unfolding has_suffix
is_simulation_archive path = has_suffix path ".sim.tar.gz"

unfoldable pub sorted_string_keys {ℓ} : {V : Type ℓ} → Map String V → List String
unfolding sort_strings
sorted_string_keys m = sort_strings (keys m)
