-- ===== src/Hdl/Xsim/Script.antt =====
-- RULES/hdl/xsim.go: the template of the script that xsim runs.
use dbt_rules.Base.{String, ◌<>◌}

unfoldable pub xsim_tcl_file_template : String
xsim_tcl_file_template =
    "\n" <> "if [info exists ::env(from)] {\n" <> "\trun $::env(from)\n" <> "}\n" <> "\n"
    <> "{{ if .DumpVcd }}\n" <> "open_vcd {{ .DumpVcdFile }}\n" <> "log_vcd [get_objects -r]\n"
    <> "{{ end }}\n" <> "\n" <> "{{ if .DumpWdb }}\n" <> "log_wave [get_objects -r]\n"
    <> "{{ end }}\n" <> "\n" <> "if [info exists ::env(duration)] {\n" <> "\trun $::env(duration)\n"
    <> "} else {\n" <> "\trun -all\n" <> "}\n" <> "\n" <> "{{ if .DumpVcd }}\n" <> "close_vcd\n"
    <> "{{ end }}\n"
