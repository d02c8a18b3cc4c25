-- ===== src/Hdl/Vivado/Scripts.antt =====
-- RULES/hdl/xilinx.go: the templates of the scripts that export designs to a simulator.
use dbt_rules.Base.{String, ◌<>◌}

unfoldable pub export_ip_template : String
export_ip_template =
    "\n" <> "{{- range .Sources }}\n" <> "{{- if or (hasSuffix .String \".xci\") }}\n"
    <> "if {[file exists .srcs] && [file isdirectory .srcs]} {\n"
    <> "  set name [file tail {{ .String }}]\n"
    <> "  foreach xci [exec find .srcs -name \"*.xci\"] {\n"
    <> "    if {[file tail $xci] == $name} {\n" <> "      puts \"Removing existing IP in $xci\"\n"
    <> "      file delete -force $xci\n" <> "      break\n" <> "    }\n" <> "  }\n" <> "}\n"
    <> "puts \"Reading IP from {{ .String }}\"\n" <> "import_ip {{ .String }}\n" <> "{{- end }}\n"
    <> "{{- end }}\n" <> "foreach ip [get_ips] {\n" <> "  puts \"Upgrade IP\"\n"
    <> "  upgrade_ip $ip\n" <> "  puts \"Generating IP\"\n" <> "  generate_target simulation $ip\n"
    <> "  puts \"Exporting IP to {{ .Dir }}\"\n"
    <> "  export_simulation -simulator {{ .Simulator }} -quiet -force -absolute_path -use_ip_compiled_libs -lib_map_path {{ .LibDir }} -of_objects $ip -step compile -directory {{ .Dir }}\n"
    <> "}\n"

unfoldable pub vivado_command : String
vivado_command = "#!/usr/bin/env -S vivado -nojournal -nolog -mode batch -source"

unfoldable pub create_project_template : String
create_project_template =
    "\n" <> "{{- if .Dir }}\n" <> "if [file exists {{ .Dir }}] {\n"
    <> "  file delete -force -- {{ .Dir }}\n" <> "}\n" <> "{{- end }}\n"
    <> "create_project -in_memory -part {{ .Part }}\n"
    <> "set_property target_language verilog [current_project]\n"
    <> "set_property source_mgmt_mode All [current_project]\n" <> "{{- if .Board }}\n"
    <> "catch {set_property board_part {{ .Board }} [current_project]}\n" <> "{{- end }}\n"

unfoldable pub export_add_files_template : String
export_add_files_template =
    "\n" <> "{{- /* add HDL source files */}}\n" <> "catch {\n" <> "  add_files -norecurse {\n"
    <> "{{- range .Sources }}\n" <> "{{- if or (hasSuffix .String \".v\") }}\n" <> "    {{ . }}\n"
    <> "{{- end }}\n" <> "{{- end }}\n" <> "  }\n" <> "}\n" <> "\n"
    <> "{{- /* add utilities fileset */}}\n"
    <> "if {[string equal [get_filesets -quiet utils_1] \"\"]} {\n"
    <> "  create_fileset -constrset utils_1\n" <> "}\n" <> "catch {\n"
    <> "  add_files -fileset utils_1 {\n" <> "{{- range .Sources }}\n"
    <> "{{- if hasSuffix .String \".tcl\"}}\n" <> "    {{ . }}\n" <> "  {{- end }}\n"
    <> "{{- end }}\n" <> "  }\n" <> "}\n" <> "\n" <> "update_compile_order -fileset sources_1\n"

unfoldable pub export_simulation_template : String
export_simulation_template =
    "\n" <> "  set_property top {{ .Name }} [current_fileset -simset]\n"
    <> "  export_simulation -simulator {{ .Simulator }}\\\n" <> "    -force -absolute_path\\\n"
    <> "    -use_ip_compiled_libs\\\n" <> "    -lib_map_path {{ .LibDir }}\\\n"
    <> "    -step compile\\\n" <> "{{- if .Defines }}\n" <> "    -define [list\\\n"
    <> "{{- range .Defines }}\n" <> "      { {{- . -}} }\\\n" <> "{{- end }}\n" <> "    ]\\\n"
    <> "{{- end }}\n" <> "{{- if .Options }}\n" <> "    -more_options [list\\\n"
    <> "{{- range .Options }}\n" <> "      { {{- $.Simulator }}.compile.{{ . -}} }\\\n"
    <> "{{- end }}\n" <> "    ]\\\n" <> "{{- end }}\n" <> "    -directory {{ .Dir }}\\\n"

unfoldable pub source_utils : String
source_utils =
    "\n" <> "foreach f [get_files -of [get_filesets utils_1]] {\n"
    <> "  if {[string match *_pre_*.tcl $f] || [string match *_post_*.tcl $f]} {\n"
    <> "    continue\n" <> "  } else {\n" <> "    puts \"INFO: Sourcing utility file $f\"\n"
    <> "    source $f\n" <> "  }\n" <> "}\n"
