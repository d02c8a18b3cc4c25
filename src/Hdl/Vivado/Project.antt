-- ===== src/Hdl/Vivado/Project.antt =====
-- RULES/hdl/xilinx.go: the template of the script that implements a design.
use dbt_rules.Base.{String, ◌<>◌}

unfoldable pub implementation_project_template : String
implementation_project_template =
    "#!/usr/bin/env -S vivado -mode {{ if .Gui }}gui{{ else }}batch{{ end }} -nojournal -log {{ .Dir.String }}/{{ .Top }}.log -source\n"
    <> "create_project -force -part {{ .Part }} {{ .Top }} {{ .Dir.String }}\n"
    <> "set_property target_language verilog [current_project]\n"
    <> "set_property source_mgmt_mode All [current_project]\n" <> "{{- if .Board }}\n"
    <> "catch {\n" <> "  set_property board_part {{ .Board }} [current_project]\n"
    <> "  reset_property board_connections [current_project]\n" <> "}\n" <> "{{- end }}\n" <> "\n"
    <> "# Create 'sources_1' fileset (if not found)\n"
    <> "if {[string equal [get_filesets -quiet sources_1] \"\"]} {\n"
    <> "  create_fileset -srcset sources_1\n" <> "}\n" <> "\n"
    <> "# Configure include directories\n" <> "set_property include_dirs {\\\n"
    <> "{{- range .IncDirs }}\n" <> "  {{ . }} \\\n" <> "{{- end }}\n"
    <> "} [get_filesets sources_1]\n" <> "\n" <> "# and Verilog defines\n"
    <> "set_property verilog_define {\\\n" <> "{{- range $key, $value := .Defines }}\n"
    <> "  \"{{ $key }}{{ if $value }}={{ $value }}{{ end }}\"\\\n" <> "{{- end }}\n"
    <> "} [get_filesets sources_1]\n" <> "\n" <> "# and parameters\n"
    <> "set_property generic {\\\n" <> "{{- range $key, $value := .Params }}\n"
    <> "  \"{{ $key }}={{ $value }}\"\\\n" <> "{{- end }}\n" <> "} [get_filesets sources_1]\n"
    <> "\n" <> "# Add all HDL source files\n" <> "add_files -norecurse {\n"
    <> "{{- range .Sources }}\n"
    <> "  {{- if or (hasSuffix .String \".vhd\") (hasSuffix .String \".vhdl\") (hasSuffix .String \".v\") (hasSuffix .String \".vh\") (hasSuffix .String \".sv\") (hasSuffix .String \".svh\") }}\n"
    <> "  {{ . }}\n" <> "  {{- end }}\n" <> "{{- end }}\n" <> "}\n" <> "\n"
    <> "# Add all IP source files\n" <> "catch {\n" <> "  import_ip {\n"
    <> "{{- range .Sources }}\n" <> "  {{- if hasSuffix .String \".xci\"}}\n" <> "    {{ . }}\n"
    <> "  {{- end }}\n" <> "{{- end }}\n" <> "  }\n" <> "}\n" <> "\n"
    <> "# Add data files for simulation\n"
    <> "if {[string equal [get_filesets -quiet sim_1] \"\"]} {\n"
    <> "  create_fileset -simset sim_1\n" <> "}\n" <> "catch {\n"
    <> "  add_files -fileset sim_1 {\n" <> "{{- range .Sources }}\n"
    <> "  {{- if or (hasSuffix .String \".dat\") (hasSuffix .String \".hex\") }}\n"
    <> "    {{ . }}\n" <> "  {{- end }}\n" <> "{{- end }}\n" <> "  }\n" <> "}\n" <> "\n"
    <> "# Add constraint files\n" <> "if {[string equal [get_filesets -quiet constrs_1] \"\"]} {\n"
    <> "  create_fileset -constrset constrs_1\n" <> "}\n" <> "catch {\n"
    <> "  add_files -fileset constrs_1 {\n" <> "{{- range .Sources }}\n"
    <> "  {{- if hasSuffix .String \".xdc\"}}\n" <> "    {{ . }}\n" <> "  {{- end }}\n"
    <> "{{- end }}\n" <> "  }\n" <> "}\n" <> "\n" <> "# Add utilities\n"
    <> "if {[string equal [get_filesets -quiet utils_1] \"\"]} {\n"
    <> "  create_fileset -constrset utils_1\n" <> "}\n" <> "catch {\n"
    <> "  add_files -fileset utils_1 {\n" <> "{{- range .Sources }}\n"
    <> "  {{- if hasSuffix .String \".tcl\"}}\n" <> "    {{ . }}\n" <> "  {{- end }}\n"
    <> "{{- end }}\n" <> "  }\n" <> "}\n" <> "\n" <> "# Source all utility files\n"
    <> "foreach f [get_files -of [get_filesets utils_1]] {\n"
    <> "  if {[string match *_pre_*.tcl $f] || [string match *_post_*.tcl $f]} {\n"
    <> "    continue\n" <> "  } else {\n" <> "    puts \"INFO: Sourcing utility file $f\"\n"
    <> "    source $f\n" <> "  }\n" <> "}\n" <> "\n" <> "# Create block designs\n"
    <> "{{- range .BlockDesigns }}\n" <> "{{ .Name }}{{ range .Args }} {{ . }}{{ end }}\n"
    <> "{{- end }}\n" <> "\n" <> "set_property top {{ .Top }} [current_fileset]\n"
    <> "if {[get_property top [current_fileset]] != \"{{ .Top }}\"} {\n"
    <> "  puts \"ERROR: Unable to set top to {{ .Top }}!\"\n" <> "  exit 1\n" <> "}\n"
    <> "puts \"INFO: Project [current_project] created\"\n" <> "\n" <> "# Unlock IPs\n"
    <> "foreach ip [get_ips *] {\n" <> "  puts \"INFO: Upgrading IP ${ip}\"\n"
    <> "  upgrade_ip $ip\n" <> "}\n" <> "\n" <> "# Properties\n"
    <> "{{- range $run, $props := .Properties }}\n" <> "  {{- range $name, $value := $props }}\n"
    <> "set_property {{ $name }} \"{{ $value }}\" [get_runs {{ $run }}]\n" <> "  {{- end }}\n"
    <> "{{- end }}\n" <> "\n" <> "# Configure scripts\n"
    <> "foreach f [get_files -of [get_filesets utils_1]] {\n"
    <> "  if [regexp -nocase {.*_(pre|post)_(\\w+).tcl} $f total pre_or_post step] {\n"
    <> "    if {$step == \"synthesis\"} {\n" <> "      set property \"synth_design\"\n"
    <> "      set run \"synth_*\"\n" <> "    } else {\n" <> "      set property $step\n"
    <> "      set run \"impl_*\"\n" <> "    }\n" <> "\n"
    <> "    puts \"INFO: Configuring ${pre_or_post}-$step script $f\"\n"
    <> "    set_property steps.$property.tcl.$pre_or_post $f [get_runs $run]\n" <> "  }\n" <> "}\n"
    <> "\n" <> "{{- if eq .Step \"project\" }}\n" <> "{{- if .Gui }}\n" <> "break\n"
    <> "{{- else }}\n" <> "exit 0\n" <> "{{- end }}\n" <> "{{- end }}\n" <> "\n"
    <> "puts \"INFO: Running synthesis\"\n" <> "reset_run synth_1\n" <> "launch_runs synth_1\n"
    <> "wait_on_run synth_1\n" <> "puts \"INFO: Synthesis done\"\n" <> "\n"
    <> "puts \"INFO: Timing summary after synthesis\"\n" <> "open_run synth_1\n"
    <> "report_timing_summary\n" <> "\n" <> "{{- if eq .Step \"synthesis\" }}\n"
    <> "{{- if .Gui }}\n" <> "break\n" <> "{{- else }}\n" <> "exit 0\n" <> "{{- end }}\n"
    <> "{{- end }}\n" <> "\n" <> "puts \"INFO: Running implementation\"\n"
    <> "launch_runs impl_1 -to_step {{ .Step }}\n" <> "wait_on_run impl_1\n"
    <> "puts \"INFO: Implementation done\"\n" <> "\n"
    <> "puts \"INFO: Timing summary after implementation to {{ .Step }}\"\n" <> "open_run impl_1\n"
    <> "report_timing_summary\n"
