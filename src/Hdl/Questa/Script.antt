-- ===== src/Hdl/Questa/Script.antt =====
-- RULES/hdl/questa.go: the template of the script that vsim runs.
use dbt_rules.Base.{String, ◌<>◌}

unfoldable pub do_file_template : String
do_file_template =
    "\n" <> "proc reload {} {\n" <> "\tglobal target\n" <> "\tvsim -work work $target\n"
    <> "\t{{ if .WaveformInit }}\n" <> "\t\tsource {{ .WaveformInit }}\n" <> "\t{{ end }}\n" <> "\n"
    <> "}\n" <> "\n" <> "set StdArithNoWarnings 1\n" <> "set NumericStdNoWarnings 1\n" <> "\n"
    <> "{{ if .WaveformInit }}\n" <> "if [info exists gui] {\n" <> "\trun 1\n"
    <> "\tcatch { source {{ .WaveformInit }} }\n" <> "\tassertion fail -action break\n" <> "}\n"
    <> "{{ end }}\n" <> "\n" <> "if [info exists from] {\n" <> "\trun $from\n" <> "}\n" <> "\n"
    <> "{{ if .DumpVcd }}\n" <> "vcd file {{ .DumpVcdFile }}\n" <> "vcd add -r *\n" <> "{{ end }}\n"
    <> "\n" <> "if [info exists to] {\n" <> "\trun @$to\n" <> "} else {\n" <> "\trun -all\n"
    <> "}\n" <> "\n" <> "{{ if .DumpVcd }}\n" <> "vcd flush\n" <> "{{ end }}\n" <> "\n"
    <> "if [info exists coverage] {\n" <> "\t# Create coverage database\n"
    <> "\tcoverage save -assert -directive -cvg -codeall -testname $testcase $coverage_db.ucdb\n"
    <> "\t# Optionally merge coverage databases\n" <> "\tif {$main_coverage_db != $coverage_db} {\n"
    <> "\t\tputs \"Writing merged coverage database to [pwd]/$main_coverage_db.ucdb\"\n"
    <> "\t\tvcover merge -testassociated -output $main_coverage_db.ucdb $main_coverage_db.ucdb $coverage_db.ucdb\n"
    <> "\t}\n" <> "\t# Create HTML coverage report\n"
    <> "\tvcover report -html -output ${main_coverage_db}_covhtml \\\n"
    <> "\t\t-testdetails -details -assert -directive -cvg -codeAll $main_coverage_db.ucdb\n"
    <> "\t# Create textual code coverage report\n" <> "\t{{ if .CovFiles }}\n"
    <> "\tvcover report -output ${main_coverage_db}_covcode.txt -srcfile={{ .CovFiles }}\\\n"
    <> "\t\t-codeAll $main_coverage_db.ucdb\n" <> "\t{{ else }}\n"
    <> "\tvcover report -output ${main_coverage_db}_covcode.txt\\\n"
    <> "\t\t-codeAll $main_coverage_db.ucdb\n" <> "\t{{ end }}\n"
    <> "\t# Create textual assertion coverage report\n"
    <> "\tputs \"Writing coverage report to [pwd]/${main_coverage_db}_cover.txt\"\n"
    <> "\tvcover report -output ${main_coverage_db}_cover.txt -flat -directive -cvg $main_coverage_db.ucdb\n"
    <> "\t# Create textural assertion report\n"
    <> "\tputs \"Writing assertion report to [pwd]/${main_coverage_db}_cover.txt\"\n"
    <> "\tvcover report -output ${main_coverage_db}_assert.txt -flat -assert $main_coverage_db.ucdb\n"
    <> "}\n" <> "\n" <> "if ![info exists gui] {\n"
    <> "  quit -code [expr [coverage attribute -name TESTSTATUS -concise] > 1]\n" <> "}\n"
