-- ===== src/Xilinx/Scripts.antt =====
-- RULES/xilinx: the templates of the scripts of boot_payload.go, handoff.go, trusted_firmware.go,
-- uboot.go and sim_ip_export.go.
use dbt_rules.Base.{String, ◌<>◌}

unfoldable pub boot_payload_script : String
boot_payload_script =
    "#!/bin/bash\n" <> "set -eu -o pipefail\n" <> "\n" <> "TMPFILE=$(mktemp -t ci-XXXXXXXXXX)\n"
    <> "cat > ${TMPFILE} << EOF\n" <> "the_ROM_image:\n" <> "{\n"
    <> "  [bootloader, destination_cpu=a53-0]{{ .Fsbl }}\n" <> "  [pmufw_image]{{ .PmuFw }}\n"
    <> "  [destination_cpu =a53-0, exception_level =el-3, trustzone]{{ .Bl31 }}\n"
    <> "  [destination_cpu =a53-0, exception_level =el-2]{{ .UBoot }}\n" <> "}\n" <> "EOF\n" <> "\n"
    <> "bootgen -arch zynqmp -image ${TMPFILE} -o {{ .Out }} -w | ( grep -E \"^(ERROR|WARNING|CRITICAL)\" || true )\n"
    <> "\n" <> "rm -f ${TMPFILE}\n"

unfoldable pub handoff_script : String
handoff_script =
    "#!/bin/bash\n" <> "set -eu -o pipefail\n" <> "\n" <> "TMPDIR=$(mktemp -d -t ci-XXXXXXXXXX)\n"
    <> "\n" <> "(\n" <> "    cd ${TMPDIR}\n" <> "    cp {{ .HwDef }} design.hwdef\n"
    <> "    cat > export.tcl << EOF\n" <> "hsi::set_repo_path {{ .EmbeddedSw}}\n" <> "\n"
    <> "set hw_design [hsi::open_hw_design design.hwdef]\n" <> "\n"
    <> "hsi::generate_app -hw \\${hw_design} -proc psu_cortexa53_0 -os standalone -app zynqmp_fsbl -dir fsbl\n"
    <> "hsi::generate_app -hw \\${hw_design} -proc psu_pmu_0 -os standalone -app zynqmp_pmufw -dir pmufw\n"
    <> "hsi::close_hw_design [hsi::current_hw_design]\n" <> "EOF\n"
    <> "    xsct export.tcl | ( grep -E \"^(ERROR|WARNING|CRITICAL)\" || true )\n" <> "\n"
    <> "    cd fsbl\n" <> "    {{ if .Patch }}\n" <> "    patch -Np1 -i {{ .Patch }}\n"
    <> "    {{ end }}\n" <> "    make > /dev/null\n" <> "    cp executable.elf {{ .Fsbl }}\n"
    <> "    cd ../pmufw\n" <> "    make > /dev/null\n" <> "    cp executable.elf {{ .PmuFw }}\n"
    <> "\n" <> ")\n" <> "\n" <> "rm -rf ${TMPDIR}\n"

unfoldable pub atf_script : String
atf_script =
    "#!/bin/bash\n" <> "set -eu -o pipefail\n" <> "\n" <> "TMPDIR=$(mktemp -d -t ci-XXXXXXXXXX)\n"
    <> "rsync --exclude=.git -az {{ .Repo }} ${TMPDIR}\n" <> "(\n"
    <> "    cd ${TMPDIR}/arm-trusted-firmware-xlnx\n"
    <> "    make CROSS_COMPILE=aarch64-none-elf- PLAT=zynqmp bl31 -j12 > /dev/null\n"
    <> "    cp build/zynqmp/release/bl31/bl31.elf \"{{ .Bl31 }}\"\n" <> ")\n" <> "\n"
    <> "rm -rf ${TMPDIR}\n"

unfoldable pub u_boot_script : String
u_boot_script =
    "#!/bin/bash\n" <> "set -eu -o pipefail\n" <> "\n" <> "TMPDIR=$(mktemp -d -t ci-XXXXXXXXXX)\n"
    <> "rsync --exclude=.git -az {{ .Repo }} ${TMPDIR}\n" <> "(\n" <> "    cd ${TMPDIR}/u-boot\n"
    <> "    make ARCH=arm CROSS_COMPILE=aarch64-none-elf- {{ .Config }} > /dev/null\n"
    <> "    make ARCH=arm CROSS_COMPILE=aarch64-none-elf- -j12 > /dev/null\n"
    <> "    cp u-boot.elf \"{{ .Out }}\"\n" <> ")\n" <> "\n" <> "rm -rf ${TMPDIR}\n"

unfoldable pub export_script : String
export_script =
    "#!/usr/bin/env -S vivado -log {{ .Output }}/vivado.log -nojournal -notrace -mode batch -source\n"
    <> "compile_simlib -directory {{ .Output }} -simulator {{ .Simulator }} -family {{ .Family }} -language {{ .Language }} -library {{ .Library }}\n"
