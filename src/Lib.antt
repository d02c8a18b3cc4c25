-- ===== src/Lib.antt =====
-- A model of dbt-rules: the Go code that a generated program runs to turn the targets of a
-- workspace into a ninja build file, the rules for C and C++, and those for FPGA designs, Go and Rust.
--
-- Parts. RULES/core holds the generator. Its main function (main.go) locks the flags (flags.go),
-- lists and selects the targets by the input's patterns, and builds each target in the order of the
-- sorted target paths. A build is a function on a context (context.go), in which it registers build
-- steps; `handleTarget` adds the rules of the target itself, and `ninjaFile` prints the context.
-- RULES/cc registers such steps for libraries and binaries (cc.go), by toolchains (toolchain.go).
-- RULES/hdl does so for simulations (simulator.go, with questa.go or xsim.go) and for designs that
-- Vivado implements (xilinx.go); both walk over Ips, which hold their sources and the Ips below them
-- (hdl.go). RULES/xilinx, golang, rust and util hold rules of one or two steps.
--
-- Files.
--   Core/Input: the input, `loadInput`, `checkVersion` and `Fatal` (core/main.go, core/util.go).
--   Core/Path: `inPath`, `outPath` and their methods (core/path.go).
--   Core/Step: BuildStep, BuildStepWithRule and `stepsAreEquivalent` (core/context.go).
--   Core/Context: the context and its methods, AddBuildStepWithRule foremost, and in
--   Core/Context/AddBuildStep that method.
--   Core/Ninja: `ninjaFile`. Core/Target: the interfaces of targets, and `handleTarget`.
--   Core/Flags: the four types of flags and `initializeFlag`, and in Core/Flags/Stored
--   `lockAndGetFlags` and `getFlagValues`.
--   Core/Main: the target filter, `skipTarget` and GeneratorMain.
--   Cc/Toolchain: toolchains and their table. Cc/Library: `includesForSoruces` and CcLibrary.
--   Cc/Collect: `collectDepsWithToolchain`. Cc/Object: the objects of sources and of blobs, and in
--   Cc/Object/Sources `getObjs` and `compileSources`.
--   Cc/Build: the builds of libraries, and in Cc/Build/Binaries those of binaries, with the link.
--   Core/Template: CompileTemplate (core/util.go). Core/Rules: the rules that copy and expand files
--   (core/copy.go, core/template.go, util).
--   Hdl/Files, Hdl/Settings: suffixes and flags. Hdl/Unique: the loop that keeps the first of each
--   name. Hdl/Ip: Ips, in Hdl/Ip/Sources their sources, in Hdl/Ip/Flatten `FlattenIpGraph`.
--   Hdl/Simulation: the rule Simulation (hdl/simulator.go), in Hdl/Simulation/Preamble `Preamble`, in
--   Hdl/Simulation/Selection what the arguments select, in Hdl/Simulation/Scan fmt.Sscanf.
--   Hdl/Questa (hdl/questa.go): Compile up to `compile`, Optimize up to `BuildQuesta`, Simulate.
--   Hdl/Xsim (hdl/xsim.go): Project, Elaborate, Simulate. Hdl/Build: Build, Run and Test.
--   Hdl/Vivado (hdl/xilinx.go): Export, Implementation, and the templates in Scripts and Project.
--   Xilinx: Synthesis (bitstream.go, synth_out_of_context.go), Boot, Blocks. Golang, Rust.
--   Base: Go's maps, sort.Strings, package path, strconv, crc32 and fmt's %q as far as the code uses
--   them. Samples: concrete data, and the theorems at them.
-- A Go function `fooBar` is the definition `foo_bar`. The other files below a part's file hold
-- proofs.
--
-- State. A function that changes the context takes it and returns a `Result`: `ok` with the new
-- context, `exit` where the program calls os.Exit(1) behind a message, `panic` where Go panics.
-- `Fatal` returns in a run for completions, and `fatal` gives `ok` there. The maps of build steps hold
-- pointers in the source, which are positions in the list `steps` here, so that one step object is
-- shared by its outputs. Dependencies of libraries are positions in the list `objects`, so that they
-- can form loops. A map is an association list, and a range over it visits the list's order; where
-- Go's order could show, the code sorts. A nil interface, slice or map is `none` where the code tells
-- it from an empty one. `Session` in Hdl/Questa/Compile has the package's map `rules` and the one map
-- of tool flags that all calls of a compilation change. The values of flags that RULES/hdl reads are
-- a record, `Settings`. `log.Fatal` is `exit`.
--
-- Parameters. Regular expressions, encoding/json, the file system and floating-point numbers are
-- arguments of the definitions that use them, and so are text/template, crypto/sha256, go list and the
-- walk over a directory.
--
-- Bounds. The recursion over dependencies runs on fuel, one more than the number of rule objects, and
-- `diverge` stands for its end: each call marks one more object before it goes deeper. Numbers are not
-- bounded, except those that strconv.ParseInt reads (64 bits with a sign). Letter case and %q follow
-- ASCII; characters above U+00A0 count as printable.
--
-- Not modelled: output.json as a text, code coverage and analysis interfaces beyond their names, the
-- description of a simulation, which searches its sources by regular expressions, and
-- xilinx/device_tree.go, which puts nil among the inputs of a step. Of the generated scripts the
-- templates and their data are modelled, and not what the template engine makes of them.
pub mod Base
pub mod Core
pub mod Cc
pub mod Hdl
pub mod Xilinx
pub mod Golang
pub mod Rust
mod Samples
