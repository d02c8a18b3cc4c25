-- ===== src/Samples/Simulations.antt =====
-- RULES/hdl: simulations at concrete data.
use dbt_rules.Base.{
  String, ◌<>◌, ◌≡◌, ◌⊎◌, refl, true, false, ◌&&◌, not, none, some, List, [], ◌∷◌, ◌++◌, elem,
  Distinct, ◌==◌, string_eq, if◌then◌else◌, Result, map, ok, fail, inl, text_ne,
}
use dbt_rules.Base.Map.{lookup, insert}
use dbt_rules.Base.Text.Paths.{join_path, dir}
use dbt_rules.Core.Path.{absolute, source_path, with_suffix, build_path}
use dbt_rules.Core.Context.AddBuildStep.{add_build_step}
use dbt_rules.Core.Context.{new_context, add_build_step_with_rule}
use dbt_rules.Hdl.Ip.{FlagMap, nil, cons}
use dbt_rules.Hdl.Files.{is_rtl, is_header, is_xilinx_ip_checkpoint}
use dbt_rules.Hdl.Ip.Sources.Exact.{sources_of}
use dbt_rules.Hdl.Simulation.{Simulation, param_map, sorted_params, target}
use dbt_rules.Hdl.Simulation.Scan.{scan_string, is_space}
use dbt_rules.Hdl.Simulation.Selection.{select, chain}
use dbt_rules.Hdl.Simulation.Scan.Values.{NoSpace}
use dbt_rules.Hdl.Simulation.Selection.Named.{
  Choice, testcases, sets, argument, named_testcases, named_sets, among, or_all, select-named,
}
use dbt_rules.Base.Text.{split}
use dbt_rules.Hdl.Simulation.Selection.Defined.{target_name, select-target}
use dbt_rules.Hdl.Simulation.Selection.Chain.{run_pairs, pairs, first_pair, chain-pairs}
use dbt_rules.Hdl.Questa.Flags.{lib_flags, with_dash_l}
use dbt_rules.Hdl.Questa.Flags.Once.{all_libs, lib_flags_once}
use dbt_rules.Hdl.Questa.Flags.Levels.{Accepted, Rejected, verbosity_levels}
use dbt_rules.Hdl.Questa.Compile.{
  Session, Collected, log_name, log_of, compile_src, compile_srcs, merge_flags,
}
use dbt_rules.Hdl.Questa.Compile.Merged.{both, lookup-merge_flags}
use dbt_rules.Hdl.Questa.Compile.Noted.{noted, NoXci, compile_srcs-again}
use dbt_rules.Hdl.Questa.Compile.Order.{with_logs}
use dbt_rules.Hdl.Questa.Compile.Inputs.{compile_srcs-HasInputs}
use dbt_rules.Hdl.Questa.Compile.Commands.{name_of}
use dbt_rules.Core.Context.Agreement.{HasInputs}
use dbt_rules.Hdl.Xsim.Project.{prj_file}
use dbt_rules.Hdl.Xsim.Project.Names.{names, compiled, Apart}
use dbt_rules.Hdl.Xsim.Project.Entries.{Entered, all_srcs, prj_file_entries}
use dbt_rules.Samples.Hardware.{src_at, uart, sample_host}

abbrev pub bench : Simulation
bench = record {
  name = "uart-tb";
  srcs = src_at "defs.svh" ∷ src_at "tb.sv" ∷ [];
  ips = cons uart nil;
  libs = "unisim" ∷ "xil_defaultlib" ∷ [];
  params = some (("slow", []) ∷ ("fast", []) ∷ []);
  defines = [];
  tool_flags = none;
  top = "";
  tops = [];
  dut = "";
  test_case_generator = none;
  test_case_generator_flags = "";
  test_case_elf = none;
  test_cases_dir = none;
  waveform_init = none;
  report_cov_ips = nil;
}

-- A second bench with the same sources.
abbrev other_bench : Simulation
other_bench = record bench { name = "uart-gate" }

abbrev fast_alone : List String
fast_alone = "-params=fast,none" ∷ []

select_run :
    select sample_host bench (sorted_params bench) fast_alone
    ≡ ok (record { testcases = "" ∷ []; params = "fast" ∷ [] })
unfolding select sorted_params scan_string lookup
select_run = refl

select-target_example : target bench "fast" true ≡ ok (target_name bench "fast" true)
select-target_example =
    select-target bench sample_host (sorted_params bench) fast_alone
      (record { testcases = "" ∷ []; params = "fast" ∷ [] }) true (inl refl) select_run "fast" refl

-- A bench whose test cases are files of a directory.
abbrev generated : Simulation
generated = record bench {
  test_case_generator = some (src_at "gen.sh");
  test_cases_dir = some (src_at "cases");
}

no_spaces : NoSpace "a,b" × NoSpace "fast,none"
unfolding is_space
no_spaces = (
  (refl, (refl, (refl, tt))),
  (refl, (refl, (refl, (refl, (refl, (refl, (refl, (refl, (refl, tt))))))))),
)

abbrev choices : List Choice
choices = sets "fast,none" ∷ testcases "a,b" ∷ []

two_parts : named_testcases choices ≡ "a" ∷ "b" ∷ []
unfolding split
two_parts = refl

select-named_example :
    select sample_host generated (sorted_params generated) (map argument choices)
    ≡ ok (record {
      testcases = "a" ∷ "b" ∷ [];
      params = or_all (sorted_params generated) (among ("slow" ∷ "fast" ∷ []) (named_sets choices));
    })
select-named_example =
    select-named sample_host generated (param_map generated) refl refl (sorted_params generated)
      choices "a" ("b" ∷ [])
      ((no_spaces.1, text_ne "fast,none" "" refl), ((no_spaces.0, text_ne "a,b" "" refl), tt))
      two_parts

abbrev join_names : String → String → Result String
join_names testcase param = ok (testcase <> "@" <> param)

chain_run :
    chain join_names false (record { testcases = "a" ∷ "b" ∷ []; params = "x" ∷ [] })
    ≡ ok "{ :; } && a@x && b@x"
unfolding chain
chain_run = refl

chain-pairs_example :
    chain join_names false (record { testcases = "a" ∷ "b" ∷ []; params = "x" ∷ [] })
    ≡ run_pairs join_names
        (let all = pairs ("a" ∷ "b" ∷ []) ("x" ∷ []) in if false then first_pair all else all)
        "{ :; }"
chain-pairs_example = chain-pairs join_names "a" ("b" ∷ []) ("x" ∷ []) false

lib_flags_run : lib_flags sample_host bench ≡ " -L xil_defaultlib -L unisim"
unfolding lib_flags lookup insert
lib_flags_run = refl

lib_flags_once_example :
    (libs : List String) × (lib_flags sample_host bench ≡ with_dash_l libs)
    × Distinct libs
    × ((k : String) → elem k libs ≡ (not (k == "") && elem k (all_libs sample_host bench)))
lib_flags_once_example = lib_flags_once sample_host bench

verbosity_levels_example : Accepted "low" ⊎ Rejected "low"
verbosity_levels_example = verbosity_levels "low"

abbrev own_vlog : FlagMap
own_vlog = ("vlog", "-sv") ∷ []

abbrev linted : FlagMap
linted = ("vlog", "-lint") ∷ []

lookup-merge_flags_example :
    lookup "vlog" (merge_flags sample_host bench own_vlog linted)
    ≡ both (lookup "vlog" linted) (lookup "vlog" own_vlog)
lookup-merge_flags_example = lookup-merge_flags sample_host bench "vlog" own_vlog linted (refl, tt)

bench-Apart : Apart sample_host (all_srcs bench)
unfolding is_header is_rtl sources_of absolute join_path dir
bench-Apart = (λ e. refl, (λ e. refl, (λ e. refl, (λ e. refl, (λ e. refl, (λ e. refl, tt))))))

prj_file_entries_example :
    ((k : String)
      → elem k (names sample_host (prj_file sample_host bench).deps)
        ≡ elem k (names sample_host (all_srcs bench)))
    × Distinct (compiled (names sample_host (prj_file sample_host bench).deps))
    × Entered bench
        (prj_file sample_host bench).entries
        (compiled (names sample_host (prj_file sample_host bench).deps))
prj_file_entries_example = prj_file_entries sample_host bench bench-Apart

-- What a result holds.
abbrev pub held : {A : Type 0} → A → Result A → A
held a (ok b) = b
held a (fail e) = a

abbrev pub fresh : Session
fresh = record { ctx = new_context; rules = []; flags = [] }

abbrev nothing : Collected
nothing = record { deps = []; incs = [] }

abbrev compiled_once : Collected × Session
compiled_once = held (nothing, fresh) (compile_srcs sample_host bench bench.srcs nothing fresh)

compile_run :
    compile_srcs sample_host bench bench.srcs nothing fresh ≡ ok (compiled_once.0, compiled_once.1)
unfolding compile_srcs lookup insert absolute join_path source_path dir with_suffix build_path
    add_build_step add_build_step_with_rule new_context
compile_run = refl

bench-NoXci : NoXci sample_host bench.srcs
unfolding is_xilinx_ip_checkpoint absolute join_path
bench-NoXci = (refl, (refl, tt))

compile_srcs-again_example :
    (d : Collected) × (compile_srcs sample_host other_bench bench.srcs nothing compiled_once.1
      ≡ ok (d, compiled_once.1))
compile_srcs-again_example =
    compile_srcs-again sample_host bench other_bench bench.srcs nothing compiled_once.0 nothing
      fresh compiled_once.1 compiled_once.1 compile_run bench-NoXci (λ k n. n)

-- The header, and behind it the bench.
abbrev headers_first : Collected × Session
headers_first =
    held (nothing, fresh) (compile_srcs sample_host bench (src_at "defs.svh" ∷ []) nothing fresh)

headers_run :
    compile_srcs sample_host bench (src_at "defs.svh" ∷ []) nothing fresh
    ≡ ok (headers_first.0, headers_first.1)
unfolding compile_srcs absolute join_path
headers_run = refl

abbrev bench_last : Collected × Session
bench_last =
    held (nothing, fresh)
      (compile_src sample_host bench (src_at "tb.sv") headers_first.0 headers_first.1)

bench_run :
    compile_src sample_host bench (src_at "tb.sv") headers_first.0 headers_first.1
    ≡ ok (bench_last.0, bench_last.1)
unfolding compile_src compile_srcs lookup insert absolute join_path source_path dir with_suffix
    build_path add_build_step add_build_step_with_rule new_context
bench_run = refl

header-NoXci : NoXci sample_host (src_at "defs.svh" ∷ [])
unfolding is_xilinx_ip_checkpoint absolute join_path
header-NoXci = (refl, tt)

bench_is_rtl : is_rtl (name_of sample_host (src_at "tb.sv")) ≡ true
unfolding is_rtl absolute join_path
bench_is_rtl = refl

bench_new :
    noted headers_first.1 (log_name sample_host bench (log_of sample_host bench (src_at "tb.sv")))
    ≡ false
unfolding compile_srcs absolute join_path lookup
bench_new = refl

compile_srcs-HasInputs_example :
    HasInputs sample_host.input
      (log_of sample_host bench (src_at "tb.sv"))
      (([] ++ with_logs sample_host bench (src_at "defs.svh" ∷ [])) ++ src_at "tb.sv" ∷ [])
      bench_last.1.ctx
compile_srcs-HasInputs_example =
    compile_srcs-HasInputs sample_host bench refl (src_at "defs.svh" ∷ []) (src_at "tb.sv") nothing
      headers_first.0 bench_last.0 fresh headers_first.1 bench_last.1 header-NoXci bench_is_rtl
      headers_run bench_new bench_run
