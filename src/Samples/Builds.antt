-- ===== src/Samples/Builds.antt =====
-- RULES/hdl: builds of both simulators, and a run, at concrete data.
use dbt_rules.Base.{string_eq, List, ◌≡◌, refl, false, [], ◌∷◌, ◌∷◌, ok}
use dbt_rules.Base.Map.{keys, has, lookup, insert}
use dbt_rules.Base.Text.Paths.{join_path, dir}
use dbt_rules.Core.Path.{FilePath, absolute, source_path, with_suffix, build_path}
use dbt_rules.Core.Template.{text, compile_template}
use dbt_rules.Core.Context.AddBuildStep.{add_build_step}
use dbt_rules.Core.Context.{Context, new_context, new_step, add_build_step_with_rule}
use dbt_rules.Hdl.Ip.{nil}
use dbt_rules.Hdl.Simulation.{Simulation, Host, param_map}
use dbt_rules.Hdl.Simulation.Selection.{select}
use dbt_rules.Hdl.Xsim.Elaborate.{snapshots, build_xsim}
use dbt_rules.Hdl.Xsim.Simulate.{snapshot_name}
use dbt_rules.Hdl.Xsim.Simulate.Snapshots.{Elaborated, build_xsim-select}
use dbt_rules.Hdl.Questa.Compile.{Session, compile}
use dbt_rules.Hdl.Questa.Compile.Sound.{Sound}
use dbt_rules.Hdl.Questa.Compile.Whole.{compile-Sound}
use dbt_rules.Samples.Hardware.{sample_host, src_at}
use dbt_rules.Samples.Simulations.{bench, held, fresh}

-- Each template is expanded to a short text.
abbrev short_host : Host
short_host = record sample_host {
  templates = record {
    render = λ tmpl name params. text "run all";
    render_file = λ file params. text "run all";
  };
}

abbrev built_ctx : Context
built_ctx = held new_context (build_xsim short_host bench new_context)

build_run : build_xsim short_host bench new_context ≡ ok built_ctx
unfolding build_xsim lookup insert absolute join_path source_path dir with_suffix build_path
    add_build_step add_build_step_with_rule new_step new_context compile_template
build_run = refl

select_all :
    select short_host bench (keys (param_map bench)) []
    ≡ ok (record { testcases = "" ∷ []; params = "slow" ∷ "fast" ∷ [] })
unfolding select
select_all = refl

no_empty_set : has "" (param_map bench) ≡ false
unfolding lookup
no_empty_set = refl

build_xsim-select_example :
    Elaborated short_host (snapshots bench) (snapshot_name bench "fast") built_ctx
build_xsim-select_example =
    build_xsim-select short_host bench new_context built_ctx []
      (record { testcases = "" ∷ []; params = "slow" ∷ "fast" ∷ [] }) no_empty_set build_run
      select_all "fast" refl

-- A bench of one source.
abbrev small_bench : Simulation
small_bench = record bench { srcs = src_at "tb.sv" ∷ []; ips = nil }

abbrev compiled_bench : List FilePath × Session
compiled_bench = held ([], fresh) (compile sample_host small_bench new_context [])

compile_bench_run :
    compile sample_host small_bench new_context [] ≡ ok (compiled_bench.0, compiled_bench.1)
unfolding compile lookup insert absolute join_path source_path dir with_suffix build_path
    add_build_step add_build_step_with_rule new_step new_context
compile_bench_run = refl

nothing_noted : Sound new_context []
unfolding lookup
nothing_noted k n = cc

compile-Sound_example : Sound compiled_bench.1.ctx compiled_bench.1.rules
compile-Sound_example =
    compile-Sound sample_host small_bench new_context [] compiled_bench.0 compiled_bench.1
      compile_bench_run nothing_noted
