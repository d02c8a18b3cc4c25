-- ===== src/Hdl/Questa/Optimize.antt =====
-- RULES/hdl/questa.go: `optimize`, `doFile` and `BuildQuesta`.
use dbt_rules.Base.{
  String, ◌<>◌, Bool, false, none, some, List, [], ◌∷◌, ◌++◌, ◌==◌, string_eq, if◌then◌else◌,
  Result, ok, ◌>>=◌,
}
use dbt_rules.Base.Map.{Map, keys, index, lookup}
use dbt_rules.Base.Text.{join}
use dbt_rules.Core.Path.{FilePath, out_path, OutPath, absolute, with_suffix}
use dbt_rules.Core.Context.{Context, Action}
use dbt_rules.Core.Context.AddBuildStep.{add_build_step}
use dbt_rules.Core.Template.{compile_template}
use dbt_rules.Core.Rules.{zero_step}
use dbt_rules.Hdl.Ip.{FlagMap}
use dbt_rules.Hdl.Templates.{DoFileParams, do_file_params}
use dbt_rules.Hdl.Simulation.{Simulation, Host, log_fatal, sim_path, target, report_cov_files}
use dbt_rules.Hdl.Questa.Flags.{common_flags, lib_flags, param_flags}
use dbt_rules.Hdl.Questa.Compile.{Session, compile, note_step, log_name}
use dbt_rules.Hdl.Questa.Script.{do_file_template}

-- The type `Target` of the source.
pub record Variant : Type 0 where
  pub name : String
  pub log_file : OutPath
  pub params : String

module _ (rule : Simulation) where
  unfoldable pub sim_file : String → OutPath
  unfolding sim_path
  sim_file suffix = with_suffix (out_path (sim_path rule)) suffix

  -- Only one of the two may be given.
  unfoldable pub tops_of : Result (List String)
  tops_of =
      if rule.top == ""
      then ok (elim rule.tops [ [] ↦ "board" ∷ [] | t ∷ ts ↦ t ∷ ts ])
      else elim rule.tops [
        | [] ↦ ok (rule.top ∷ [])
        | t ∷ ts ↦ log_fatal "only one of Top or Tops allowed!"
      ]

  variant : String → String → Bool → Result Variant
  unfolding target sim_file
  variant params file coverage = do
    name ← target rule params coverage
    ok (record { name = name; log_file = sim_file ("/" <> file); params = params })

  variants_for : Bool → List String → Result (List Variant)
  unfolding variant
  variants_for coverage [] = ok []
  variants_for coverage (params ∷ rest) = do
    v ← variant params (params <> "_vopt.log") coverage
    vs ← variants_for coverage rest
    ok (v ∷ vs)

  unfoldable pub variants : Bool → Result (List Variant)
  unfolding variants_for
  variants coverage = elim rule.params [
    | none ↦ (variant "" "vopt.log" coverage >>= λ v. ok (v ∷ []))
    | some m ↦ variants_for coverage (keys m)
  ]

unfoldable pub access_flag : String → String
access_flag access =
    if access == "debug"
    then "-debug"
    else if access == "livesim"
    then "-debug,livesim"
    else if access == "acc"
    then "+acc"
    else if access == ""
    then ""
    else "+acc=" <> access

module _ (host : Host) (rule : Simulation) where
  design_file : String → String
  unfolding sim_file
  design_file params =
      log_name host rule
        (sim_file rule ("/design" <> (if params == "" then "" else "_" <> params) <> ".bin"))

  -- `own` is the rule's map of tool flags, none where it is nil.
  vopt_cmd : FlagMap → List String → Variant → Result String
  unfolding design_file param_flags lib_flags access_flag join
  vopt_cmd own tops v = do
    let s = host.settings
    generics ← param_flags rule v.params
    ok (
        "vopt "
        <> common_flags
        <> " "
        <> s.vopt_flags
        <> " "
        <> (if s.coverage then "+cover" else "")
        <> " "
        <> access_flag s.access
        <> " "
        <> (if s.designfile then "-designfile " <> design_file v.params else "")
        <> lib_flags host rule
        <> generics
        <> elim (lookup "vopt" own) [ none ↦ "" | some flags ↦ " " <> flags ]
        <> " -l "
        <> log_name host rule v.log_file
        <> " "
        <> join " " tops
        <> " -o "
        <> v.name)

  add_generator : List FilePath → List FilePath
  add_generator deps = elim rule.test_case_generator [ none ↦ deps | some p ↦ deps ++ p ∷ [] ]

  -- The loop over the targets: the dependencies grow by the generator in each round.
  unfoldable pub optimize_variants :
      FlagMap → List String → List Variant → List FilePath → Session → Result Session
  unfolding vopt_cmd add_generator note_step join
  optimize_variants own tops [] deps st = ok st
  optimize_variants own tops (v ∷ vs) deps st =
      if index false st.rules (log_name host rule v.log_file)
      then optimize_variants own tops vs deps st
      else (do
        cmd ← vopt_cmd own tops v
        st' ←
            note_step host rule v.log_file
              (record zero_step {
                out = some v.log_file;
                ins = add_generator deps;
                cmd = cmd;
                descr = "vopt: " <> join " " tops <> " -o " <> v.name;
              })
              st
        optimize_variants own tops vs (add_generator deps) st')

  -- The map that compilation has filled is the rule's own, unless that is nil.
  unfoldable pub optimize : List FilePath → Session → Result Session
  unfolding tops_of variants optimize_variants
  optimize deps st = do
    tops ← tops_of rule
    vs ← variants rule host.settings.coverage
    optimize_variants (elim rule.tool_flags [ none ↦ [] | some m ↦ st.flags ]) tops vs deps st

  unfoldable pub do_file : Action
  unfolding sim_file report_cov_files join
  do_file ctx = do
    let out = sim_file rule "/vsim.do"
    let params : DoFileParams = record {
      waveform_init = elim rule.waveform_init [ none ↦ "" | some p ↦ absolute host.input p ];
      dump_vcd = host.settings.dump_vcd;
      dump_vcd_file = log_name host rule (sim_file rule "/waves.vcd.gz");
      cov_files = join "+" (report_cov_files host.input rule);
    }
    text ←
        compile_template host.input host.templates ctx.current_target do_file_template "do"
          (do_file_params params)
    add_build_step host.input host.os
        (record zero_step {
          out = some out;
          data' = text;
          descr = "template: " <> log_name host rule out;
        })
        ctx

  -- The context and the package's map of rules behind the build.
  unfoldable pub build_questa : Context → Map String Bool → Result (Context × Map String Bool)
  unfolding compile optimize do_file
  build_questa ctx rules = do
    (deps, st) ← compile host rule ctx rules
    st' ← optimize deps st
    ctx' ← do_file st'.ctx
    ok (ctx', st'.rules)
