-- ===== src/Core/Context/AddBuildStep.antt =====
-- RULES/core/context.go: AddBuildStep, which also writes the data files.
use dbt_rules.Base.{
  ℕ, String, ◌<>◌, Bool, true, false, Option, none, some, [], ◌∷◌, ◌++◌, ◌==◌, nat_eq, string_eq,
  not, if◌then◌else◌, Result, ok, ◌>>=◌, ◌>>◌,
}
use dbt_rules.Base.Map.{Map, insert}
use dbt_rules.Base.Text.{quote, hex8}
use dbt_rules.Base.Text.Paths.{join_path, dir}
use dbt_rules.Base.Crc.{checksum}
use dbt_rules.Core.Input.{GeneratorInput}
use dbt_rules.Core.Path.{out_path, OutPath, path_eq, absolute}
use dbt_rules.Core.Step.{Pool, BuildStep, BuildRule, step_outs, step_ins}
use dbt_rules.Core.Context.{
  Context, Action, register_pool, ninja_escape, message, add_build_step_with_rule,
}

-- The file system: each call gives the error's text, or none.
pub record Os : Type 0 where
  pub mkdir_all : String → Option String
  pub write_file : String → String → ℕ → Option String

module _ (input : GeneratorInput) (os : Os) where
  abbrev check : Bool → String → Context → Result (Unit {0})
  check b msg ctx = if b then message input msg ctx else ok tt

  abbrev report : Option String → String → Context → Result (Unit {0})
  report none msg ctx = ok tt
  report (some err) msg ctx = message input (msg <> ": " <> err) ctx

  lacks_single_out : BuildStep → Bool
  lacks_single_out step = elim step.out [
    | none ↦ true
    | some o ↦ elim step.outs [ none ↦ false | some l ↦ true ]
  ]

  -- The contents of the data file, which are empty where there is none, and its mode.
  unfoldable pub step_data : BuildStep → Context → Result (String × ℕ)
  unfolding lacks_single_out
  step_data step ctx =
      if not (step.script == "")
      then (do
        check (not (step.cmd == "")) "cannot specify both Cmd and Script in a build step" ctx
        ok (step.script, 0o755))
      else if not (step.data' == "")
      then (do
        check (not (step.cmd == "")) "cannot specify both Cmd and Data in a build step" ctx
        check (lacks_single_out step) "a single Out is required for Data in a build step" ctx
        ok (step.data', if step.data_file_mode == 0 then 0o644 else step.data_file_mode))
      else ok ("", 0o644)

  unfoldable pub data_path : String → String
  data_path contents = join_path (dir input.output_dir ∷ "DATA" ∷ hex8 (checksum contents) ∷ [])

  -- The data file's path, which is empty where there is no data.
  unfoldable pub write_data : String → ℕ → Context → Result (String × Context)
  unfolding data_path
  write_data contents mode ctx = if contents == "" then ok ("", ctx) else (do
    let path = data_path contents
    report (os.mkdir_all (dir path)) "Failed to create directory for data files" ctx
    report (os.write_file path contents mode) "Failed to write data file" ctx
    ok (
      path,
      record ctx {
        written = ctx.written ++ record { path = path; contents = contents; mode = mode } ∷ [];
      },
    ))

  -- %q of an output that may be nil.
  quote_out : Option OutPath → String
  quote_out none = "%!q(<nil>)"
  quote_out (some o) = quote (absolute input (out_path o))

  unfoldable pub step_cmd : String → BuildStep → String
  unfolding quote_out
  step_cmd path step =
      if not (step.script == "")
      then path
      else if not (step.data' == "")
      then "cp " <> quote path <> " " <> quote_out step.out
      else step.cmd

  add_depfile : Option OutPath → Map String String → Map String String
  add_depfile none m = m
  add_depfile (some o) m = insert "depfile" (ninja_escape (absolute input (out_path o))) m

  unfoldable pub add_pool :
      Option Pool → Map String String → Context → Result (Map String String × Context)
  add_pool none m ctx = ok (m, ctx)
  add_pool (some pool) m ctx = do
    (err, ctx') ← register_pool pool ctx
    report err "Failed to register ninja pool" ctx'
    ok (insert "pool" (ninja_escape pool.name) m, ctx')

  unfoldable pub step_rule : String → BuildStep → Context → Result (BuildRule × Context)
  unfolding step_cmd add_depfile add_pool
  step_rule path step ctx = do
    (variables, ctx') ←
        add_pool step.pool
          (add_depfile step.depfile
            (("command", step_cmd path step) ∷ ("description", step.descr) ∷ []))
          ctx
    ok (record { name = ""; variables = variables }, ctx')

  unfoldable pub add_build_step : BuildStep → Action
  unfolding step_data write_data step_rule step_outs step_ins
  add_build_step step ctx = do
    (contents, mode) ← step_data step ctx
    (path, ctx1) ← write_data contents mode ctx
    (rule, ctx2) ← step_rule path step ctx1
    add_build_step_with_rule input
        (record {
          outs = step_outs step;
          ins = step_ins step;
          implicit_deps = [];
          order_deps = [];
          variables = [];
          rule = rule;
          phony = step.phony;
          traces = [];
        })
        ctx2
