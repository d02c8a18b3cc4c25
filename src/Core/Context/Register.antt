-- ===== src/Core/Context/Register.antt =====
-- RULES/core/context.go: what AddBuildStepWithRule makes of a step that is new.
use dbt_rules.Base.{
  String, ◌≡◌, none, some, List, [], ◌∷◌, ◌++◌, length, elem, get_elem?, get_elem?-length,
  string_eq, if◌then◌else◌, ok,
}
use dbt_rules.Base.Map.{lookup}
use dbt_rules.Core.Input.{GeneratorInput}
use dbt_rules.Core.Path.{out_path, OutPath, absolute}
use dbt_rules.Core.Step.{BuildStepWithRule}
use dbt_rules.Core.Context.{Context, new_step, register_outs, add_build_step_with_rule}
use dbt_rules.Core.Context.Registry.{names, lookup-register_outs, add_new, mark_leaves_table}

module _ (input : GeneratorInput) (step : BuildStepWithRule) (ctx : Context) (first : OutPath)
    (rest : List OutPath) (e : step.outs ≡ first ∷ rest) where
  -- What a step that is new leaves in the context.
  pub record Registered (ctx' : Context) : Type 0 where
    pub stored :
        get_elem? ctx'.steps (length ctx.steps)
        ≡ some (record step { traces = step.traces ++ ctx.trace ∷ [] })
    pub table :
        (k : String)
        → lookup k ctx'.build_steps ≡ (
            if elem k (names input step.outs)
            then some (length ctx.steps)
            else lookup k ctx.build_steps)
    pub others :
        ctx'.steps ≡ ctx.steps ++ record step { traces = step.traces ++ ctx.trace ∷ [] } ∷ []

  pub new_step-Registered : Registered (new_step input step ctx)
  unfolding new_step
  new_step-Registered =
      let (t, s) = mark_leaves_table input step (record ctx {
        steps = ctx.steps ++ record step { traces = step.traces ++ ctx.trace ∷ [] } ∷ [];
        build_steps = register_outs input (length ctx.steps) step.outs ctx.build_steps;
      }) in
      record {
        stored = rw s (get_elem?-length ctx.steps _);
        table =
            λ k. rw t (lookup-register_outs input (length ctx.steps) step.outs ctx.build_steps k);
        others = s;
      }

  -- A step whose first output no step has is accepted. It is stored once, with the current trace
  -- added, all of its outputs stand for it, and every other output stands for what it stood for.
  pub add_build_step_with_rule-new :
      lookup (absolute input (out_path first)) ctx.build_steps ≡ none
      → (ctx' : Context) × (add_build_step_with_rule input step ctx ≡ ok ctx') × Registered ctx'
  add_build_step_with_rule-new h =
      (new_step input step ctx, add_new input step ctx first rest e h, new_step-Registered)
