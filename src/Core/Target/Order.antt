-- ===== src/Core/Target/Order.antt =====
-- RULES/core/context.go: the order in which Go visits the leaf outputs does not show in the rule of
-- a target.
use mathlib.Core.List.{Perm}
use mathlib.Core.List.Perm as Perms
use dbt_rules.Base.{String, ◌≡◌, refl, Option-cases, inl, inr}
use dbt_rules.Base.Map.{keys}
use dbt_rules.Base.Sort.{sort_strings-perm}
use dbt_rules.Base.Text.Paths.{rel}
use dbt_rules.Core.Input.{GeneratorInput}
use dbt_rules.Core.Path.{absolute}
use dbt_rules.Core.Context.{Context, ninja_escape}
use dbt_rules.Core.Target.{Target, relative_names, ninja_outs, print_outs, target_rule}

module _ (input : GeneratorInput) (target : Target) (ctx ctx' : Context)
    (same : Perm (keys ctx.leaf_outputs) (keys ctx'.leaf_outputs)) where
  ninja_outs-perm : ninja_outs input ctx ≡ ninja_outs input ctx'
  unfolding ninja_outs
  ninja_outs-perm = sort_strings-perm (Perms.map (λ p. ninja_escape (absolute input p)) same)

  print_outs-perm : print_outs input target ctx ≡ print_outs input target ctx'
  unfolding print_outs relative_names
  print_outs-perm = elim (Option-cases target.outputs) [
    | inl e ↦ simp (
      print_outs,
      e,
      sort_strings-perm (Perms.map (λ p. rel input.working_dir (absolute input p)) same),
    )
    | inr (l, e) ↦ simp (print_outs, e)
  ]

  -- Two contexts whose leaf outputs are the same up to their order give the target the same rule.
  pub target_rule_perm :
      (path : String) → target_rule input path target ctx ≡ target_rule input path target ctx'
  unfolding target_rule
  target_rule_perm path = rw (ninja_outs-perm, print_outs-perm) refl
