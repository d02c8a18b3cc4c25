-- ===== src/Core/Target/Rules.antt =====
-- RULES/core/context.go: the rules that `handleTarget` adds.
use dbt_rules.Base.{
  String, ◌<>◌, ◌≡◌, ap, ◌∙◌, List, ◌++◌, [], ◌∷◌, append_assoc, if◌then◌else◌, Bool-cases, inl,
  inr, ok, >>=-eq-ok, ok-elim,
}
use dbt_rules.Base.Text.{is_upper_first}
use dbt_rules.Base.Text.Paths.{base, dir}
use dbt_rules.Core.Input.{GeneratorInput}
use dbt_rules.Core.Step.{TargetRule}
use dbt_rules.Core.Context.{Context, with_trace}
use dbt_rules.Core.Context.AddBuildStep.{Os}
use dbt_rules.Core.Context.Nesting.{Frame, Calls, run_calls, run_calls-Frame, with_trace-Keeps}
use dbt_rules.Core.Target.{
  Target, target_rule, print_outs, ninja_outs, run_rules, test_rules, add_target_rules,
  handle_target,
}

-- The rules that the context gets for a target that is built.
abbrev pub rules_of : GeneratorInput → String → Target → Context → List TargetRule
rules_of input path target built =
    (target_rule input path target built ∷ run_rules input path target)
    ++ test_rules input path target

append_groups :
    (l : List TargetRule) (t : TargetRule) (r s : List TargetRule)
    → ((l ++ t ∷ []) ++ r) ++ s ≡ l ++ ((t ∷ r) ++ s)
append_groups l t r s = simp append_assoc

module _ (input : GeneratorInput) (os : Os) (path : String) (target : Target) (calls : Calls)
    (is_calls : target.build ≡ run_calls input os calls) (ctx ctx' : Context)
    (h : handle_target input path target ctx ≡ ok ctx') where
  started : Context
  started = record ctx { current_target = path; cwd = record { rel = dir path }; leaf_outputs = [] }

  finish : Context → Context
  finish built =
      if is_upper_first (base path) then add_target_rules input path target built else built

  build-Frame :
      (built : Context)
      → with_trace ("target:" <> path) target.build started ≡ ok built
      → Frame started built
  build-Frame built e =
      with_trace-Keeps input os ("target:" <> path) target.build
        (rw is_calls (run_calls-Frame input os calls)) started built e

  -- What the context holds behind the end of a target, from what it held behind the build.
  Handled : Context → Type 0
  Handled c = c.target_rules ≡ (
      if is_upper_first (base path)
      then ctx.target_rules ++ rules_of input path target c
      else ctx.target_rules)

  rules_follow :
      (built : Context)
      → Frame started built
      → (add_target_rules input path target built).target_rules
        ≡ ctx.target_rules ++ rules_of input path target built
  unfolding add_target_rules started run_rules test_rules
  rules_follow built f =
      let t = target_rule input path target built in
      let r = run_rules input path target in
      let s = test_rules input path target in
      ap (λ l. ((l ++ t ∷ []) ++ r) ++ s) f.target_rules ∙ append_groups ctx.target_rules t r s

  finish-Handled : (built : Context) → Frame started built → Handled (finish built)
  unfolding finish add_target_rules started Handled target_rule print_outs ninja_outs
  finish-Handled built f = elim (Bool-cases (is_upper_first (base path))) [
    | inl e ↦ rw e (rules_follow built f)
    | inr e ↦ rw e f.target_rules
  ]

  -- A name that starts with an upper-case letter gets its rules, and any other name gets none.
  pub handle_target_rules : ctx'.target_rules ≡ (
      if is_upper_first (base path)
      then ctx.target_rules ++ rules_of input path target ctx'
      else ctx.target_rules)
  unfolding handle_target finish started Handled
  handle_target_rules =
      let (built, e1, e2) = >>=-eq-ok (with_trace ("target:" <> path) target.build started) _ h in
      ok-elim Handled e2 (finish-Handled built (build-Frame built e1))
