-- ===== src/Core/Context/Growth.antt =====
-- RULES/core/context.go: what a registration leaves in the table of build steps.
use dbt_rules.Base.{
  ℕ, String, ◌≡◌, refl, sym, ap, ◌∙◌, Bool, true, false, ◌||◌, Option, none, some, List, [], ◌∷◌,
  length, arith, elem, Option-cases, inl, inr, ok, >>=-eq-ok, ok-elim, string_eq, if◌then◌else◌,
}
use dbt_rules.Base.Map.{Map, has, lookup}
use dbt_rules.Core.Input.{GeneratorInput, fatal}
use dbt_rules.Core.Path.{OutPath, out_path, absolute}
use dbt_rules.Core.Step.{BuildStep, BuildStepWithRule, BuildRule, Pool, step_outs}
use dbt_rules.Core.Context.{
  Context, register_pool, add_trace, mark_leaves, new_step, add_build_step_with_rule,
}
use dbt_rules.Core.Context.AddBuildStep.{
  Os, write_data, step_data, step_rule, add_pool, add_build_step,
}
use dbt_rules.Core.Context.Registry.{
  names, lookup-register_outs, mark_leaves_table, add_no_outs, add_new, add_known, known_step-eq-ok,
}

-- A name that stands for a build step.
abbrev pub Registered : Context → String → Type 0
Registered ctx k = has k ctx.build_steps ≡ true

-- No name is lost.
abbrev pub Grows : Context → Context → Type 0
Grows ctx ctx' = (k : String) → Registered ctx k → Registered ctx' k

has-if :
    (b : Bool) (id : ℕ) (o : Option ℕ)
    → elim (if b then some id else o) [ none ↦ false | some v ↦ true ]
      ≡ (b || elim o [ none ↦ false | some v ↦ true ])
has-if true id o = refl
has-if false id o = refl

module _ (input : GeneratorInput) (os : Os) where
  has-new_step :
      (step : BuildStepWithRule) (ctx : Context) (k : String)
      → has k (new_step input step ctx).build_steps
        ≡ (elem k (names input step.outs) || has k ctx.build_steps)
  unfolding new_step
  has-new_step step ctx k =
      ap (has k) ((mark_leaves_table input step _).0)
      ∙ ap (λ o. elim o [ none ↦ false | some v ↦ true ])
          (lookup-register_outs input (length ctx.steps) step.outs ctx.build_steps k)
      ∙ has-if (elem k (names input step.outs)) (length ctx.steps) (lookup k ctx.build_steps)

  known_table :
      (id : ℕ) (prev step : BuildStepWithRule) (ctx : Context)
      → (mark_leaves step (mark_leaves step (add_trace input id prev ctx))).build_steps
        ≡ ctx.build_steps
  unfolding add_trace
  known_table id prev step ctx =
      (mark_leaves_table input step _).0 ∙ (mark_leaves_table input step _).0

  with_rule-Grows :
      (outs : List OutPath) (step : BuildStepWithRule) (ctx ctx' : Context)
      → step.outs ≡ outs
      → add_build_step_with_rule input step ctx ≡ ok ctx'
      → Grows ctx ctx'
  with_rule-Grows [] step ctx ctx' e h k there =
      ok-elim (λ c. Registered c k) (sym (add_no_outs input step ctx e) ∙ h) there
  with_rule-Grows (first ∷ rest) step ctx ctx' e h k there =
      elim (Option-cases (lookup (absolute input (out_path first)) ctx.build_steps)) [
        | inl new ↦
            ok-elim (λ c. Registered c k) (sym (add_new input step ctx first rest e new) ∙ h)
              (ground (arith, has-new_step step ctx k, there))
        | inr (id, old) ↦
            let (prev, _, e') =
              known_step-eq-ok input id first step ctx ctx'
                (sym (add_known input step ctx first rest e id old) ∙ h) in
            ap (λ c. has k c.build_steps) e' ∙ ap (has k) (known_table id prev step ctx) ∙ there
      ]

  with_rule-Registered :
      (first : OutPath) (rest : List OutPath) (step : BuildStepWithRule) (ctx ctx' : Context)
      → step.outs ≡ first ∷ rest
      → add_build_step_with_rule input step ctx ≡ ok ctx'
      → Registered ctx' (absolute input (out_path first))
  with_rule-Registered first rest step ctx ctx' e h =
      let k = absolute input (out_path first) in
      elim (Option-cases (lookup k ctx.build_steps)) [
        | inl new ↦
            ok-elim (λ c. Registered c k) (sym (add_new input step ctx first rest e new) ∙ h)
              (has-new_step step ctx k
                ∙ ap (λ l. elem k (names input l) || has k ctx.build_steps) e
                ∙ rw ((string_eq.beq_iff k k).1 refl) refl)
        | inr (id, old) ↦
            let (prev, _, e') =
              known_step-eq-ok input id first step ctx ctx'
                (sym (add_known input step ctx first rest e id old) ∙ h) in
            ap (λ c. has k c.build_steps) e'
            ∙ ap (has k) (known_table id prev step ctx)
            ∙ ap (λ o. elim o [ none ↦ false | some v ↦ true ]) old
      ]

  -- The table behind a call is that before it.
  abbrev Same : Context → Context → Type 0
  Same ctx ctx' = ctx'.build_steps ≡ ctx.build_steps

  write_data-Same :
      (contents : String) (mode : ℕ) (ctx : Context) (path : String) (ctx' : Context)
      → write_data input os contents mode ctx ≡ ok (path, ctx')
      → Same ctx ctx'
  unfolding write_data fatal
  write_data-Same contents mode ctx path ctx' h = ground arith

  register_pool-Same :
      (pool : Pool) (ctx : Context) (err : Option String) (ctx' : Context)
      → register_pool pool ctx ≡ ok (err, ctx')
      → Same ctx ctx'
  unfolding register_pool
  register_pool-Same pool ctx err ctx' h = ground arith

  add_pool-Same :
      (pool : Option Pool) (m : Map String String) (ctx : Context) (r : Map String String)
      (ctx' : Context)
      → add_pool input os pool m ctx ≡ ok (r, ctx')
      → Same ctx ctx'
  unfolding add_pool fatal
  add_pool-Same none m ctx r ctx' h = ground (arith, h)
  add_pool-Same (some pool) m ctx r ctx' h =
      let ((err, ctx1), e1, h1) = >>=-eq-ok (register_pool pool ctx) _ h in
      let same : ctx' ≡ ctx1 = ground (arith, h1) in
      ap (λ c. c.build_steps) same ∙ register_pool-Same pool ctx err ctx1 e1

  step_rule-Same :
      (path : String) (step : BuildStep) (ctx : Context) (rule : BuildRule) (ctx' : Context)
      → step_rule input os path step ctx ≡ ok (rule, ctx')
      → Same ctx ctx'
  unfolding step_rule
  step_rule-Same path step ctx rule ctx' h =
      let ((m, ctx1), e1, h1) = >>=-eq-ok (add_pool input os step.pool _ ctx) _ h in
      let same : ctx' ≡ ctx1 = ground (arith, h1) in
      ap (λ c. c.build_steps) same ∙ add_pool-Same step.pool _ ctx m ctx1 e1

  pub add_build_step-Grows :
      (step : BuildStep) (ctx ctx' : Context)
      → add_build_step input os step ctx ≡ ok ctx'
      → Grows ctx ctx'
  unfolding add_build_step
  add_build_step-Grows step ctx ctx' h k there =
      let ((contents, mode), e1, h1) = >>=-eq-ok (step_data input os step ctx) _ h in
      let ((path, ctx1), e2, h2) = >>=-eq-ok (write_data input os contents mode ctx) _ h1 in
      let ((rule, ctx2), e3, h3) = >>=-eq-ok (step_rule input os path step ctx1) _ h2 in
      with_rule-Grows _ _ ctx2 ctx' refl h3 k (
        ap (has k) (
          step_rule-Same path step ctx1 rule ctx2 e3
          ∙ write_data-Same contents mode ctx path ctx1 e2)
        ∙ there)

  pub add_build_step-Registered :
      (out : OutPath) (step : BuildStep) (ctx ctx' : Context)
      → step_outs step ≡ out ∷ []
      → add_build_step input os step ctx ≡ ok ctx'
      → Registered ctx' (absolute input (out_path out))
  unfolding add_build_step
  add_build_step-Registered out step ctx ctx' e h =
      let ((contents, mode), e1, h1) = >>=-eq-ok (step_data input os step ctx) _ h in
      let ((path, ctx1), e2, h2) = >>=-eq-ok (write_data input os contents mode ctx) _ h1 in
      let ((rule, ctx2), e3, h3) = >>=-eq-ok (step_rule input os path step ctx1) _ h2 in
      with_rule-Registered out [] _ ctx2 ctx' e h3
