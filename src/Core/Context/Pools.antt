-- ===== src/Core/Context/Pools.antt =====
-- RULES/core/context.go: ninja pools. `newContext` makes no map for them.
use dbt_rules.Base.{
  nat_eq, ℕ, String, ◌≡◌, ◌≢◌, sym, ◌∙◌, none, some, arith, string_eq, ok, fail, panic, >>=-eq-ok,
}
use dbt_rules.Core.Input.{GeneratorInput, fatal}
use dbt_rules.Core.Step.{Pool, BuildStep}
use dbt_rules.Core.Context.{Context, register_pool}
use dbt_rules.Core.Context.AddBuildStep.{
  Os, step_data, write_data, step_rule, add_pool, add_build_step,
}

-- A pool of the program's own.
pub record IsNamed (pool : Pool) : Type 0 where
  pub not_empty : pool.name ≢ ""
  pub not_console : pool.name ≢ "console"

register_pool_panics :
    (pool : Pool) (ctx : Context)
    → IsNamed pool
    → ctx.pools ≡ none
    → register_pool pool ctx ≡ fail (panic "assignment to entry in nil map")
unfolding register_pool
register_pool_panics pool ctx named e =
    ground (arith, e, string_eq.beq_iff pool.name "", string_eq.beq_iff pool.name "console")

module _ (input : GeneratorInput) (os : Os) where
  write_data-pools :
      (contents : String) (mode : ℕ) (ctx : Context) (path : String) (ctx' : Context)
      → write_data input os contents mode ctx ≡ ok (path, ctx')
      → ctx'.pools ≡ ctx.pools
  unfolding write_data fatal
  write_data-pools contents mode ctx path ctx' h = ground arith

  step_rule_panics :
      (path : String) (step : BuildStep) (ctx : Context) (pool : Pool)
      → step.pool ≡ some pool
      → IsNamed pool
      → ctx.pools ≡ none
      → step_rule input os path step ctx ≡ fail (panic "assignment to entry in nil map")
  unfolding step_rule add_pool
  step_rule_panics path step ctx pool e named none_yet =
      ground (arith, e, register_pool_panics pool ctx named none_yet)

  -- While the context has no map of pools, as `newContext` leaves it, a build step with a pool of its
  -- own is never added: the call ends the program.
  pub add_build_step-pool :
      (step : BuildStep) (ctx ctx' : Context) (pool : Pool)
      → step.pool ≡ some pool
      → IsNamed pool
      → ctx.pools ≡ none
      → add_build_step input os step ctx ≢ ok ctx'
  unfolding add_build_step
  add_build_step-pool step ctx ctx' pool e named none_yet h =
      let ((contents, mode), e1, h1) = >>=-eq-ok (step_data input os step ctx) _ h in
      let ((path, ctx1), e2, h2) = >>=-eq-ok (write_data input os contents mode ctx) _ h1 in
      let same = write_data-pools contents mode ctx path ctx1 e2 in
      let ((rule, ctx2), e3, h3) = >>=-eq-ok (step_rule input os path step ctx1) _ h2 in
      cc (sym e3 ∙ step_rule_panics path step ctx1 pool e named (same ∙ none_yet))
