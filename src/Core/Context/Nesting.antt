-- ===== src/Core/Context/Nesting.antt =====
-- RULES/core/context.go: what a rule's Build leaves of the context's own state, whatever calls of
-- the interface `Context` it makes.
use dbt_rules.Base.{
  ℕ, String, ◌≡◌, refl, sym, ap, subst, ◌∙◌, true, Option, none, some, List, [], ◌∷◌, ◌++◌, arith,
  Option-cases, inl, inr, ok, ◌>>=◌, >>=-eq-ok, ok-elim, string_eq,
}
use dbt_rules.Base.Map.{Map, lookup}
use dbt_rules.Core.Input.{GeneratorInput, fatal}
use dbt_rules.Core.Path.{OutPath, out_path, absolute}
use dbt_rules.Core.Step.{BuildStep, BuildStepWithRule, BuildRule, Pool}
use dbt_rules.Core.Context.{
  Context, Action, pop_last, with_trace, build_child, register_pool, register_comp_db_rule,
  add_trace, mark_leaves, new_step, add_build_step_with_rule,
}
use dbt_rules.Core.Context.AddBuildStep.{
  Os, write_data, step_data, step_rule, add_pool, add_build_step,
}
use dbt_rules.Core.Context.Registry.{add_no_outs, add_new, add_known, known_step-eq-ok}

-- The fields that a build finds and leaves alike.
pub record Frame (ctx ctx' : Context) : Type 0 where
  pub trace : ctx'.trace ≡ ctx.trace
  pub nested_build : ctx'.nested_build ≡ ctx.nested_build
  pub cwd : ctx'.cwd ≡ ctx.cwd
  pub current_target : ctx'.current_target ≡ ctx.current_target
  pub target_rules : ctx'.target_rules ≡ ctx.target_rules

Frame-refl : (ctx : Context) → Frame ctx ctx
Frame-refl ctx = record {
  trace = refl;
  nested_build = refl;
  cwd = refl;
  current_target = refl;
  target_rules = refl;
}

Frame-trans : {a b c : Context} → Frame a b → Frame b c → Frame a c
Frame-trans f g = record {
  trace = g.trace ∙ f.trace;
  nested_build = g.nested_build ∙ f.nested_build;
  cwd = g.cwd ∙ f.cwd;
  current_target = g.current_target ∙ f.current_target;
  target_rules = g.target_rules ∙ f.target_rules;
}

-- A rule's code, as the calls that it makes. What it reads decides what it does next.
pub data Calls : Type 0 where
  done : Calls
  add_step : BuildStep → Calls → Calls
  add_step_with_rule : BuildStepWithRule → Calls → Calls
  in_trace : String → Calls → Calls → Calls
  child : Calls → Calls → Calls
  register_rule : BuildRule → Calls → Calls
  read : (Context → Calls) → Calls

module _ (input : GeneratorInput) (os : Os) where
  unfoldable pub run_calls : Calls → Action
  unfolding add_build_step add_build_step_with_rule with_trace build_child register_comp_db_rule
  run_calls done ctx = ok ctx
  run_calls (add_step step rest) ctx = do
    ctx' ← add_build_step input os step ctx
    run_calls rest ctx'
  run_calls (add_step_with_rule step rest) ctx = do
    ctx' ← add_build_step_with_rule input step ctx
    run_calls rest ctx'
  run_calls (in_trace id body rest) ctx = do
    ctx' ← with_trace id (run_calls body) ctx
    run_calls rest ctx'
  run_calls (child body rest) ctx = do ctx' ← build_child (run_calls body) ctx; run_calls rest ctx'
  run_calls (register_rule rule rest) ctx = run_calls rest (register_comp_db_rule rule ctx)
  run_calls (read next) ctx = run_calls (next ctx) ctx

  abbrev Keeps : Action → Type 0
  Keeps action = (ctx ctx' : Context) → action ctx ≡ ok ctx' → Frame ctx ctx'

  mark_leaves-Frame : (step : BuildStepWithRule) (ctx : Context) → Frame ctx (mark_leaves step ctx)
  unfolding mark_leaves
  mark_leaves-Frame step ctx = record {
    trace = ground arith;
    nested_build = ground arith;
    cwd = ground arith;
    current_target = ground arith;
    target_rules = ground arith;
  }

  new_step-Frame : (step : BuildStepWithRule) (ctx : Context) → Frame ctx (new_step input step ctx)
  unfolding new_step
  new_step-Frame step ctx =
      Frame-trans
        (record {
          trace = refl;
          nested_build = refl;
          cwd = refl;
          current_target = refl;
          target_rules = refl;
        })
        (mark_leaves-Frame step _)

  with_rule-Keeps :
      (outs : List OutPath) (step : BuildStepWithRule)
      → step.outs ≡ outs
      → Keeps (add_build_step_with_rule input step)
  unfolding add_trace
  with_rule-Keeps [] step e ctx ctx' h =
      ok-elim (Frame ctx) (sym (add_no_outs input step ctx e) ∙ h) (Frame-refl ctx)
  with_rule-Keeps (first ∷ rest) step e ctx ctx' h =
      elim (Option-cases (lookup (absolute input (out_path first)) ctx.build_steps)) [
        | inl new ↦
            ok-elim (Frame ctx) (sym (add_new input step ctx first rest e new) ∙ h)
              (new_step-Frame step ctx)
        | inr (id, old) ↦
            let (prev, _, e') =
              known_step-eq-ok input id first step ctx ctx'
                (sym (add_known input step ctx first rest e id old) ∙ h) in
            rw e' (
              Frame-trans
                (Frame-trans
                  (record {
                    trace = refl;
                    nested_build = refl;
                    cwd = refl;
                    current_target = refl;
                    target_rules = refl;
                  })
                  (mark_leaves-Frame step (add_trace input id prev ctx)))
                (mark_leaves-Frame step _))
      ]

  write_data-Frame :
      (contents : String) (mode : ℕ) (ctx : Context) (path : String) (ctx' : Context)
      → write_data input os contents mode ctx ≡ ok (path, ctx')
      → Frame ctx ctx'
  unfolding write_data fatal
  write_data-Frame contents mode ctx path ctx' h = record {
    trace = ground arith;
    nested_build = ground arith;
    cwd = ground arith;
    current_target = ground arith;
    target_rules = ground arith;
  }

  register_pool-Frame :
      (pool : Pool) (ctx : Context) (err : Option String) (ctx' : Context)
      → register_pool pool ctx ≡ ok (err, ctx')
      → Frame ctx ctx'
  unfolding register_pool
  register_pool-Frame pool ctx err ctx' h = record {
    trace = ground arith;
    nested_build = ground arith;
    cwd = ground arith;
    current_target = ground arith;
    target_rules = ground arith;
  }

  add_pool-Frame :
      (pool : Option Pool) (m : Map String String) (ctx : Context) (r : Map String String)
      (ctx' : Context)
      → add_pool input os pool m ctx ≡ ok (r, ctx')
      → Frame ctx ctx'
  unfolding add_pool fatal
  add_pool-Frame none m ctx r ctx' h = subst (Frame ctx) (ground (arith, h)) (Frame-refl ctx)
  add_pool-Frame (some pool) m ctx r ctx' h =
      let ((err, ctx1), e1, h1) = >>=-eq-ok (register_pool pool ctx) _ h in
      subst (Frame ctx) (ground (arith, h1)) (register_pool-Frame pool ctx err ctx1 e1)

  step_rule-Frame :
      (path : String) (step : BuildStep) (ctx : Context) (rule : BuildRule) (ctx' : Context)
      → step_rule input os path step ctx ≡ ok (rule, ctx')
      → Frame ctx ctx'
  unfolding step_rule
  step_rule-Frame path step ctx rule ctx' h =
      let ((m, ctx1), e1, h1) = >>=-eq-ok (add_pool input os step.pool _ ctx) _ h in
      subst (Frame ctx) (ground (arith, h1)) (add_pool-Frame step.pool _ ctx m ctx1 e1)

  add_build_step-Keeps : (step : BuildStep) → Keeps (add_build_step input os step)
  unfolding add_build_step
  add_build_step-Keeps step ctx ctx' h =
      let ((contents, mode), e1, h1) = >>=-eq-ok (step_data input os step ctx) _ h in
      let ((path, ctx1), e2, h2) = >>=-eq-ok (write_data input os contents mode ctx) _ h1 in
      let ((rule, ctx2), e3, h3) = >>=-eq-ok (step_rule input os path step ctx1) _ h2 in
      Frame-trans (write_data-Frame contents mode ctx path ctx1 e2) (
        Frame-trans (step_rule-Frame path step ctx1 rule ctx2 e3)
          (with_rule-Keeps _ _ refl ctx2 ctx' h3))

  pop_last-append : (xs : List String) (x : String) → pop_last (xs ++ x ∷ []) ≡ xs
  unfolding pop_last
  pop_last-append [] x = refl
  pop_last-append (y ∷ []) x = refl
  pop_last-append (y ∷ z ∷ xs) x = ap (λ l. y ∷ l) (pop_last-append (z ∷ xs) x)

  pub with_trace-Keeps : (id : String) (f : Action) → Keeps f → Keeps (with_trace id f)
  unfolding with_trace
  with_trace-Keeps id f keeps ctx ctx' h =
      let (ctx1, e1, e2) = >>=-eq-ok (f (record ctx { trace = ctx.trace ++ id ∷ [] })) _ h in
      let k = keeps _ ctx1 e1 in
      ok-elim (Frame ctx) e2 (record {
        trace = ap pop_last k.trace ∙ pop_last-append ctx.trace id;
        nested_build = k.nested_build;
        cwd = k.cwd;
        current_target = k.current_target;
        target_rules = k.target_rules;
      })

  build_child-Keeps : (f : Action) → Keeps f → Keeps (build_child f)
  unfolding build_child
  build_child-Keeps f keeps ctx ctx' h =
      let (ctx1, e1, e2) = >>=-eq-ok (f (record ctx { nested_build = true })) _ h in
      let k = keeps _ ctx1 e1 in
      ok-elim (Frame ctx) e2 (record {
        trace = k.trace;
        nested_build = refl;
        cwd = k.cwd;
        current_target = k.current_target;
        target_rules = k.target_rules;
      })

  -- Whatever calls a rule makes without an error, nested in traces and in builds of children, it leaves the trace, the
  -- mark of a nested build, the directory, the current target and the targets' rules as it finds them.
  pub run_calls-Frame : (calls : Calls) → Keeps (run_calls calls)
  unfolding run_calls
  run_calls-Frame done ctx ctx' h = ok-elim (Frame ctx) h (Frame-refl ctx)
  run_calls-Frame (add_step step rest) ctx ctx' h =
      let (ctx1, e1, e2) = >>=-eq-ok (add_build_step input os step ctx) (run_calls rest) h in
      Frame-trans (add_build_step-Keeps step ctx ctx1 e1) (run_calls-Frame rest ctx1 ctx' e2)
  run_calls-Frame (add_step_with_rule step rest) ctx ctx' h =
      let (ctx1, e1, e2) = >>=-eq-ok (add_build_step_with_rule input step ctx) (run_calls rest) h in
      Frame-trans (with_rule-Keeps step.outs step refl ctx ctx1 e1)
        (run_calls-Frame rest ctx1 ctx' e2)
  run_calls-Frame (in_trace id body rest) ctx ctx' h =
      let (ctx1, e1, e2) = >>=-eq-ok (with_trace id (run_calls body) ctx) (run_calls rest) h in
      Frame-trans (with_trace-Keeps id (run_calls body) (run_calls-Frame body) ctx ctx1 e1)
        (run_calls-Frame rest ctx1 ctx' e2)
  run_calls-Frame (child body rest) ctx ctx' h =
      let (ctx1, e1, e2) = >>=-eq-ok (build_child (run_calls body) ctx) (run_calls rest) h in
      Frame-trans (build_child-Keeps (run_calls body) (run_calls-Frame body) ctx ctx1 e1)
        (run_calls-Frame rest ctx1 ctx' e2)
  run_calls-Frame (register_rule rule rest) ctx ctx' h =
      let f = run_calls-Frame rest (register_comp_db_rule rule ctx) ctx' h in
      unfold register_comp_db_rule in
      Frame-trans
        (record {
          trace = refl;
          nested_build = refl;
          cwd = refl;
          current_target = refl;
          target_rules = refl;
        })
        f
  run_calls-Frame (read next) ctx ctx' h = run_calls-Frame (next ctx) ctx ctx' h
