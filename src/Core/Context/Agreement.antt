-- ===== src/Core/Context/Agreement.antt =====
-- RULES/core/context.go: what a registered output stands for, and steps that are registered again.
use dbt_rules.Base.{
  ℕ, String, ◌≡◌, refl, sym, ap, ◌∙◌, Option-cases, inl, inr, true, false, none, some, List, [],
  ◌∷◌, ◌++◌, arith, length, elem, get_elem?, set, get_elem?-set_self, beq_refl, lt_of_get_elem?,
  string_eq, ok, ok-elim, >>=-eq-ok,
}
use dbt_rules.Base.Map.{lookup}
use dbt_rules.Core.Input.{GeneratorInput, fatal}
use dbt_rules.Core.Path.{FilePath, out_path, OutPath, absolute}
use dbt_rules.Core.Step.{BuildStep, BuildStepWithRule, steps_are_equivalent, step_outs, step_ins}
use dbt_rules.Core.Step.Equivalence.{
  SameStep, steps_are_equivalent_refl, steps_are_equivalent_sound,
}
use dbt_rules.Core.Context.{
  Context, mark_leaves, known_step, new_step, check_equivalent, add_trace, add_build_step_with_rule,
}
use dbt_rules.Core.Context.AddBuildStep.{Os, write_data, step_data, step_rule, add_build_step}
use dbt_rules.Core.Context.Registry.{names, add_new, add_known, known_step-eq-ok, mark_leaves_table}
use dbt_rules.Core.Context.Register.{new_step-Registered}

first-named :
    (input : GeneratorInput) (step : BuildStepWithRule) (first : OutPath) (rest : List OutPath)
    → step.outs ≡ first ∷ rest
    → elem (absolute input (out_path first)) (names input step.outs) ≡ true
first-named input step first rest e =
    let k = absolute input (out_path first) in
    let here : elem k (names input (first ∷ rest)) ≡ true = rw (beq_refl k) refl in
    ap (λ l. elem k (names input l)) e ∙ here

marked_twice :
    (input : GeneratorInput) (step : BuildStepWithRule) (ctx : Context)
    → ((mark_leaves step (mark_leaves step ctx)).build_steps ≡ ctx.build_steps)
      × ((mark_leaves step (mark_leaves step ctx)).steps ≡ ctx.steps)
marked_twice input step ctx =
    let (a, b) = mark_leaves_table input step ctx in
    let (c, d) = mark_leaves_table input step (mark_leaves step ctx) in (c ∙ a, d ∙ b)

-- Behind a registration: what the first output's name stands for, in a context.
module _ (input : GeneratorInput) (first : OutPath) (step : BuildStepWithRule) where
  -- A stored step with the outputs, inputs, rule name and variables of the step.
  pub record Agreed (ctx : Context) : Type 0 where
    pub id : ℕ
    pub stored : BuildStepWithRule
    pub named : lookup (absolute input (out_path first)) ctx.build_steps ≡ some id
    pub found : get_elem? ctx.steps id ≡ some stored
    pub same : SameStep step stored

  SameStep-traces :
      (s : BuildStepWithRule) (t : List (List String))
      → SameStep step s
      → SameStep step (record s { traces = t })
  SameStep-traces s t h = record {
    ins = h.ins;
    outs = h.outs;
    name = h.name;
    variable_count = h.variable_count;
    variables = h.variables;
    rule_variable_count = h.rule_variable_count;
    rule_variables = h.rule_variables;
  }

  known_step-equal :
      (ctx ctx' : Context) (id : ℕ) (prev : BuildStepWithRule)
      → input.completions_only ≡ false
      → get_elem? ctx.steps id ≡ some prev
      → known_step input id first step ctx ≡ ok ctx'
      → steps_are_equivalent input step prev ≡ none
  unfolding known_step check_equivalent fatal
  known_step-equal ctx ctx' id prev live found h =
      elim (Option-cases (steps_are_equivalent input step prev)) [
        | inl e ↦ e
        | inr (err, e) ↦ ground (arith, found, e, live, h)
      ]

  known_step-Agreed :
      (ctx ctx' : Context) (id : ℕ)
      → input.completions_only ≡ false
      → lookup (absolute input (out_path first)) ctx.build_steps ≡ some id
      → known_step input id first step ctx ≡ ok ctx'
      → Agreed ctx'
  unfolding add_trace
  known_step-Agreed ctx ctx' id live old h =
      let (prev, found, e) = known_step-eq-ok input id first step ctx ctx' h in
      let (table, steps) = marked_twice input step (add_trace input id prev ctx) in
      let next = record prev { traces = prev.traces ++ ctx.trace ∷ [] } in
      let start = lt_of_get_elem? ctx.steps id found in
      record {
        id = id;
        stored = next;
        named =
            ap (λ r. lookup (absolute input (out_path first)) r.build_steps) e
            ∙ ap (lookup (absolute input (out_path first))) table
            ∙ old;
        found =
            ap (λ r. get_elem? r.steps id) e
            ∙ ap (λ l. get_elem? l id) steps
            ∙ get_elem?-set_self ctx.steps id next start;
        same = SameStep-traces prev _ (
            steps_are_equivalent_sound input step prev
              (known_step-equal ctx ctx' id prev live found h));
      }

  new_step-Agreed :
      (ctx : Context) (rest : List OutPath) (e : step.outs ≡ first ∷ rest)
      → Agreed (new_step input step ctx)
  new_step-Agreed ctx rest e =
      let k = absolute input (out_path first) in
      let r = new_step-Registered input step ctx first rest e in
      record {
        id = length ctx.steps;
        stored = record step { traces = step.traces ++ ctx.trace ∷ [] };
        named = r.table k ∙ rw (first-named input step first rest e) refl;
        found = r.stored;
        same =
            SameStep-traces step _
              (steps_are_equivalent_sound input step step (steps_are_equivalent_refl input step));
      }

pub add_build_step_with_rule-Agreed :
    (input : GeneratorInput) (step : BuildStepWithRule) (ctx ctx' : Context) (first : OutPath)
    (rest : List OutPath)
    → step.outs ≡ first ∷ rest
    → input.completions_only ≡ false
    → add_build_step_with_rule input step ctx ≡ ok ctx'
    → Agreed input first step ctx'
add_build_step_with_rule-Agreed input step ctx ctx' first rest e live h =
    elim (Option-cases (lookup (absolute input (out_path first)) ctx.build_steps)) [
      | inl new ↦
          ok-elim (Agreed input first step) (sym (add_new input step ctx first rest e new) ∙ h)
            (new_step-Agreed input first step ctx rest e)
      | inr (id, old) ↦
          known_step-Agreed input first step ctx ctx' id live old
            (sym (add_known input step ctx first rest e id old) ∙ h)
    ]

set-append : {A : Type 0} (l : List A) (a b : A) → set (l ++ a ∷ []) (length l) b ≡ l ++ b ∷ []
set-append [] a b = refl
set-append (x ∷ l) a b = ap (λ r. x ∷ r) (set-append l a b)

module _ (input : GeneratorInput) (step : BuildStepWithRule) (ctx : Context) (first : OutPath)
    (rest : List OutPath) (e : step.outs ≡ first ∷ rest) (trace : List String) where
  -- The context behind the first registration, in the trace of the second one.
  later : Context
  later = record (new_step input step ctx) { trace = trace }

  stored_once : BuildStepWithRule
  stored_once = record step { traces = step.traces ++ ctx.trace ∷ [] }

  equal_again : steps_are_equivalent input step stored_once ≡ none
  unfolding stored_once steps_are_equivalent
  equal_again = steps_are_equivalent_refl input step

  later-known : lookup (absolute input (out_path first)) later.build_steps ≡ some (length ctx.steps)
  unfolding later
  later-known =
      let k = absolute input (out_path first) in
      let r = new_step-Registered input step ctx first rest e in
      r.table k ∙ rw (first-named input step first rest e) refl

  later-found : get_elem? later.steps (length ctx.steps) ≡ some stored_once
  unfolding later stored_once
  later-found = (new_step-Registered input step ctx first rest e).stored

  again : Context
  again = mark_leaves step (mark_leaves step (add_trace input (length ctx.steps) stored_once later))

  known_again : add_build_step_with_rule input step later ≡ ok again
  unfolding known_step check_equivalent again
  known_again =
      add_known input step later first rest e (length ctx.steps) later-known
      ∙ ground (arith, later-found, equal_again)

  stored_twice : BuildStepWithRule
  stored_twice = record step { traces = (step.traces ++ ctx.trace ∷ []) ++ trace ∷ [] }

  again_steps : again.steps ≡ ctx.steps ++ stored_twice ∷ []
  unfolding again add_trace later stored_once stored_twice
  again_steps =
      (marked_twice input step (add_trace input (length ctx.steps) stored_once later)).1
      ∙ ap (λ l. set l (length ctx.steps) stored_twice)
          ((new_step-Registered input step ctx first rest e).others)
      ∙ set-append ctx.steps stored_once stored_twice

  again_table : again.build_steps ≡ (new_step input step ctx).build_steps
  unfolding again add_trace later
  again_table = (marked_twice input step (add_trace input (length ctx.steps) stored_once later)).0

-- A step whose first output is new can be registered twice, the second time from any trace. Both
-- registrations succeed. The table of outputs behind the second one is that behind the first one,
-- and the step is stored once, with the traces of both registrations.
pub add_build_step_with_rule-twice :
    (input : GeneratorInput) (step : BuildStepWithRule) (ctx : Context) (first : OutPath)
    (rest : List OutPath)
    → step.outs ≡ first ∷ rest
    → lookup (absolute input (out_path first)) ctx.build_steps ≡ none
    → (trace : List String)
    → (once : Context) × (twice : Context) × (add_build_step_with_rule input step ctx ≡ ok once)
      × (add_build_step_with_rule input step (record once { trace = trace }) ≡ ok twice)
      × (twice.build_steps ≡ once.build_steps)
      × (twice.steps
          ≡ ctx.steps
            ++ record step { traces = (step.traces ++ ctx.trace ∷ []) ++ trace ∷ [] } ∷ [])
unfolding later stored_twice
add_build_step_with_rule-twice input step ctx first rest e new trace = (
  new_step input step ctx,
  again input step ctx first rest e trace,
  add_new input step ctx first rest e new,
  known_again input step ctx first rest e trace,
  again_table input step ctx first rest e trace,
  again_steps input step ctx first rest e trace,
)

-- A stored step that an output stands for, with these inputs.
pub record HasInputs (input : GeneratorInput) (out : OutPath) (ins : List FilePath) (ctx : Context)
    : Type 0 where
  pub id : ℕ
  pub stored : BuildStepWithRule
  pub named : lookup (absolute input (out_path out)) ctx.build_steps ≡ some id
  pub found : get_elem? ctx.steps id ≡ some stored
  pub inputs : stored.ins ≡ ins

-- The same of AddBuildStep, for a step of one output.
pub add_build_step-HasInputs :
    (input : GeneratorInput) (os : Os) (step : BuildStep) (ctx ctx' : Context) (out : OutPath)
    → step_outs step ≡ out ∷ []
    → input.completions_only ≡ false
    → add_build_step input os step ctx ≡ ok ctx'
    → HasInputs input out (step_ins step) ctx'
unfolding add_build_step
add_build_step-HasInputs input os step ctx ctx' out e live h =
    let ((contents, mode), e1, h1) = >>=-eq-ok (step_data input os step ctx) _ h in
    let ((path, ctx1), e2, h2) = >>=-eq-ok (write_data input os contents mode ctx) _ h1 in
    let ((rule, ctx2), e3, h3) = >>=-eq-ok (step_rule input os path step ctx1) _ h2 in
    let a = add_build_step_with_rule-Agreed input _ ctx2 ctx' out [] e live h3 in
    record {
      id = a.id;
      stored = a.stored;
      named = a.named;
      found = a.found;
      inputs = sym a.same.ins;
    }
