-- ===== src/Core/Context/Registry.antt =====
-- RULES/core/context.go: the table of build steps behind AddBuildStepWithRule.
use dbt_rules.Base.{
  ℕ, String, ◌≡◌, refl, true, none, some, List, [], ◌∷◌, ◌++◌, map, arith, length, elem, get_elem?,
  set, get_elem?-set_self, get_elem?-set_ne, get_elem?-append_left, get_elem?-length,
  lt_of_get_elem?, ◌∙◌, sym, ok-elim, nat_eq, string_eq, Bool-cases, Option-cases, inl, inr,
  if◌then◌else◌, ok,
}
use native.Mathlib.Decide.{ℕ_discrete}
use dbt_rules.Base.Map.{Map, lookup, insert, lookup-insert}
use dbt_rules.Core.Input.{GeneratorInput, fatal}
use dbt_rules.Core.Path.{out_path, OutPath, absolute}
use dbt_rules.Core.Step.{BuildStepWithRule}
use dbt_rules.Core.Context.{
  Context, register_outs, mark_leaves, known_step, new_step, check_equivalent, add_trace,
  add_build_step_with_rule,
}

module _ (input : GeneratorInput) where
  abbrev pub names : List OutPath → List String
  names outs = map (λ o. absolute input (out_path o)) outs

  pub lookup-register_outs :
      (id : ℕ) (os : List OutPath) (m : Map String ℕ) (k : String)
      → lookup k (register_outs input id os m) ≡ (if elem k (names os) then some id else lookup k m)
  unfolding register_outs
  lookup-register_outs id [] m k = refl
  lookup-register_outs id (o ∷ os) m k = ground (
    arith,
    lookup-register_outs id os (insert (absolute input (out_path o)) id m) k,
    lookup-insert (absolute input (out_path o)) k id m,
  )

  -- What a name stands for: a position where a step stands that has an output of that name.
  abbrev pub Stands : List BuildStepWithRule → String → ℕ → Type 0
  Stands steps k id =
      (step : BuildStepWithRule) × (get_elem? steps id ≡ some step)
      × (elem k (names step.outs) ≡ true)

  pub record IsTable (m : Map String ℕ) (steps : List BuildStepWithRule) : Type 0 where
    pub at : (k : String) (id : ℕ) → lookup k m ≡ some id → Stands steps k id

  abbrev pub IsValid : Context → Type 0
  IsValid ctx = IsTable ctx.build_steps ctx.steps

  IsTable-append :
      (m : Map String ℕ) (steps : List BuildStepWithRule) (step : BuildStepWithRule)
      → IsTable m steps
      → IsTable (register_outs input (length steps) step.outs m) (steps ++ step ∷ [])
  IsTable-append m steps step t = record { at = at }
    where
      at :
          (k : String) (id : ℕ)
          → lookup k (register_outs input (length steps) step.outs m) ≡ some id
          → Stands (steps ++ step ∷ []) k id
      at k id h = elim (Bool-cases (elem k (names step.outs))) [
        | inl new ↦
            let e : length steps ≡ id =
              ground (arith, lookup-register_outs (length steps) step.outs m k) in
            (step, rw (← e) (get_elem?-length steps step), new)
        | inr old ↦
            let (s, found, named) =
              t.at k id (ground (arith, lookup-register_outs (length steps) step.outs m k)) in
            (
              s,
              get_elem?-append_left steps (step ∷ []) id (lt_of_get_elem? steps id found) ∙ found,
              named,
            )
      ]

  IsTable-set :
      (m : Map String ℕ) (steps : List BuildStepWithRule) (i : ℕ) (prev next : BuildStepWithRule)
      → get_elem? steps i ≡ some prev
      → next.outs ≡ prev.outs
      → IsTable m steps
      → IsTable m (set steps i next)
  IsTable-set m steps i prev next here same t = record { at = at }
    where
      at : (k : String) (id : ℕ) → lookup k m ≡ some id → Stands (set steps i next) k id
      at k id h =
          let (s, found, named) = t.at k id h in
          elim (ℕ_discrete i id) [
            | yes e ↦ (
              next,
              rw (← e) (get_elem?-set_self steps i next (lt_of_get_elem? steps i here)),
              rw same (ground (arith, e)),
            )
            | no ne ↦ (s, get_elem?-set_ne steps i id next ne ∙ found, named)
          ]

  pub mark_leaves_table :
      (step : BuildStepWithRule) (ctx : Context)
      → ((mark_leaves step ctx).build_steps ≡ ctx.build_steps)
        × ((mark_leaves step ctx).steps ≡ ctx.steps)
  unfolding mark_leaves
  mark_leaves_table step ctx = ground arith

  mark_leaves-IsValid :
      (step : BuildStepWithRule) (ctx : Context) → IsValid ctx → IsValid (mark_leaves step ctx)
  mark_leaves-IsValid step ctx v = let (e, e') = mark_leaves_table step ctx in rw (e, e') v

  new_step-IsValid :
      (step : BuildStepWithRule) (ctx : Context) → IsValid ctx → IsValid (new_step input step ctx)
  unfolding new_step
  new_step-IsValid step ctx v = mark_leaves-IsValid step _ (
      IsTable-append ctx.build_steps ctx.steps
        (record step { traces = step.traces ++ ctx.trace ∷ [] }) v)

  -- A known step comes out of the call only by this way.
  pub known_step-eq-ok :
      (id : ℕ) (first : OutPath) (step : BuildStepWithRule) (ctx ctx' : Context)
      → known_step input id first step ctx ≡ ok ctx'
      → (prev : BuildStepWithRule) × (get_elem? ctx.steps id ≡ some prev)
        × (ctx' ≡ mark_leaves step (mark_leaves step (add_trace input id prev ctx)))
  unfolding known_step check_equivalent fatal
  known_step-eq-ok id first step ctx ctx' h = elim (Option-cases (get_elem? ctx.steps id)) [
    | inl e ↦ ground (arith, e, h)
    | inr (prev, e) ↦ (prev, e, ground (arith, e, h))
  ]

  known_step-IsValid :
      (id : ℕ) (first : OutPath) (step : BuildStepWithRule) (ctx ctx' : Context)
      → IsValid ctx
      → known_step input id first step ctx ≡ ok ctx'
      → IsValid ctx'
  unfolding add_trace
  known_step-IsValid id first step ctx ctx' v h =
      let (prev, found, e) = known_step-eq-ok id first step ctx ctx' h in
      rw e (
        mark_leaves-IsValid step _ (
          mark_leaves-IsValid step _
            (IsTable-set ctx.build_steps ctx.steps id prev _ found refl v)))

  module _ (step : BuildStepWithRule) (ctx : Context) where
    pub add_no_outs : step.outs ≡ [] → add_build_step_with_rule input step ctx ≡ ok ctx
    unfolding add_build_step_with_rule
    add_no_outs e = ground arith

    module _ (first : OutPath) (rest : List OutPath) (e : step.outs ≡ first ∷ rest) where
      pub add_new :
          lookup (absolute input (out_path first)) ctx.build_steps ≡ none
          → add_build_step_with_rule input step ctx ≡ ok (new_step input step ctx)
      unfolding add_build_step_with_rule
      add_new h = ground arith

      pub add_known :
          (id : ℕ)
          → lookup (absolute input (out_path first)) ctx.build_steps ≡ some id
          → add_build_step_with_rule input step ctx ≡ known_step input id first step ctx
      unfolding add_build_step_with_rule
      add_known id h = ground arith

  add-IsValid :
      (outs : List OutPath) (step : BuildStepWithRule) (ctx ctx' : Context)
      → step.outs ≡ outs
      → IsValid ctx
      → add_build_step_with_rule input step ctx ≡ ok ctx'
      → IsValid ctx'
  add-IsValid [] step ctx ctx' e v h = ok-elim IsValid (sym (add_no_outs step ctx e) ∙ h) v
  add-IsValid (first ∷ rest) step ctx ctx' e v h =
      elim (Option-cases (lookup (absolute input (out_path first)) ctx.build_steps)) [
        | inl new ↦
            ok-elim IsValid (sym (add_new step ctx first rest e new) ∙ h)
              (new_step-IsValid step ctx v)
        | inr (id, old) ↦
            known_step-IsValid id first step ctx ctx' v
              (sym (add_known step ctx first rest e id old) ∙ h)
      ]

  -- Each name that the context holds keeps standing for a step that has an output of that name.
  pub add_build_step_with_rule-IsValid :
      (step : BuildStepWithRule) (ctx ctx' : Context)
      → IsValid ctx
      → add_build_step_with_rule input step ctx ≡ ok ctx'
      → IsValid ctx'
  add_build_step_with_rule-IsValid step ctx ctx' v h = add-IsValid step.outs step ctx ctx' refl v h
