-- ===== src/Core/Context/Leaves.antt =====
-- RULES/core/context.go: the leaf outputs, which a target's rule depends on.
use dbt_rules.Base.{
  ◌≡◌, refl, sym, ap, ◌∙◌, Bool, true, false, not, ◌&&◌, ◌||◌, List, [], ◌∷◌, map, arith, elem,
  string_eq, Option-cases, inl, inr, ok, ok-elim,
}
use dbt_rules.Base.Map.{Map, has, insert, delete, lookup, has-insert, has-delete}
use dbt_rules.Core.Input.{GeneratorInput}
use dbt_rules.Core.Path.{FilePath, out_path, OutPath, path_eq, absolute}
use dbt_rules.Core.Step.{BuildStepWithRule}
use dbt_rules.Core.Context.{
  Context, add_leaves, drop_leaves, mark_leaves, new_step, add_trace, add_build_step_with_rule,
}
use dbt_rules.Core.Context.Registry.{add_new, add_known, known_step-eq-ok}

has-add_leaves :
    (os : List OutPath) (m : Map FilePath Bool) (p : FilePath)
    → has p (add_leaves os m) ≡ (elem p (map out_path os) || has p m)
unfolding add_leaves
has-add_leaves [] m p = refl
has-add_leaves (o ∷ os) m p =
    ground
      (arith, has-add_leaves os (insert (out_path o) true m) p, has-insert (out_path o) p true m)

has-drop_leaves :
    (ps : List FilePath) (m : Map FilePath Bool) (p : FilePath)
    → has p (drop_leaves ps m) ≡ (not (elem p ps) && has p m)
unfolding drop_leaves
has-drop_leaves [] m p = ground arith
has-drop_leaves (q ∷ ps) m p = ground (arith, has-drop_leaves ps (delete q m) p, has-delete q p m)

-- Behind a step: its outputs and what was a leaf, but not its inputs.
abbrev pub leaf_after : BuildStepWithRule → FilePath → Bool → Bool
leaf_after step p before = not (elem p step.ins) && (elem p (map out_path step.outs) || before)

has-mark_leaves :
    (step : BuildStepWithRule) (ctx : Context) (p : FilePath)
    → ctx.nested_build ≡ false
    → has p (mark_leaves step ctx).leaf_outputs ≡ leaf_after step p (has p ctx.leaf_outputs)
unfolding mark_leaves
has-mark_leaves step ctx p e = ground (
  arith,
  e,
  has-drop_leaves step.ins (add_leaves step.outs ctx.leaf_outputs) p,
  has-add_leaves step.outs ctx.leaf_outputs p,
)

mark_leaves-nested :
    (step : BuildStepWithRule) (ctx : Context)
    → (mark_leaves step ctx).nested_build ≡ ctx.nested_build
unfolding mark_leaves
mark_leaves-nested step ctx = ground arith

leaf_after_twice :
    (step : BuildStepWithRule) (p : FilePath) (b : Bool)
    → leaf_after step p (leaf_after step p b) ≡ leaf_after step p b
leaf_after_twice step p b = ground arith

module _ (input : GeneratorInput) (step : BuildStepWithRule) (ctx ctx' : Context) (first : OutPath)
    (rest : List OutPath) (e : step.outs ≡ first ∷ rest)
    (h : add_build_step_with_rule input step ctx ≡ ok ctx') where
  -- Whether the step is new or known, the leaves behind it are its outputs and the leaves before it,
  -- without its inputs, while the target is not built as a child of another.
  pub add_build_step_with_rule-leaves :
      ctx.nested_build ≡ false
      → (p : FilePath) → has p ctx'.leaf_outputs ≡ leaf_after step p (has p ctx.leaf_outputs)
  unfolding new_step add_trace
  add_build_step_with_rule-leaves flat p =
      elim (Option-cases (lookup (absolute input (out_path first)) ctx.build_steps)) [
        | inl new ↦
            ok-elim (λ c. has p c.leaf_outputs ≡ leaf_after step p (has p ctx.leaf_outputs))
              (sym (add_new input step ctx first rest e new) ∙ h) (has-mark_leaves step _ p flat)
        | inr (id, old) ↦
            let (prev, _, e') =
              known_step-eq-ok input id first step ctx ctx'
                (sym (add_known input step ctx first rest e id old) ∙ h) in
            rw e' (
              has-mark_leaves step (mark_leaves step (add_trace input id prev ctx)) p
                (mark_leaves-nested step (add_trace input id prev ctx) ∙ flat)
              ∙ ap (leaf_after step p) (has-mark_leaves step (add_trace input id prev ctx) p flat)
              ∙ leaf_after_twice step p (has p ctx.leaf_outputs))
      ]
