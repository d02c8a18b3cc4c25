-- ===== src/Core/Ninja/Order.antt =====
-- RULES/core/context.go: the order in which Go visits the table of build steps does not show in the
-- build file.
use mathlib.Core.List.{Perm}
use dbt_rules.Base.{
  ℕ, String, ◌≡◌, refl, sym, ◌∙◌, List, [], ◌∷◌, string_eq, Option-cases, inl, inr, elem, get_elem?,
  Bool-cases, nat_eq,
}
use dbt_rules.Base.Map.{Map, keys, lookup}
use dbt_rules.Base.Sort.{sort_strings-perm}
use dbt_rules.Core.Input.{GeneratorInput}
use dbt_rules.Core.Step.{BuildStepWithRule}
use dbt_rules.Core.Context.{Context}
use dbt_rules.Core.Ninja.{sorted_build_rules, name_rule, rule_loop, step_loop, ninja_file}

module _ (m m' : Map String ℕ) (same : (k : String) → lookup k m ≡ lookup k m') where
  rule_loop-same :
      (ks : List String) (steps : List BuildStepWithRule) (i : ℕ) (seen : List String)
      → rule_loop ks m steps i seen ≡ rule_loop ks m' steps i seen
  unfolding rule_loop
  rule_loop-same [] steps i seen = refl
  rule_loop-same (key ∷ ks) steps i seen = elim (Option-cases (lookup key m)) [
    | inl e ↦ simp (e, sym (same key) ∙ e, rule_loop, rule_loop-same ks)
    | inr (id, e) ↦ elim (Option-cases (get_elem? steps id)) [
      | inl e' ↦ simp (e, e', sym (same key) ∙ e, rule_loop, rule_loop-same ks)
      | inr (s, e') ↦ elim (Bool-cases (elem (name_rule i s).0.rule.name seen)) [
        | inl f ↦ simp (e, e', f, sym (same key) ∙ e, rule_loop, rule_loop-same ks)
        | inr f ↦ simp (e, e', f, sym (same key) ∙ e, rule_loop, rule_loop-same ks)
      ]
    ]
  ]

  step_loop-same :
      (ks : List String) (steps : List BuildStepWithRule) (seen : List ℕ)
      → step_loop ks m steps seen ≡ step_loop ks m' steps seen
  unfolding step_loop
  step_loop-same [] steps seen = refl
  step_loop-same (key ∷ ks) steps seen = elim (Option-cases (lookup key m)) [
    | inl e ↦ simp (e, sym (same key) ∙ e, step_loop, step_loop-same ks)
    | inr (id, e) ↦ elim (Option-cases (get_elem? steps id)) [
      | inl e' ↦ simp (e, e', sym (same key) ∙ e, step_loop, step_loop-same ks)
      | inr (s, e') ↦ elim (Bool-cases (elem id seen)) [
        | inl f ↦ simp (e, e', f, sym (same key) ∙ e, step_loop, step_loop-same ks)
        | inr f ↦ simp (e, e', f, sym (same key) ∙ e, step_loop, step_loop-same ks)
      ]
    ]
  ]

-- Two tables of build steps that hold the same entries in different orders give the same build file.
pub ninja_file_perm :
    (input : GeneratorInput) (ctx : Context) (m : Map String ℕ)
    → Perm (keys ctx.build_steps) (keys m)
    → ((k : String) → lookup k ctx.build_steps ≡ lookup k m)
    → (ninja_file input ctx).0 ≡ (ninja_file input (record ctx { build_steps = m })).0
unfolding ninja_file sorted_build_rules
ninja_file_perm input ctx m p same = simp (
  sort_strings-perm p,
  rule_loop-same ctx.build_steps m same,
  step_loop-same ctx.build_steps m same,
)
