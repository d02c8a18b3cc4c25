-- ===== src/Core/Ninja/Rules.antt =====
-- RULES/core/context.go: the rules that `ninjaFile` prints, and the names that it gives.
use dbt_rules.Base.{
  ℕ, String, ◌≡◌, refl, true, false, List, [], ◌∷◌, map, arith, elem, get_elem?, set, string_eq,
  Bool-cases, Option-cases, inl, inr, Distinct,
}
use dbt_rules.Base.Map.{Map, lookup}
use dbt_rules.Core.Step.{BuildRule, BuildStepWithRule}
use dbt_rules.Core.Ninja.{rule_loop, name_rule}

abbrev pub rule_names : List BuildRule → List String
rule_names rules = map (λ r. r.name) rules

module _ (m : Map String ℕ) where
  elem-rule_loop :
      (ks : List String) (steps : List BuildStepWithRule) (i : ℕ) (seen : List String)
      (name : String)
      → elem name seen ≡ true
      → elem name (rule_names (rule_loop ks m steps i seen).0) ≡ false
  unfolding rule_loop
  elem-rule_loop [] steps i seen name h = refl
  elem-rule_loop (key ∷ ks) steps i seen name h = elim (Option-cases (lookup key m)) [
    | inl e ↦ rw (e, rule_loop) (elem-rule_loop ks steps i seen name h)
    | inr (id, e) ↦ elim (Option-cases (get_elem? steps id)) [
      | inl e' ↦ rw (e, e', rule_loop) (elem-rule_loop ks steps i seen name h)
      | inr (s, e') ↦
          let named = (name_rule i s).0 in
          let next = (name_rule i s).1 in
          elim (Bool-cases (elem named.rule.name seen)) [
            | inl old ↦
                rw (e, e', old, rule_loop) (elem-rule_loop ks (set steps id named) next seen name h)
            | inr new ↦
                rw (e, e', new, rule_loop)
                  (ground (
                    arith,
                    string_eq.beq_iff named.rule.name name,
                    h,
                    new,
                    elem-rule_loop ks (set steps id named) next (named.rule.name ∷ seen) name,
                  ))
          ]
    ]
  ]

  -- The loop over the build steps gives the printer no two rules of one name, also where the steps'
  -- own names clash. The rules of targets, which are printed behind it, are not looked at.
  pub rule_loop-Distinct :
      (ks : List String) (steps : List BuildStepWithRule) (i : ℕ) (seen : List String)
      → Distinct (rule_names (rule_loop ks m steps i seen).0)
  unfolding rule_loop
  rule_loop-Distinct [] steps i seen = tt
  rule_loop-Distinct (key ∷ ks) steps i seen = elim (Option-cases (lookup key m)) [
    | inl e ↦ rw (e, rule_loop) (rule_loop-Distinct ks steps i seen)
    | inr (id, e) ↦ elim (Option-cases (get_elem? steps id)) [
      | inl e' ↦ rw (e, e', rule_loop) (rule_loop-Distinct ks steps i seen)
      | inr (s, e') ↦
          let named = (name_rule i s).0 in
          let next = (name_rule i s).1 in
          elim (Bool-cases (elem named.rule.name seen)) [
            | inl old ↦
                rw (e, e', old, rule_loop) (rule_loop-Distinct ks (set steps id named) next seen)
            | inr new ↦
                rw (e, e', new, rule_loop)
                  (
                    elem-rule_loop ks (set steps id named) next (named.rule.name ∷ seen)
                        named.rule.name
                        (ground (arith, string_eq.beq_iff named.rule.name named.rule.name)),
                    rule_loop-Distinct ks (set steps id named) next (named.rule.name ∷ seen),
                  )
          ]
    ]
  ]
