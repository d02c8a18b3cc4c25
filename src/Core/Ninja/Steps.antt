-- ===== src/Core/Ninja/Steps.antt =====
-- RULES/core/context.go: the build steps that `ninjaFile` prints.
use dbt_rules.Base.{
  ℕ, String, ◌≡◌, Bool, false, not, ◌&&◌, ◌||◌, none, some, List, [], ◌∷◌, map, arith, elem,
  get_elem?, ◌==◌, nat_eq, string_eq, Bool-cases, Option-cases, inl, inr, Distinct,
}
use dbt_rules.Base.Map.{Map, lookup}
use dbt_rules.Core.Step.{BuildStepWithRule}
use dbt_rules.Core.Ninja.{step_loop}

abbrev pub ids : List (ℕ × BuildStepWithRule) → List ℕ
ids l = map (λ e. e.0) l

-- Whether the key stands for the step object at position `id`.
abbrev pub stands_for : Map String ℕ → List BuildStepWithRule → ℕ → String → Bool
stands_for m steps id key = elim (lookup key m) [
  | none ↦ false
  | some i ↦ elim (get_elem? steps i) [ none ↦ false | some s ↦ i == id ]
]

abbrev pub stands_in : Map String ℕ → List BuildStepWithRule → ℕ → List String → Bool
stands_in m steps id [] = false
stands_in m steps id (key ∷ ks) = stands_for m steps id key || stands_in m steps id ks

module _ (m : Map String ℕ) (steps : List BuildStepWithRule) where
  elem-step_loop :
      (ks : List String) (seen : List ℕ) (id : ℕ)
      → elem id (ids (step_loop ks m steps seen)) ≡ (not (elem id seen) && stands_in m steps id ks)
  unfolding step_loop
  elem-step_loop [] seen id = ground arith
  elem-step_loop (key ∷ ks) seen id = elim (Option-cases (lookup key m)) [
    | inl e ↦ ground (arith, e, elem-step_loop ks seen id)
    | inr (i, e) ↦ elim (Option-cases (get_elem? steps i)) [
      | inl e' ↦ ground (arith, e, e', elem-step_loop ks seen id)
      | inr (s, e') ↦ elim (Bool-cases (elem i seen)) [
        | inl old ↦ ground (arith, e, e', old, elem-step_loop ks seen id)
        | inr new ↦ ground (arith, e, e', new, elem-step_loop ks (i ∷ seen) id)
      ]
    ]
  ]

  step_loop-Distinct :
      (ks : List String) (seen : List ℕ) → Distinct (ids (step_loop ks m steps seen))
  unfolding step_loop
  step_loop-Distinct [] seen = tt
  step_loop-Distinct (key ∷ ks) seen = elim (Option-cases (lookup key m)) [
    | inl e ↦ rw (e, step_loop) (step_loop-Distinct ks seen)
    | inr (i, e) ↦ elim (Option-cases (get_elem? steps i)) [
      | inl e' ↦ rw (e, e', step_loop) (step_loop-Distinct ks seen)
      | inr (s, e') ↦ elim (Bool-cases (elem i seen)) [
        | inl old ↦ rw (e, e', old, step_loop) (step_loop-Distinct ks seen)
        | inr new ↦
            rw (e, e', new, step_loop)
              (ground (arith, elem-step_loop ks (i ∷ seen) i), step_loop-Distinct ks (i ∷ seen))
      ]
    ]
  ]

  -- The build steps that are printed for the sorted output names: no step object twice, and exactly
  -- those objects that one of the names stands for.
  pub step_loop_exact :
      (ks : List String)
      → Distinct (ids (step_loop ks m steps []))
        × ((id : ℕ) → elem id (ids (step_loop ks m steps [])) ≡ stands_in m steps id ks)
  step_loop_exact ks = (step_loop-Distinct ks [], elem-step_loop ks [])
