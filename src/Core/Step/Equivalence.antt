-- ===== src/Core/Step/Equivalence.antt =====
-- RULES/core/context.go: what `stepsAreEquivalent` accepts.
use dbt_rules.Base.{
  ℕ, ◌+◌, String, ◌≡◌, ◌≢◌, ◌⊎◌, inl, inr, refl, ap₂, Bool, true, false, Option, none, some, List,
  [], ◌∷◌, arith, length, ◌==◌, nat_eq, string_eq, beq_refl, eq_of_beq, not,
}
use dbt_rules.Base.Map.{Map, index, lookup, keys}
use dbt_rules.Core.Input.{GeneratorInput}
use dbt_rules.Core.Path.{FilePath, out_path, OutPath, path_eq}
use dbt_rules.Core.Step.{
  BuildStepWithRule, steps_are_equivalent, same_inputs, same_outputs, same_variables, or_else, when,
  step_variable_message, rule_variable_message,
}

or_else-none : (a b : Option String) → or_else a b ≡ none → (a ≡ none) × (b ≡ none)
or_else-none none b h = (refl, h)
or_else-none (some e) b h = cc

when-none : (b : Bool) (msg : String) → when (not b) msg ≡ none → b ≡ true
when-none true msg h = refl
when-none false msg h = cc

-- Every name of the list reads alike in the two maps.
abbrev pub Agree : Map String String → Map String String → List String → Type 0
Agree a b [] = Unit
Agree a b (n ∷ ns) = (index "" a n ≡ index "" b n) × Agree a b ns

out_path_inj : (p q : OutPath) → out_path p ≡ out_path q → p ≡ q
out_path_inj p q h = cc

module _ (input : GeneratorInput) where
  same_inputs-eq :
      (i : ℕ) (ps qs : List FilePath)
      → length ps ≡ length qs
      → same_inputs input i ps qs ≡ none
      → ps ≡ qs
  unfolding same_inputs
  same_inputs-eq i [] [] e h = refl
  same_inputs-eq i [] (q ∷ qs) e h = absurd (omega arith)
  same_inputs-eq i (p ∷ ps) [] e h = absurd (omega arith)
  same_inputs-eq i (p ∷ ps) (q ∷ qs) e h =
      let (here, there) = or_else-none _ _ h in
      ap₂ ◌∷◌ (eq_of_beq p q (when-none (p == q) _ here))
        (same_inputs-eq (i + 1) ps qs (omega arith) there)

  same_outputs-eq :
      (i : ℕ) (ps qs : List OutPath)
      → length ps ≡ length qs
      → same_outputs input i ps qs ≡ none
      → ps ≡ qs
  unfolding same_outputs
  same_outputs-eq i [] [] e h = refl
  same_outputs-eq i [] (q ∷ qs) e h = absurd (omega arith)
  same_outputs-eq i (p ∷ ps) [] e h = absurd (omega arith)
  same_outputs-eq i (p ∷ ps) (q ∷ qs) e h =
      let (here, there) = or_else-none _ _ h in
      ap₂ ◌∷◌ (out_path_inj p q (eq_of_beq _ _ (when-none (out_path p == out_path q) _ here)))
        (same_outputs-eq (i + 1) ps qs (omega arith) there)

same_variables-Agree :
    (msg : String → String → String → String) (a b m : Map String String)
    → same_variables msg a b m ≡ none
    → Agree a b (keys m)
unfolding same_variables
same_variables-Agree msg a b [] h = tt
same_variables-Agree msg a b ((n, v) ∷ m) h =
    let (here, there) = or_else-none _ _ h in
    (eq_of_beq _ _ (when-none _ _ here), same_variables-Agree msg a b m there)

-- What two steps share.
pub record SameStep (a b : BuildStepWithRule) : Type 0 where
  pub ins : a.ins ≡ b.ins
  pub outs : a.outs ≡ b.outs
  pub name : a.rule.name ≡ b.rule.name
  pub variable_count : length a.variables ≡ length b.variables
  pub variables : Agree a.variables b.variables (keys a.variables)
  pub rule_variable_count : length a.rule.variables ≡ length b.rule.variables
  pub rule_variables : Agree a.rule.variables b.rule.variables (keys a.rule.variables)

-- Two steps that are taken for equivalent have the same inputs, outputs and rule name, as many
-- variables, and the same value for each variable that the first one names.
pub steps_are_equivalent_sound :
    (input : GeneratorInput) (a b : BuildStepWithRule)
    → steps_are_equivalent input a b ≡ none
    → SameStep a b
unfolding steps_are_equivalent
steps_are_equivalent_sound input a b h0 =
    let (e1, h1) = or_else-none _ _ h0 in
    let (e2, h2) = or_else-none _ _ h1 in
    let (e3, h3) = or_else-none _ _ h2 in
    let (e4, h4) = or_else-none _ _ h3 in
    let (e5, h5) = or_else-none _ _ h4 in
    let (e6, h6) = or_else-none _ _ h5 in
    let (e7, h7) = or_else-none _ _ h6 in
    let (e8, h8) = or_else-none _ _ h7 in
    record {
      ins =
          same_inputs-eq input 0 a.ins b.ins
            (eq_of_beq _ _ (when-none _ "different number of inputs" e1)) e2;
      outs =
          same_outputs-eq input 0 a.outs b.outs
            (eq_of_beq _ _ (when-none _ "different number of outputs" e3)) e4;
      name = eq_of_beq _ _ (when-none _ "different build rule" e7);
      variable_count = eq_of_beq _ _ (when-none _ "different number of variables" e5);
      variables = same_variables-Agree step_variable_message a.variables b.variables a.variables e6;
      rule_variable_count =
          eq_of_beq _ _ (when-none _ "different number of variables in build rule" e8);
      rule_variables =
          same_variables-Agree rule_variable_message a.rule.variables b.rule.variables
            a.rule.variables h8;
    }

module _ (input : GeneratorInput) where
  same_inputs_refl : (i : ℕ) (ps : List FilePath) → same_inputs input i ps ps ≡ none
  unfolding same_inputs
  same_inputs_refl i [] = refl
  same_inputs_refl i (p ∷ ps) = rw beq_refl (same_inputs_refl (i + 1) ps)

  same_outputs_refl : (i : ℕ) (ps : List OutPath) → same_outputs input i ps ps ≡ none
  unfolding same_outputs
  same_outputs_refl i [] = refl
  same_outputs_refl i (p ∷ ps) = rw (beq_refl (out_path p)) (same_outputs_refl (i + 1) ps)

same_variables_refl :
    (msg : String → String → String → String) (a m : Map String String)
    → same_variables msg a a m ≡ none
unfolding same_variables
same_variables_refl msg a [] = refl
same_variables_refl msg a ((n, v) ∷ m) = rw (beq_refl (index "" a n)) (same_variables_refl msg a m)

pub steps_are_equivalent_refl :
    (input : GeneratorInput) (a : BuildStepWithRule) → steps_are_equivalent input a a ≡ none
unfolding steps_are_equivalent
steps_are_equivalent_refl input a =
    simp (beq_refl, same_inputs_refl, same_outputs_refl, same_variables_refl)

abbrev pub with_variable : String → String → BuildStepWithRule → BuildStepWithRule
with_variable name value s = record s { variables = (name, value) ∷ [] }

index_empty : (x y v : String) → x ≢ y ⊎ (v ≡ "") → index "" ((y, v) ∷ []) x ≡ ""
unfolding lookup
index_empty x y v (inl ne) = ground (arith, string_eq.beq_iff y x)
index_empty x y v (inr e) = ground (arith, string_eq.beq_iff y x)

module _ (msg : String → String → String → String) (x y v : String) (ne : x ≢ y) where
  same_variables-missing : same_variables msg ((x, "") ∷ []) ((y, v) ∷ []) ((x, "") ∷ []) ≡ none
  unfolding same_variables
  same_variables-missing = rw (index_empty x x "" (inr refl)) (rw (index_empty x y v (inl ne)) refl)

  same_variables-extra :
      v ≢ "" → same_variables msg ((y, v) ∷ []) ((x, "") ∷ []) ((y, v) ∷ []) ≡ some (msg y v "")
  unfolding same_variables lookup
  same_variables-extra full =
      ground (arith, string_eq.beq_iff y y, string_eq.beq_iff x y, string_eq.beq_iff v "")

-- The test is not symmetric. A step whose one variable is empty is taken for equivalent to a step
-- that sets another variable instead, and not the other way round.
pub steps_are_equivalent_asymmetric :
    (input : GeneratorInput) (s : BuildStepWithRule) (x y v : String)
    → x ≢ y
    → v ≢ ""
    → (steps_are_equivalent input (with_variable x "" s) (with_variable y v s) ≡ none)
      × (steps_are_equivalent input (with_variable y v s) (with_variable x "" s) ≢ none)
unfolding steps_are_equivalent
steps_are_equivalent_asymmetric input s x y v ne full =
    let differs = same_variables-extra step_variable_message x y v ne full in
    (
      simp (
        same_inputs_refl,
        same_outputs_refl,
        same_variables_refl,
        beq_refl,
        same_variables-missing step_variable_message x y v ne,
      ),
      λ h. cc (simp (same_inputs_refl, same_outputs_refl, beq_refl, differs) at h),
    )
