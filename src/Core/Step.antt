-- ===== src/Core/Step.antt =====
-- RULES/core/context.go: build steps, and when a second step for an output is the same step.
pub mod Equivalence
use dbt_rules.Base.{
  ℕ, ◌+◌, String, ◌<>◌, Bool, Option, none, some, List, [], ◌∷◌, ◌++◌, length, ◌==◌, nat_eq,
  string_eq, not, if◌then◌else◌,
}
use dbt_rules.Base.Map.{Map, index}
use dbt_rules.Base.Text.{decimal}
use dbt_rules.Core.Input.{GeneratorInput}
use dbt_rules.Core.Path.{FilePath, out_path, OutPath, path_eq, absolute}

pub record Pool : Type 0 where
  pub name : String
  pub depth : ℕ

abbrev pub console_pool : Pool
console_pool = record { name = "console"; depth = 0 }

-- `outs` is `none` where the source's slice is nil. The fields `Out`, `Depfile`, `In` and `Pool`
-- are `none` where they are nil.
pub record BuildStep : Type 0 where
  pub out : Option OutPath
  pub outs : Option (List OutPath)
  pub in' : Option FilePath
  pub ins : List FilePath
  pub depfile : Option OutPath
  pub cmd : String
  pub script : String
  pub data' : String
  pub data_file_mode : ℕ
  pub descr : String
  pub phony : Bool
  pub pool : Option Pool

pub record BuildRule : Type 0 where
  pub name : String
  pub variables : Map String String

pub record BuildStepWithRule : Type 0 where
  pub outs : List OutPath
  pub ins : List FilePath
  pub implicit_deps : List FilePath
  pub order_deps : List FilePath
  pub variables : Map String String
  pub rule : BuildRule
  pub phony : Bool
  pub traces : List (List String)

pub record TargetRule : Type 0 where
  pub target : String
  pub ins : List String
  pub variables : Map String String

abbrev slice : Option (List OutPath) → List OutPath
slice none = []
slice (some l) = l

add_last : {A : Type 0} → List A → Option A → List A
add_last l none = l
add_last l (some a) = l ++ a ∷ []

unfoldable pub step_outs : BuildStep → List OutPath
unfolding add_last
step_outs step = add_last (slice step.outs) step.out

unfoldable pub step_ins : BuildStep → List FilePath
unfolding add_last
step_ins step = add_last step.ins step.in'

-- The error of the first test that fails.
abbrev pub or_else : Option String → Option String → Option String
or_else (some e) next = some e
or_else none next = next

abbrev pub when : Bool → String → Option String
when b msg = if b then some msg else none

-- The loops over two slices of one length, from position `i` on.
same_inputs : GeneratorInput → ℕ → List FilePath → List FilePath → Option String
same_inputs input i (p ∷ ps) (q ∷ qs) =
    or_else
      (when (not (p == q)) (
        "different input at position "
        <> decimal i
        <> ": "
        <> absolute input p
        <> " vs "
        <> absolute input q))
      (same_inputs input (i + 1) ps qs)
same_inputs input i _ _ = none

same_outputs : GeneratorInput → ℕ → List OutPath → List OutPath → Option String
same_outputs input i (p ∷ ps) (q ∷ qs) =
    or_else
      (when (not (out_path p == out_path q)) (
        "different output at position "
        <> decimal i
        <> ": "
        <> absolute input (out_path p)
        <> " vs "
        <> absolute input (out_path q)))
      (same_outputs input (i + 1) ps qs)
same_outputs input i _ _ = none

-- The loops over the names of the first map. A missing name reads as the empty text.
same_variables :
    (String → String → String → String)
    → Map String String
    → Map String String
    → Map String String
    → Option String
same_variables msg a b [] = none
same_variables msg a b ((name, _) ∷ rest) =
    let x = index "" a name in
    let y = index "" b name in
    or_else (when (not (x == y)) (msg name x y)) (same_variables msg a b rest)

step_variable_message : String → String → String → String
step_variable_message name x y =
    "different value for variable '" <> name <> "' (" <> x <> " vs " <> y <> ")"

rule_variable_message : String → String → String → String
rule_variable_message name x y = "different value for of variable '" <> name <> "' in build rule"

unfoldable pub steps_are_equivalent :
    GeneratorInput → BuildStepWithRule → BuildStepWithRule → Option String
unfolding same_inputs same_outputs same_variables step_variable_message rule_variable_message
steps_are_equivalent input a b =
    or_else (when (not (length a.ins == length b.ins)) "different number of inputs") (
      or_else (same_inputs input 0 a.ins b.ins) (
        or_else (when (not (length a.outs == length b.outs)) "different number of outputs") (
          or_else (same_outputs input 0 a.outs b.outs) (
            or_else
              (when (not (length a.variables == length b.variables))
                "different number of variables")
              (or_else (same_variables step_variable_message a.variables b.variables a.variables) (
                or_else (when (not (a.rule.name == b.rule.name)) "different build rule") (
                  or_else
                    (when (not (length a.rule.variables == length b.rule.variables))
                      "different number of variables in build rule")
                    (same_variables rule_variable_message a.rule.variables b.rule.variables
                      a.rule.variables))))))))
