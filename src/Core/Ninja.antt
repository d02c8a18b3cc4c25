-- ===== src/Core/Ninja.antt =====
-- RULES/core/context.go: `ninjaFile`, the text of the build file. The loop over the rules also names
-- the rules that have no name, in the step objects.
pub mod Steps
pub mod Rules
pub mod Escape
pub mod Order
use dbt_rules.Base.{
  ℕ, ◌+◌, ◌-◌, String, ◌<>◌, true, false, Option, none, some, List, [], ◌∷◌, ◌++◌, map, length,
  elem, get_elem?, set, ◌==◌, nat_eq, string_eq, if◌then◌else◌,
}
use dbt_rules.Base.Map.{Map, keys, lookup}
use dbt_rules.Base.Sort.{sort_strings, sort_on}
use dbt_rules.Base.Text.{decimal, join}
use dbt_rules.Core.Input.{GeneratorInput}
use dbt_rules.Core.Path.{FilePath, out_path, absolute}
use dbt_rules.Core.Step.{BuildRule, BuildStepWithRule, TargetRule}
use dbt_rules.Core.Context.{Context, ninja_escape}

unfoldable pub sorted_build_rules : Map String ℕ → List String
unfolding sort_strings
sorted_build_rules m = sort_strings (keys m)

unfoldable pub sorted_kvs : Map String String → List (String × String)
unfolding sort_on
sorted_kvs m = sort_on (λ e. e.0) m

-- "  k = v\n" for each entry.
unfoldable pub print_kvs : List (String × String) → String
print_kvs [] = ""
print_kvs ((k, v) ∷ kvs) = "  " <> k <> " = " <> v <> "\n" <> print_kvs kvs

-- Go prints the verb %u, which it does not have, as an error that holds the value.
unfoldable pub print_pools : Map String ℕ → String
unfolding ninja_escape
print_pools [] = ""
print_pools ((name, depth) ∷ pools) =
    "pool "
    <> ninja_escape name
    <> "\n  depth = %!u(uint="
    <> decimal depth
    <> ")\n\n"
    <> print_pools pools

abbrev pub pools_of : Option (Map String ℕ) → Map String ℕ
pools_of none = []
pools_of (some m) = m

unfoldable pub print_rule : BuildRule → String
unfolding print_kvs sorted_kvs
print_rule rule = "rule " <> rule.name <> "\n" <> print_kvs (sorted_kvs rule.variables) <> "\n\n"

-- The step with its rule's name, and the next free number.
unfoldable pub name_rule : ℕ → BuildStepWithRule → BuildStepWithRule × ℕ
name_rule i step =
    if step.rule.name == ""
    then (record step { rule = record (step.rule) { name = "__rule" <> decimal i } }, i + 1)
    else (step, i)

-- The rules that the loop prints, in order, and the step objects as it leaves them.
unfoldable pub rule_loop :
    List String
    → Map String ℕ
    → List BuildStepWithRule
    → ℕ
    → List String
    → List BuildRule × List BuildStepWithRule
unfolding name_rule
rule_loop [] m steps i seen = ([], steps)
rule_loop (key ∷ ks) m steps i seen = elim (lookup key m) [
  | none ↦ rule_loop ks m steps i seen
  | some id ↦ elim (get_elem? steps id) [
    | none ↦ rule_loop ks m steps i seen
    | some step ↦
        let (named, i') = name_rule i step in
        elim (elem named.rule.name seen) [
          | true ↦ rule_loop ks m (set steps id named) i' seen
          | false ↦
              let (rules, steps') =
                rule_loop ks m (set steps id named) i' (named.rule.name ∷ seen) in
              (named.rule ∷ rules, steps')
        ]
  ]
]

unfoldable pub print_rules : List BuildRule → String
unfolding print_rule
print_rules [] = ""
print_rules (r ∷ rs) = print_rule r <> print_rules rs

-- At most eleven traces, and then a line for the rest.
unfoldable pub print_traces : ℕ → ℕ → List (List String) → String
unfolding join
print_traces n i [] = ""
print_traces n i (trace ∷ traces) =
    let rest = print_traces n (i + 1) traces in
    "# trace: "
    <> join " --> " trace
    <> "\n"
    <> (if i == 10 then "# (skipped " <> decimal (n - 10) <> " additional traces)\n" else rest)

module _ (input : GeneratorInput) where
  unfoldable pub escaped : List FilePath → List String
  unfolding ninja_escape
  escaped paths = map (λ p. ninja_escape (absolute input p)) paths

  unfoldable pub print_step : BuildStepWithRule → String
  unfolding escaped join print_traces print_kvs sorted_kvs
  print_step step =
      print_traces (length step.traces) 0 step.traces
      <> "build "
      <> join " " (escaped (map out_path step.outs))
      <> ": "
      <> step.rule.name
      <> " "
      <> join " " (escaped step.ins ++ (if step.phony then "__phony__" ∷ [] else []))
      <> " | "
      <> join " " (escaped step.implicit_deps)
      <> " || "
      <> join " " (escaped step.order_deps)
      <> "\n"
      <> print_kvs (sorted_kvs step.variables)
      <> "\n\n"

  unfoldable pub print_steps : List (ℕ × BuildStepWithRule) → String
  unfolding print_step
  print_steps [] = ""
  print_steps ((id, s) ∷ ss) = print_step s <> print_steps ss

-- The steps that the loop prints, with their positions: each object once, at the first of its
-- outputs.
unfoldable pub step_loop :
    List String → Map String ℕ → List BuildStepWithRule → List ℕ → List (ℕ × BuildStepWithRule)
step_loop [] m steps seen = []
step_loop (key ∷ ks) m steps seen = elim (lookup key m) [
  | none ↦ step_loop ks m steps seen
  | some id ↦ elim (get_elem? steps id) [
    | none ↦ step_loop ks m steps seen
    | some step ↦ elim (elem id seen) [
      | true ↦ step_loop ks m steps seen
      | false ↦ (id, step) ∷ step_loop ks m steps (id ∷ seen)
    ]
  ]
]

unfoldable pub print_targets : ℕ → List TargetRule → String
unfolding print_kvs sorted_kvs join
print_targets i [] = ""
print_targets i (t ∷ ts) =
    "rule __target"
    <> decimal i
    <> "\n"
    <> print_kvs (sorted_kvs t.variables)
    <> "\n"
    <> "build "
    <> t.target
    <> ": __target"
    <> decimal i
    <> " "
    <> join " " t.ins
    <> " __phony__\n"
    <> "\n\n"
    <> print_targets (i + 1) ts

unfoldable pub ninja_file : GeneratorInput → Context → String × Context
unfolding sorted_build_rules rule_loop step_loop print_pools print_rules print_steps print_targets
ninja_file input ctx =
    let build_keys = sorted_build_rules ctx.build_steps in
    let (rules, steps) = rule_loop build_keys ctx.build_steps ctx.steps 0 [] in
    let text =
      "build __phony__: phony\n\n"
      <> "# pools\n\n"
      <> print_pools (pools_of ctx.pools)
      <> "# build rules\n\n"
      <> print_rules rules
      <> "# build steps\n\n"
      <> print_steps input (step_loop build_keys ctx.build_steps steps [])
      <> "# targets\n\n"
      <> print_targets 0 ctx.target_rules in
    (text, record ctx { steps = steps })
