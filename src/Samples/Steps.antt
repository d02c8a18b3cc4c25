-- ===== src/Samples/Steps.antt =====
-- RULES/core/context.go: build steps at concrete data.
use dbt_rules.Base.Text.{replace_char}
use dbt_rules.Base.{
  text_ne, ℕ, ◌≡◌, ◌≢◌, refl, true, false, ◌<>◌, none, some, [], ◌∷◌, ok, List, String, Distinct,
  elem, nat_eq, string_eq, ◌↔◌,
}
use dbt_rules.Base.Map.{Map, has, lookup, insert, delete}
use dbt_rules.Base.Text.Paths.{join_path}
use dbt_rules.Core.Input.{check_version, Version, min_dbt_version}
use dbt_rules.Core.Input.Versions.{check_version_iff, AtMost}
use dbt_rules.Core.Path.{path_beq, path_eq, out_path, absolute}
use dbt_rules.Core.Step.{BuildStepWithRule, steps_are_equivalent}
use dbt_rules.Core.Step.Equivalence.{
  SameStep, with_variable, steps_are_equivalent_sound, steps_are_equivalent_asymmetric,
}
use dbt_rules.Core.Context.{Context, new_context, add_build_step_with_rule, new_step, ninja_escape}
use dbt_rules.Core.Context.AddBuildStep.{add_build_step}
use dbt_rules.Core.Context.Registry.{IsValid, add_build_step_with_rule-IsValid}
use dbt_rules.Core.Context.Register.{Registered, add_build_step_with_rule-new}
use dbt_rules.Core.Context.Agreement.{
  Agreed, add_build_step_with_rule-twice, add_build_step_with_rule-Agreed,
}
use dbt_rules.Core.Context.Leaves.{leaf_after, add_build_step_with_rule-leaves}
use dbt_rules.Core.Context.Pools.{IsNamed, add_build_step-pool}
use dbt_rules.Core.Context.Nesting.{
  Frame, Calls, done, add_step_with_rule, in_trace, child, run_calls, run_calls-Frame,
}
use dbt_rules.Core.Ninja.{step_loop, rule_loop}
use dbt_rules.Core.Ninja.Steps.{ids, stands_in, step_loop_exact}
use dbt_rules.Core.Ninja.Rules.{rule_names, rule_loop-Distinct}
use dbt_rules.Core.Ninja.Escape.{Plain, read_path, read_path-ninja_escape}
use dbt_rules.Samples.{sample_input, out_at, compilation, linking, sample_pool, pooled, sample_os}

abbrev compiled : BuildStepWithRule
compiled = compilation "a.c" "a.o"

abbrev linked : BuildStepWithRule
linked = linking "a.o" "app"

-- The context behind the compilation.
abbrev behind : Context
behind = record new_context {
  leaf_outputs = (out_path (out_at "a.o"), true) ∷ [];
  build_steps = (absolute sample_input (out_path (out_at "a.o")), 0) ∷ [];
  steps = record compiled { traces = [] ∷ [] } ∷ [];
}

compile_run : add_build_step_with_rule sample_input compiled new_context ≡ ok behind
unfolding add_build_step_with_rule new_context absolute lookup insert delete path_beq join_path
    new_step
compile_run = refl

-- And behind the link.
abbrev behind_link : Context
behind_link = record behind {
  leaf_outputs = (out_path (out_at "app"), true) ∷ [];
  build_steps =
      (absolute sample_input (out_path (out_at "a.o")), 0)
      ∷ (absolute sample_input (out_path (out_at "app")), 1)
      ∷ [];
  steps = record compiled { traces = [] ∷ [] } ∷ record linked { traces = [] ∷ [] } ∷ [];
}

link_run : add_build_step_with_rule sample_input linked behind ≡ ok behind_link
unfolding add_build_step_with_rule new_context absolute lookup insert delete path_beq join_path
    new_step
link_run = refl

empty-IsValid : IsValid sample_input new_context
unfolding lookup new_context
empty-IsValid = record { at = λ k id h. cc }

add_build_step_with_rule-IsValid_example : IsValid sample_input behind
add_build_step_with_rule-IsValid_example =
    add_build_step_with_rule-IsValid sample_input compiled new_context behind empty-IsValid
      compile_run

add_build_step_with_rule-new_example :
    (ctx' : Context) × (add_build_step_with_rule sample_input compiled new_context ≡ ok ctx')
    × Registered sample_input compiled new_context (out_at "a.o") [] refl ctx'
unfolding lookup new_context
add_build_step_with_rule-new_example =
    add_build_step_with_rule-new sample_input compiled new_context (out_at "a.o") [] refl refl

add_build_step_with_rule-leaves_example :
    has (out_path (out_at "a.o")) behind_link.leaf_outputs
    ≡ leaf_after linked
        (out_path (out_at "a.o"))
        (has (out_path (out_at "a.o")) behind.leaf_outputs)
unfolding new_context
add_build_step_with_rule-leaves_example =
    add_build_step_with_rule-leaves sample_input linked behind behind_link (out_at "app") [] refl
      link_run refl (out_path (out_at "a.o"))

add_build_step_with_rule-twice_example :
    (once : Context) × (twice : Context) × (add_build_step_with_rule sample_input compiled
        new_context
      ≡ ok once)
    × (add_build_step_with_rule sample_input compiled (record once { trace = "b" ∷ [] }) ≡ ok twice)
    × (twice.build_steps ≡ once.build_steps)
    × (twice.steps ≡ record compiled { traces = [] ∷ ("b" ∷ []) ∷ [] } ∷ [])
unfolding lookup new_context
add_build_step_with_rule-twice_example =
    add_build_step_with_rule-twice sample_input compiled new_context (out_at "a.o") [] refl refl
      ("b" ∷ [])

add_build_step_with_rule-Agreed_example : Agreed sample_input (out_at "app") linked behind_link
add_build_step_with_rule-Agreed_example =
    add_build_step_with_rule-Agreed sample_input linked behind behind_link (out_at "app") [] refl
      refl link_run

sample_pool-IsNamed : IsNamed sample_pool
sample_pool-IsNamed = record {
  not_empty = text_ne "license" "" refl;
  not_console = text_ne "license" "console" refl;
}

add_build_step-pool_example :
    add_build_step sample_input sample_os pooled new_context ≢ ok new_context
unfolding new_context
add_build_step-pool_example =
    add_build_step-pool sample_input sample_os pooled new_context new_context sample_pool refl
      sample_pool-IsNamed refl

-- A rule that compiles in a trace, and builds a child that links.
abbrev calls : Calls
calls =
    in_trace "obj:a.o" (add_step_with_rule compiled done)
      (child (add_step_with_rule linked done) done)

abbrev called : Context
called = record behind_link {
  leaf_outputs = (out_path (out_at "a.o"), true) ∷ [];
  steps =
      record compiled { traces = ("obj:a.o" ∷ []) ∷ [] } ∷ record linked { traces = [] ∷ [] } ∷ [];
}

calls_run : run_calls sample_input sample_os calls new_context ≡ ok called
unfolding run_calls add_build_step_with_rule new_context absolute lookup insert delete path_beq
    join_path new_step
calls_run = refl

run_calls-Frame_example : Frame new_context called
run_calls-Frame_example = run_calls-Frame sample_input sample_os calls new_context called calls_run

abbrev printed_keys : List String
printed_keys = "a.d" ∷ "a.o" ∷ "app" ∷ "gone" ∷ []

abbrev table : Map String ℕ
table = ("a.o", 0) ∷ ("a.d", 0) ∷ ("app", 1) ∷ []

step_loop_exact_example :
    Distinct (ids (step_loop printed_keys table (compiled ∷ linked ∷ []) []))
    × ((id : ℕ)
        → elem id (ids (step_loop printed_keys table (compiled ∷ linked ∷ []) []))
          ≡ stands_in table (compiled ∷ linked ∷ []) id printed_keys)
step_loop_exact_example = step_loop_exact table (compiled ∷ linked ∷ []) printed_keys

rule_loop-Distinct_example :
    Distinct (rule_names (rule_loop printed_keys table (linked ∷ linked ∷ []) 0 []).0)
rule_loop-Distinct_example = rule_loop-Distinct table printed_keys (linked ∷ linked ∷ []) 0 []

path-Plain : Plain "my dir/a b.o"
path-Plain = (
  refl,
  (refl, (refl, (refl, (refl, (refl, (refl, (refl, (refl, (refl, (refl, (refl, tt))))))))))),
)

read_path-ninja_escape_example :
    read_path false (ninja_escape "my dir/a b.o" <> (" " <> "a.c"))
    ≡ some ("my dir/a b.o", " " <> "a.c")
read_path-ninja_escape_example = read_path-ninja_escape "my dir/a b.o" "a.c" path-Plain

-- The dollar sign of a path is not escaped, so that ninja reads another path.
dollar_run : read_path false (ninja_escape "a$ b") ≡ some ("a$", " b")
unfolding read_path ninja_escape replace_char
dollar_run = refl

steps_are_equivalent_sound_example : SameStep compiled (record compiled { traces = [] ∷ [] })
unfolding steps_are_equivalent path_beq lookup
steps_are_equivalent_sound_example =
    steps_are_equivalent_sound sample_input compiled (record compiled { traces = [] ∷ [] }) refl

steps_are_equivalent_asymmetric_example :
    (steps_are_equivalent sample_input (with_variable "a" "" linked) (with_variable "b" "1" linked)
      ≡ none)
    × (steps_are_equivalent sample_input
          (with_variable "b" "1" linked)
          (with_variable "a" "" linked)
        ≢ none)
steps_are_equivalent_asymmetric_example =
    steps_are_equivalent_asymmetric sample_input linked "a" "b" "1" (text_ne "a" "b" refl)
      (text_ne "1" "" refl)

abbrev version_3_1 : Version
version_3_1 = record { major = 3; minor = 1; patch = 0 }

check_version_iff_example :
    (check_version version_3_1 min_dbt_version ≡ true) ↔ AtMost min_dbt_version version_3_1
check_version_iff_example = check_version_iff version_3_1 min_dbt_version
