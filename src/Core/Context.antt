-- ===== src/Core/Context.antt =====
-- RULES/core/context.go: the context in which the targets register their build steps.
-- The source's map from output names to pointers is a map to positions in `steps`, since one step
-- object is shared by all of its outputs. `pools` is `none` while the source's map is nil.
-- `current_target` and `written` (the data files, in order) are the state outside of the context.
pub mod Registry
pub mod Growth
pub mod Register
pub mod Agreement
pub mod Leaves
pub mod Pools
pub mod Nesting
pub mod AddBuildStep
use dbt_rules.Base.{
  ℕ, String, ◌<>◌, Bool, true, false, Option, none, some, List, [], ◌∷◌, ◌++◌, length, ◌==◌, nat_eq,
  string_eq, not, if◌then◌else◌, get_elem?, set, Result, ok, fail, panic, ◌>>=◌, ◌>>◌,
}
use dbt_rules.Base.Map.{Map, lookup, insert, delete}
use dbt_rules.Base.Text.{decimal, quote, hex8, replace_char}
use dbt_rules.Base.Text.Paths.{join_path, dir}
use dbt_rules.Base.Crc.{checksum}
use dbt_rules.Core.Input.{GeneratorInput, fatal}
use dbt_rules.Core.Path.{FilePath, out_path, OutPath, path_eq, absolute}
use dbt_rules.Core.Step.{
  Pool, BuildStep, BuildRule, BuildStepWithRule, TargetRule, step_outs, step_ins,
  steps_are_equivalent,
}

pub record DataFile : Type 0 where
  pub path : String
  pub contents : String
  pub mode : ℕ

pub record Context : Type 0 where
  pub cwd : OutPath
  pub next_rule_id : ℕ
  pub trace : List String
  pub leaf_outputs : Map FilePath Bool
  pub build_steps : Map String ℕ
  pub steps : List BuildStepWithRule
  pub target_rules : List TargetRule
  pub comp_db_build_rules : Map String BuildRule
  pub nested_build : Bool
  pub pools : Option (Map String ℕ)
  pub current_target : String
  pub written : List DataFile

unfoldable pub new_context : Context
new_context = record {
  cwd = record { rel = "" };
  next_rule_id = 0;
  trace = [];
  leaf_outputs = [];
  build_steps = [];
  steps = [];
  target_rules = [];
  comp_db_build_rules = [];
  nested_build = false;
  pools = none;
  current_target = "";
  written = [];
}

-- What a rule's `Build`, or a function that is handed the context, does to the context.
abbrev pub Action : Type 0
Action = Context → Result Context

-- The slice without its last element: `trace[:len(trace)-1]`.
unfoldable pub pop_last : List String → List String
pop_last [] = []
pop_last (x ∷ []) = []
pop_last (x ∷ y ∷ xs) = x ∷ pop_last (y ∷ xs)

unfoldable pub with_trace : String → Action → Action
unfolding pop_last
with_trace id f ctx = do
  ctx' ← f (record ctx { trace = ctx.trace ++ id ∷ [] })
  ok (record ctx' { trace = pop_last ctx'.trace })

unfoldable pub build_child : Action → Action
build_child build ctx = do
  ctx' ← build (record ctx { nested_build = true })
  ok (record ctx' { nested_build = ctx.nested_build })

-- The error, if any, and the context behind the call.
unfoldable pub register_pool : Pool → Context → Result (Option String × Context)
register_pool pool ctx =
    if pool.name == ""
    then ok (some "Cannot register a pool with an empty name", ctx)
    else if pool.name == "console"
    then ok (none, ctx)
    else elim ctx.pools [
      | none ↦ fail (panic "assignment to entry in nil map")
      | some pools ↦ elim (lookup pool.name pools) [
        | none ↦ ok (none, record ctx { pools = some (insert pool.name pool.depth pools) })
        | some depth ↦
            if depth == pool.depth
            then ok (none, record ctx { pools = some (insert pool.name pool.depth pools) })
            else ok (
              some (
                  "Incompatible pool "
                  <> quote pool.name
                  <> " already registered with different depth: "
                  <> decimal pool.depth
                  <> " vs "
                  <> decimal depth),
              ctx,
            )
      ]
    ]

unfoldable pub register_comp_db_rule : BuildRule → Context → Context
register_comp_db_rule rule ctx = record ctx {
  comp_db_build_rules = insert rule.name rule ctx.comp_db_build_rules;
}

unfoldable pub get_comp_db_rule : String → Context → Option BuildRule
get_comp_db_rule name ctx = lookup name ctx.comp_db_build_rules

unfoldable pub ninja_escape : String → String
ninja_escape s = replace_char b' ' "$ " s

unfoldable pub add_leaves : List OutPath → Map FilePath Bool → Map FilePath Bool
add_leaves [] m = m
add_leaves (o ∷ os) m = add_leaves os (insert (out_path o) true m)

unfoldable pub drop_leaves : List FilePath → Map FilePath Bool → Map FilePath Bool
drop_leaves [] m = m
drop_leaves (p ∷ ps) m = drop_leaves ps (delete p m)

-- The last part of AddBuildStepWithRule, which the branch of a known step has twice.
unfoldable pub mark_leaves : BuildStepWithRule → Context → Context
unfolding add_leaves drop_leaves
mark_leaves step ctx =
    if ctx.nested_build
    then ctx
    else record ctx { leaf_outputs = drop_leaves step.ins (add_leaves step.outs ctx.leaf_outputs) }

module _ (input : GeneratorInput) where
  -- Each output's name, in the order of the outputs, stands for the step at position `id`.
  unfoldable pub register_outs : ℕ → List OutPath → Map String ℕ → Map String ℕ
  register_outs id [] m = m
  register_outs id (o ∷ os) m = register_outs id os (insert (absolute input (out_path o)) id m)

  abbrev pub message : String → Context → Result (Unit {0})
  message msg ctx = fatal input ctx.current_target msg

  check_equivalent : OutPath → BuildStepWithRule → BuildStepWithRule → Action
  check_equivalent first step prev ctx = elim (steps_are_equivalent input step prev) [
    | none ↦ ok ctx
    | some err ↦ do
      message
          ("Second incompatible build step for output "
            <> absolute input (out_path first)
            <> ": "
            <> err)
          ctx
      ok ctx
  ]

  -- prevStep.traces = append(prevStep.traces, ctx.Trace())
  unfoldable pub add_trace : ℕ → BuildStepWithRule → Context → Context
  add_trace id prev ctx = record ctx {
    steps = set ctx.steps id (record prev { traces = prev.traces ++ ctx.trace ∷ [] });
  }

  -- A position that is in the map is in `steps`: the panic stands for a nil pointer.
  unfoldable pub known_step : ℕ → OutPath → BuildStepWithRule → Action
  unfolding check_equivalent add_trace mark_leaves
  known_step id first step ctx = elim (get_elem? ctx.steps id) [
    | none ↦ fail (panic "invalid memory address or nil pointer dereference")
    | some prev ↦ do
      ctx' ← check_equivalent first step prev ctx
      ok (mark_leaves step (mark_leaves step (add_trace id prev ctx')))
  ]

  unfoldable pub new_step : BuildStepWithRule → Context → Context
  unfolding register_outs mark_leaves
  new_step step ctx = mark_leaves step (record ctx {
    steps = ctx.steps ++ record step { traces = step.traces ++ ctx.trace ∷ [] } ∷ [];
    build_steps = register_outs (length ctx.steps) step.outs ctx.build_steps;
  })

  unfoldable pub add_build_step_with_rule : BuildStepWithRule → Action
  add_build_step_with_rule step ctx = elim step.outs [
    | [] ↦ ok ctx
    | first ∷ rest ↦ elim (lookup (absolute input (out_path first)) ctx.build_steps) [
      | some id ↦ known_step id first step ctx
      | none ↦ ok (new_step step ctx)
    ]
  ]
