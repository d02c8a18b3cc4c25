-- ===== src/Core/Target.antt =====
-- RULES/core/context.go: the interfaces of a target, and `handleTarget`.
pub mod Order
pub mod Rules
use dbt_rules.Base.{
  String, ◌<>◌, Option, none, some, List, [], ◌∷◌, ◌++◌, map, if◌then◌else◌, string_eq, ok, ◌>>=◌,
}
use dbt_rules.Base.Map.{keys}
use dbt_rules.Base.Sort.{sort_strings}
use dbt_rules.Base.Text.{join, is_upper_first}
use dbt_rules.Base.Text.Paths.{dir, base, rel}
use dbt_rules.Core.Input.{GeneratorInput}
use dbt_rules.Core.Path.{FilePath, absolute}
use dbt_rules.Core.Step.{TargetRule}
use dbt_rules.Core.Context.{Context, Action, with_trace, ninja_escape}

-- RunInterface with the RunDeps of ExtendedRunInterface, which are `none` where the target has no
-- such method. TestInterface has the same shape.
pub record Command : Type 0 where
  pub command : List String → String
  pub deps : Option (List FilePath)

-- A target with its methods: an interface that it does not implement is `none`.
pub record Target : Type 0 where
  pub build : Action
  pub outputs : Option (List FilePath)
  pub description : Option String
  pub run : Option Command
  pub test : Option Command

module _ (input : GeneratorInput) where
  relative_names : List FilePath → List String
  relative_names paths = map (λ p. rel input.working_dir (absolute input p)) paths

  -- The outputs that the target's rule lists, sorted.
  unfoldable pub print_outs : Target → Context → List String
  unfolding relative_names
  print_outs target ctx =
      let names =
        sort_strings
          (relative_names (elim target.outputs [ some l ↦ l | none ↦ keys ctx.leaf_outputs ])) in
      elim names [ [] ↦ "<no outputs produced>" ∷ [] | x ∷ xs ↦ x ∷ xs ]

  unfoldable pub ninja_outs : Context → List String
  unfolding ninja_escape
  ninja_outs ctx = sort_strings (map (λ p. ninja_escape (absolute input p)) (keys ctx.leaf_outputs))

  unfoldable pub target_rule : String → Target → Context → TargetRule
  target_rule target_path target ctx = record {
    target = target_path;
    ins = ninja_outs ctx;
    variables =
        ("command", "echo \"" <> join "\\n" (print_outs target ctx) <> "\"")
        ∷ ("description", "Created " <> target_path <> ":")
        ∷ [];
  }

  abbrev deps_of : Command → List String
  deps_of c = elim c.deps [ none ↦ [] | some l ↦ map (absolute input) l ]

  -- The rule of `#run` or `#test`.
  unfoldable pub command_rule : String → String → String → List String → Command → TargetRule
  command_rule target_path suffix verb args c = record {
    target = target_path <> suffix;
    ins = deps_of c ++ target_path ∷ [];
    variables =
        ("command", c.command args)
        ∷ ("description", verb <> " " <> target_path <> ":")
        ∷ ("pool", "console")
        ∷ [];
  }

  unfoldable pub run_rules : String → Target → List TargetRule
  unfolding command_rule
  run_rules target_path target = elim target.run [
    | none ↦ []
    | some c ↦ command_rule target_path "#run" "Running" input.run_args c ∷ []
  ]

  unfoldable pub test_rules : String → Target → List TargetRule
  unfolding command_rule
  test_rules target_path target = elim target.test [
    | none ↦ []
    | some c ↦ command_rule target_path "#test" "Testing" input.test_args c ∷ []
  ]

  -- The rules behind the build, for a target that is not private.
  unfoldable pub add_target_rules : String → Target → Context → Context
  unfolding run_rules test_rules
  add_target_rules target_path target ctx = record ctx {
    target_rules =
        ((ctx.target_rules ++ target_rule target_path target ctx ∷ [])
          ++ run_rules target_path target)
        ++ test_rules target_path target;
  }

  unfoldable pub handle_target : String → Target → Action
  unfolding add_target_rules with_trace
  handle_target target_path target ctx = do
    ctx' ← with_trace ("target:" <> target_path) target.build (record ctx {
      current_target = target_path;
      cwd = record { rel = dir target_path };
      leaf_outputs = [];
    })
    ok (
        if is_upper_first (base target_path)
        then add_target_rules target_path target ctx'
        else ctx')
