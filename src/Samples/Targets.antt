-- ===== src/Samples/Targets.antt =====
-- RULES/core/context.go: targets and the build file at concrete data.
use mathlib.Core.List.Perm as Perms
use dbt_rules.Base.{
  ◌≡◌, refl, true, none, some, [], ◌∷◌, ok, String, arith, text_ne, string_eq, ℕ, ◌==◌,
}
use dbt_rules.Base.Map.{Map, lookup}
use dbt_rules.Core.Path.{out_path}
use dbt_rules.Core.Context.{Context, new_context}
use dbt_rules.Core.Context.Nesting.{Calls, done, add_step_with_rule, run_calls}
use dbt_rules.Core.Ninja.{ninja_file}
use dbt_rules.Core.Ninja.Order.{ninja_file_perm}
use dbt_rules.Core.Input.{mode_build}
use dbt_rules.Base.{sym, ap, ◌++◌, Bool-cases, inl, inr}
use dbt_rules.Base.Map.{insert}
use dbt_rules.Base.Text.Paths.{join_path}
use dbt_rules.Core.Path.{absolute}
use dbt_rules.Core.Context.{add_build_step_with_rule, new_step}
use dbt_rules.Core.Main.{Variable, Listing, empty_listing, list_targets, build_all, build_target}
use dbt_rules.Core.Main.Commands.{in_console, target_at, asked_at, AllCalls, build_all-asked}
use dbt_rules.Core.Main.Listed.{filter, listed, list_targets_exact}
use dbt_rules.Core.Target.{Target, target_rule, handle_target}
use dbt_rules.Core.Target.Order.{target_rule_perm}
use dbt_rules.Samples.{sample_input, sample_os, out_at, compilation, linking}

abbrev app_calls : Calls
app_calls =
    add_step_with_rule (compilation "a.c" "a.o") (add_step_with_rule (linking "a.o" "app") done)

abbrev app : Target
app = record {
  build = run_calls sample_input sample_os app_calls;
  outputs = none;
  description = none;
  run = some (record { command = λ args. "app"; deps = none });
  test =
      some (record { command = λ args. "app --test"; deps = some (out_path (out_at "data") ∷ []) });
}

abbrev leaves_one_way : Context
leaves_one_way = record new_context {
  leaf_outputs = (out_path (out_at "b"), true) ∷ (out_path (out_at "a"), true) ∷ [];
}

abbrev leaves_other_way : Context
leaves_other_way = record new_context {
  leaf_outputs = (out_path (out_at "a"), true) ∷ (out_path (out_at "b"), true) ∷ [];
}

target_rule_perm_example :
    target_rule sample_input "pkg/App" app leaves_one_way
    ≡ target_rule sample_input "pkg/App" app leaves_other_way
target_rule_perm_example =
    target_rule_perm sample_input app leaves_one_way leaves_other_way
      (Perms.swap (out_path (out_at "a")) (out_path (out_at "b")) []) "pkg/App"

abbrev one_app : Map String Variable
one_app = ("pkg/App", record { target = some app; report = none }) ∷ []

abbrev built : Context
built =
    elim (build_all sample_input ("pkg/App" ∷ []) empty_listing one_app ("pkg/App" ∷ [])
      new_context) [ ok c ↦ c | _ ↦ new_context ]

build_run :
    build_all sample_input ("pkg/App" ∷ []) empty_listing one_app ("pkg/App" ∷ []) new_context
    ≡ ok built
unfolding build_all handle_target run_calls add_build_step_with_rule new_context lookup new_step
    insert absolute join_path
build_run = refl

app-AllCalls : AllCalls sample_input sample_os ("pkg/App" ∷ []) empty_listing one_app
unfolding lookup build_target
app-AllCalls path t h = elim (Bool-cases ("pkg/App" == path)) [
  | inl e ↦
      let same : app ≡ t = cc (rw (e, target_at, lookup) at h) in
      (app_calls, ap (λ r. r.build) (sym same))
  | inr e ↦ cc (rw (e, target_at, lookup) at h)
]

build_all-asked_example :
    in_console built.target_rules
    ≡ in_console new_context.target_rules
      ++ asked_at sample_input sample_os ("pkg/App" ∷ []) empty_listing one_app ("pkg/App" ∷ [])
build_all-asked_example =
    build_all-asked sample_input sample_os ("pkg/App" ∷ []) empty_listing one_app ("pkg/App" ∷ [])
      new_context built app-AllCalls build_run

abbrev filled : Context
filled = record new_context {
  build_steps = ("/w/a.o", 0) ∷ ("/w/app", 1) ∷ [];
  steps = compilation "a.c" "a.o" ∷ linking "a.o" "app" ∷ [];
}

abbrev other_table : Map String ℕ
other_table = ("/w/app", 1) ∷ ("/w/a.o", 0) ∷ []

same_entries : (k : String) → lookup k filled.build_steps ≡ lookup k other_table
unfolding lookup
same_entries k = ground (
  arith,
  string_eq.beq_iff "/w/a.o" k,
  string_eq.beq_iff "/w/app" k,
  text_ne "/w/a.o" "/w/app" refl,
)

ninja_file_perm_example :
    (ninja_file sample_input filled).0
    ≡ (ninja_file sample_input (record filled { build_steps = other_table })).0
ninja_file_perm_example =
    ninja_file_perm sample_input filled other_table (Perms.swap "/w/app" "/w/a.o" []) same_entries

-- A private target, a public one, and one that a pattern excludes.
abbrev shown : Target → Variable
shown target = record { target = some target; report = none }

abbrev variables : Map String Variable
variables = ("pkg/lib", shown app) ∷ ("pkg/App", shown app) ∷ ("pkg/Old", shown app) ∷ []

list_targets_exact_example :
    (l' : Listing) × (list_targets mode_build
        (filter mode_build ((λ s. true) ∷ []) ((λ s. s == "pkg/Old") ∷ []))
        variables
        empty_listing
      ≡ ok l')
    × ((key : String)
        → lookup key l'.targets
          ≡ listed mode_build
              ((λ s. true) ∷ [])
              ((λ s. s == "pkg/Old") ∷ [])
              key
              (lookup key variables))
list_targets_exact_example =
    list_targets_exact mode_build ((λ s. true) ∷ []) ((λ s. s == "pkg/Old") ∷ []) variables
      (refl, (refl, (refl, tt)))
