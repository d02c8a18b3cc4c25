-- ===== src/Core/Main.antt =====
-- RULES/core/main.go: which targets are listed, selected and built, and the generator's main
-- function. A regular expression is the argument `compile`: the test of a whole text, or the error.
pub mod Listed
pub mod Commands
use dbt_rules.Base.{
  String, ◌<>◌, Bool, true, false, ◌&&◌, ◌||◌, Option, none, some, List, [], ◌∷◌, ◌++◌, nat_eq,
  string_eq, not, if◌then◌else◌, Result, ok, fail, panic, ◌>>=◌, ◌>>◌,
}
use dbt_rules.Base.Map.{Map, keys, lookup, insert}
use dbt_rules.Base.Sort.{sort_strings}
use dbt_rules.Base.Text.{is_upper_first}
use dbt_rules.Base.Text.Paths.{base}
use dbt_rules.Core.Input.{
  GeneratorInput, Mode, mode_run, mode_test, mode_report, Outcome, done, error, fatal,
}
use dbt_rules.Core.Context.{Context, new_context}
use dbt_rules.Core.Context.AddBuildStep.{Os}
use dbt_rules.Core.Ninja.{ninja_file}
use dbt_rules.Core.Target.{Target, handle_target}
use dbt_rules.Core.Flags.{FlagInfo, Floats, FlagState}
use dbt_rules.Core.Flags.Stored.{lock_and_get_flags}

pub record TargetInfo : Type 0 where
  pub description : String
  pub runnable : Bool
  pub testable : Bool
  pub report : Bool
  pub selected : Bool

pub record GeneratorOutput : Type 0 where
  pub ninja_file : String
  pub targets : Map String TargetInfo
  pub flags : Map String FlagInfo
  pub comp_db_rules : List String
  pub selected_targets : List String

-- A package variable: its methods where it is a BuildInterface, and its Report method where it is a
-- ReportInterface. Report is given the variables by the paths of their targets.
pub record Variable : Type 0 where
  pub target : Option Target
  pub report : Option (List String → List String → Target)

-- regexp.Compile
abbrev pub Compile : Type 0
Compile = String → Outcome (String → Bool)

-- A pattern that did not compile is `none`, a nil pointer, which only a run for completions has.
pub record TargetFilter : Type 0 where
  pub positive : List (Option (String → Bool))
  pub negative : List (Option (String → Bool))

unfoldable pub matches_any : List (Option (String → Bool)) → String → Result Bool
matches_any [] path = ok false
matches_any (none ∷ res) path = fail (panic "invalid memory address or nil pointer dereference")
matches_any (some re ∷ res) path = if re path then ok true else matches_any res path

unfoldable pub is_selected : TargetFilter → String → Result Bool
unfolding matches_any
is_selected filter target_path = do
  excluded ← matches_any filter.negative target_path
  if excluded then ok false else matches_any filter.positive target_path

is_report_mode : Mode → Bool
is_report_mode mode_report = true
is_report_mode _ = false

is_run_mode : Mode → Bool
is_run_mode mode_run = true
is_run_mode _ = false

is_test_mode : Mode → Bool
is_test_mode mode_test = true
is_test_mode _ = false

unfoldable pub skip_target : Mode → TargetInfo → Bool
unfolding is_report_mode is_run_mode is_test_mode
skip_target mode info =
    if is_run_mode mode && not info.runnable
    then true
    else if is_test_mode mode && not info.testable
    then true
    else if not (is_report_mode mode) && info.report
    then true
    else false

module _ (input : GeneratorInput) (compile : Compile) where
  compile_all : String → List String → Result (List (Option (String → Bool)))
  compile_all kind [] = ok []
  compile_all kind (pattern ∷ patterns) = elim (compile ("^" <> pattern <> "$")) [
    | done re ↦ do res ← compile_all kind patterns; ok (some re ∷ res)
    | error err ↦ do
      fatal input "" (
          kind <> " target pattern '" <> pattern <> "' is not a valid regular expression: " <> err
          <> ".\n")
      res ← compile_all kind patterns
      ok (none ∷ res)
  ]

  unfoldable pub make_filter : Result TargetFilter
  unfolding compile_all
  make_filter = do
    positive ← compile_all "Positive" input.positive_patterns
    negative ← compile_all "Negative" input.negative_patterns
    ok (record { positive = positive; negative = negative })

abbrev is_some {ℓ} : {A : Type ℓ} → Option A → Bool
is_some none = false
is_some (some a) = true

abbrev text_of : Option String → String
text_of none = ""
text_of (some s) = s

-- The first loop's state: the listed targets, the selected variables and the selected paths.
pub record Listing : Type 0 where
  pub targets : Map String TargetInfo
  pub selected : List String
  pub output_selected : List String

abbrev pub empty_listing : Listing
empty_listing = record { targets = []; selected = []; output_selected = [] }

module _ (mode : Mode) (filter : TargetFilter) where
  -- What is known of a target before the filter is asked.
  unfoldable pub target_info : Target → Variable → TargetInfo
  target_info t v = record {
    description = text_of t.description;
    runnable = is_some t.run;
    testable = is_some t.test;
    report = is_some v.report;
    selected = false;
  }

  -- The loop's body behind its three `continue`s.
  unfoldable pub add_listed : String → TargetInfo → Bool → Listing → Listing
  unfolding is_report_mode
  add_listed path info selected l = record {
    targets = insert path (record info { selected = selected }) l.targets;
    selected = if selected then l.selected ++ path ∷ [] else l.selected;
    output_selected =
        if selected && (not (is_report_mode mode) || info.report)
        then l.output_selected ++ path ∷ []
        else l.output_selected;
  }

  unfoldable pub list_target : String → Variable → Listing → Result Listing
  unfolding skip_target target_info add_listed is_selected
  list_target path v l = if not (is_upper_first (base path)) then ok l else elim v.target [
    | none ↦ ok l
    | some t ↦
        if skip_target mode (target_info t v)
        then ok l
        else (is_selected filter path >>= λ selected.
            ok (add_listed path (target_info t v) selected l))
  ]

  unfoldable pub list_targets : Map String Variable → Listing → Result Listing
  unfolding list_target
  list_targets [] l = ok l
  list_targets ((path, v) ∷ vars) l = do l' ← list_target path v l; list_targets vars l'

module _ (input : GeneratorInput) where
  -- The target that a variable is built as: none for a report that is not listed or not selected.
  unfoldable pub build_target : List String → Listing → String → Variable → Option Target
  build_target all listing path v = elim v.report [
    | none ↦ v.target
    | some report ↦ elim (lookup path listing.targets) [
      | none ↦ none
      | some info ↦ if info.selected then some (report all listing.selected) else none
    ]
  ]

  unfoldable pub build_all :
      List String → Listing → Map String Variable → List String → Context → Result Context
  unfolding build_target handle_target
  build_all all listing vars [] ctx = ok ctx
  build_all all listing vars (path ∷ paths) ctx = elim (lookup path vars) [
    | none ↦ build_all all listing vars paths ctx
    | some v ↦ elim (build_target all listing path v) [
      | none ↦ build_all all listing vars paths ctx
      | some target ↦ do
        ctx' ← handle_target input path target ctx
        build_all all listing vars paths ctx'
    ]
  ]

  abbrev output : Map String FlagInfo → Listing → String → List String → GeneratorOutput
  output flags listing text comp_db_rules = record {
    ninja_file = text;
    targets = listing.targets;
    flags = flags;
    comp_db_rules = comp_db_rules;
    selected_targets = listing.output_selected;
  }

  write_ninja : Map String FlagInfo → Listing → Context → GeneratorOutput × Context
  unfolding ninja_file sort_strings
  write_ninja flags listing ctx =
      let (text, ctx') = ninja_file input ctx in
      (output flags listing text (sort_strings (keys ctx'.comp_db_build_rules)), ctx')

  -- The second part: nothing is built in a run for completions.
  unfoldable pub create_build_files :
      Map String FlagInfo → Listing → Map String Variable → Result (GeneratorOutput × Context)
  unfolding build_all write_ninja new_context
  create_build_files flags listing vars =
      let all = sort_strings (keys vars) in
      if input.completions_only
      then ok (output flags listing "" [], new_context)
      else (build_all all listing vars all new_context >>= λ ctx.
          ok (write_ninja flags listing ctx))

  module _ {F : Type 0} (floats : Floats F) (marshal : Map String String → Outcome String)
      (os : Os) where
    -- What is written to the output file, and the context behind the builds.
    unfoldable pub generator_main :
        Compile → FlagState F → Map String Variable → Result (GeneratorOutput × Context)
    unfolding lock_and_get_flags make_filter list_targets create_build_files
    generator_main compile flag_state vars = do
      (flags, _) ← lock_and_get_flags input floats marshal os input.persist_flags flag_state
      filter ← make_filter input compile
      listing ← list_targets input.mode filter vars empty_listing
      create_build_files flags listing vars
