-- ===== src/Cc/Build/Binaries.antt =====
-- RULES/cc/cc.go: the builds of binaries.
use dbt_rules.Base.{
  String, ◌<>◌, Bool, true, false, Option, none, some, List, [], ◌∷◌, ◌++◌, map, nat_eq, string_eq,
  if◌then◌else◌, Result, ok, ◌>>=◌,
}
use dbt_rules.Base.Text.{join, quote}
use dbt_rules.Core.Input.{fatal}
use dbt_rules.Core.Path.{FilePath, out_path, OutPath, absolute}
use dbt_rules.Core.Step.{BuildStepWithRule}
use dbt_rules.Core.Context.{Action, with_trace, add_build_step_with_rule}
use dbt_rules.Core.Context.AddBuildStep.{Os}
use dbt_rules.Cc.Toolchain.{Toolchain, Dep, LinkerFlavor, ld, ld_lld, lld_link, gcc, clang}
use dbt_rules.Cc.Library.{Library, Env, nil_dereference, resolve_all}
use dbt_rules.Cc.Collect.{collect_deps}
use dbt_rules.Cc.Object.{need_toolchain}
use dbt_rules.Cc.Object.Sources.{get_objs, compile_sources}
use dbt_rules.Cc.Build.{TranslationUnit, ld_rule, no_units, library_build, translation_units}

pub record Binary : Type 0 where
  pub out : Option OutPath
  pub srcs : List FilePath
  pub c_flags : List String
  pub cxx_flags : List String
  pub as_flags : List String
  pub linker_flags : List String
  pub linker_flags_post : List String
  pub deps : List Dep
  pub deps_pre : List Dep
  pub deps_post : List Dep
  pub script : Option FilePath
  pub toolchain : Option Toolchain
  pub includes : List FilePath
  pub objs : List FilePath

-- The outputs of libraries. Each library here has one, since CcLibrary stops where it is nil.
unfoldable pub lib_outs : List Library → List FilePath
lib_outs [] = []
lib_outs (lib ∷ libs) = elim lib.out [ none ↦ lib_outs libs | some o ↦ out_path o ∷ lib_outs libs ]

unfoldable pub linked : Bool → List Library → List Library
linked always [] = []
linked always (lib ∷ libs) =
    let rest = linked always libs in
    elim lib.always_link [
      | true ↦ (if always then lib ∷ rest else rest)
      | false ↦ (if always then rest else lib ∷ rest)
    ]

-- The libraries on the command line: those that are always linked in whole stand between marks.
unfoldable pub libs_to_link : LinkerFlavor → List String → List String → List String
libs_to_link lld_link always libs = (libs ++ "-wholearchive" ∷ []) ++ always
libs_to_link ld always libs = ("-whole-archive" ∷ always ++ "-no-whole-archive" ∷ []) ++ libs
libs_to_link ld_lld always libs = ("-whole-archive" ∷ always ++ "-no-whole-archive" ∷ []) ++ libs
libs_to_link gcc always libs =
    ("-Wl,-whole-archive" ∷ always ++ "-Wl,-no-whole-archive" ∷ []) ++ libs
libs_to_link clang always libs =
    ("-Wl,-whole-archive" ∷ always ++ "-Wl,-no-whole-archive" ∷ []) ++ libs

abbrev script_input : Option FilePath → Option FilePath → List FilePath
script_input (some s) t = s ∷ []
script_input none (some t) = t ∷ []
script_input none none = []

module _ (env : Env) (os : Os) where
  quoted : List FilePath → List String
  quoted paths = map (λ p. quote (absolute env.input p)) paths

  script_flags : Option FilePath → List String
  unfolding quote
  script_flags none = []
  script_flags (some s) = "-T" ∷ quote (absolute env.input s) ∷ []

  build_libraries : List Library → Action
  unfolding library_build
  build_libraries [] ctx = ok ctx
  build_libraries (lib ∷ libs) ctx = do
    ctx' ← library_build env os lib ctx
    build_libraries libs ctx'

  -- The build step of the link, from the objects and the three groups of libraries.
  unfoldable pub link_step :
      Binary
      → OutPath
      → Toolchain
      → List FilePath
      → List Library
      → List Library
      → List Library
      → BuildStepWithRule
  unfolding ld_rule lib_outs linked libs_to_link quoted script_flags join
  link_step bin out tc objs pre deps post =
      let libs = (pre ++ deps) ++ post in
      record {
        outs = out ∷ [];
        ins =
            (((objs ++ lib_outs pre) ++ lib_outs post) ++ lib_outs libs)
            ++ script_input bin.script tc.script;
        implicit_deps = [];
        order_deps = [];
        variables =
            ("flags", join " " (bin.linker_flags ++ script_flags bin.script))
            ∷ (
              "libs",
              join " " (
                  libs_to_link tc.linker_flavor (quoted (lib_outs (linked true libs)))
                    (quoted (lib_outs (linked false libs)))),
            )
            ∷ ("objs", join " " (quoted objs))
            ∷ ("postFlags", join " " bin.linker_flags_post)
            ∷ [];
        rule = ld_rule tc;
        phony = false;
        traces = [];
      }

  unfoldable pub binary_build_at : Binary → OutPath → Action
  unfolding need_toolchain build_libraries compile_sources link_step
  binary_build_at bin out ctx = do
    tc ← need_toolchain env ctx.current_target bin.toolchain
    deps ← collect_deps env ctx.current_target tc (bin.deps ++ tc.std_deps)
    ctx1 ← build_libraries deps ctx
    (objs, ctx2) ←
        compile_sources env out bin.srcs bin.c_flags bin.cxx_flags bin.as_flags deps bin.includes tc
          [] [] ctx1
    pre ← resolve_all env ctx2.current_target tc bin.deps_pre
    post ← resolve_all env ctx2.current_target tc bin.deps_post
    add_build_step_with_rule env.input (link_step bin out tc (objs ++ bin.objs) pre deps post) ctx2

  unfoldable pub binary_build : Binary → Action
  unfolding binary_build_at with_trace
  binary_build bin ctx = elim bin.out [
    | none ↦
        (fatal env.input ctx.current_target "Out field is required for cc.Binary" >>= λ _.
        nil_dereference)
    | some out ↦ with_trace ("bin:" <> out.rel) (binary_build_at bin out) ctx
  ]

  unfoldable pub binary_translation_units : String → Binary → Result (List TranslationUnit)
  unfolding translation_units get_objs need_toolchain no_units
  binary_translation_units target bin = do
    tc ← need_toolchain env target bin.toolchain
    deps ← collect_deps env target tc (bin.deps ++ tc.std_deps)
    (elim bin.out [
      | none ↦ no_units bin.srcs
      | some out ↦ do
        objs ←
            get_objs env out bin.srcs bin.c_flags bin.cxx_flags bin.as_flags deps bin.includes tc []
              []
        translation_units env os target tc objs
    ])

  unfoldable pub binary_analysis_deps : String → Binary → Result (List Library)
  unfolding need_toolchain
  binary_analysis_deps target bin = do
    tc ← need_toolchain env target bin.toolchain
    deps ← resolve_all env target tc bin.deps
    post ← resolve_all env target tc bin.deps_post
    pre ← resolve_all env target tc bin.deps_pre
    ok ((deps ++ post) ++ pre)

  -- The command of `#run`, of a binary whose Out is not nil.
  unfoldable pub binary_run : OutPath → List String → String
  unfolding quote join
  binary_run out args =
      quote (absolute env.input (out_path out)) <> " " <> join " " (map quote args)
