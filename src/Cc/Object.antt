-- ===== src/Cc/Object.antt =====
-- RULES/cc/cc.go: the object files of sources and of blobs. `toolchain.Name()` of the nil that
-- `toolchainOrDefault` gives in a run for completions is a nil dereference. The package's own
-- `ninjaEscape` is that of core.
pub mod Sources
use dbt_rules.Base.{
  String, ◌<>◌, Bool, true, false, Option, none, some, List, [], ◌∷◌, ◌++◌, map, ◌==◌, nat_eq,
  string_eq, if◌then◌else◌, Result, ok, ◌>>=◌,
}
use dbt_rules.Base.Map.{Map, keys, insert, index}
use dbt_rules.Base.Sort.{sort_strings}
use dbt_rules.Base.Text.{join, quote}
use dbt_rules.Base.Text.Paths.{ext}
use dbt_rules.Core.Input.{fatal}
use dbt_rules.Core.Path.{
  FilePath, out_path, OutPath, path_eq, absolute, relative, source_path, with_prefix, with_suffix,
  with_ext,
}
use dbt_rules.Core.Step.{BuildRule, BuildStepWithRule}
use dbt_rules.Core.Context.{
  Context, Action, with_trace, register_comp_db_rule, get_comp_db_rule, ninja_escape,
  add_build_step_with_rule,
}
use dbt_rules.Core.Context.AddBuildStep.{Os, add_build_step}
use dbt_rules.Cc.Toolchain.{Toolchain, toolchain_or_default}
use dbt_rules.Cc.Library.{Library, Env, nil_dereference, includes_for_sources}

pub record ObjectFile : Type 0 where
  pub out : OutPath
  pub src : FilePath
  pub deps : List FilePath
  pub order_deps : List FilePath
  pub includes : List FilePath
  pub c_flags : List String
  pub cxx_flags : List String
  pub as_flags : List String
  pub toolchain : Option Toolchain

-- The languages of sources, by their extension.
pub data Language : Type 0 where
  cxx c asm : Language

unfoldable pub language : String → Option Language
language extension =
    if extension == ".cc"
    then some cxx
    else if extension == ".c"
    then some c
    else if extension == ".S"
    then some asm
    else none

abbrev pub compiler : Toolchain → String → List String → String
compiler tc command flags = ninja_escape command <> " " <> join " " flags

unfoldable pub compile_rule : Language → Toolchain → BuildRule
compile_rule cxx tc = record {
  name = tc.name <> "-cxx";
  variables =
      ("depfile", "$out.d")
      ∷ (
        "command",
        compiler tc tc.cxx_compiler tc.cxx_flags <> " $flags -pipe -c -MD -MF $out.d -o $out $in",
      )
      ∷ ("description", "CXX (toolchain: " <> tc.name <> ") $out")
      ∷ [];
}
compile_rule c tc = record {
  name = tc.name <> "-cc";
  variables =
      ("depfile", "$out.d")
      ∷ (
        "command",
        compiler tc tc.c_compiler tc.c_flags <> " $flags -pipe -c -MD -MF $out.d -o $out $in",
      )
      ∷ ("description", "CC (toolchain: " <> tc.name <> ") $out")
      ∷ [];
}
compile_rule asm tc = record {
  name = tc.name <> "-as";
  variables =
      ("command", compiler tc tc.assembler tc.as_flags <> " $flags -c -o $out $in")
      ∷ ("description", "AS (toolchain: " <> tc.name <> ") $out")
      ∷ [];
}

-- cxxRule, ccRule and asRule: a rule that is registered under the name is taken as it is.
unfoldable pub comp_db_rule : Language → Toolchain → Context → BuildRule × Context
unfolding compile_rule get_comp_db_rule register_comp_db_rule
comp_db_rule lang tc ctx =
    let rule = compile_rule lang tc in
    elim (get_comp_db_rule rule.name ctx) [
      | some known ↦ (known, ctx)
      | none ↦ (rule, register_comp_db_rule rule ctx)
    ]

abbrev pub object_flags : Language → ObjectFile → List String
object_flags cxx obj = obj.cxx_flags
object_flags c obj = obj.c_flags
object_flags asm obj = obj.as_flags

abbrev pub toolchain_flags : Language → Toolchain → List String
toolchain_flags cxx tc = tc.cxx_flags
toolchain_flags c tc = tc.c_flags
toolchain_flags asm tc = tc.as_flags

module _ (env : Env) where
  abbrev pub unknown_extension : String → FilePath → Result (Unit {0})
  unknown_extension target src =
      fatal env.input target
        ("Unknown source extension for cc toolchain '" <> ext (absolute env.input src) <> "'")

  include_args : List FilePath → List String
  include_args incs = map (λ inc. "-I" <> absolute env.input inc) incs

  -- The flags of the translation unit.
  unfoldable pub flags : String → Toolchain → ObjectFile → Result (List String)
  unfolding language include_args
  flags target tc obj = elim (language (ext (absolute env.input obj.src))) [
    | some lang ↦
        ok ((toolchain_flags lang tc ++ object_flags lang obj) ++ include_args obj.includes)
    | none ↦ (unknown_extension target obj.src >>= λ _. ok (include_args obj.includes))
  ]

  -- The keys of the map are the flags, so that none is there twice.
  include_set : List FilePath → Map String Bool → Map String Bool
  include_set [] m = m
  include_set (inc ∷ incs) m =
      include_set incs (insert ("-I" <> quote (absolute env.input inc)) true m)

  unfoldable pub include_flags : List FilePath → List String
  unfolding include_set sort_strings
  include_flags incs = sort_strings (keys (include_set incs []))

  -- toolchainOrDefault, for a caller that goes on with the toolchain's name.
  unfoldable pub need_toolchain : String → Option Toolchain → Result Toolchain
  unfolding toolchain_or_default
  need_toolchain target tc = do
    found ← toolchain_or_default env.input target tc env.toolchains
    (elim found [ none ↦ nil_dereference | some tc ↦ ok tc ])

  empty_rule : BuildRule
  empty_rule = record { name = ""; variables = [] }

  -- The rule and the flags by the extension.
  object_rule : ObjectFile → Context → Result (BuildRule × List String × Context)
  unfolding language comp_db_rule need_toolchain empty_rule
  object_rule obj ctx = elim (language (ext (absolute env.input obj.src))) [
    | some lang ↦ do
      tc ← need_toolchain ctx.current_target obj.toolchain
      (let (rule, ctx') = comp_db_rule lang tc ctx in ok (rule, object_flags lang obj, ctx'))
    | none ↦ (unknown_extension ctx.current_target obj.src >>= λ _. ok (empty_rule, [], ctx))
  ]

  unfoldable pub object_step : ObjectFile → BuildRule → List String → BuildStepWithRule
  unfolding include_flags join
  object_step obj rule obj_flags = record {
    outs = obj.out ∷ [];
    ins = obj.src ∷ [];
    implicit_deps = obj.deps;
    order_deps = obj.order_deps;
    variables = ("flags", join " " (obj_flags ++ include_flags obj.includes)) ∷ [];
    rule = rule;
    phony = false;
    traces = [];
  }

  unfoldable pub object_build : ObjectFile → Action
  unfolding object_rule object_step with_trace
  object_build obj ctx = do
    (rule, obj_flags, ctx1) ← object_rule obj ctx
    with_trace ("obj:" <> obj.out.rel)
        (add_build_step_with_rule env.input (object_step obj rule obj_flags)) ctx1

  unfoldable pub blob_out : String → Option Toolchain → FilePath → Result OutPath
  unfolding need_toolchain with_prefix with_ext
  blob_out target toolchain source = do
    tc ← need_toolchain target toolchain
    ok (with_ext (out_path (with_prefix source (tc.name <> "/"))) "blob.o")

  -- The linker is that of the field `Toolchain` itself, not the default for a nil.
  blob_command : Option Toolchain → OutPath → FilePath → Result String
  unfolding join quote
  blob_command none out source = nil_dereference
  blob_command (some tc) out source = ok (
      tc.link
      <> " "
      <> join " " tc.ld_flags
      <> " -r -b binary -o "
      <> quote (absolute env.input (out_path out))
      <> " "
      <> quote (absolute env.input source))

  module _ (os : Os) where
    blob_step : Option Toolchain → FilePath → OutPath → Action
    unfolding blob_command need_toolchain
    blob_step toolchain source out ctx = do
      tc ← need_toolchain ctx.current_target toolchain
      cmd ← blob_command toolchain out source
      add_build_step env.input os
          (record {
            out = some out;
            outs = none;
            in' = some source;
            ins = [];
            depfile = none;
            cmd = cmd;
            script = "";
            data' = "";
            data_file_mode = 0;
            descr = "BLOB (toolchain: " <> tc.name <> ") " <> out.rel;
            phony = false;
            pool = none;
          })
          ctx

    unfoldable pub blob_build : Option Toolchain → FilePath → Action
    unfolding blob_out blob_step with_trace
    blob_build toolchain source ctx = do
      out ← blob_out ctx.current_target toolchain source
      with_trace ("blob:" <> out.rel) (blob_step toolchain source out) ctx
