-- ===== src/Cc/Build.antt =====
-- RULES/cc/cc.go: the rules of archives and links, and the builds of libraries.
pub mod Link
pub mod Binaries
use dbt_rules.Base.{
  String, ◌<>◌, Bool, true, false, Option, none, some, List, [], ◌∷◌, ◌++◌, map, nat_eq, string_eq,
  if◌then◌else◌, Result, ok, ◌>>=◌,
}
use dbt_rules.Base.Text.{join, quote}
use dbt_rules.Core.Input.{fatal}
use dbt_rules.Core.Path.{FilePath, out_path, OutPath, absolute}
use dbt_rules.Core.Step.{BuildRule, BuildStepWithRule}
use dbt_rules.Core.Context.{Context, Action, with_trace, ninja_escape, add_build_step_with_rule}
use dbt_rules.Core.Context.AddBuildStep.{Os}
use dbt_rules.Cc.Toolchain.{Toolchain, Dep, LinkerFlavor, ld, ld_lld, lld_link, gcc, clang}
use dbt_rules.Cc.Library.{Library, Env, nil_dereference, resolve_all}
use dbt_rules.Cc.Collect.{collect_deps}
use dbt_rules.Cc.Object.{ObjectFile, need_toolchain, flags, blob_out, blob_build}
use dbt_rules.Cc.Object.Sources.{get_objs, compile_sources}

pub record TranslationUnit : Type 0 where
  pub source : FilePath
  pub object : OutPath
  pub flags : List String

-- The two syntaxes of linkers: that of lld-link, and that of the other flavors.
abbrev pub by_flavor {ℓ} : {A : Type ℓ} → LinkerFlavor → A → A → A
by_flavor lld_link a b = a
by_flavor ld a b = b
by_flavor ld_lld a b = b
by_flavor gcc a b = b
by_flavor clang a b = b

unfoldable pub rule_of : String → String → String → BuildRule
rule_of name command description = record {
  name = name;
  variables = ("command", command) ∷ ("description", description) ∷ [];
}

unfoldable pub ar_rule : Toolchain → BuildRule
unfolding rule_of ninja_escape
ar_rule tc =
    by_flavor tc.linker_flavor
      (rule_of (tc.name <> "-lib")
        ("rm -f $out 2> /dev/null; " <> ninja_escape tc.archiver <> " /out:$out $in")
        ("AR (toolchain: " <> tc.name <> ") $out"))
      (rule_of (tc.name <> "-ar")
        ("rm -f $out 2> /dev/null; " <> ninja_escape tc.archiver <> " rcsT $out $in")
        ("AR (toolchain: " <> tc.name <> ") $out"))

unfoldable pub so_rule : Toolchain → BuildRule
unfolding rule_of ninja_escape join
so_rule tc =
    by_flavor tc.linker_flavor
      (rule_of (tc.name <> "-dll")
        (ninja_escape tc.link <> " -shared " <> join " " tc.ld_flags <> " /out:$out $in")
        ("LD (toolchain: " <> tc.name <> ") $out"))
      (rule_of (tc.name <> "-so")
        (ninja_escape tc.link <> " -shared " <> join " " tc.ld_flags <> " -o $out $in")
        ("LD (toolchain: " <> tc.name <> ") $out"))

unfoldable pub ld_rule : Toolchain → BuildRule
unfolding rule_of ninja_escape join
ld_rule tc =
    by_flavor tc.linker_flavor
      (rule_of (tc.name <> "-link")
        (ninja_escape tc.link
          <> " "
          <> join " " tc.ld_flags
          <> " $flags /out:$out $objs $libs $postFlags")
        ("LD (toolchain: " <> tc.name <> ") $out"))
      (rule_of (tc.name <> "-ld")
        (ninja_escape tc.link
          <> " "
          <> join " " tc.ld_flags
          <> " $flags -o $out $objs $libs $postFlags")
        ("LD (toolchain: " <> tc.name <> ") $out"))

plain_step : OutPath → List FilePath → BuildRule → BuildStepWithRule
plain_step out ins rule = record {
  outs = out ∷ [];
  ins = ins;
  implicit_deps = [];
  order_deps = [];
  variables = [];
  rule = rule;
  phony = false;
  traces = [];
}

-- A nil Out is read for each source.
unfoldable pub no_units : List FilePath → Result (List TranslationUnit)
no_units [] = ok []
no_units (src ∷ srcs) = nil_dereference

module _ (env : Env) (os : Os) where
  -- The outputs of the blobs' objects, and the context behind their builds.
  build_blobs : Toolchain → List FilePath → Context → Result (List FilePath × Context)
  unfolding blob_build blob_out
  build_blobs tc [] ctx = ok ([], ctx)
  build_blobs tc (blob ∷ blobs) ctx = do
    ctx1 ← blob_build env os (some tc) blob ctx
    out ← blob_out env ctx1.current_target (some tc) blob
    (outs, ctx2) ← build_blobs tc blobs ctx1
    ok (out_path out ∷ outs, ctx2)

  -- `build` of a library whose Out is not nil.
  unfoldable pub library_build_at : Library → OutPath → Action
  unfolding need_toolchain compile_sources build_blobs so_rule ar_rule plain_step
  library_build_at lib out ctx = do
    tc ← need_toolchain env ctx.current_target lib.toolchain
    deps ← collect_deps env ctx.current_target tc (lib.deps ++ tc.std_deps)
    (objs, ctx1) ←
        compile_sources env out (lib.srcs ++ lib.generated_srcs) lib.c_flags lib.cxx_flags
          lib.as_flags deps lib.includes tc lib.generated_srcs lib.compile_deps ctx
    (blobs, ctx2) ← build_blobs tc lib.blobs ctx1
    add_build_step_with_rule env.input
        (plain_step out ((objs ++ lib.objs) ++ blobs)
          (if lib.shared then so_rule tc else ar_rule tc))
        ctx2

  -- Build reads Out before `build` tests it for nil.
  unfoldable pub library_build : Library → Action
  unfolding library_build_at with_trace
  library_build lib ctx = elim lib.out [
    | none ↦ nil_dereference
    | some out ↦ with_trace ("lib:" <> out.rel) (library_build_at lib out) ctx
  ]

  unfoldable pub translation_units :
      String → Toolchain → List ObjectFile → Result (List TranslationUnit)
  unfolding flags
  translation_units target tc [] = ok []
  translation_units target tc (obj ∷ objs) = do
    obj_flags ← flags env target tc obj
    units ← translation_units target tc objs
    ok (record { source = obj.src; object = obj.out; flags = obj_flags } ∷ units)

  unfoldable pub library_translation_units : String → Library → Result (List TranslationUnit)
  unfolding translation_units get_objs need_toolchain no_units
  library_translation_units target lib = do
    tc ← need_toolchain env target lib.toolchain
    deps ← collect_deps env target tc (lib.deps ++ tc.std_deps)
    (elim lib.out [
      | none ↦ no_units (lib.srcs ++ lib.generated_srcs)
      | some out ↦ do
        objs ←
            get_objs env out (lib.srcs ++ lib.generated_srcs) lib.c_flags lib.cxx_flags lib.as_flags
              deps lib.includes tc lib.generated_srcs []
        translation_units target tc objs
    ])

  unfoldable pub library_analysis_deps : String → Library → Result (List Library)
  unfolding need_toolchain
  library_analysis_deps target lib = do
    tc ← need_toolchain env target lib.toolchain
    resolve_all env target tc lib.deps
