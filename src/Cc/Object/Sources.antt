-- ===== src/Cc/Object/Sources.antt =====
-- RULES/cc/cc.go: the object files of a list of sources.
use dbt_rules.Base.{
  String, true, some, List, [], ◌∷◌, ◌++◌, map, nat_eq, string_eq, Result, ok, ◌>>=◌,
}
use dbt_rules.Base.Map.{Map, index}
use dbt_rules.Core.Path.{FilePath, out_path, OutPath, path_eq, relative, source_path, with_suffix}
use dbt_rules.Core.Context.{Context}
use dbt_rules.Cc.Toolchain.{Toolchain}
use dbt_rules.Cc.Library.{Library, Env, includes_for_sources}
use dbt_rules.Cc.Object.{ObjectFile, object_build}

module _ (env : Env) where
  -- What getObjs adds to the includes and the order dependencies.
  all_dep_includes : List Library → List FilePath
  all_dep_includes [] = []
  all_dep_includes (dep ∷ deps) = dep.includes ++ all_dep_includes deps

  all_generated : List Library → List FilePath
  all_generated [] = []
  all_generated (dep ∷ deps) = dep.generated_srcs ++ all_generated deps

  -- The fields that a library's and a binary's sources share.
  abbrev pub object_file :
      OutPath
      → List String
      → List String
      → List String
      → List FilePath
      → Toolchain
      → List FilePath
      → Map FilePath (List FilePath)
      → FilePath
      → ObjectFile
  object_file out c_flags cxx_flags as_flags includes tc order_deps compile_deps src = record {
    out = with_suffix (out_path out) (relative (out_path (with_suffix src ".o")));
    src = src;
    deps = index [] compile_deps src;
    order_deps = order_deps;
    includes = includes;
    c_flags = c_flags;
    cxx_flags = cxx_flags;
    as_flags = as_flags;
    toolchain = some tc;
  }

  unfoldable pub get_objs :
      OutPath
      → List FilePath
      → List String
      → List String
      → List String
      → List Library
      → List FilePath
      → Toolchain
      → List FilePath
      → Map FilePath (List FilePath)
      → Result (List ObjectFile)
  unfolding all_dep_includes all_generated includes_for_sources with_suffix relative
  get_objs out srcs c_flags cxx_flags as_flags deps includes tc order_deps compile_deps = do
    incs ← includes_for_sources env.input srcs true
    ok (
        map
          (object_file out c_flags cxx_flags as_flags
            (((includes ++ all_dep_includes deps) ++ incs) ++ source_path "" ∷ []) tc
            (order_deps ++ all_generated deps) compile_deps)
          srcs)

  -- The objects' outputs, and the context behind their builds.
  build_objects : List ObjectFile → Context → Result (List FilePath × Context)
  unfolding object_build
  build_objects [] ctx = ok ([], ctx)
  build_objects (obj ∷ objs) ctx = do
    ctx1 ← object_build env obj ctx
    (outs, ctx2) ← build_objects objs ctx1
    ok (out_path obj.out ∷ outs, ctx2)

  unfoldable pub compile_sources :
      OutPath
      → List FilePath
      → List String
      → List String
      → List String
      → List Library
      → List FilePath
      → Toolchain
      → List FilePath
      → Map FilePath (List FilePath)
      → Context
      → Result (List FilePath × Context)
  unfolding get_objs build_objects
  compile_sources out srcs c_flags cxx_flags as_flags deps includes tc order_deps compile_deps ctx =
      do
        objs ← get_objs out srcs c_flags cxx_flags as_flags deps includes tc order_deps compile_deps
        build_objects objs ctx
