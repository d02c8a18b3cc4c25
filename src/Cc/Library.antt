-- ===== src/Cc/Library.antt =====
-- RULES/cc/cc.go and condtoolchain.go: libraries, and what a dependency is for a toolchain.
-- A Dep of the source is an object that may stand in several lists of dependencies, so it is a
-- position in the heap `objects`.
pub mod Ends
pub mod Placement
use dbt_rules.Base.{
  ℕ, String, ◌<>◌, Bool, true, false, Option, none, some, List, [], ◌∷◌, ◌++◌, map, get_elem?, ◌==◌,
  nat_eq, string_eq, not, if◌then◌else◌, Result, ok, fail, panic, ◌>>=◌, ◌>>◌,
}
use dbt_rules.Base.Map.{Map}
use dbt_rules.Base.Sort.{sort_strings}
use dbt_rules.Base.Text.{has_prefix, trim_prefix, split}
use dbt_rules.Base.Text.Paths.{join_path, dir}
use dbt_rules.Core.Input.{GeneratorInput, fatal}
use dbt_rules.Core.Path.{FilePath, out_path, OutPath, absolute, source_path, with_prefix}
use dbt_rules.Cc.Toolchain.{Dep, Toolchain, Toolchains, default_toolchain}

pub record Library : Type 0 where
  pub out : Option OutPath
  pub srcs : List FilePath
  pub generated_srcs : List FilePath
  pub blobs : List FilePath
  pub compile_deps : Map FilePath (List FilePath)
  pub objs : List FilePath
  pub includes : List FilePath
  pub c_flags : List String
  pub cxx_flags : List String
  pub as_flags : List String
  pub deps : List Dep
  pub shared : Bool
  pub always_link : Bool
  pub toolchain : Option Toolchain
  pub user_out : Option OutPath
  pub user_toolchain : Option Toolchain

-- The implementations of the interface `Dep`: a Library, and a CondToolchainLibrary.
pub data DepObject : Type 0 where
  library : Library → DepObject
  cond_toolchain_library : (Toolchain → Library) → DepObject

pub record Env : Type 0 where
  pub input : GeneratorInput
  pub toolchains : Toolchains
  pub objects : List DepObject

abbrev pub nil_dereference {ℓ} : {A : Type ℓ} → Result A
nil_dereference = fail (panic "invalid memory address or nil pointer dereference")

-- The directories of one source below its package's "src", by the path's elements.
unfoldable pub package_includes : String → Bool → List String → Result (List String)
package_includes prefix private (pkg ∷ src ∷ parts) =
    if not (src == "src")
    then ok []
    else if private
    then ok (join_path (prefix ∷ pkg ∷ "include" ∷ []) ∷ join_path (prefix ∷ pkg ∷ "src" ∷ []) ∷ [])
    else ok (join_path (prefix ∷ pkg ∷ "include" ∷ []) ∷ [])
package_includes prefix private parts = fail (panic "index out of range")

-- The prefix and the path's elements of a source below the dependencies or the workspace.
unfoldable pub source_parts : GeneratorInput → FilePath → Option (String × List String)
unfolding split trim_prefix
source_parts input src =
    let root = absolute input (source_path "") in
    let deps_dir = root <> "/" in
    let workspace_dir = dir root in
    let path = absolute input src in
    if has_prefix path deps_dir
    then some ("", split b'/' (trim_prefix path deps_dir))
    else if has_prefix path workspace_dir
    then some ("..", split b'/' (trim_prefix path workspace_dir))
    else none

unfoldable pub parts_includes : Bool → Option (String × List String) → Result (List String)
unfolding package_includes
parts_includes private none = ok []
parts_includes private (some (prefix, parts)) = package_includes prefix private parts

unfoldable pub source_includes : GeneratorInput → Bool → FilePath → Result (List String)
unfolding parts_includes source_parts
source_includes input private src = parts_includes private (source_parts input src)

unfoldable pub all_includes : GeneratorInput → Bool → List FilePath → Result (List String)
unfolding source_includes
all_includes input private [] = ok []
all_includes input private (src ∷ srcs) = do
  incs ← source_includes input private src
  rest ← all_includes input private srcs
  ok (incs ++ rest)

-- The loop over the sorted names, which skips what equals the name before.
unfoldable pub unique_includes : String → List String → List FilePath
unique_includes prev [] = []
unique_includes prev (inc ∷ incs) =
    let rest = unique_includes inc incs in if inc == prev then rest else source_path inc ∷ rest

unfoldable pub includes_for_sources : GeneratorInput → List FilePath → Bool → Result (List FilePath)
unfolding all_includes unique_includes sort_strings
includes_for_sources input srcs private = do
  includes ← all_includes input private srcs
  ok (unique_includes "" (sort_strings includes))

abbrev pub or_this {ℓ} : {A : Type ℓ} → Option A → Option A → Option A
or_this (some a) b = some a
or_this none b = b

module _ (env : Env) (target : String) where
  unfoldable pub effective_toolchain : Library → Result (Option Toolchain)
  effective_toolchain lib = elim (or_this lib.user_toolchain lib.toolchain) [
    | some tc ↦ ok (some tc)
    | none ↦ default_toolchain env.input target env.toolchains
  ]

  -- The library under the path that the toolchain's build of it has.
  unfoldable pub place : Toolchain → Toolchain → Option OutPath → Library → Result Library
  place tc user user_out lib =
      if tc.name == user.name then ok (record lib { out = user_out }) else elim user_out [
        | none ↦ nil_dereference
        | some out ↦ ok (record lib {
          out = some (with_prefix (out_path out) (tc.name <> "/"));
          toolchain = some tc;
        })
      ]

  unfoldable pub require_out : Option OutPath → Result (Unit {0})
  require_out none = fatal env.input target "Out field is required for cc.Library"
  require_out (some o) = ok tt

  -- The fields of the copy that CcLibrary fills in.
  abbrev pub filled : Toolchain → List FilePath → Library → Library
  filled user incs lib = record lib {
    includes = lib.includes ++ incs;
    user_out = or_this lib.user_out lib.out;
    user_toolchain = some user;
  }

  unfoldable pub place_for : Toolchain → Option Toolchain → List FilePath → Library → Result Library
  unfolding place
  place_for tc none incs lib = nil_dereference
  place_for tc (some user) incs lib =
      place tc user (or_this lib.user_out lib.out) (filled user incs lib)

  -- CcLibrary of a Library, for a toolchain that is not nil.
  unfoldable pub cc_library : Toolchain → Library → Result Library
  unfolding require_out place_for effective_toolchain
  cc_library tc lib = do
    require_out lib.out
    incs ← includes_for_sources env.input lib.srcs false
    user ← effective_toolchain lib
    place_for tc user incs lib

  -- The call dep.CcLibrary(toolchain).
  unfoldable pub resolve : Toolchain → Dep → Result Library
  unfolding cc_library
  resolve tc dep = elim (get_elem? env.objects dep) [
    | none ↦ nil_dereference
    | some (library lib) ↦ cc_library tc lib
    | some (cond_toolchain_library ctl) ↦ cc_library tc (ctl tc)
  ]

  unfoldable pub resolve_all : Toolchain → List Dep → Result (List Library)
  resolve_all tc [] = ok []
  resolve_all tc (dep ∷ deps) = do lib ← resolve tc dep; libs ← resolve_all tc deps; ok (lib ∷ libs)
