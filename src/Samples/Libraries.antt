-- ===== src/Samples/Libraries.antt =====
-- RULES/cc/cc.go: libraries at concrete data.
use mathlib.Core.List.{Perm}
use dbt_rules.Base.{
  ◌++◌, true, ◌≡◌, refl, false, none, some, List, [], ◌∷◌, ok, fail, exit, String, Ends,
}
use dbt_rules.Base.Text.Paths.{dir, base, join_path}
use dbt_rules.Core.Path.{with_prefix, absolute}
use dbt_rules.Cc.Library.Placement.{cc_library_again}
use dbt_rules.Cc.Library.{
  cc_library, Library, DepObject, library, Env, resolve, includes_for_sources,
}
use dbt_rules.Cc.Build.Binaries.{linked}
use dbt_rules.Cc.Build.Link.{AllAlways, linked_split}
use dbt_rules.Base.Map.{lookup, insert}
use dbt_rules.Core.Input.{fatal}
use dbt_rules.Cc.Toolchain.{Toolchain, Dep, LinkerFlavor}
use dbt_rules.Cc.Collect.{collect_deps}
use dbt_rules.Cc.Collect.Order.{IsOrdered, AllIn, collect_deps-IsOrdered}
use dbt_rules.Cc.Collect.Termination.{collect_deps-Ends}
use dbt_rules.Samples.{sample_input, out_at}

abbrev sample_tc : Toolchain
sample_tc = record {
  name = "gcc";
  c_compiler = "cc";
  cxx_compiler = "c++";
  assembler = "as";
  archiver = "ar";
  link = "ld";
  objcopy_command = "objcopy";
  c_flags = [];
  cxx_flags = [];
  as_flags = [];
  ld_flags = [];
  std_deps = [];
  script = none;
  linker_flavor = LinkerFlavor.gcc;
  architecture = none;
  freestanding = none;
}

abbrev lib_at : String → List Dep → Library
lib_at path deps = record {
  out = some (out_at path);
  srcs = [];
  generated_srcs = [];
  blobs = [];
  compile_deps = [];
  objs = [];
  includes = [];
  c_flags = [];
  cxx_flags = [];
  as_flags = [];
  deps = deps;
  shared = false;
  always_link = false;
  toolchain = some sample_tc;
  user_out = none;
  user_toolchain = none;
}

abbrev sample_env : List DepObject → Env
sample_env objects = record {
  input = sample_input;
  toolchains = record { toolchains = []; default_toolchain = ""; flag_value = "invalid-toolchain" };
  objects = objects;
}

-- Two libraries that depend on a third.
abbrev diamond : Env
diamond = sample_env (
    library (lib_at "net.a" (2 ∷ []))
    ∷ library (lib_at "log.a" (2 ∷ []))
    ∷ library (lib_at "base.a" [])
    ∷ [])

-- The copies that CcLibrary makes of them.
abbrev found_at : String → List Dep → Library
found_at path deps = record (lib_at path deps) {
  user_out = some (out_at path);
  user_toolchain = some sample_tc;
}

abbrev collected : List Library
collected = found_at "log.a" (2 ∷ []) ∷ found_at "net.a" (2 ∷ []) ∷ found_at "base.a" [] ∷ []

collect_run : collect_deps diamond "" sample_tc (0 ∷ 1 ∷ []) ≡ ok collected
unfolding collect_deps resolve includes_for_sources lookup insert absolute join_path
collect_run = refl

collect_deps-IsOrdered_example :
    IsOrdered diamond "" sample_tc collected × AllIn diamond "" sample_tc collected (0 ∷ 1 ∷ [])
collect_deps-IsOrdered_example =
    collect_deps-IsOrdered diamond "" sample_tc refl (0 ∷ 1 ∷ []) collected collect_run

-- Two libraries that depend on each other.
abbrev loop : Env
loop = sample_env (library (lib_at "a.a" (1 ∷ [])) ∷ library (lib_at "b.a" (0 ∷ [])) ∷ [])

loop_run :
    collect_deps loop "" sample_tc (0 ∷ []) ≡ fail (exit "Error: dependency loop detected.\n")
unfolding collect_deps resolve includes_for_sources lookup insert absolute join_path fatal
loop_run = refl

collect_deps-Ends_example : Ends (collect_deps loop "" sample_tc (0 ∷ []))
collect_deps-Ends_example = collect_deps-Ends loop "" sample_tc refl (0 ∷ [])

abbrev other_tc : Toolchain
other_tc = record sample_tc { name = "clang" }

abbrev third_tc : Toolchain
third_tc = record sample_tc { name = "arm" }

abbrev moved : String → Library
moved path = record (found_at "net.a" []) { out = some (out_at path); toolchain = some other_tc }

place_other : cc_library diamond "" other_tc (lib_at "net.a" []) ≡ ok (moved "clang/net.a")
unfolding cc_library includes_for_sources with_prefix join_path dir base
place_other = refl

abbrev moved_again : Library
moved_again = record (moved "arm/net.a") { toolchain = some third_tc }

place_third : cc_library diamond "" third_tc (moved "clang/net.a") ≡ ok moved_again
unfolding cc_library includes_for_sources with_prefix join_path dir base
place_third = refl

place_third_at_once : cc_library diamond "" third_tc (lib_at "net.a" []) ≡ ok moved_again
unfolding cc_library includes_for_sources with_prefix join_path dir base
place_third_at_once = refl

cc_library_again_example :
    (moved_again.out ≡ moved_again.out)
    × (moved_again.user_out ≡ moved_again.user_out)
    × (moved_again.user_toolchain ≡ moved_again.user_toolchain)
cc_library_again_example =
    cc_library_again diamond "" other_tc third_tc (lib_at "net.a" []) (moved "clang/net.a")
      moved_again moved_again place_other place_third place_third_at_once

abbrev mixed : List Library
mixed = lib_at "a.a" [] ∷ record (lib_at "b.a" []) { always_link = true } ∷ lib_at "c.a" [] ∷ []

linked_split_example :
    Perm (linked true mixed ++ linked false mixed) mixed
    × AllAlways true (linked true mixed)
    × AllAlways false (linked false mixed)
linked_split_example = linked_split mixed
