-- ===== src/Cc/Toolchain.antt =====
-- RULES/cc/toolchain.go: toolchains, and the table of the registered ones. A toolchain is a record
-- of what its methods return. A dependency is the position of its object in the program's heap of
-- rule objects (Cc/Library.antt).
use dbt_rules.Base.{
  ℕ, String, ◌<>◌, Bool, false, ◌||◌, Option, none, some, List, [], ◌∷◌, ◌++◌, map, elem, ◌==◌,
  nat_eq, string_eq, not, if◌then◌else◌, Result, ok, ◌>>◌,
}
use dbt_rules.Base.Map.{Map, keys, lookup, insert, has}
use dbt_rules.Base.Sort.{sort_strings}
use dbt_rules.Base.Text.{join, quote}
use dbt_rules.Core.Input.{GeneratorInput, fatal}
use dbt_rules.Core.Path.{FilePath, absolute}

pub data LinkerFlavor : Type 0 where
  ld ld_lld lld_link gcc clang : LinkerFlavor

pub data Architecture : Type 0 where
  x86_64 aarch64 armv6m armv7m armv7em armv8m unknown : Architecture

abbrev pub Dep : Type 0
Dep = ℕ

pub record Toolchain : Type 0 where
  pub name : String
  pub c_compiler : String
  pub cxx_compiler : String
  pub assembler : String
  pub archiver : String
  pub link : String
  pub objcopy_command : String
  pub c_flags : List String
  pub cxx_flags : List String
  pub as_flags : List String
  pub ld_flags : List String
  pub std_deps : List Dep
  pub script : Option FilePath
  pub linker_flavor : LinkerFlavor
  -- The methods that a toolchain may lack.
  pub architecture : Option Architecture
  pub freestanding : Option Bool

unfoldable pub toolchain_architecture : Toolchain → Architecture
toolchain_architecture tc = elim tc.architecture [ some a ↦ a | none ↦ unknown ]

unfoldable pub toolchain_freestanding : Toolchain → Bool
toolchain_freestanding tc = elim tc.freestanding [ some b ↦ b | none ↦ false ]

-- The commands are the texts of global paths.
pub record GccToolchain : Type 0 where
  pub ar : String
  pub as' : String
  pub cc' : String
  pub cpp : String
  pub cxx : String
  pub objcopy : String
  pub ld : String
  pub includes : List FilePath
  pub deps : List Dep
  pub linker_script : Option FilePath
  pub c_compiler_flags : List String
  pub cxx_compiler_flags : List String
  pub as_compiler_flags : List String
  pub linker_flags : List String
  pub toolchain_name : String
  pub arch_name : String
  pub target_name : String

unfoldable pub gcc_architecture : GccToolchain → Architecture
gcc_architecture gcc' =
    if gcc'.arch_name == "i386" || gcc'.arch_name == "x86_64"
    then x86_64
    else if gcc'.arch_name == "aarch64"
    then aarch64
    else unknown

unfoldable pub gcc_freestanding : GccToolchain → Bool
gcc_freestanding gcc' = elem "-ffreestanding" gcc'.linker_flags

unfoldable pub new_with_std_lib :
    GccToolchain → List FilePath → List Dep → Option FilePath → String → GccToolchain
new_with_std_lib gcc' includes deps linker_script toolchain_name = record gcc' {
  includes = includes;
  deps = deps;
  linker_script = linker_script;
  toolchain_name = toolchain_name;
}

module _ (input : GeneratorInput) where
  unfoldable pub isystem_flags : List FilePath → List String
  isystem_flags [] = []
  isystem_flags (inc ∷ incs) = "-isystem" ∷ quote (absolute input inc) ∷ isystem_flags incs

  -- What the methods of a GccToolchain return.
  unfoldable pub gcc_toolchain : GccToolchain → Toolchain
  unfolding isystem_flags gcc_architecture gcc_freestanding quote
  gcc_toolchain gcc' = record {
    name = gcc'.toolchain_name;
    c_compiler = quote gcc'.cc';
    cxx_compiler = quote gcc'.cxx;
    assembler = quote gcc'.as';
    archiver = quote gcc'.ar;
    link = quote gcc'.ld;
    objcopy_command = quote gcc'.objcopy;
    c_flags = gcc'.c_compiler_flags ++ isystem_flags gcc'.includes;
    cxx_flags = gcc'.cxx_compiler_flags ++ isystem_flags gcc'.includes;
    as_flags = gcc'.as_compiler_flags;
    ld_flags = gcc'.linker_flags;
    std_deps = gcc'.deps;
    script = gcc'.linker_script;
    linker_flavor = LinkerFlavor.ld;
    architecture = some (gcc_architecture gcc');
    freestanding = some (gcc_freestanding gcc');
  }

-- The package's variables, and the value of the flag cc-toolchain.
pub record Toolchains : Type 0 where
  pub toolchains : Map String Toolchain
  pub default_toolchain : String
  pub flag_value : String

module _ (input : GeneratorInput) (current_target : String) where
  unfoldable pub register_toolchain : Toolchain → Toolchains → Result Toolchains
  register_toolchain tc tcs = do
    (if has tc.name tcs.toolchains
        then fatal input current_target
            ("A toolchain with name " <> tc.name <> " has already been registered")
        else ok tt)
    ok (record tcs { toolchains = insert tc.name tc tcs.toolchains })

  -- The message has no verb for its arguments, and Go prints those behind it.
  unfoldable pub register_toolchain_as_default : Toolchain → Toolchains → Result Toolchains
  unfolding register_toolchain
  register_toolchain_as_default tc tcs = do
    (if not (tcs.default_toolchain == "")
        then fatal input current_target (
            "Default toolchain is already registered to %!(EXTRA string=" <> tcs.default_toolchain
            <> ", string=, but attempted to register: , string=" <> tc.name <> ")")
        else ok tt)
    register_toolchain tc (record tcs { default_toolchain = tc.name })

  -- The name that the default toolchain is looked up by.
  unfoldable pub default_name : Toolchains → String
  default_name tcs =
      if not (tcs.flag_value == "invalid-toolchain") then tcs.flag_value else tcs.default_toolchain

  -- `none` is the nil that a run for completions gets.
  unfoldable pub default_toolchain : Toolchains → Result (Option Toolchain)
  unfolding default_name
  default_toolchain tcs = elim (lookup (default_name tcs) tcs.toolchains) [
    | some tc ↦ ok (some tc)
    | none ↦ do
      fatal input current_target (
          "No registered toolchain "
          <> quote tcs.flag_value
          <> ". Registered toolchains: "
          <> join ", " (sort_strings (map quote (keys tcs.toolchains))))
      ok none
  ]

  unfoldable pub toolchain_or_default : Option Toolchain → Toolchains → Result (Option Toolchain)
  unfolding default_toolchain
  toolchain_or_default none tcs = default_toolchain tcs
  toolchain_or_default (some tc) tcs = ok (some tc)
