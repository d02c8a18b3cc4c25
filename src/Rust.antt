-- ===== src/Rust.antt =====
-- RULES/rust/rust.go: Rust binaries. The files of the package and /proc/self/cgroup are parameters.
use dbt_rules.Base.{
  String, ◌<>◌, ◌&&◌, ◌||◌, none, some, Option, List, [], ◌∷◌, map, leb, code, ◌==◌, string_eq,
  if◌then◌else◌,
}
use dbt_rules.Base.Text.{has_prefix, trim_prefix, join, quote}
use dbt_rules.Base.Text.Paths.{base, rel}
use dbt_rules.Core.Input.{GeneratorInput, Outcome, done, error}
use dbt_rules.Core.Path.{
  FilePath, out_path, OutPath, absolute, relative, source_path, with_prefix, with_suffix,
}
use dbt_rules.Core.Context.{Action}
use dbt_rules.Core.Context.AddBuildStep.{Os, add_build_step}
use dbt_rules.Core.Rules.{zero_step}

pub record RustBinary : Type 0 where
  pub out : OutPath
  pub package_dir : FilePath
  pub toolchain : String
  pub target : String

-- What filepath.WalkDir hands the callback.
pub data Entry : Type 0 where
  folder : Entry
  file : String → Entry
  failed : Entry

unfoldable pub bin_location : RustBinary → OutPath
unfolding with_prefix relative base
bin_location bin =
    let name = base (relative bin.package_dir) in
    with_prefix (out_path bin.out)
      (if bin.target == "" then name <> "/release/" else name <> "/" <> bin.target <> "/release/")

hex_run : String → String
hex_run String.[] = ""
hex_run (String.◌∷◌ c s) =
    let rest = hex_run s in
    if (leb b'0' (code c) && leb (code c) b'9') || (leb b'a' (code c) && leb (code c) b'f')
    then String.◌∷◌ c rest
    else ""

-- The group of the first match of `docker-([0-9a-f]*)`.
unfoldable pub docker_id : String → Option String
unfolding hex_run trim_prefix
docker_id String.[] = none
docker_id (String.◌∷◌ c s) =
    let rest = docker_id s in
    if has_prefix (String.◌∷◌ c s) "docker-"
    then some (hex_run (trim_prefix (String.◌∷◌ c s) "docker-"))
    else rest

-- A file that cannot be read counts as empty.
hostname_override : Outcome String → String
unfolding docker_id
hostname_override (error err) = ""
hostname_override (done text) = elim (docker_id text) [
  | none ↦ ""
  | some id ↦ "HOSTNAME=" <> id <> " "
]

module _ (input : GeneratorInput) where
  -- The walk ends at the first error.
  unfoldable pub rust_inputs : List Entry → List FilePath
  unfolding rel
  rust_inputs [] = []
  rust_inputs (folder ∷ rest) = rust_inputs rest
  rust_inputs (file path ∷ rest) =
      source_path (rel (absolute input (source_path "")) path) ∷ rust_inputs rest
  rust_inputs (failed ∷ rest) = []

  unfoldable pub rust_cmd : RustBinary → Outcome String → String
  unfolding hostname_override quote
  rust_cmd bin cgroup =
      let native = bin.target == "" in
      "cd "
      <> quote (absolute input bin.package_dir)
      <> " && "
      <> (if native then "" else hostname_override cgroup)
      <> " "
      <> (if native then "cargo" else "cross")
      <> " +"
      <> (if bin.toolchain == "" then "stable" else bin.toolchain)
      <> " build -r --locked --bins --target-dir "
      <> quote (absolute input (out_path (with_suffix bin.package_dir "")))
      <> " "
      <> (if native then "" else "--target=" <> quote bin.target)

  unfoldable pub rust_build : Os → (String → List Entry) → Outcome String → RustBinary → Action
  unfolding rust_inputs rust_cmd bin_location
  rust_build os walk_dir cgroup bin ctx =
      add_build_step input os
        (record zero_step {
          out = some (bin_location bin);
          ins = rust_inputs (walk_dir (absolute input bin.package_dir));
          cmd = rust_cmd bin cgroup;
        })
        ctx

  unfoldable pub rust_run : RustBinary → List String → String
  unfolding bin_location quote join
  rust_run bin args =
      quote (absolute input (out_path (bin_location bin))) <> " " <> join " " (map quote args)
