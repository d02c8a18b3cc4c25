-- ===== src/Golang.antt =====
-- RULES/golang/golang.go: Go binaries. What `go list` prints is a parameter.
use dbt_rules.Base.{
  String, ◌<>◌, Bool, false, Option, none, some, List, [], ◌∷◌, ◌++◌, map, ltb, length,
  if◌then◌else◌, Result, ok, ◌>>=◌, ◌>>◌, string_eq,
}
use dbt_rules.Base.Map.{Map, insert, lookup}
use dbt_rules.Base.Text.{join, quote}
use dbt_rules.Base.Text.Paths.{join_path, rel}
use dbt_rules.Core.Input.{GeneratorInput, fatal}
use dbt_rules.Core.Path.{FilePath, out_path, OutPath, absolute, source_path}
use dbt_rules.Core.Context.{Action}
use dbt_rules.Core.Context.AddBuildStep.{Os, add_build_step}
use dbt_rules.Core.Rules.{zero_step}

pub record GoBinary : Type 0 where
  pub out : OutPath
  pub package_dir : FilePath
  pub env : Map String String
  pub flags : List String

pub record Pkg : Type 0 where
  pub standard : Bool
  pub dir : String
  pub import_path : String
  pub go_files : List String
  pub other_files : List String
  pub deps : List String
  pub match : List String

-- What the decoder gives, up to the end of the output.
pub data Decoded : Type 0 where
  pkg : Pkg → Decoded
  bad : String → Decoded

pub record GoList : Type 0 where
  -- The message of the failed run.
  pub failed : Option String
  pub output : List Decoded

-- The packages by their import path, and those that the binary uses.
pub record Packages : Type 0 where
  pub pkgs : Map String Pkg
  pub used : List String

unfoldable pub add_pkg : Pkg → Packages → Packages
add_pkg p ps = if p.standard then ps else record {
  pkgs = insert p.import_path p ps.pkgs;
  used = if ltb 1 (length p.match) then p.deps ++ p.import_path ∷ [] else ps.used;
}

zero_pkg : Pkg
zero_pkg = record {
  standard = false;
  dir = "";
  import_path = "";
  go_files = [];
  other_files = [];
  deps = [];
  match = [];
}

env_text : Map String String → String → String
unfolding quote
env_text [] env = env
env_text ((key, value) ∷ m) env = env_text m (env <> " " <> key <> "=" <> quote value)

module _ (input : GeneratorInput) where
  report : Option String → String → Result (Unit {0})
  report none target = ok tt
  report (some err) target = fatal input target ("'go list' failed: " <> err)

  -- A package that is not read counts, in a run for completions, as the zero package.
  unfoldable pub add_pkgs : String → List Decoded → Packages → Result Packages
  unfolding add_pkg zero_pkg
  add_pkgs target [] ps = ok ps
  add_pkgs target (pkg p ∷ rest) ps = add_pkgs target rest (add_pkg p ps)
  add_pkgs target (bad err ∷ rest) ps = do
    fatal input target ("failed to decode 'go list' output: " <> err)
    add_pkgs target rest (add_pkg zero_pkg ps)

  pkg_files : Option Pkg → List FilePath
  unfolding rel join_path
  pkg_files none = []
  pkg_files (some p) =
      map
        (λ file. source_path (join_path (rel (absolute input (source_path "")) p.dir ∷ file ∷ [])))
        (p.go_files ++ p.other_files)

  unfoldable pub files_of : Map String Pkg → List String → List FilePath
  unfolding pkg_files
  files_of pkgs [] = []
  files_of pkgs (used ∷ rest) = pkg_files (lookup used pkgs) ++ files_of pkgs rest

  unfoldable pub get_inputs : String → GoList → Result (List FilePath)
  unfolding report add_pkgs files_of
  get_inputs target list = do
    report list.failed target
    ps ← add_pkgs target list.output (record { pkgs = []; used = [] })
    ok (files_of ps.pkgs ps.used)

  module _ (os : Os) (go_list : String → GoList) where
    unfoldable pub go_build : GoBinary → Action
    unfolding get_inputs env_text quote join
    go_build bin ctx = do
      ins ← get_inputs ctx.current_target (go_list (absolute input bin.package_dir))
      add_build_step input os
          (record zero_step {
            out = some bin.out;
            ins = ins;
            cmd =
                "cd "
                <> quote (absolute input bin.package_dir)
                <> " && "
                <> env_text bin.env ""
                <> " go build "
                <> join " " bin.flags
                <> " -o "
                <> quote (absolute input (out_path bin.out));
          })
          ctx

  -- Run of a Go or Rust binary.
  unfoldable pub go_run : OutPath → List String → String
  unfolding quote join
  go_run out args = quote (absolute input (out_path out)) <> " " <> join " " (map quote args)
