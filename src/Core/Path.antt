-- ===== src/Core/Path.antt =====
-- RULES/core/path.go: paths of the source tree and of the build tree.
use dbt_rules.Base.{
  String, ◌<>◌, ◌≡◌, ◌↔◌, Bool, true, false, ◌&&◌, [], ◌∷◌, arith, ◌==◌, Eq, string_eq,
  if◌then◌else◌,
}
use dbt_rules.Base.Text.{trim_suffix}
use dbt_rules.Base.Text.Paths.{join_path, dir, base, ext}
use dbt_rules.Core.Input.{GeneratorInput}

pub record OutPath : Type 0 where
  pub rel : String

-- The implementations of the interface `Path`. An inPath has `rel` and `abs`.
pub data FilePath : Type 0 where
  in_path : String → String → FilePath
  out_path : OutPath → FilePath

unfoldable pub path_beq : FilePath → FilePath → Bool
path_beq (in_path r a) (in_path s b) = (r == s) && (a == b)
path_beq (out_path p) (out_path q) = p.rel == q.rel
path_beq _ _ = false

pub path_beq_iff : (p q : FilePath) → (path_beq p q ≡ true) ↔ (p ≡ q)
unfolding path_beq
path_beq_iff (in_path r a) (in_path s b) =
    ground (arith, string_eq.beq_iff r s, string_eq.beq_iff a b)
path_beq_iff (in_path r a) (out_path q) = ground arith
path_beq_iff (out_path p) (in_path r a) = ground arith
path_beq_iff (out_path p) (out_path q) = ground (arith, string_eq.beq_iff p.rel q.rel)

instance abbrev pub path_eq : Eq FilePath
path_eq = record { beq = path_beq; beq_iff = path_beq_iff }

unfoldable pub relative : FilePath → String
relative (in_path rel abs) = rel
relative (out_path p) = p.rel

unfoldable pub with_ext : FilePath → String → OutPath
unfolding relative
with_ext p e = let rel = relative p in record { rel = trim_suffix rel (ext rel) <> "." <> e }

unfoldable pub with_prefix : FilePath → String → OutPath
unfolding relative
with_prefix p prefix =
    let rel = relative p in record { rel = join_path (dir rel ∷ (prefix <> base rel) ∷ []) }

unfoldable pub with_suffix : FilePath → String → OutPath
unfolding relative
with_suffix p suffix = record { rel = relative p <> suffix }

module _ (input : GeneratorInput) where
  unfoldable pub absolute : FilePath → String
  absolute (in_path rel abs) = if abs == "" then join_path (input.source_dir ∷ rel ∷ []) else abs
  absolute (out_path p) = join_path (input.output_dir ∷ p.rel ∷ [])

-- A package is its import path and its source directory.
pub record PkgPath : Type 0 where
  pub pkg_path : String
  pub src_dir : String

unfoldable pub new_in_path : PkgPath → String → FilePath
new_in_path pkg p = in_path (join_path (pkg.pkg_path ∷ p ∷ [])) (join_path (pkg.src_dir ∷ p ∷ []))

unfoldable pub new_out_path : PkgPath → String → OutPath
new_out_path pkg p = record { rel = join_path (pkg.pkg_path ∷ p ∷ []) }

unfoldable pub build_path : String → OutPath
build_path p = record { rel = p }

unfoldable pub source_path : String → FilePath
source_path p = in_path p ""
