-- ===== src/Hdl/Xsim/Project/Names.antt =====
-- RULES/hdl/xsim.go: the paths of a project file and those that get an entry.
use dbt_rules.Base.{
  String, ◌≡◌, refl, ◌∙◌, Bool, true, false, ◌&&◌, ◌||◌, List, [], ◌∷◌, ◌++◌, map, arith, elem,
  elem-append, Distinct, ◌==◌, string_eq, eq_of_beq, not, Bool-cases, inl, inr, if◌then◌else◌,
}
use dbt_rules.Base.Map.{Map, index, insert, index-insert}
use dbt_rules.Base.Text.Paths.{dir}
use dbt_rules.Core.Path.{FilePath, absolute}
use dbt_rules.Hdl.Files.{is_rtl, is_header}
use dbt_rules.Hdl.Simulation.{Host}

-- The files that get an entry.
abbrev pub is_compiled : String → Bool
is_compiled path = not (is_header path) && is_rtl path

abbrev pub compiled : List String → List String
compiled [] = []
compiled (path ∷ paths) =
    let rest = compiled paths in if is_compiled path then path ∷ rest else rest

pub other_key :
    (d k : String) (m : Map String Bool)
    → is_compiled d ≡ false
    → is_compiled k ≡ true
    → index false (insert d true m) k ≡ index false m k
other_key d k m apart is = elim (Bool-cases (d == k)) [
  | inl e ↦ absurd (cc (eq_of_beq d k e))
  | inr e ↦ index-insert d k false true m ∙ rw e refl
]

-- A file that gets an entry is one of the files.
pub elem-compiled :
    (k : String) (paths : List String) → elem k (compiled paths) ≡ true → elem k paths ≡ true
elem-compiled k [] h = h
elem-compiled k (p ∷ paths) h = ground (arith, elem-compiled k paths)

pub Distinct-snoc :
    (l : List String) (a : String) → Distinct l → elem a l ≡ false → Distinct (l ++ a ∷ [])
Distinct-snoc [] a d h = (refl, tt)
Distinct-snoc (b ∷ l) a (new, d) h = (
  ground (arith, elem-append b l (a ∷ []), new, h, string_eq.beq_iff a b, string_eq.beq_iff b a),
  Distinct-snoc l a d (ground (arith, h)),
)

module _ (host : Host) where
  abbrev pub names : List FilePath → List String
  names ps = map (absolute host.input) ps

  -- No directory of a header is the path of a file that gets an entry.
  abbrev pub Apart : List FilePath → Type 0
  Apart [] = Unit
  Apart (p ∷ ps) =
      (is_header (absolute host.input p) ≡ true → is_compiled (dir (absolute host.input p)) ≡ false)
      × Apart ps

  abbrev pub compiled_deps : List FilePath → List String
  compiled_deps deps = compiled (names deps)

  pub compiled-snoc :
      (deps : List FilePath) (src : FilePath)
      → compiled_deps (deps ++ src ∷ []) ≡ (
          if is_compiled (absolute host.input src)
          then compiled_deps deps ++ absolute host.input src ∷ []
          else compiled_deps deps)
  compiled-snoc [] src = refl
  compiled-snoc (p ∷ deps) src = ground (arith, compiled-snoc deps src)

  pub names-snoc :
      (k : String) (deps : List FilePath) (src : FilePath)
      → elem k (names (deps ++ src ∷ [])) ≡ (elem k (names deps) || absolute host.input src == k)
  names-snoc k [] src = ground arith
  names-snoc k (p ∷ deps) src = ground (arith, names-snoc k deps src)
