-- ===== src/Cc/Library/Ends.antt =====
-- RULES/cc/cc.go: the calls behind CcLibrary end, and a dependency that resolves is an object.
use dbt_rules.Base.{
  ◌<◌, String, ◌≡◌, ◌≢◌, Bool, false, List, [], ◌∷◌, none, some, length, get_elem?, lt_of_get_elem?,
  arith, nat_eq, string_eq, Option-cases, inl, inr, ok, Ends, Ends-bind, Ends-ok, Option,
}
use dbt_rules.Core.Input.{GeneratorInput, fatal}
use dbt_rules.Core.Path.{FilePath, OutPath}
use dbt_rules.Cc.Toolchain.{Dep, Toolchain, default_toolchain}
use dbt_rules.Cc.Library.{
  Library, Env, resolve, cc_library, includes_for_sources, all_includes, source_includes,
  parts_includes, source_parts, or_this, filled, package_includes, place, effective_toolchain,
  require_out, place_for, library, cond_toolchain_library,
}

pub fatal-Ends : (input : GeneratorInput) (target msg : String) → Ends (fatal input target msg)
unfolding fatal
fatal-Ends input target msg = ground arith

pub fatal-ne-ok :
    (input : GeneratorInput) (target msg : String)
    → input.completions_only ≡ false
    → fatal input target msg ≢ ok tt
unfolding fatal
fatal-ne-ok input target msg live = ground arith

package_includes-Ends :
    (prefix : String) (private : Bool) (parts : List String)
    → Ends (package_includes prefix private parts)
unfolding package_includes
package_includes-Ends prefix private [] = ground arith
package_includes-Ends prefix private (p ∷ []) = ground arith
package_includes-Ends prefix private (p ∷ q ∷ ps) = ground arith

parts_includes-Ends :
    (private : Bool) (parts : Option (String × List String)) → Ends (parts_includes private parts)
unfolding parts_includes
parts_includes-Ends private none = Ends-ok []
parts_includes-Ends private (some (prefix, parts)) = package_includes-Ends prefix private parts

source_includes-Ends :
    (input : GeneratorInput) (private : Bool) (src : FilePath)
    → Ends (source_includes input private src)
unfolding source_includes
source_includes-Ends input private src = parts_includes-Ends private (source_parts input src)

all_includes-Ends :
    (input : GeneratorInput) (private : Bool) (srcs : List FilePath)
    → Ends (all_includes input private srcs)
unfolding all_includes
all_includes-Ends input private [] = ground arith
all_includes-Ends input private (src ∷ srcs) =
    Ends-bind _ _ (source_includes-Ends input private src)
      λ incs _. Ends-bind _ _ (all_includes-Ends input private srcs) λ rest _. Ends-ok _

includes_for_sources-Ends :
    (input : GeneratorInput) (srcs : List FilePath) (private : Bool)
    → Ends (includes_for_sources input srcs private)
unfolding includes_for_sources
includes_for_sources-Ends input srcs private =
    Ends-bind _ _ (all_includes-Ends input private srcs) λ incs _. Ends-ok _

module _ (env : Env) (target : String) (tc : Toolchain) where
  default_toolchain-Ends : Ends (default_toolchain env.input target env.toolchains)
  unfolding default_toolchain fatal
  default_toolchain-Ends = ground arith

  effective_toolchain-Ends : (lib : Library) → Ends (effective_toolchain env target lib)
  unfolding effective_toolchain
  effective_toolchain-Ends lib = ground (arith, default_toolchain-Ends)

  place-Ends :
      (user : Toolchain) (out : Option OutPath) (lib : Library)
      → Ends (place env target tc user out lib)
  unfolding place
  place-Ends user out lib = ground arith

  require_out-Ends : (out : Option OutPath) → Ends (require_out env target out)
  unfolding require_out
  require_out-Ends none = fatal-Ends env.input target _
  require_out-Ends (some o) = Ends-ok tt

  place_for-Ends :
      (user : Option Toolchain) (incs : List FilePath) (lib : Library)
      → Ends (place_for env target tc user incs lib)
  unfolding place_for
  place_for-Ends none incs lib = λ e. cc
  place_for-Ends (some user) incs lib =
      place-Ends user (or_this lib.user_out lib.out) (filled env target user incs lib)

  cc_library-Ends : (lib : Library) → Ends (cc_library env target tc lib)
  unfolding cc_library
  cc_library-Ends lib = Ends-bind _ _ (require_out-Ends lib.out) λ _ _.
      Ends-bind _ _ (includes_for_sources-Ends env.input lib.srcs false) λ incs _.
        Ends-bind _ _ (effective_toolchain-Ends lib) λ user _. place_for-Ends user incs lib

  pub resolve-Ends : (dep : Dep) → Ends (resolve env target tc dep)
  unfolding resolve
  resolve-Ends dep = elim (Option-cases (get_elem? env.objects dep)) [
    | inl e ↦ ground (arith, e)
    | inr (library lib, e) ↦ ground (arith, e, cc_library-Ends lib)
    | inr (cond_toolchain_library ctl, e) ↦ ground (arith, e, cc_library-Ends (ctl tc))
  ]

  -- A dependency that resolves is a position in the heap.
  pub resolve-lt :
      (dep : Dep) {lib : Library} → resolve env target tc dep ≡ ok lib → dep < length env.objects
  unfolding resolve
  resolve-lt dep h = elim (Option-cases (get_elem? env.objects dep)) [
    | inl e ↦ absurd (ground (arith, e, h))
    | inr (obj, e) ↦ lt_of_get_elem? env.objects dep e
  ]
