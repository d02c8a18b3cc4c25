-- ===== src/Cc/Collect.antt =====
-- RULES/cc/cc.go: `collectDepsWithToolchain`, the depth-first walk over the dependencies. A library
-- is marked 1 while its dependencies are walked and 2 when it is on the stack.
pub mod Order
pub mod Fresh
pub mod Termination
use dbt_rules.Base.{
  ℕ, zero, suc, String, Bool, Option, none, some, List, [], ◌∷◌, ◌++◌, length, ◌==◌, nat_eq,
  string_eq, if◌then◌else◌, Result, ok, fail, diverge, ◌>>=◌, ◌>>◌,
}
use dbt_rules.Base.Map.{Map, index, insert}
use dbt_rules.Core.Input.{fatal}
use dbt_rules.Core.Path.{out_path, absolute}
use dbt_rules.Cc.Toolchain.{Dep, Toolchain}
use dbt_rules.Cc.Library.{Library, Env, nil_dereference, resolve}

pub record Walk : Type 0 where
  pub visited : Map String ℕ
  pub stack : List Library

-- The loop over a list of dependencies.
unfoldable pub walk_each : (Dep → Walk → Result Walk) → List Dep → Walk → Result Walk
walk_each visit [] w = ok w
walk_each visit (dep ∷ deps) w = do w' ← visit dep w; walk_each visit deps w'

module _ (env : Env) (target : String) (tc : Toolchain) where
  -- lib.Out.Absolute()
  unfoldable pub lib_path : Library → Result String
  lib_path lib = elim lib.out [
    | none ↦ nil_dereference
    | some o ↦ ok (absolute env.input (out_path o))
  ]

  -- A library at its path, which is marked neither 2 nor 1.
  unfoldable pub enter : (Dep → Walk → Result Walk) → Library → String → Walk → Result Walk
  unfolding walk_each
  enter visit lib path w = do
    w' ← walk_each visit lib.deps (record w { visited = insert path 1 w.visited })
    ok (record { visited = insert path 2 w'.visited; stack = lib ∷ w'.stack })

  unfoldable pub visit_lib : (Dep → Walk → Result Walk) → Library → String → Walk → Result Walk
  unfolding enter
  visit_lib visit lib path w =
      if index 0 w.visited path == 2
      then ok w
      else if index 0 w.visited path == 1
      then (do fatal env.input target "dependency loop detected"; enter visit lib path w)
      else enter visit lib path w

  unfoldable pub collect_rec : ℕ → Dep → Walk → Result Walk
  unfolding visit_lib lib_path
  collect_rec zero dep w = fail diverge
  collect_rec (suc fuel) dep w = do
    lib ← resolve env target tc dep
    path ← lib_path lib
    visit_lib (collect_rec fuel) lib path w

  -- The fuel is one more than the number of the rule objects.
  unfoldable pub collect_deps : List Dep → Result (List Library)
  unfolding walk_each collect_rec
  collect_deps deps = do
    w ←
        walk_each (collect_rec (suc (length env.objects))) deps
          (record { visited = []; stack = [] })
    ok w.stack
