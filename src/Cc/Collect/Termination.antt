-- ===== src/Cc/Collect/Termination.antt =====
-- RULES/cc/cc.go: `collectDepsWithToolchainRec` ends, and the fuel of its model is enough.
use dbt_rules.Base.{
  ℕ, zero, suc, ◌≤◌, ◌<◌, String, ◌≡◌, ◌⊎◌, refl, true, false, List, [], ◌∷◌, length, arith, ◌==◌,
  nat_eq, string_eq, Bool-cases, inl, inr, Result, ok, >>=-eq-ok, ok-elim, Ends, Ends-bind, Ends-ok,
}
use dbt_rules.Base.Map.{Map, index, insert, index-insert}
use dbt_rules.Core.Input.{fatal}
use dbt_rules.Cc.Toolchain.{Dep, Toolchain}
use dbt_rules.Cc.Library.{Library, Env, resolve}
use dbt_rules.Cc.Collect.{Walk, walk_each, lib_path, enter, visit_lib, collect_rec, collect_deps}
use dbt_rules.Cc.Library.Ends.{fatal-Ends, fatal-ne-ok, resolve-Ends, resolve-lt}
use dbt_rules.Cc.Collect.Fresh.{
  is_fresh, fresh_count, weight, Shrinks, Shrinks-refl, Shrinks-trans, Shrinks-insert,
  fresh_count-le, fresh_count-lt,
}
use dbt_rules.Cc.Collect.Order.{path_of, lib_path-path_of}

module _ (env : Env) (target : String) (tc : Toolchain) where
  abbrev count_of : Walk → ℕ
  count_of w = fresh_count env target tc w.visited (length env.objects)

  abbrev Shrunk : Walk → Walk → Type 0
  Shrunk w w' = Shrinks env target tc w.visited w'.visited

  abbrev Visits : (Dep → Walk → Result Walk) → Type 0
  Visits visit = (dep : Dep) (w w' : Walk) → visit dep w ≡ ok w' → Shrunk w w'

  walk_each-Shrunk :
      (visit : Dep → Walk → Result Walk)
      → Visits visit
      → (deps : List Dep) (w w' : Walk) → walk_each visit deps w ≡ ok w'
      → Shrunk w w'
  unfolding walk_each
  walk_each-Shrunk visit v [] w w' h = ok-elim (Shrunk w) h (Shrinks-refl env target tc w.visited)
  walk_each-Shrunk visit v (dep ∷ deps) w w' h =
      let (w1, e1, e2) = >>=-eq-ok (visit dep w) (walk_each visit deps) h in
      Shrinks-trans env target tc (v dep w w1 e1) (walk_each-Shrunk visit v deps w1 w' e2)

  enter-Shrunk :
      (visit : Dep → Walk → Result Walk)
      → Visits visit
      → (lib : Library) (path : String) (w w' : Walk) → enter env target tc visit lib path w ≡ ok w'
      → Shrunk w w'
  unfolding enter
  enter-Shrunk visit v lib path w w' h =
      let (w1, e1, e2) = >>=-eq-ok (walk_each visit lib.deps _) _ h in
      ok-elim (Shrunk w) e2 (
        Shrinks-trans env target tc (Shrinks-insert env target tc w.visited path 1 (inl refl)) (
          Shrinks-trans env target tc (walk_each-Shrunk visit v lib.deps _ w1 e1)
            (Shrinks-insert env target tc w1.visited path 2 (inr refl))))

  visit_lib_cases :
      (visit : Dep → Walk → Result Walk) (lib : Library) (path : String) (w w' : Walk)
      → visit_lib env target tc visit lib path w ≡ ok w'
      → (w ≡ w') ⊎ (enter env target tc visit lib path w ≡ ok w')
  unfolding visit_lib fatal
  visit_lib_cases visit lib path w w' h = elim (Bool-cases (index 0 w.visited path == 2)) [
    | inl done ↦ inl (ground (arith, done, h))
    | inr new ↦ inr (ground (arith, new, h))
  ]

  visit_lib-Shrunk :
      (visit : Dep → Walk → Result Walk)
      → Visits visit
      → (lib : Library) (path : String) (w w' : Walk)
      → visit_lib env target tc visit lib path w ≡ ok w'
      → Shrunk w w'
  visit_lib-Shrunk visit v lib path w w' h = elim (visit_lib_cases visit lib path w w' h) [
    | inl e ↦ rw (← e) (Shrinks-refl env target tc w.visited)
    | inr e ↦ enter-Shrunk visit v lib path w w' e
  ]

  collect_rec-Visits : (fuel : ℕ) → Visits (collect_rec env target tc fuel)
  unfolding collect_rec
  collect_rec-Visits zero dep w w' h = cc
  collect_rec-Visits (suc fuel) dep w w' h =
      let (lib, e1, h1) = >>=-eq-ok (resolve env target tc dep) _ h in
      let (path, e2, h2) =
        >>=-eq-ok (lib_path env target tc lib)
          (λ path. visit_lib env target tc (collect_rec env target tc fuel) lib path w) h1 in
      visit_lib-Shrunk (collect_rec env target tc fuel) (collect_rec-Visits fuel) lib path w w' h2

  -- What a visit must give with more fuel than there are fresh libraries.
  abbrev EndsBelow : ℕ → (Dep → Walk → Result Walk) → Type 0
  EndsBelow fuel visit = (dep : Dep) (w : Walk) → count_of w < fuel → Ends (visit dep w)

  walk_each-Ends :
      (visit : Dep → Walk → Result Walk) (fuel : ℕ)
      → Visits visit
      → EndsBelow fuel visit
      → (deps : List Dep) (w : Walk) → count_of w < fuel
      → Ends (walk_each visit deps w)
  unfolding walk_each
  walk_each-Ends visit fuel v below [] w h = Ends-ok w
  walk_each-Ends visit fuel v below (dep ∷ deps) w h =
      Ends-bind (visit dep w) (walk_each visit deps) (below dep w h) λ w1 e.
        walk_each-Ends visit fuel v below deps w1 (
          omega (
            arith,
            fresh_count-le env target tc w.visited w1.visited (length env.objects) (v dep w w1 e),
          ))

  lib_path-Ends : (lib : Library) → Ends (lib_path env target tc lib)
  unfolding lib_path
  lib_path-Ends lib = ground arith

  module _ (live : env.input.completions_only ≡ false) where
    fresh_of :
        (w : Walk) (path : String)
        → (index 0 w.visited path == 2) ≡ false
        → (index 0 w.visited path == 1) ≡ false
        → is_fresh env target tc w.visited path ≡ true
    unfolding is_fresh
    fresh_of w path h k = ground (arith, h, k)

    opened-lt :
        (dep : Dep) (lib : Library) (path : String) (w : Walk)
        → resolve env target tc dep ≡ ok lib
        → path_of env target tc lib ≡ path
        → is_fresh env target tc w.visited path ≡ true
        → fresh_count env target tc (insert path 1 w.visited) (length env.objects) < count_of w
    unfolding is_fresh
    opened-lt dep lib path w e named fresh =
        fresh_count-lt env target tc w.visited (insert path 1 w.visited) (length env.objects) dep
          lib (Shrinks-insert env target tc w.visited path 1 (inl refl))
          (resolve-lt env target tc dep e) e (rw named fresh)
          (ground (arith, named, index-insert path path 0 1 w.visited, string_eq.beq_iff path path))

    visit_lib-Ends :
        (visit : Dep → Walk → Result Walk) (fuel : ℕ)
        → Visits visit
        → EndsBelow fuel visit
        → (dep : Dep) (lib : Library) (path : String) (w : Walk)
        → resolve env target tc dep ≡ ok lib
        → path_of env target tc lib ≡ path
        → count_of w < suc fuel
        → Ends (visit_lib env target tc visit lib path w)
    unfolding visit_lib enter
    visit_lib-Ends visit fuel v below dep lib path w e named h =
        elim (Bool-cases (index 0 w.visited path == 2)) [
          | inl done ↦ rw (done, visit_lib) (Ends-ok w)
          | inr new ↦ elim (Bool-cases (index 0 w.visited path == 1)) [
            | inl loop ↦
                rw (new, loop, visit_lib)
                  (Ends-bind (fatal env.input target "dependency loop detected") _
                    (fatal-Ends env.input target _)
                    λ u e. absurd (fatal-ne-ok env.input target "dependency loop detected" live e))
            | inr fresh ↦
                rw (new, fresh, visit_lib)
                  (Ends-bind (walk_each visit lib.deps _) _
                    (walk_each-Ends visit fuel v below lib.deps _
                      (omega (arith, opened-lt dep lib path w e named (fresh_of w path new fresh))))
                    λ w1 _. Ends-ok _)
          ]
        ]

    collect_rec-Ends : (fuel : ℕ) → EndsBelow fuel (collect_rec env target tc fuel)
    unfolding collect_rec
    collect_rec-Ends zero dep w h = absurd (omega arith)
    collect_rec-Ends (suc fuel) dep w h =
        Ends-bind (resolve env target tc dep) _ (resolve-Ends env target tc dep) λ lib e1.
          Ends-bind (lib_path env target tc lib) _ (lib_path-Ends lib) λ path e2.
            visit_lib-Ends (collect_rec env target tc fuel) fuel (collect_rec-Visits fuel)
              (collect_rec-Ends fuel) dep lib path w e1 (lib_path-path_of env target tc lib e2) h

    fresh_count_bound : (v : Map String ℕ) (n : ℕ) → fresh_count env target tc v n ≤ n
    unfolding fresh_count weight
    fresh_count_bound v zero = omega arith
    fresh_count_bound v (suc n) = ground (arith, fresh_count_bound v n)

    -- The walk over the dependencies ends in every run that is not for completions, also where the
    -- dependencies have a loop: the fuel, one more than the number of rule objects, is enough.
    pub collect_deps-Ends : (deps : List Dep) → Ends (collect_deps env target tc deps)
    unfolding collect_deps
    collect_deps-Ends deps =
        let fuel = suc (length env.objects) in
        Ends-bind (walk_each (collect_rec env target tc fuel) deps _) _
          (walk_each-Ends (collect_rec env target tc fuel) fuel (collect_rec-Visits fuel)
            (collect_rec-Ends fuel) deps _
            (omega (arith, fresh_count_bound [] (length env.objects))))
          λ w _. Ends-ok w.stack
