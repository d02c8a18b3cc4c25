-- ===== src/Cc/Collect/Order.antt =====
-- RULES/cc/cc.go: the order of the libraries that `collectDepsWithToolchain` gives.
use dbt_rules.Base.{
  ℕ, zero, suc, String, ◌≡◌, ◌≢◌, refl, sym, ◌∙◌, true, false, List, [], ◌∷◌, map, none, some, elem,
  length, arith, ◌==◌, nat_eq, string_eq, Bool-cases, inl, inr, Result, ok, >>=-eq-ok, ok-elim,
}
use dbt_rules.Base.Map.{index, insert, lookup, index-insert}
use dbt_rules.Core.Input.{fatal}
use dbt_rules.Core.Path.{out_path, absolute}
use dbt_rules.Cc.Toolchain.{Dep, Toolchain}
use dbt_rules.Cc.Library.{Library, Env, resolve}
use dbt_rules.Cc.Collect.{Walk, walk_each, lib_path, enter, visit_lib, collect_rec, collect_deps}

module _ (env : Env) (target : String) (tc : Toolchain) where
  -- The path that a library is marked by.
  abbrev pub path_of : Library → String
  path_of lib = elim lib.out [ none ↦ "" | some o ↦ absolute env.input (out_path o) ]

  abbrev pub names : List Library → List String
  names libs = map path_of libs

  -- The library of a dependency is in the list.
  abbrev pub IsIn : List Library → Dep → Type 0
  IsIn libs dep =
      (lib : Library) × (resolve env target tc dep ≡ ok lib)
      × (elem (path_of lib) (names libs) ≡ true)

  abbrev pub AllIn : List Library → List Dep → Type 0
  AllIn libs [] = Unit
  AllIn libs (dep ∷ deps) = IsIn libs dep × AllIn libs deps

  -- No path twice, and the dependencies of each library behind it.
  abbrev pub IsOrdered : List Library → Type 0
  IsOrdered [] = Unit
  IsOrdered (lib ∷ libs) =
      (elem (path_of lib) (names libs) ≡ false) × AllIn libs lib.deps × IsOrdered libs

  pub record Inv (w : Walk) : Type 0 where
    pub marks : (p : String) → (index 0 w.visited p == 2) ≡ elem p (names w.stack)
    pub ordered : IsOrdered w.stack

  pub record Grows (w w' : Walk) : Type 0 where
    pub keeps : (p : String) → elem p (names w.stack) ≡ true → elem p (names w'.stack) ≡ true
    pub open_marks : (p : String) → index 0 w.visited p ≡ 1 → index 0 w'.visited p ≡ 1

  Grows-refl : (w : Walk) → Grows w w
  Grows-refl w = record { keeps = λ p h. h; open_marks = λ p h. h }

  Grows-trans : {u v w : Walk} → Grows u v → Grows v w → Grows u w
  Grows-trans a b = record {
    keeps = λ p h. b.keeps p (a.keeps p h);
    open_marks = λ p h. b.open_marks p (a.open_marks p h);
  }

  IsIn-Grows : {w w' : Walk} (dep : Dep) → Grows w w' → IsIn w.stack dep → IsIn w'.stack dep
  IsIn-Grows dep g (lib, e, m) = (lib, e, g.keeps _ m)

  -- What a visit of one dependency must give.
  abbrev Good : (Dep → Walk → Result Walk) → Type 0
  Good visit =
      (dep : Dep) (w w' : Walk)
      → Inv w
      → visit dep w ≡ ok w'
      → Inv w' × Grows w w' × IsIn w'.stack dep

  walk_each-Good :
      (visit : Dep → Walk → Result Walk)
      → Good visit
      → (deps : List Dep) (w w' : Walk) → Inv w
      → walk_each visit deps w ≡ ok w'
      → Inv w' × Grows w w' × AllIn w'.stack deps
  unfolding walk_each
  walk_each-Good visit good [] w w' inv h =
      ok-elim (λ x. Inv x × Grows w x × Unit) h (inv, Grows-refl w, tt)
  walk_each-Good visit good (dep ∷ deps) w w' inv h =
      let (w1, e1, e2) = >>=-eq-ok (visit dep w) (walk_each visit deps) h in
      let (inv1, g1, in1) = good dep w w1 inv e1 in
      let (inv2, g2, in2) = walk_each-Good visit good deps w1 w' inv1 e2 in
      (inv2, Grows-trans g1 g2, (IsIn-Grows dep g2 in1, in2))

  module _ (lib : Library) (path : String) (named : path_of lib ≡ path) where
    opened : Walk → Walk
    opened w = record w { visited = insert path 1 w.visited }

    Inv-opened : (w : Walk) → Inv w → index 0 w.visited path ≢ 2 → Inv (opened w)
    unfolding opened
    Inv-opened w inv fresh = record {
      marks = λ p.
          ground (arith, index-insert path p 0 1 w.visited, string_eq.beq_iff path p, inv.marks p);
      ordered = inv.ordered;
    }

    closed : Walk → Walk
    closed w = record { visited = insert path 2 w.visited; stack = lib ∷ w.stack }

    Inv-closed :
        (w : Walk) → Inv w → index 0 w.visited path ≡ 1 → AllIn w.stack lib.deps → Inv (closed w)
    unfolding closed
    Inv-closed w inv mark below = record {
      marks = λ p.
          ground (
            arith,
            named,
            index-insert path p 0 2 w.visited,
            string_eq.beq_iff path p,
            inv.marks p,
          );
      ordered = (ground (arith, named, inv.marks path), below, inv.ordered);
    }

    Grows-enter :
        (w w' : Walk) → index 0 w.visited path ≢ 1 → Grows (opened w) w' → Grows w (closed w')
    unfolding opened closed
    Grows-enter w w' fresh g = record {
      keeps = λ p h. ground (arith, g.keeps p h);
      open_marks = λ p h. ground (
        arith,
        index-insert path p 0 2 w'.visited,
        index-insert path p 0 1 w.visited,
        string_eq.beq_iff path p,
        g.open_marks p,
      );
    }

    Shown : Walk → Walk → Type 0
    Shown w w' = Inv w' × Grows w w' × (elem path (names w'.stack) ≡ true)

    enter-Shown :
        (visit : Dep → Walk → Result Walk)
        → Good visit
        → (w w' : Walk) → Inv w
        → index 0 w.visited path ≢ 1
        → index 0 w.visited path ≢ 2
        → enter env target tc visit lib path w ≡ ok w'
        → Shown w w'
    unfolding enter opened closed Shown
    enter-Shown visit good w w' inv ne1 ne2 h =
        let (w1, e1, e2) = >>=-eq-ok (walk_each visit lib.deps (opened w)) (λ x. ok (closed x)) h in
        let (inv1, g1, below) =
          walk_each-Good visit good lib.deps (opened w) w1 (Inv-opened w inv ne2) e1 in
        let mark : index 0 w1.visited path ≡ 1 =
          g1.open_marks path
            (ground (arith, index-insert path path 0 1 w.visited, string_eq.beq_iff path path)) in
        ok-elim (Shown w) e2 (
          Inv-closed w1 inv1 mark below,
          Grows-enter w w1 ne1 g1,
          ground (arith, named, string_eq.beq_iff path path),
        )

    visit_lib-Shown :
        env.input.completions_only ≡ false
        → (visit : Dep → Walk → Result Walk) → Good visit
        → (w w' : Walk) → Inv w
        → visit_lib env target tc visit lib path w ≡ ok w'
        → Shown w w'
    unfolding visit_lib Shown
    visit_lib-Shown live visit good w w' inv h = elim (Bool-cases (index 0 w.visited path == 2)) [
      | inl done ↦
          ok-elim (Shown w) (sym (rw (done, visit_lib)) ∙ h)
            (inv, Grows-refl w, sym (inv.marks path) ∙ done)
      | inr new ↦ elim (Bool-cases (index 0 w.visited path == 1)) [
        | inl loop ↦ absurd (unfold fatal in ground (arith, live, new, loop, h))
        | inr fresh ↦
            enter-Shown visit good w w' inv (ground (arith, fresh)) (ground (arith, new))
              (ground (arith, new, fresh, h))
      ]
    ]

  pub lib_path-path_of :
      (lib : Library) {p : String} → lib_path env target tc lib ≡ ok p → path_of lib ≡ p
  unfolding lib_path
  lib_path-path_of lib h = ground arith

  module _ (live : env.input.completions_only ≡ false) where
    collect_rec-Good : (fuel : ℕ) → Good (collect_rec env target tc fuel)
    unfolding collect_rec Shown
    collect_rec-Good zero dep w w' inv h = cc
    collect_rec-Good (suc fuel) dep w w' inv h =
        let (lib, e1, h1) = >>=-eq-ok (resolve env target tc dep) _ h in
        let (path, e2, h2) =
          >>=-eq-ok (lib_path env target tc lib)
            (λ path. visit_lib env target tc (collect_rec env target tc fuel) lib path w) h1 in
        let named = lib_path-path_of lib e2 in
        let (inv', g, here) =
          visit_lib-Shown lib path named live (collect_rec env target tc fuel)
            (collect_rec-Good fuel) w w' inv h2 in
        (inv', g, (lib, e1, rw named here))

    empty_walk : Walk
    empty_walk = record { visited = []; stack = [] }

    Inv-empty : Inv empty_walk
    unfolding empty_walk lookup
    Inv-empty = record { marks = λ p. refl; ordered = tt }

    -- The libraries that are collected for a list of dependencies, in a run that is not for
    -- completions: no two have the same path, the
    -- library of each dependency that is asked for is among them, and so is that of each dependency
    -- of one of them, further back in the list.
    pub collect_deps-IsOrdered :
        (deps : List Dep) (libs : List Library)
        → collect_deps env target tc deps ≡ ok libs
        → IsOrdered libs × AllIn libs deps
    unfolding collect_deps empty_walk
    collect_deps-IsOrdered deps libs h =
        let visit = collect_rec env target tc (suc (length env.objects)) in
        let (w, e1, e2) = >>=-eq-ok (walk_each visit deps empty_walk) (λ w. ok w.stack) h in
        let (inv, _, all) =
          walk_each-Good visit (collect_rec-Good (suc (length env.objects))) deps empty_walk w
            Inv-empty e1 in
        ok-elim (λ libs. IsOrdered libs × AllIn libs deps) e2 (inv.ordered, all)
