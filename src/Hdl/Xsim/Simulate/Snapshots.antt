-- ===== src/Hdl/Xsim/Simulate/Snapshots.antt =====
-- RULES/hdl/xsim.go: the snapshots that a build makes and those that a run starts.
use dbt_rules.Base.{
  ℕ, suc, String, ◌<>◌, ◌≡◌, refl, sym, ap, ◌∙◌, inl, inr, true, false, none, some, List, [], ◌∷◌,
  map, arith, get_elem?, elem, ◌==◌, string_eq, Bool-cases, Option-cases, ok, ok-elim, >>=-eq-ok,
}
use dbt_rules.Base.Map.{keys, has, lookup, elem-keys}
use dbt_rules.Core.Path.{OutPath, out_path, absolute}
use dbt_rules.Core.Step.{step_outs}
use dbt_rules.Core.Template.{compile_template}
use dbt_rules.Core.Context.{Context}
use dbt_rules.Core.Context.AddBuildStep.{add_build_step}
use dbt_rules.Core.Context.Growth.{
  Registered, Grows, add_build_step-Grows, add_build_step-Registered,
}
use dbt_rules.Hdl.Simulation.{Simulation, ParamMap, Host, param_map}
use dbt_rules.Hdl.Simulation.Selection.{Selected, select}
use dbt_rules.Hdl.Simulation.Selection.Defined.{Defined, select-AllDefined}
use dbt_rules.Hdl.Xsim.Elaborate.{
  Snapshot, snapshot, snapshots_of, snapshots, set_args, elaborate_snapshots, elaborate, tcl_file,
  build_xsim,
}
use dbt_rules.Hdl.Xsim.Project.{create_prj_file}
use dbt_rules.Hdl.Xsim.Simulate.{snapshot_name}

module _ (rule : Simulation) where
  -- The names of the snapshots that a build makes.
  abbrev pub built : List String
  built = map (λ s. s.target) (snapshots rule)

  set_name : String → String
  set_name key = rule.name <> "_" <> key

  map_target : (l : List String) → map (λ s. s.target) (map (snapshot rule) l) ≡ map set_name l
  unfolding snapshot set_name
  map_target [] = refl
  map_target (key ∷ l) = ap (λ r. (rule.name <> "_" <> key) ∷ r) (map_target l)

  elem-map_name :
      (l : List String) (name : String)
      → elem name l ≡ true
      → elem (set_name name) (map set_name l) ≡ true
  elem-map_name [] name h = cc
  elem-map_name (key ∷ l) name h = elim (Bool-cases (key == name)) [
    | inl e ↦
        let same = (string_eq.beq_iff key name).0 e in
        rw (sym same) (rw ((string_eq.beq_iff (set_name key) (set_name key)).1 refl) refl)
    | inr e ↦ ground (arith, elem-map_name l name, e)
  ]

  built-some : (m : ParamMap) → rule.params ≡ some m → built ≡ map set_name (keys m)
  unfolding snapshots snapshots_of
  built-some m e = ap (λ o. map (λ s. s.target) (snapshots_of rule o)) e ∙ map_target (keys m)

  built-none : rule.params ≡ none → built ≡ rule.name ∷ []
  unfolding snapshots snapshots_of
  built-none e = ap (λ o. map (λ s. s.target) (snapshots_of rule o)) e

  snapshot_name-named :
      (name : String)
      → has "" (param_map rule) ≡ false
      → has name (param_map rule) ≡ true
      → snapshot_name rule name ≡ set_name name
  unfolding snapshot_name set_name
  snapshot_name-named name h known = elim (Bool-cases (name == "")) [
    | inl e ↦ cc (rw ((string_eq.beq_iff name "").0 e) at known)
    | inr e ↦ rw e refl
  ]

  entries_known :
      (name : String) (m : ParamMap)
      → rule.params ≡ some m
      → has name (param_map rule) ≡ true
      → elem name (keys m) ≡ true
  entries_known name m e known = elem-keys name m ∙ (rw e at known)

  snapshot_name-built :
      (name : String)
      → has "" (param_map rule) ≡ false
      → Defined rule name
      → elem (snapshot_name rule name) built ≡ true
  unfolding snapshot_name lookup
  snapshot_name-built name h (inl (empty, e)) =
      rw (built-none e, empty) (ground (arith, (string_eq.beq_iff rule.name rule.name).1 refl))
  snapshot_name-built name h (inr known) = elim (Option-cases rule.params) [
    | inl e ↦ cc (rw e at known)
    | inr (m, e) ↦
        rw (built-some m e, snapshot_name-named name h known)
          (elem-map_name (keys m) name (entries_known name m e known))
  ]

-- A snapshot of the list with this target, whose log file stands for a build step.
abbrev pub Elaborated : Host → List Snapshot → String → Context → Type 0
Elaborated host l target ctx =
    (s : Snapshot) × (i : ℕ) × (get_elem? l i ≡ some s)
    × (s.target ≡ target)
    × Registered ctx (absolute host.input (out_path s.log_file))

module _ (host : Host) (rule : Simulation) where
  elaborate_snapshots-Grows :
      (prj : OutPath) (l : List Snapshot) (ctx ctx' : Context)
      → elaborate_snapshots host rule prj l ctx ≡ ok ctx'
      → Grows ctx ctx'
  unfolding elaborate_snapshots
  elaborate_snapshots-Grows prj [] ctx ctx' h k there = ok-elim (λ c. Registered c k) h there
  elaborate_snapshots-Grows prj (s ∷ l) ctx ctx' h k there =
      let (generics, _, h1) = >>=-eq-ok (set_args rule s.params) _ h in
      let (ctx1, e1, h2) = >>=-eq-ok (add_build_step host.input host.os _ ctx) _ h1 in
      elaborate_snapshots-Grows prj l ctx1 ctx' h2 k
        (add_build_step-Grows host.input host.os _ ctx ctx1 e1 k there)

  elaborate_snapshots-Elaborated :
      (prj : OutPath) (l : List Snapshot) (ctx ctx' : Context) (target : String)
      → elaborate_snapshots host rule prj l ctx ≡ ok ctx'
      → elem target (map (λ s. s.target) l) ≡ true
      → Elaborated host l target ctx'
  unfolding elaborate_snapshots step_outs
  elaborate_snapshots-Elaborated prj [] ctx ctx' target h there = cc
  elaborate_snapshots-Elaborated prj (s ∷ l) ctx ctx' target h there =
      let (generics, _, h1) = >>=-eq-ok (set_args rule s.params) _ h in
      let (ctx1, e1, h2) = >>=-eq-ok (add_build_step host.input host.os _ ctx) _ h1 in
      elim (Bool-cases (s.target == target)) [
        | inl e ↦ (
          s,
          0,
          refl,
          (string_eq.beq_iff s.target target).0 e,
          elaborate_snapshots-Grows prj l ctx1 ctx' h2 _
              (add_build_step-Registered host.input host.os s.log_file _ ctx ctx1 refl e1),
        )
        | inr e ↦
            let (found, i, at, same, log) =
              elaborate_snapshots-Elaborated prj l ctx1 ctx' target h2 (ground (arith, e, there)) in
            (found, suc i, at, same, log)
      ]

  elaborate-Elaborated :
      (prj : OutPath) (ctx ctx' : Context) (target : String)
      → elaborate host rule prj ctx ≡ ok ctx'
      → elem target (built rule) ≡ true
      → Elaborated host (snapshots rule) target ctx'
  unfolding elaborate
  elaborate-Elaborated prj ctx ctx' target h there =
      elaborate_snapshots-Elaborated prj (snapshots rule) ctx ctx' target h there

  build_xsim-Elaborated :
      (ctx ctx' : Context) (target : String)
      → build_xsim host rule ctx ≡ ok ctx'
      → elem target (built rule) ≡ true
      → Elaborated host (snapshots rule) target ctx'
  unfolding build_xsim tcl_file
  build_xsim-Elaborated ctx ctx' target h there =
      let ((prj, ctx1), _, h1) = >>=-eq-ok (create_prj_file host rule ctx) _ h in
      let (ctx2, e2, h2) = >>=-eq-ok (elaborate host rule prj ctx1) _ h1 in
      let (text, _, h3) = >>=-eq-ok (compile_template _ _ _ _ _ _) _ h2 in
      let (s, i, at, same, log) = elaborate-Elaborated prj ctx1 ctx2 target e2 there in
      (s, i, at, same, add_build_step-Grows host.input host.os _ ctx2 ctx' h3 _ log)

  -- If no parameter set is named by the empty text: behind a build of the rule that succeeds, each
  -- parameter set that the arguments of a run select is run from a snapshot of the build, and the
  -- log file of that snapshot's elaboration stands for a build step.
  pub build_xsim-select :
      (ctx ctx' : Context) (args : List String) (sel : Selected)
      → has "" (param_map rule) ≡ false
      → build_xsim host rule ctx ≡ ok ctx'
      → select host rule (keys (param_map rule)) args ≡ ok sel
      → (name : String) → elem name sel.params ≡ true
      → Elaborated host (snapshots rule) (snapshot_name rule name) ctx'
  build_xsim-select ctx ctx' args sel h b p name there =
      build_xsim-Elaborated ctx ctx' (snapshot_name rule name) b (
        snapshot_name-built rule name h
          (select-AllDefined rule host (keys (param_map rule)) args sel (inr refl) p name there))
