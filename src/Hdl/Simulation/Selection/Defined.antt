-- ===== src/Hdl/Simulation/Selection/Defined.antt =====
-- RULES/hdl/questa.go and xsim.go: the parameter sets that are selected are those of the rule.
use dbt_rules.Base.{
  String, ◌<>◌, ◌≡◌, refl, sym, ap, ◌∙◌, ◌⊎◌, inl, inr, Bool, true, ◌&&◌, Option, none, some, List,
  [], ◌∷◌, ◌++◌, arith, elem, elem-append, ◌==◌, string_eq, Bool-cases, Option-cases, if◌then◌else◌,
  Result, ok, fail, ◌>>=◌, >>=-eq-ok,
}
use dbt_rules.Base.Map.{keys, has, lookup, elem-keys}
use dbt_rules.Base.Sort.{elem-sort_strings}
use dbt_rules.Base.Text.{has_prefix, split, replace_char}
use dbt_rules.Hdl.Simulation.{
  Simulation, ParamMap, Host, param_map, sorted_params, target, check_params,
}
use dbt_rules.Hdl.Simulation.Scan.{scan_string}
use dbt_rules.Hdl.Simulation.Selection.{
  Selected, select, select_arg, select_args, add_testcases, add_params, known_params, is_some,
  chosen_params, chosen_testcases,
}

-- A name that a run may take: that of a set of the rule, or the empty one where it has no sets.
abbrev pub Defined : Simulation → String → Type 0
Defined rule name = ((name ≡ "") × (rule.params ≡ none)) ⊎ (has name (param_map rule) ≡ true)

abbrev pub AllDefined : Simulation → List String → Type 0
AllDefined rule names = (name : String) → elem name names ≡ true → Defined rule name

abbrev pub target_name : Simulation → String → Bool → String
unfolding replace_char
target_name rule name coverage =
    let suffix = if coverage then "_cover" else "" in
    let own = replace_char b'-' "_" rule.name in
    if name == "" then own <> suffix else own <> "_" <> name <> suffix

entries : Option ParamMap → ParamMap
entries none = []
entries (some m) = m

check_params_known :
    (rule : Simulation) (o : Option ParamMap) (name : String)
    → rule.params ≡ o
    → has name (entries o) ≡ true
    → check_params rule name ≡ ok tt
unfolding check_params lookup entries
check_params_known rule none name e h = cc
check_params_known rule (some m) name e h = rw e (rw h refl)

param_map-entries : (rule : Simulation) → param_map rule ≡ entries rule.params
unfolding entries
param_map-entries rule = elim (Option-cases rule.params) [
  | inl e ↦ rw e refl
  | inr (m, e) ↦ rw e refl
]

target_total :
    (rule : Simulation) (name : String) (coverage : Bool)
    → Defined rule name
    → target rule name coverage ≡ ok (target_name rule name coverage)
unfolding target
target_total rule name coverage (inl (empty, e)) = ground (arith, string_eq.beq_iff name "")
target_total rule name coverage (inr known) = elim (Bool-cases (name == "")) [
  | inl e ↦ rw e refl
  | inr e ↦ rw e (
      rw
        (check_params_known rule rule.params name refl
          (sym (ap (has name) (param_map-entries rule)) ∙ known))
        refl)
]

known_params-has :
    (m : ParamMap) (names : List String) (k : String)
    → elem k (known_params m names) ≡ true
    → has k m ≡ true
unfolding known_params
known_params-has m [] k h = cc
known_params-has m (name ∷ names) k h = elim (Bool-cases (has name m)) [
  | inl e ↦ ground (arith, known_params-has m names k, string_eq.beq_iff name k, e)
  | inr e ↦ known_params-has m names k (rw e at h)
]

module _ (rule : Simulation) where
  add_params-AllDefined :
      (m : ParamMap) (arg : Option String) (sel sel' : Selected)
      → rule.params ≡ some m
      → AllDefined rule sel.params
      → add_params m arg sel ≡ ok sel'
      → AllDefined rule sel'.params
  unfolding add_params
  add_params-AllDefined m none sel sel' e h p = cc
  add_params-AllDefined m (some arg) sel sel' e h p = λ k there.
      let same : sel'.params ≡ sel.params ++ known_params m (split b',' arg) = cc in
      let either =
        sym (elem-append k sel.params (known_params m (split b',' arg)))
        ∙ ap (elem k) (sym same)
        ∙ there in
      elim (Bool-cases (elem k sel.params)) [
        | inl old ↦ h k old
        | inr new ↦ inr (rw e (known_params-has m (split b',' arg) k (ground (arith, either, new))))
      ]

  add_testcases-params :
      (arg : Option String) (sel sel' : Selected)
      → add_testcases arg sel ≡ ok sel'
      → sel'.params ≡ sel.params
  unfolding add_testcases
  add_testcases-params none sel sel' p = cc
  add_testcases-params (some arg) sel sel' p = cc

  known_arg :
      (o : Option ParamMap) (arg : String) (sel sel' : Selected)
      → rule.params ≡ o
      → AllDefined rule sel.params
      → elim o [ none ↦ ok sel | some m ↦ add_params m (scan_string "-params=" arg) sel ] ≡ ok sel'
      → AllDefined rule sel'.params
  known_arg none arg sel sel' e h p = λ k there. h k (cc)
  known_arg (some m) arg sel sel' e h p =
      add_params-AllDefined m (scan_string "-params=" arg) sel sel' e h p

  select_arg-AllDefined :
      (arg : String) (sel sel' : Selected)
      → AllDefined rule sel.params
      → select_arg rule arg sel ≡ ok sel'
      → AllDefined rule sel'.params
  unfolding select_arg
  select_arg-AllDefined arg sel sel' h p =
      elim (Bool-cases (has_prefix arg "-testcases=" && is_some rule.test_case_generator)) [
        | inl t ↦
            let same =
              add_testcases-params (scan_string "-testcases=" arg) sel sel'
                (rw (t, select_arg) at p) in
            λ k there. h k (ap (elem k) (sym same) ∙ there)
        | inr f ↦ elim (Bool-cases (has_prefix arg "-params=")) [
          | inl t ↦ known_arg rule.params arg sel sel' refl h (rw (f, t, select_arg) at p)
          | inr g ↦ λ k there. h k (cc (rw (f, g, select_arg) at p))
        ]
      ]

  select_args-AllDefined :
      (args : List String) (sel sel' : Selected)
      → AllDefined rule sel.params
      → select_args rule args sel ≡ ok sel'
      → AllDefined rule sel'.params
  unfolding select_args
  select_args-AllDefined [] sel sel' h p = λ k there. h k (cc)
  select_args-AllDefined (arg ∷ args) sel sel' h p =
      let (mid, first, rest) = >>=-eq-ok _ _ p in
      select_args-AllDefined args mid sel' (select_arg-AllDefined arg sel mid h first) rest

  only_empty : (name : String) → elem name ("" ∷ []) ≡ true → name ≡ ""
  only_empty name h = ground (arith, string_eq.beq_iff "" name)

  chosen_params-AllDefined :
      (all names : List String)
      → AllDefined rule all
      → AllDefined rule names
      → AllDefined rule (chosen_params rule all names)
  unfolding chosen_params
  chosen_params-AllDefined all [] h k = elim (Option-cases rule.params) [
    | inl e ↦ λ name there. inl (only_empty name (rw (e, chosen_params) at there), e)
    | inr (m, e) ↦ λ name there. h name (rw e at there)
  ]
  chosen_params-AllDefined all (name ∷ names) h k = k

  same_params :
      (r : Result (List String)) (params : List String) (sel : Selected)
      → (r >>= λ t. ok (record { testcases = t; params = params })) ≡ ok sel
      → params ≡ sel.params
  same_params (ok t) params sel e = cc
  same_params (fail e) params sel h = cc

  -- The two orders in which the simulators take all sets.
  abbrev pub IsOrder : List String → Type 0
  IsOrder all = (all ≡ sorted_params rule) ⊎ (all ≡ keys (param_map rule))

  IsOrder-AllDefined : (all : List String) → IsOrder all → AllDefined rule all
  unfolding sorted_params
  IsOrder-AllDefined all (inl e) = λ k there. inr (
      sym (elem-keys k (param_map rule))
      ∙ sym (elem-sort_strings k (keys (param_map rule)))
      ∙ ap (elem k) (sym e)
      ∙ there)
  IsOrder-AllDefined all (inr e) =
      λ k there. inr (sym (elem-keys k (param_map rule)) ∙ ap (elem k) (sym e) ∙ there)

  pub select-AllDefined :
      (host : Host) (all args : List String) (sel : Selected)
      → IsOrder all
      → select host rule all args ≡ ok sel
      → AllDefined rule sel.params
  unfolding select
  select-AllDefined host all args sel order p name there =
      let (chosen, selected, rest) = >>=-eq-ok _ _ p in
      let defined = chosen_params-AllDefined all chosen.params (IsOrder-AllDefined all order) (
        select_args-AllDefined args (record { testcases = []; params = [] }) chosen (λ k e. cc)
          selected) in
      defined name (
        ap (elem name) (same_params (chosen_testcases host rule chosen.testcases) _ sel rest)
        ∙ there)

  -- Whatever the arguments are, each parameter set that a run selects is one that the rule has, or
  -- none, so that the run's target has a name and is no error. This holds for both orders in which
  -- the simulators take all sets.
  pub select-target :
      (host : Host) (all args : List String) (sel : Selected) (coverage : Bool)
      → IsOrder all
      → select host rule all args ≡ ok sel
      → (name : String) → elem name sel.params ≡ true
      → target rule name coverage ≡ ok (target_name rule name coverage)
  select-target host all args sel coverage order p name there =
      target_total rule name coverage (select-AllDefined host all args sel order p name there)
