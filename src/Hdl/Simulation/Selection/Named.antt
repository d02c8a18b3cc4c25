-- ===== src/Hdl/Simulation/Selection/Named.antt =====
-- RULES/hdl/questa.go and xsim.go: what a run selects that names test cases and parameter sets.
use text.Mathlib.TextLemmas.{cons-append}
use text.Mathlib.TextEquality.{starts_with_iff}
use dbt_rules.Base.{
  ℕ, String, ◌<>◌, ◌≡◌, ◌≢◌, refl, sym, ap, ap₂, ◌∙◌, inl, inr, true, false, some, List, [], ◌∷◌,
  ◌++◌, ◌==◌, nat_eq, string_eq, Bool-cases, arith, elem, map, append-nil, append_assoc, ◌>>=◌,
  if◌then◌else◌, ok, code,
}
use dbt_rules.Base.Map.{keys, has, elem-keys}
use dbt_rules.Base.Text.{has_prefix, split}
use dbt_rules.Hdl.Simulation.{Simulation, ParamMap, Host}
use dbt_rules.Hdl.Simulation.Scan.Values.{NoSpace, scan_string_value}
use dbt_rules.Hdl.Simulation.Selection.{
  Selected, select, select_arg, select_args, add_testcases, add_params, known_params, is_some,
  chosen_params, chosen_testcases,
}

second_code : String → ℕ
second_code String.[] = 0
second_code (String.◌∷◌ c String.[]) = 0
second_code (String.◌∷◌ c (String.◌∷◌ d s)) = code d

second_code-append :
    (p v : String) → (second_code p == 0) ≡ false → second_code (p <> v) ≡ second_code p
unfolding second_code
second_code-append String.[] v h = cc
second_code-append (String.◌∷◌ c String.[]) v h = cc
second_code-append (String.◌∷◌ c (String.◌∷◌ d p)) v h =
    rw (cons-append c (String.◌∷◌ d p) v, cons-append d p v) refl

has_own_prefix : (p v : String) → has_prefix (p <> v) p ≡ true
has_own_prefix p v = (starts_with_iff (p <> v) p).1 (v, refl)

apart : second_code "-testcases=" ≢ second_code "-params="
unfolding second_code
apart e = omega (arith, e)

params_apart : (v : String) → has_prefix ("-params=" <> v) "-testcases=" ≡ false
unfolding second_code
params_apart v = elim (Bool-cases (has_prefix ("-params=" <> v) "-testcases=")) [
  | inl e ↦
      let (rest, same) = (starts_with_iff ("-params=" <> v) "-testcases=").0 e in
      let codes : second_code "-testcases=" ≡ second_code "-params=" =
        sym (second_code-append "-testcases=" rest refl)
        ∙ ap second_code same
        ∙ second_code-append "-params=" v refl in
      absurd (apart codes)
  | inr e ↦ e
]

module _ (host : Host) (rule : Simulation) where
  select_arg-testcases :
      (value : String) (sel : Selected)
      → is_some rule.test_case_generator ≡ true
      → NoSpace value
      → value ≢ ""
      → select_arg rule ("-testcases=" <> value) sel
        ≡ ok (record sel { testcases = sel.testcases ++ split b',' value })
  unfolding select_arg add_testcases
  select_arg-testcases value sel g h ne =
      rw (has_own_prefix "-testcases=" value, g, scan_string_value "-testcases=" value h ne) refl

  select_arg-params :
      (m : ParamMap) (value : String) (sel : Selected)
      → rule.params ≡ some m
      → NoSpace value
      → value ≢ ""
      → select_arg rule ("-params=" <> value) sel
        ≡ ok (record sel { params = sel.params ++ known_params m (split b',' value) })
  unfolding select_arg add_params
  select_arg-params m value sel e h ne =
      rw (params_apart value, has_own_prefix "-params=" value, e)
        (rw (scan_string_value "-params=" value h ne) refl)

-- An argument that names test cases or parameter sets, separated by commas.
pub data Choice : Type 0 where
  testcases : String → Choice
  sets : String → Choice

abbrev pub value : Choice → String
value (testcases v) = v
value (sets v) = v

abbrev pub argument : Choice → String
argument (testcases v) = "-testcases=" <> v
argument (sets v) = "-params=" <> v

-- No value is empty or has a space.
abbrev pub Readable : List Choice → Type 0
Readable [] = Unit
Readable (c ∷ cs) = (NoSpace (value c) × (value c ≢ "")) × Readable cs

abbrev pub named_testcases : List Choice → List String
named_testcases [] = []
named_testcases (testcases v ∷ cs) = split b',' v ++ named_testcases cs
named_testcases (sets v ∷ cs) = named_testcases cs

abbrev pub named_sets : List Choice → List String
named_sets [] = []
named_sets (testcases v ∷ cs) = named_sets cs
named_sets (sets v ∷ cs) = split b',' v ++ named_sets cs

-- The names of the second list that are in the first one.
abbrev pub among : List String → List String → List String
among known [] = []
among known (name ∷ names) =
    let rest = among known names in if elem name known then name ∷ rest else rest

abbrev pub or_all : List String → List String → List String
or_all all [] = all
or_all all (x ∷ xs) = x ∷ xs

among-append :
    (known xs ys : List String) → among known (xs ++ ys) ≡ among known xs ++ among known ys
among-append known [] ys = refl
among-append known (x ∷ xs) ys = elim (Bool-cases (elem x known)) [
  | inl e ↦ rw e (ap (λ l. x ∷ l) (among-append known xs ys))
  | inr e ↦ rw e (among-append known xs ys)
]

known_params-among :
    (m : ParamMap) (names : List String) → known_params m names ≡ among (keys m) names
unfolding known_params
known_params-among m [] = refl
known_params-among m (name ∷ names) = elim (Bool-cases (has name m)) [
  | inl e ↦ rw (e, elem-keys name m ∙ e) (ap (λ l. name ∷ l) (known_params-among m names))
  | inr e ↦ rw (e, elem-keys name m ∙ e) (known_params-among m names)
]

module _ (host : Host) (rule : Simulation) (m : ParamMap)
    (g : is_some rule.test_case_generator ≡ true) (e : rule.params ≡ some m) where
  -- What a list of such arguments adds to a selection.
  abbrev extended : List Choice → Selected → Selected
  extended cs sel = record {
    testcases = sel.testcases ++ named_testcases cs;
    params = sel.params ++ among (keys m) (named_sets cs);
  }

  select_args-extended :
      (cs : List Choice) (sel : Selected)
      → Readable cs
      → select_args rule (map argument cs) sel ≡ ok (extended cs sel)
  unfolding select_args
  select_args-extended [] sel h =
      ap₂ (λ t p. ok (record { testcases = t; params = p })) (sym (append-nil sel.testcases))
        (sym (append-nil sel.params))
  select_args-extended (testcases v ∷ cs) sel ((solid, full), h) =
      ap (λ r. r >>= select_args rule (map argument cs))
        (select_arg-testcases host rule v sel g solid full)
      ∙ select_args-extended cs _ h
      ∙ ap
          (λ t.
            ok (record { testcases = t; params = sel.params ++ among (keys m) (named_sets cs) }))
          (append_assoc sel.testcases (split b',' v) (named_testcases cs))
  select_args-extended (sets v ∷ cs) sel ((solid, full), h) =
      ap (λ r. r >>= select_args rule (map argument cs))
        (select_arg-params host rule m v sel e solid full)
      ∙ select_args-extended cs _ h
      ∙ ap (λ p. ok (record { testcases = sel.testcases ++ named_testcases cs; params = p }))
          (append_assoc sel.params (known_params m (split b',' v)) _
            ∙ ap (λ l. sel.params ++ l)
                (ap (λ l. l ++ among (keys m) (named_sets cs)) (known_params-among m (split b',' v))
                  ∙ sym (among-append (keys m) (split b',' v) (named_sets cs))))

  chosen_params-or_all : (all names : List String) → chosen_params rule all names ≡ or_all all names
  unfolding chosen_params
  chosen_params-or_all all [] = rw e refl
  chosen_params-or_all all (x ∷ xs) = refl

  pub select-named :
      (all : List String) (cs : List Choice) (t : String) (ts : List String)
      → Readable cs
      → named_testcases cs ≡ t ∷ ts
      → select host rule all (map argument cs)
        ≡ ok (record { testcases = t ∷ ts; params = or_all all (among (keys m) (named_sets cs)) })
  unfolding select chosen_testcases
  select-named all cs t ts h named =
      let start : Selected = record { testcases = []; params = [] } in
      ap
        (λ r. r >>= λ sel. chosen_testcases host rule sel.testcases >>= λ l.
          ok (record { testcases = l; params = chosen_params rule all sel.params }))
        (select_args-extended cs start h)
      ∙ ap
          (λ l. chosen_testcases host rule l >>= λ r. ok (record {
            testcases = r;
            params = chosen_params rule all (among (keys m) (named_sets cs));
          }))
          named
      ∙ ap (λ p. ok (record { testcases = t ∷ ts; params = p }))
          (chosen_params-or_all all (among (keys m) (named_sets cs)))
