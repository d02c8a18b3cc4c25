-- ===== src/Hdl/Simulation/Selection/Chain.antt =====
-- RULES/hdl/questa.go and xsim.go: the rounds that a run makes.
use dbt_rules.Base.{
  String, ◌<>◌, ◌≡◌, refl, sym, ap, ◌∙◌, Bool, true, false, List, [], ◌∷◌, ◌++◌, if◌then◌else◌,
  Result, ok, ◌>>=◌, bind_assoc, bind_cong,
}
use dbt_rules.Hdl.Simulation.Selection.{chain, chain_params, chain_testcases}

-- All pairs of a test case and a parameter set, set by set.
abbrev pub with_param : String → List String → List (String × String)
with_param param [] = []
with_param param (testcase ∷ testcases) = (testcase, param) ∷ with_param param testcases

abbrev pub pairs : List String → List String → List (String × String)
pairs testcases [] = []
pairs testcases (param ∷ params) = with_param param testcases ++ pairs testcases params

abbrev pub first_pair : List (String × String) → List (String × String)
first_pair [] = []
first_pair (p ∷ ps) = p ∷ []

module _ (run : String → String → Result String) where
  -- The commands of the pairs, one behind the other. The first failure is the result.
  pub run_pairs : List (String × String) → String → Result String
  run_pairs [] cmd = ok cmd
  run_pairs ((testcase, param) ∷ ps) cmd = do
    next ← run testcase param
    run_pairs ps (cmd <> " && " <> next)

  run_pairs-append :
      (ps qs : List (String × String)) (cmd : String)
      → run_pairs (ps ++ qs) cmd ≡ (run_pairs ps cmd >>= λ c. run_pairs qs c)
  unfolding run_pairs
  run_pairs-append [] qs cmd = refl
  run_pairs-append ((t, p) ∷ ps) qs cmd =
      bind_cong (run t p) (λ next. run_pairs-append ps qs (cmd <> " && " <> next))
      ∙ sym (
          bind_assoc (run t p) (λ next. run_pairs ps (cmd <> " && " <> next)) (λ c. run_pairs qs c))

  batch_testcases :
      (param : String) (testcases : List String) (cmd : String)
      → chain_testcases run false param testcases cmd ≡ run_pairs (with_param param testcases) cmd
  unfolding chain_testcases run_pairs
  batch_testcases param [] cmd = refl
  batch_testcases param (t ∷ ts) cmd =
      bind_cong (run t param) (λ next. batch_testcases param ts (cmd <> " && " <> next))

  batch_params :
      (testcases params : List String) (cmd : String)
      → chain_params run false testcases params cmd ≡ run_pairs (pairs testcases params) cmd
  unfolding chain_params run_pairs
  batch_params ts [] cmd = refl
  batch_params ts (p ∷ ps) cmd =
      ap (λ r. r >>= λ c. chain_params run false ts ps c) (batch_testcases p ts cmd)
      ∙ bind_cong (run_pairs (with_param p ts) cmd) (λ c. batch_params ts ps c)
      ∙ sym (run_pairs-append (with_param p ts) (pairs ts ps) cmd)

  gui_testcases :
      (param : String) (testcases : List String) (cmd : String)
      → chain_testcases run true param testcases cmd
        ≡ run_pairs (first_pair (with_param param testcases)) cmd
  unfolding chain_testcases run_pairs
  gui_testcases param [] cmd = refl
  gui_testcases param (t ∷ ts) cmd = refl

  -- In a batch run each selected test case is run with each selected parameter set, set by set and
  -- in their order, and in a run with the GUI the first test case with the first set alone. The
  -- commands stand behind one another, joined by "&&", and the first failure ends the run. At least
  -- one test case is selected.
  pub chain-pairs :
      (testcase : String) (testcases params : List String) (gui : Bool)
      → chain run gui (record { testcases = testcase ∷ testcases; params = params })
        ≡ run_pairs
            (let all = pairs (testcase ∷ testcases) params in if gui then first_pair all else all)
            "{ :; }"
  unfolding chain
  chain-pairs t ts ps false = batch_params (t ∷ ts) ps "{ :; }"
  chain-pairs t ts [] true = unfold chain_params run_pairs in refl
  chain-pairs t ts (p ∷ ps) true =
      unfold chain_params chain_testcases run_pairs in
      bind_assoc (run t p) (λ next. ok ("{ :; }" <> " && " <> next)) ok
