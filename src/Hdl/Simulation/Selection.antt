-- ===== src/Hdl/Simulation/Selection.antt =====
-- RULES/hdl/questa.go and xsim.go: the parameter sets and test cases that the arguments select, and
-- the chain of their commands. The two simulators have the same code, but for the order in which
-- they take all parameter sets.
pub mod Defined
pub mod Chain
pub mod Named
use dbt_rules.Base.{
  String, ◌<>◌, Bool, true, false, ◌&&◌, Option, none, some, List, [], ◌∷◌, ◌++◌, ◌==◌, string_eq,
  if◌then◌else◌, Result, ok, ◌>>=◌,
}
use dbt_rules.Base.Map.{has}
use dbt_rules.Base.Text.{has_prefix, split}
use dbt_rules.Core.Input.{Outcome, done, error}
use dbt_rules.Core.Path.{absolute}
use dbt_rules.Hdl.Simulation.{Simulation, ParamMap, Host, log_fatal}
use dbt_rules.Hdl.Simulation.Scan.{scan_string}

pub record Selected : Type 0 where
  pub testcases : List String
  pub params : List String

abbrev pub is_some {ℓ} : {A : Type ℓ} → Option A → Bool
is_some none = false
is_some (some a) = true

unfoldable pub known_params : ParamMap → List String → List String
known_params m [] = []
known_params m (param ∷ params) =
    let rest = known_params m params in if has param m then param ∷ rest else rest

unfoldable pub add_testcases : Option String → Selected → Result Selected
unfolding split
add_testcases none sel = log_fatal "-testcases expects a string argument!"
add_testcases (some arg) sel = ok (record sel { testcases = sel.testcases ++ split b',' arg })

unfoldable pub add_params : ParamMap → Option String → Selected → Result Selected
unfolding split known_params
add_params m none sel = log_fatal "-params expects a string argument!"
add_params m (some arg) sel =
    ok (record sel { params = sel.params ++ known_params m (split b',' arg) })

-- One argument.
unfoldable pub select_arg : Simulation → String → Selected → Result Selected
unfolding add_testcases add_params scan_string
select_arg rule arg sel =
    if has_prefix arg "-testcases=" && is_some rule.test_case_generator
    then add_testcases (scan_string "-testcases=" arg) sel
    else if has_prefix arg "-params="
    then elim rule.params [ none ↦ ok sel | some m ↦ add_params m (scan_string "-params=" arg) sel ]
    else ok sel

unfoldable pub select_args : Simulation → List String → Selected → Result Selected
unfolding select_arg
select_args rule [] sel = ok sel
select_args rule (arg ∷ args) sel = do sel' ← select_arg rule arg sel; select_args rule args sel'

-- The selected sets; all of them, in the order `all`, where none is selected.
unfoldable pub chosen_params : Simulation → List String → List String → List String
chosen_params rule all [] = elim rule.params [ none ↦ "" ∷ [] | some m ↦ all ]
chosen_params rule all (param ∷ params) = param ∷ params

all_testcases : Outcome (List String) → Result (List String)
all_testcases (done items) = ok items
all_testcases (error err) = log_fatal err

unfoldable pub chosen_testcases : Host → Simulation → List String → Result (List String)
unfolding all_testcases
chosen_testcases host rule (testcase ∷ testcases) = ok (testcase ∷ testcases)
chosen_testcases host rule [] = elim rule.test_case_generator [
  | none ↦ ok ("" ∷ [])
  | some generator ↦ elim rule.test_cases_dir [
    | none ↦ ok ("" ∷ [])
    | some dir ↦ all_testcases (host.read_dir (absolute host.input dir))
  ]
]

unfoldable pub select : Host → Simulation → List String → List String → Result Selected
unfolding select_args chosen_params chosen_testcases
select host rule all args = do
  sel ← select_args rule args (record { testcases = []; params = [] })
  testcases ← chosen_testcases host rule sel.testcases
  ok (record { testcases = testcases; params = chosen_params rule all sel.params })

-- The loops over the parameter sets and the test cases; with the GUI each ends behind one round.
-- `run` takes the test case and the parameter set.
module _ (run : String → String → Result String) (gui : Bool) where
  unfoldable pub chain_testcases : String → List String → String → Result String
  chain_testcases param [] cmd = ok cmd
  chain_testcases param (testcase ∷ testcases) cmd = do
    next ← run testcase param
    (let rest = chain_testcases param testcases (cmd <> " && " <> next) in
        if gui then ok (cmd <> " && " <> next) else rest)

  unfoldable pub chain_params : List String → List String → String → Result String
  unfolding chain_testcases
  chain_params testcases [] cmd = ok cmd
  chain_params testcases (param ∷ params) cmd = do
    cmd' ← chain_testcases param testcases cmd
    (let rest = chain_params testcases params cmd' in if gui then ok cmd' else rest)

  unfoldable pub chain : Selected → Result String
  unfolding chain_params
  chain sel = chain_params sel.testcases sel.params "{ :; }"
