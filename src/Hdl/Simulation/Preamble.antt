-- ===== src/Hdl/Simulation/Preamble.antt =====
-- RULES/hdl/simulator.go: `Preamble`, the command that generates a test case.
use dbt_rules.Base.{
  String, ◌<>◌, Option, none, some, List, [], ◌∷◌, ◌==◌, string_eq, if◌then◌else◌, Result, ok,
  ◌>>=◌, ◌>>◌,
}
use dbt_rules.Base.Text.{has_suffix, trim_suffix}
use dbt_rules.Base.Text.Paths.{base, ext}
use dbt_rules.Core.Input.{Outcome, done, error}
use dbt_rules.Core.Path.{FilePath, absolute}
use dbt_rules.Hdl.Simulation.{Simulation, Host, log_fatal, nil_dereference}

module _ (host : Host) where
  abbrev path_name : FilePath → String
  path_name p = absolute host.input p

  -- The first test case of the directory. A directory that cannot be read gives none.
  first_testcase : FilePath → Outcome (List String) → Result String
  first_testcase dir (error e) = ok ""
  first_testcase dir (done []) =
      log_fatal ("TestCasesDir directory '" <> path_name dir <> "' empty!")
  first_testcase dir (done (item ∷ items)) = ok (path_name dir <> "/" <> item)

  unfoldable pub testcase_path : Simulation → String → Result String
  unfolding first_testcase
  testcase_path rule testcase = elim rule.test_cases_dir [
    | none ↦ ok testcase
    | some dir ↦
        if testcase == ""
        then first_testcase dir (host.read_dir (path_name dir))
        else ok (path_name dir <> "/" <> testcase)
  ]

  check_testcase : String → Result (Unit {0})
  check_testcase testcase =
      if host.is_missing testcase
      then log_fatal ("Testcase '" <> testcase <> "' does not exist!")
      else if has_suffix testcase ".json"
      then ok tt
      else log_fatal ("Unknown testcase file '" <> testcase <> "'!")

  elf_name : Option FilePath → Result String
  elf_name none = nil_dereference
  elf_name (some p) = ok (path_name p)

  -- The generator's command, and the test case that it is for.
  generate : Simulation → FilePath → String → Result (String × String)
  unfolding check_testcase elf_name
  generate rule generator testcase =
      if testcase == "" then ok ("{ " <> path_name generator <> " . ; }", "default") else (do
        check_testcase testcase
        elf ← elf_name rule.test_case_elf
        ok (
          "{ "
              <> path_name generator
              <> " "
              <> rule.test_case_generator_flags
              <> " -test "
              <> testcase
              <> " -out "
              <> elf
              <> " ; }",
          testcase,
        ))

  unfoldable pub preamble : Simulation → String → Result (String × String)
  unfolding testcase_path generate trim_suffix
  preamble rule testcase = elim rule.test_case_generator [
    | none ↦ ok ("", testcase)
    | some generator ↦ do
      path ← testcase_path rule testcase
      (command, case) ← generate rule generator path
      ok ("{ echo Generating " <> case <> "; } && " <> command, trim_suffix (base case) (ext case))
  ]
