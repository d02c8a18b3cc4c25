-- ===== src/Hdl/Build.antt =====
-- RULES/hdl/simulator.go: builds, runs and tests of simulations.
use dbt_rules.Base.{String, ◌<>◌, Bool, List, ◌==◌, string_eq, if◌then◌else◌, Result, ok, ◌>>=◌}
use dbt_rules.Base.Map.{Map}
use dbt_rules.Core.Context.{Context}
use dbt_rules.Hdl.Ip.{FlagMap}
use dbt_rules.Hdl.Simulation.{Simulation, Host, log_fatal}
use dbt_rules.Hdl.Simulation.Binaries.{copy_binaries}
use dbt_rules.Hdl.Questa.Optimize.{build_questa}
use dbt_rules.Hdl.Questa.Simulate.{run_questa, test_questa}
use dbt_rules.Hdl.Xsim.Elaborate.{build_xsim}
use dbt_rules.Hdl.Xsim.Simulate.{run_xsim, test_xsim}

module _ (host : Host) (rule : Simulation) where
  -- The context and the map of Questa's rules, which the whole package shares.
  unfoldable pub build : Context → Map String Bool → Result (Context × Map String Bool)
  unfolding build_xsim build_questa copy_binaries
  build ctx rules = do
    (ctx1, rules') ←
        (if host.settings.simulator == "xsim"
          then (build_xsim host rule ctx >>= λ c. ok (c, rules))
          else if host.settings.simulator == "questa"
          then build_questa host rule ctx rules
          else log_fatal
              ("invalid value '" <> host.settings.simulator <> "' for hdl-simulator flag"))
    ctx2 ← copy_binaries host rule ctx1
    ok (ctx2, rules')

  -- `own` is the rule's map of tool flags.
  unfoldable pub run : FlagMap → List String → Result String
  unfolding run_xsim run_questa
  run own args =
      if host.settings.simulator == "xsim"
      then run_xsim host rule args
      else if host.settings.simulator == "questa"
      then run_questa host rule own args
      else log_fatal
          ("'run' target not supported for hdl-simulator flag '" <> host.settings.simulator <> "'")

  unfoldable pub test : FlagMap → List String → Result String
  unfolding test_xsim test_questa
  test own args =
      if host.settings.simulator == "xsim"
      then test_xsim host rule args
      else if host.settings.simulator == "questa"
      then test_questa host rule own args
      else log_fatal
          ("'test' target not supported for hdl-simulator flag '" <> host.settings.simulator <> "'")
