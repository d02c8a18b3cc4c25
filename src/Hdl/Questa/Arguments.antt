-- ===== src/Hdl/Questa/Arguments.antt =====
-- RULES/hdl/questa.go: the arguments of a run that `vsimCmd` reads.
use dbt_rules.Base.{
  String, ◌<>◌, Bool, false, Option, none, some, List, [], ◌∷◌, ◌++◌, if◌then◌else◌, Result, ok,
  ◌>>=◌,
}
use dbt_rules.Base.Int.{ℤ, format_int}
use dbt_rules.Base.Text.{has_prefix}
use dbt_rules.Hdl.Simulation.{log_fatal}
use dbt_rules.Hdl.Simulation.Scan.{scan_string, scan_int}
use dbt_rules.Hdl.Questa.Flags.{verbosity_level_to_flag}

pub record VsimArgs : Type 0 where
  pub seed_flag : String
  pub verbosity_flag : String
  pub print_output : Bool
  pub do_flags : List String
  pub plusargs_flag : String

unfoldable pub no_args : List String → VsimArgs
no_args do_flags = record {
  seed_flag = " -sv_seed random";
  verbosity_flag = " +verbosity=DVM_VERB_NONE";
  print_output = false;
  do_flags = do_flags;
  plusargs_flag = "";
}

set_seed : VsimArgs → Option ℤ → Result VsimArgs
unfolding format_int
set_seed a none = log_fatal "-seed expects an integer argument!"
set_seed a (some seed) = ok (record a { seed_flag = " -sv_seed " <> format_int seed })

set_verbosity : VsimArgs → Option String → Result VsimArgs
unfolding verbosity_level_to_flag
set_verbosity a none =
    log_fatal "-verbosity expects an argument of 'low', 'medium', 'high' or 'none'!"
set_verbosity a (some level) = do
  (flag, print) ← verbosity_level_to_flag level
  ok (record a { verbosity_flag = flag; print_output = print })

set_time : String → VsimArgs → Option String → Result VsimArgs
set_time name a none =
    log_fatal ("-" <> name <> " expects an argument of '<timesteps>[<time units>]'!")
set_time name a (some time) =
    ok (record a { do_flags = a.do_flags ++ ("\"set " <> name <> " " <> time <> "\"") ∷ [] })

unfoldable pub vsim_arg : String → VsimArgs → Result VsimArgs
unfolding set_seed set_verbosity set_time scan_string scan_int
vsim_arg arg a =
    if has_prefix arg "-seed="
    then set_seed a (scan_int "-seed=" arg)
    else if has_prefix arg "-verbosity="
    then set_verbosity a (scan_string "-verbosity=" arg)
    else if has_prefix arg "-from="
    then set_time "from" a (scan_string "-from=" arg)
    else if has_prefix arg "-to="
    then set_time "to" a (scan_string "-to=" arg)
    else if has_prefix arg "+"
    then ok (record a { plusargs_flag = a.plusargs_flag <> " " <> arg })
    else ok a

unfoldable pub vsim_args : List String → VsimArgs → Result VsimArgs
unfolding vsim_arg
vsim_args [] a = ok a
vsim_args (arg ∷ args) a = do a' ← vsim_arg arg a; vsim_args args a'
