-- ===== src/Core/Rules.antt =====
-- RULES/core/copy.go and template.go, and their copies in RULES/util: rules of one command. The
-- build step of a rule sets some fields and leaves the others zero.
pub mod Sorted
use dbt_rules.Base.{String, ◌<>◌, false, none, some, List, [], ◌∷◌, map, Result}
use dbt_rules.Base.Map.{Map}
use dbt_rules.Base.Sort.{sort_strings}
use dbt_rules.Base.Text.{join, quote}
use dbt_rules.Core.Input.{GeneratorInput}
use dbt_rules.Core.Path.{FilePath, out_path, OutPath, absolute}
use dbt_rules.Core.Step.{BuildStep}
use dbt_rules.Core.Context.{Action}
use dbt_rules.Core.Context.AddBuildStep.{Os, add_build_step}

abbrev pub zero_step : BuildStep
zero_step = record {
  out = none;
  outs = none;
  in' = none;
  ins = [];
  depfile = none;
  cmd = "";
  script = "";
  data' = "";
  data_file_mode = 0;
  descr = "";
  phony = false;
  pool = none;
}

abbrev substitution : String × String → String
substitution (old, new) = "-e 's/" <> old <> "/" <> new <> "/g'"

substitutions : Map String String → List String
substitutions m = map substitution m

module _ (input : GeneratorInput) (os : Os) where
  unfoldable pub copy_file : FilePath → OutPath → Action
  unfolding quote
  copy_file src dst ctx =
      add_build_step input os
        (record zero_step {
          out = some dst;
          in' = some src;
          cmd = "cp " <> quote (absolute input src) <> " " <> quote (absolute input (out_path dst));
          descr = "CP " <> dst.rel;
        })
        ctx

  expand : OutPath → FilePath → List String → Action
  unfolding quote join
  expand out template substs ctx =
      add_build_step input os
        (record zero_step {
          out = some out;
          in' = some template;
          cmd =
              "sed "
              <> join " " substs
              <> " "
              <> quote (absolute input template)
              <> " > "
              <> quote (absolute input (out_path out));
          descr = "TEMPLATE " <> out.rel;
        })
        ctx

  -- core.ExpandTemplate: in the order of the map.
  unfoldable pub expand_template : OutPath → FilePath → Map String String → Action
  unfolding substitutions expand
  expand_template out template m = expand out template (substitutions m)

  -- util.ExpandTemplate
  unfoldable pub expand_template_sorted : OutPath → FilePath → Map String String → Action
  unfolding substitutions expand sort_strings
  expand_template_sorted out template m = expand out template (sort_strings (substitutions m))
