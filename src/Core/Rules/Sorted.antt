-- ===== src/Core/Rules/Sorted.antt =====
-- RULES/util/template.go: the command of a template does not depend on the order of the map.
use mathlib.Core.List.{Perm, Perm.map as map-Perm}
use dbt_rules.Base.{String, ◌≡◌, ap}
use dbt_rules.Base.Map.{Map}
use dbt_rules.Base.Sort.{sort_strings-perm}
use dbt_rules.Core.Input.{GeneratorInput}
use dbt_rules.Core.Path.{FilePath, OutPath}
use dbt_rules.Core.Context.{Context}
use dbt_rules.Core.Context.AddBuildStep.{Os}
use dbt_rules.Core.Rules.{substitutions, substitution, expand, expand_template_sorted}

-- Whatever the order in which a range visits the substitutions of `util.ExpandTemplate`, the rule
-- does the same to the context.
pub expand_template_sorted-perm :
    (input : GeneratorInput) (os : Os) (out : OutPath) (template : FilePath)
    {m n : Map String String} (ctx : Context)
    → Perm m n
    → expand_template_sorted input os out template m ctx
      ≡ expand_template_sorted input os out template n ctx
unfolding expand_template_sorted substitutions
expand_template_sorted-perm input os out template ctx p =
    ap (λ l. expand input os out template l ctx) (sort_strings-perm (map-Perm substitution p))
