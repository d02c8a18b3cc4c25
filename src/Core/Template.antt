-- ===== src/Core/Template.antt =====
-- RULES/core/util.go: `CompileTemplate` and `CompileTemplateFile`. The engine (text/template) is a
-- parameter: for the template, its name and the data it gives the text or an error.
use dbt_rules.Base.{String, ◌<>◌, Result, ok, fail, panic, ◌>>◌}
use dbt_rules.Core.Input.{GeneratorInput, fatal}

-- With an error of the execution comes the text that is written so far.
pub data Rendered : Type 0 where
  text : String → Rendered
  parse_error : String → Rendered
  execute_error : String → String → Rendered

pub record Templates (P : Type 0) : Type 0 where
  pub render : String → String → P → Rendered
  pub render_file : String → P → Rendered

module _ (input : GeneratorInput) where
  -- The template that could not be read is nil, and its execution a nil dereference.
  rendered : String → Rendered → Result String
  rendered target (text t) = ok t
  rendered target (parse_error err) = do
    fatal input target ("Cannot parse the IP generator template: " <> err)
    fail (panic "invalid memory address or nil pointer dereference")
  rendered target (execute_error err so_far) = do
    fatal input target ("Cannot execute the IP generator template: " <> err)
    ok so_far

  module _ {P : Type 0} (templates : Templates P) where
    unfoldable pub compile_template : String → String → String → P → Result String
    unfolding rendered
    compile_template target tmpl name params = rendered target (templates.render tmpl name params)

    unfoldable pub compile_template_file : String → String → P → Result String
    unfolding rendered
    compile_template_file target tmpl_file params =
        rendered target (templates.render_file tmpl_file params)
