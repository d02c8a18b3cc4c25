-- ===== src/Samples.antt =====
-- Concrete data, the code run on them, and the theorems at them.
mod Steps
mod Libraries
mod Targets
mod Configuration
mod Hardware
mod Simulations
mod Builds
use dbt_rules.Base.{String, [], ◌∷◌, some, none, false}
use dbt_rules.Core.Input.{GeneratorInput, default_input}
use dbt_rules.Core.Path.{FilePath, in_path, out_path, OutPath}
use dbt_rules.Core.Step.{BuildStepWithRule, BuildStep, Pool}
use dbt_rules.Core.Context.AddBuildStep.{Os}

abbrev pub sample_input : GeneratorInput
sample_input = record default_input {
  source_dir = "/w/DEPS";
  working_dir = "/w";
  output_dir = "/w/BUILD/OUTPUT";
}

abbrev pub out_at : String → OutPath
out_at rel = record { rel = rel }

-- A compilation of `src` to `obj`.
abbrev pub compilation : String → String → BuildStepWithRule
compilation src obj = record {
  outs = out_at obj ∷ [];
  ins = in_path src "" ∷ [];
  implicit_deps = [];
  order_deps = [];
  variables = ("flags", "-O2") ∷ [];
  rule = record { name = "gcc-cc"; variables = ("command", "cc $in") ∷ [] };
  phony = false;
  traces = [];
}

-- A link of an object.
abbrev pub linking : String → String → BuildStepWithRule
linking obj bin = record {
  outs = out_at bin ∷ [];
  ins = out_path (out_at obj) ∷ [];
  implicit_deps = [];
  order_deps = [];
  variables = [];
  rule = record { name = ""; variables = ("command", "ld $in") ∷ [] };
  phony = false;
  traces = [];
}

abbrev pub sample_pool : Pool
sample_pool = record { name = "license"; depth = 2 }

-- A command in a pool.
abbrev pub pooled : BuildStep
pooled = record {
  out = some (out_at "sim.log");
  outs = none;
  in' = none;
  ins = [];
  depfile = none;
  cmd = "vsim";
  script = "";
  data' = "";
  data_file_mode = 0;
  descr = "SIM";
  phony = false;
  pool = some sample_pool;
}

abbrev pub sample_os : Os
sample_os = record { mkdir_all = λ _. none; write_file = λ _ _ _. none }
