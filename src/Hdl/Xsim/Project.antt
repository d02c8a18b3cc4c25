-- ===== src/Hdl/Xsim/Project.antt =====
-- RULES/hdl/xsim.go: the project file, which lists the sources.
pub mod Names
pub mod Entries
use dbt_rules.Base.{
  String, ◌<>◌, Bool, true, false, some, List, [], ◌∷◌, ◌++◌, ◌==◌, string_eq, if◌then◌else◌,
  Result, ok, ◌>>=◌,
}
use dbt_rules.Base.Map.{Map, insert, index}
use dbt_rules.Base.Text.{join, to_lower}
use dbt_rules.Base.Text.Paths.{dir}
use dbt_rules.Core.Path.{FilePath, out_path, OutPath, absolute, source_path, with_suffix}
use dbt_rules.Core.Context.{Context, Action}
use dbt_rules.Core.Context.AddBuildStep.{add_build_step}
use dbt_rules.Core.Rules.{zero_step}
use dbt_rules.Hdl.Files.{
  is_rtl, is_header, is_system_verilog, is_verilog, is_vhdl, sorted_string_keys,
}
use dbt_rules.Hdl.Ip.{Ip, ip, Ips, nil, cons}
use dbt_rules.Hdl.Simulation.{Simulation, Host, lib, sim_path}
use dbt_rules.Hdl.Vivado.Export.{define_list}

-- The project file so far, and the package's map `xsim_rules`.
pub record PrjFile : Type 0 where
  pub incs : List String
  pub deps : List FilePath
  pub entries : List String
  pub rules : Map String Bool

unfoldable pub prefix : String → String
unfolding is_system_verilog is_verilog is_vhdl
prefix path =
    if is_system_verilog path
    then "sv"
    else if is_verilog path
    then "verilog"
    else if is_vhdl path
    then "vhdl"
    else ""

inc_args : List String → String
inc_args [] = ""
inc_args (inc ∷ incs) = " -i " <> inc <> inc_args incs

macro_args : List String → String
unfolding join
macro_args [] = ""
macro_args (m ∷ ms) = " -d " <> join " -d " (m ∷ ms)

module _ (host : Host) (rule : Simulation) (macros : List String) where
  abbrev pub path_name : FilePath → String
  path_name p = absolute host.input p

  unfoldable pub entry : List String → String → String
  unfolding prefix inc_args macro_args to_lower lib
  entry incs path =
      prefix path <> " " <> to_lower (lib rule) <> " " <> path <> inc_args incs <> macro_args macros

  abbrev add_dep : FilePath → PrjFile → PrjFile
  add_dep src prj = record prj { deps = prj.deps ++ src ∷ [] }

  -- A source that is there already is no dependency a second time.
  unfoldable pub add_src : FilePath → PrjFile → PrjFile
  unfolding is_header is_rtl entry
  add_src src prj =
      let path = path_name src in
      if is_header path
      then if index false prj.rules (dir path)
        then add_dep src prj
        else add_dep src (record prj {
          incs = prj.incs ++ dir path ∷ [];
          rules = insert (dir path) true prj.rules;
        })
      else if is_rtl path
      then if index false prj.rules path
        then prj
        else add_dep src (record prj {
          entries = prj.entries ++ entry prj.incs path ∷ [];
          rules = insert path true prj.rules;
        })
      else add_dep src prj

  unfoldable pub add_srcs : List FilePath → PrjFile → PrjFile
  unfolding add_src
  add_srcs [] prj = prj
  add_srcs (src ∷ srcs) prj = add_srcs srcs (add_src src prj)

  unfoldable mutual
    unfolding add_srcs

    pub add_ip : Ip → PrjFile → PrjFile
    add_ip (ip parts ips) prj = add_srcs parts.srcs (add_ips ips prj)

    pub add_ips : Ips → PrjFile → PrjFile
    add_ips nil prj = prj
    add_ips (cons i is) prj = add_ips is (add_ip i prj)

  unfoldable pub add_to_prj_file : Ips → List FilePath → PrjFile → PrjFile
  unfolding add_ips add_srcs
  add_to_prj_file ips srcs prj = add_srcs srcs (add_ips ips prj)

module _ (host : Host) where
  unfoldable pub prj_file : Simulation → PrjFile
  unfolding add_to_prj_file define_list sorted_string_keys
  prj_file rule =
      add_to_prj_file host rule (define_list rule.defines (sorted_string_keys rule.defines))
        rule.ips rule.srcs
        (record {
          incs = absolute host.input (source_path "") ∷ [];
          deps = [];
          entries = [];
          rules = [];
        })

  unfoldable pub create_prj_file : Simulation → Context → Result (OutPath × Context)
  unfolding prj_file sim_path join
  create_prj_file rule ctx = do
    let out = with_suffix (out_path (sim_path rule)) "/xsim.prj"
    let prj = prj_file rule
    ctx' ←
        add_build_step host.input host.os
          (record zero_step {
            out = some out;
            ins = prj.deps;
            data' = join "\n" prj.entries;
            descr = "xsim project: " <> out.rel;
          })
          ctx
    ok (out, ctx')
