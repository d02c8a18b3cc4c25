-- ===== src/Hdl/Questa/Compile/Whole.antt =====
-- RULES/hdl/questa.go: what a whole compilation notes, with the Ips of a rule.
use dbt_rules.Base.{
  String, ◌≡◌, refl, Bool, false, List, [], string_eq, Bool-cases, inl, inr, ok, ok-elim, >>=-eq-ok,
  ◌<>◌,
}
use dbt_rules.Base.Map.{Map, index}
use dbt_rules.Core.Path.{FilePath, OutPath, out_path, with_suffix}
use dbt_rules.Core.Step.{step_outs}
use dbt_rules.Core.Context.{Context}
use dbt_rules.Hdl.Ip.{FlagMap, Kind, library, fpga, block_design, Parts, Ip, ip, Ips, nil, cons}
use dbt_rules.Hdl.Simulation.{Simulation, Host}
use dbt_rules.Hdl.Vivado.Export.{export_block_design}
use dbt_rules.Hdl.Questa.Compile.{
  Session, Collected, log_name, own_flags, step, note_step, compile_srcs, create_modelsim_ini,
  export_step, compile_block_design, kind_steps, compile_ip, compile_ips, set_flags, compiler_flags,
  compile,
}
use dbt_rules.Hdl.Questa.Compile.Sound.{
  Sound, IsSound, step-Sound, note_step-Sound, block_design-Sound, compile_srcs-Sound,
}

module _ (host : Host) (rule : Simulation) where
  create_modelsim_ini-Sound :
      (deps deps' : List FilePath) (st st' : Session)
      → create_modelsim_ini host rule deps st ≡ ok (deps', st')
      → IsSound st
      → IsSound st'
  unfolding create_modelsim_ini
  create_modelsim_ini-Sound deps deps' st st' h sound =
      let (st1, e1, h1) = >>=-eq-ok (step host rule _ st) _ h in
      let (st2, e2, h2) = >>=-eq-ok (step host rule _ st1) _ h1 in
      ok-elim (λ r. IsSound (r.1)) h2
        (step-Sound host rule _ st1 st2 e2 (step-Sound host rule _ st st1 e1 sound))

  export_step-Sound :
      (log : OutPath) (bd : Ip) (name : String) (args : List String) (own : FlagMap)
      (deps deps' : List FilePath) (st st' : Session)
      → export_step host rule log bd name args own deps st ≡ ok (deps', st')
      → IsSound st
      → IsSound st'
  unfolding export_step step_outs
  export_step-Sound log bd name args own deps deps' st st' h sound =
      let flags = set_flags host rule own st.flags in
      let ((script, ctx1), e1, h1) =
        >>=-eq-ok (export_block_design host bd name args rule.defines flags st.ctx) _ h in
      let (st2, e2, h2) = >>=-eq-ok (note_step host rule log _ _) _ h1 in
      ok-elim (λ r. IsSound (r.1)) h2
        (note_step-Sound host rule log _ _ st2 refl e2 (
          block_design-Sound host rule bd name args rule.defines st.rules flags st.ctx script ctx1
            e1 sound))

  compile_block_design-Sound :
      (bd : Ip) (name : String) (args : List String) (own : FlagMap) (deps deps' : List FilePath)
      (st st' : Session)
      → compile_block_design host rule bd name args own deps st ≡ ok (deps', st')
      → IsSound st
      → IsSound st'
  unfolding compile_block_design
  compile_block_design-Sound bd name args own deps deps' st st' h sound =
      let log = with_suffix (out_path st.ctx.cwd) ("/" <> name <> ".log") in
      elim (Bool-cases (index false st.rules (log_name host rule log))) [
        | inl e ↦ ok-elim (λ r. IsSound (r.1)) (rw (e, compile_block_design) at h) sound
        | inr e ↦
            export_step-Sound log bd name args own deps deps' st st'
              (rw (e, compile_block_design) at h) sound
      ]

  kind-Sound :
      (i : Ip) (parts : Parts) (kind : Kind) (c c' : Collected) (st st' : Session)
      → parts.kind ≡ kind
      → kind_steps host rule i parts c st ≡ ok (c', st')
      → IsSound st
      → IsSound st'
  unfolding kind_steps
  kind-Sound i parts (block_design name args) c c' st st' e h sound =
      let ((deps, st1), e1, h1) =
        >>=-eq-ok (compile_block_design host rule i name args parts.tool_flags c.deps st) _
          (rw e at h) in
      ok-elim (λ r. IsSound (r.1)) h1
        (compile_block_design-Sound i name args parts.tool_flags c.deps deps st st1 e1 sound)
  kind-Sound i parts (fpga part board) c c' st st' e h sound =
      ok-elim (λ r. IsSound (r.1)) (rw e at h) sound
  kind-Sound i parts library c c' st st' e h sound = ok-elim (λ r. IsSound (r.1)) (rw e at h) sound

  mutual
    unfolding compile_ip

    compile_ip-Sound :
        (i : Ip) (c c' : Collected) (st st' : Session)
        → compile_ip host rule i c st ≡ ok (c', st')
        → IsSound st
        → IsSound st'
    compile_ip-Sound (ip parts ips) c c' st st' h sound =
        let ((c1, st1), e1, h1) = >>=-eq-ok (compile_ips host rule ips c _) _ h in
        let ((c2, st2), e2, h2) = >>=-eq-ok (compile_srcs host rule parts.srcs c1 st1) _ h1 in
        kind-Sound (ip parts ips) parts parts.kind c2 c' st2 st' refl h2 (
          compile_srcs-Sound host rule parts.srcs c1 c2 st1 st2 e2
            (compile_ips-Sound ips c c1 _ st1 e1 sound))

    compile_ips-Sound :
        (is : Ips) (c c' : Collected) (st st' : Session)
        → compile_ips host rule is c st ≡ ok (c', st')
        → IsSound st
        → IsSound st'
    compile_ips-Sound nil c c' st st' h sound = ok-elim (λ r. IsSound (r.1)) h sound
    compile_ips-Sound (cons i is) c c' st st' h sound =
        let ((c1, st1), e1, h1) = >>=-eq-ok (compile_ip host rule i c st) _ h in
        compile_ips-Sound is c1 c' st1 st' h1 (compile_ip-Sound i c c1 st st1 e1 sound)

  -- If each log file that the package's map `rules` notes stands for a build step, this is so as
  -- well behind a compilation that succeeds, for the map and the context that it leaves.
  pub compile-Sound :
      (ctx : Context) (rules : Map String Bool) (deps : List FilePath) (st : Session)
      → compile host rule ctx rules ≡ ok (deps, st)
      → Sound ctx rules
      → Sound st.ctx st.rules
  unfolding compile
  compile-Sound ctx rules deps st h sound =
      let start : Session = record {
        ctx = ctx;
        rules = rules;
        flags = compiler_flags host rule (own_flags rule);
      } in
      let ((deps1, st1), e1, h1) = >>=-eq-ok (create_modelsim_ini host rule [] start) _ h in
      let ((c2, st2), e2, h2) = >>=-eq-ok (compile_ips host rule rule.ips _ st1) _ h1 in
      let ((c3, st3), e3, h3) = >>=-eq-ok (compile_srcs host rule rule.srcs c2 st2) _ h2 in
      ok-elim (λ r. IsSound (r.1)) h3
        (compile_srcs-Sound host rule rule.srcs c2 c3 st2 st3 e3 (
          compile_ips-Sound rule.ips _ c2 st1 st2 e2
            (create_modelsim_ini-Sound [] deps1 start st1 e1 sound)))
