-- ===== src/Hdl/Questa/Compile/Sound.antt =====
-- RULES/hdl/questa.go: the map `rules` against the table of build steps.
use dbt_rules.Base.{
  String, ◌≡◌, refl, subst, Bool, true, false, List, [], ◌∷◌, arith, ◌==◌, string_eq, Bool-cases,
  inl, inr, ok, ok-elim, >>=-eq-ok,
}
use dbt_rules.Base.Map.{Map, index, insert, index-insert}
use dbt_rules.Core.Path.{FilePath, OutPath, absolute}
use dbt_rules.Core.Step.{BuildStep, step_outs}
use dbt_rules.Core.Context.{Context}
use dbt_rules.Core.Context.AddBuildStep.{add_build_step}
use dbt_rules.Core.Context.Growth.{Registered, add_build_step-Grows, add_build_step-Registered}
use dbt_rules.Core.Template.{compile_template}
use dbt_rules.Hdl.Files.{is_rtl, is_xilinx_ip_checkpoint}
use dbt_rules.Hdl.Ip.{FlagMap, Ip}
use dbt_rules.Hdl.Simulation.{Simulation, Host}
use dbt_rules.Hdl.Vivado.Export.{
  need_xci, need_lib_dir, part_of, export_xilinx_ip_checkpoint, export_block_design,
}
use dbt_rules.Hdl.Questa.Compile.{
  Session, Collected, Command, log_name, step, note_step, source_command, compile_src, compile_srcs,
  compile_step,
}

-- Each log file that is noted stands for a build step.
abbrev pub Sound : Context → Map String Bool → Type 0
Sound ctx rules = (k : String) → index false rules k ≡ true → Registered ctx k

abbrev pub IsSound : Session → Type 0
IsSound st = Sound st.ctx st.rules

insert-Sound :
    (ctx : Context) (rules : Map String Bool) (name : String)
    → Registered ctx name
    → Sound ctx rules
    → Sound ctx (insert name true rules)
insert-Sound ctx rules name here sound k n = elim (Bool-cases (name == k)) [
  | inl e ↦ subst (Registered ctx) ((string_eq.beq_iff name k).0 e) here
  | inr e ↦ sound k (ground (arith, index-insert name k false true rules, n, e))
]

module _ (host : Host) (rule : Simulation) where
  step-Registered :
      (out : OutPath) (s : BuildStep) (st st' : Session)
      → step_outs s ≡ out ∷ []
      → step host rule s st ≡ ok st'
      → Registered st'.ctx (log_name host rule out)
  step-Registered out s st st' o h =
      let (ctx', e, h1) = >>=-eq-ok (add_build_step host.input host.os s st.ctx) _ h in
      ok-elim (λ r. Registered r.ctx (log_name host rule out)) h1
        (add_build_step-Registered host.input host.os out s st.ctx ctx' o e)

  pub step-Sound :
      (s : BuildStep) (st st' : Session) → step host rule s st ≡ ok st' → IsSound st → IsSound st'
  step-Sound s st st' h sound k n =
      let (ctx', e, h1) = >>=-eq-ok (add_build_step host.input host.os s st.ctx) _ h in
      ok-elim IsSound h1
        (λ j m. add_build_step-Grows host.input host.os s st.ctx ctx' e j (sound j m)) k n

  pub note_step-Sound :
      (log : OutPath) (s : BuildStep) (st st' : Session)
      → step_outs s ≡ log ∷ []
      → note_step host rule log s st ≡ ok st'
      → IsSound st
      → IsSound st'
  unfolding note_step
  note_step-Sound log s st st' out h sound =
      let name = log_name host rule log in
      elim (Bool-cases (index false st.rules name)) [
        | inl e ↦ ok-elim IsSound (rw (e, note_step) at h) sound
        | inr e ↦
            let (st1, e1, h1) = >>=-eq-ok (step host rule s st) _ (rw (e, note_step) at h) in
            ok-elim IsSound h1 (
              insert-Sound st1.ctx st1.rules name (step-Registered log s st st1 out e1)
                (step-Sound s st st1 e1 sound))
      ]

  xci-Sound :
      (src : FilePath) (def : Map String String) (rules : Map String Bool) (flags : FlagMap)
      (ctx : Context) (out : FilePath) (ctx' : Context)
      → export_xilinx_ip_checkpoint host src def flags ctx ≡ ok (out, ctx')
      → Sound ctx rules
      → Sound ctx' rules
  unfolding export_xilinx_ip_checkpoint
  xci-Sound src def rules flags ctx out ctx' h sound =
      let (xci, _, h1) =
        >>=-eq-ok (need_xci host src (host.read_xci (absolute host.input src))) _ h in
      let (lib_dir, _, h2) = >>=-eq-ok (need_lib_dir host) _ h1 in
      let (part, _, h3) = >>=-eq-ok (part_of xci) _ h2 in
      let (text, _, h4) = >>=-eq-ok (compile_template _ _ _ _ _ _) _ h3 in
      let (ctx1, e, h5) = >>=-eq-ok (add_build_step host.input host.os _ ctx) _ h4 in
      ok-elim (λ r. Sound (r.1) rules) h5
        (λ k n. add_build_step-Grows host.input host.os _ ctx ctx1 e k (sound k n))

  pub block_design-Sound :
      (bd : Ip) (name : String) (args : List String) (def : Map String String)
      (rules : Map String Bool) (flags : FlagMap) (ctx : Context) (out : FilePath) (ctx' : Context)
      → export_block_design host bd name args def flags ctx ≡ ok (out, ctx')
      → Sound ctx rules
      → Sound ctx' rules
  unfolding export_block_design
  block_design-Sound bd name args def rules flags ctx out ctx' h sound =
      let (text, _, h4) = >>=-eq-ok (compile_template _ _ _ _ _ _) _ h in
      let (ctx1, e, h5) = >>=-eq-ok (add_build_step host.input host.os _ ctx) _ h4 in
      ok-elim (λ r. Sound (r.1) rules) h5
        (λ k n. add_build_step-Grows host.input host.os _ ctx ctx1 e k (sound k n))

  source_command-Sound :
      (src : FilePath) (incs : List FilePath) (st : Session) (c : Command) (st' : Session)
      → source_command host rule src incs st ≡ ok (c, st')
      → IsSound st
      → IsSound st'
  unfolding source_command
  source_command-Sound src incs st c st' h sound =
      elim (Bool-cases (is_rtl (absolute host.input src))) [
        | inl e ↦ ok-elim (λ r. IsSound (r.1)) (rw (e, source_command) at h) sound
        | inr e ↦ elim (Bool-cases (is_xilinx_ip_checkpoint (absolute host.input src))) [
          | inl x ↦
              let ((script, ctx1), e1, h1) =
                >>=-eq-ok (export_xilinx_ip_checkpoint host src rule.defines st.flags st.ctx) _
                  (rw (e, x, source_command) at h) in
              ok-elim (λ r. IsSound (r.1)) h1
                (xci-Sound src rule.defines st.rules st.flags st.ctx script ctx1 e1 sound)
          | inr x ↦ ok-elim (λ r. IsSound (r.1)) (rw (e, x, source_command) at h) sound
        ]
      ]

  compile_src-Sound :
      (src : FilePath) (c c' : Collected) (st st' : Session)
      → compile_src host rule src c st ≡ ok (c', st')
      → IsSound st
      → IsSound st'
  unfolding compile_src compile_step step_outs
  compile_src-Sound src c c' st st' h sound =
      let ((command, st1), e1, h1) = >>=-eq-ok (source_command host rule src c.incs st) _ h in
      let sound1 = source_command-Sound src c.incs st command st1 e1 sound in
      elim (Bool-cases (command.cmd == "")) [
        | inl e ↦ ok-elim (λ r. IsSound (r.1)) (rw e at h1) sound1
        | inr e ↦
            let (st2, e2, h2) = >>=-eq-ok (note_step host rule _ _ st1) _ (rw e at h1) in
            ok-elim (λ r. IsSound (r.1)) h2 (note_step-Sound _ _ st1 st2 refl e2 sound1)
      ]

  pub compile_srcs-Sound :
      (srcs : List FilePath) (c c' : Collected) (st st' : Session)
      → compile_srcs host rule srcs c st ≡ ok (c', st')
      → IsSound st
      → IsSound st'
  unfolding compile_srcs
  compile_srcs-Sound [] c c' st st' h sound = ok-elim (λ r. IsSound (r.1)) h sound
  compile_srcs-Sound (src ∷ srcs) c c' st st' h sound =
      let ((c1, st1), e1, h1) = >>=-eq-ok (compile_src host rule src c st) _ h in
      compile_srcs-Sound srcs c1 c' st1 st' h1 (compile_src-Sound src c c1 st st1 e1 sound)
