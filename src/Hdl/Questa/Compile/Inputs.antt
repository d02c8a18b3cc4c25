-- ===== src/Hdl/Questa/Compile/Inputs.antt =====
-- RULES/hdl/questa.go: the inputs of the build steps that compile the sources.
use dbt_rules.Base.{
  ◌≡◌, refl, sym, ap, ◌∙◌, subst, true, false, List, [], ◌∷◌, ◌++◌, ◌==◌, string_eq, ok, ok-elim,
  ◌>>=◌, >>=-eq-ok,
}
use dbt_rules.Core.Path.{FilePath, OutPath}
use dbt_rules.Core.Step.{BuildStep, step_outs, step_ins}
use dbt_rules.Core.Context.AddBuildStep.{add_build_step}
use dbt_rules.Core.Context.Agreement.{HasInputs, add_build_step-HasInputs}
use dbt_rules.Hdl.Files.{is_rtl}
use dbt_rules.Hdl.Simulation.{Simulation, Host}
use dbt_rules.Hdl.Questa.Compile.{
  Session, Collected, Command, log_name, step, note_step, compile_step, log_of, compile_src,
  compile_srcs, rtl_command,
}
use dbt_rules.Hdl.Questa.Compile.Commands.{name_of, rtl_command-ne, source_rtl}
use dbt_rules.Hdl.Questa.Compile.Noted.{noted, NoXci, after, compile_src-after}
use dbt_rules.Hdl.Questa.Compile.Order.{with_logs, rtl_command-kept, compile_srcs-Extends}

module _ (host : Host) (rule : Simulation) (live : host.input.completions_only ≡ false) where
  note_step-HasInputs :
      (log : OutPath) (s : BuildStep) (st st' : Session)
      → step_outs s ≡ log ∷ []
      → noted st (log_name host rule log) ≡ false
      → note_step host rule log s st ≡ ok st'
      → HasInputs host.input log (step_ins s) st'.ctx
  unfolding note_step
  note_step-HasInputs log s st st' out new h =
      let (st1, e1, h1) = >>=-eq-ok (step host rule s st) _ (rw (new, note_step) at h) in
      let (ctx', e2, h2) = >>=-eq-ok (add_build_step host.input host.os s st.ctx) _ e1 in
      let made = add_build_step-HasInputs host.input host.os s st.ctx ctx' log out live e2 in
      ok-elim (λ t. HasInputs host.input log (step_ins s) t.ctx) h1
        (ok-elim (λ t. HasInputs host.input log (step_ins s) t.ctx) h2 made)

  after-HasInputs :
      (src : FilePath) (c c' : Collected) (command : Command) (st st' : Session)
      → (command.cmd == "") ≡ false
      → noted st (log_name host rule (log_of host rule src)) ≡ false
      → after host rule src c (command, st) ≡ ok (c', st')
      → HasInputs host.input (log_of host rule src) (c.deps ++ command.src ∷ []) st'.ctx
  unfolding after compile_step step_outs step_ins
  after-HasInputs src c c' command st st' e new h =
      let log = log_of host rule src in
      let (st2, e2, h2) = >>=-eq-ok (note_step host rule log _ st) _ (rw (e, after) at h) in
      ok-elim (λ r. HasInputs host.input log (c.deps ++ command.src ∷ []) (r.1).ctx) h2
        (note_step-HasInputs log _ st st2 refl new e2)

  compile_src-HasInputs :
      (src : FilePath) (c c' : Collected) (st st' : Session)
      → is_rtl (name_of host src) ≡ true
      → noted st (log_name host rule (log_of host rule src)) ≡ false
      → compile_src host rule src c st ≡ ok (c', st')
      → HasInputs host.input (log_of host rule src) (c.deps ++ src ∷ []) st'.ctx
  compile_src-HasInputs src c c' st st' e new h =
      let command = rtl_command host rule src c.incs st.flags in
      let done =
        after-HasInputs src c c' command st st' (rtl_command-ne host rule src c.incs st.flags) new (
          sym (
            compile_src-after host rule src c st
            ∙ ap (λ r. r >>= after host rule src c) (source_rtl host rule src c.incs st e))
          ∙ h) in
      subst (λ p. HasInputs host.input (log_of host rule src) (c.deps ++ p ∷ []) st'.ctx)
        ((rtl_command-kept host rule src c.incs st.flags).0) done

  -- In a run that is not for completions: where a list of sources without an XCI file has been
  -- compiled, and behind it a source in Verilog or VHDL whose log file was not noted, that log file
  -- stands for a build step. Its inputs are the dependencies from before the list, then each source
  -- of the list, in order, with its log file behind it if it is in Verilog or VHDL, and last the
  -- source itself.
  pub compile_srcs-HasInputs :
      (srcs : List FilePath) (src : FilePath) (c c1 c2 : Collected) (st st1 st2 : Session)
      → NoXci host srcs
      → is_rtl (name_of host src) ≡ true
      → compile_srcs host rule srcs c st ≡ ok (c1, st1)
      → noted st1 (log_name host rule (log_of host rule src)) ≡ false
      → compile_src host rule src c1 st1 ≡ ok (c2, st2)
      → HasInputs host.input
          (log_of host rule src)
          ((c.deps ++ with_logs host rule srcs) ++ src ∷ [])
          st2.ctx
  compile_srcs-HasInputs srcs src c c1 c2 st st1 st2 x e h new g =
      let (deps, _) = compile_srcs-Extends host rule srcs c c1 st st1 x h in
      subst (λ l. HasInputs host.input (log_of host rule src) (l ++ src ∷ []) st2.ctx) deps
        (compile_src-HasInputs src c1 c2 st1 st2 e new g)
