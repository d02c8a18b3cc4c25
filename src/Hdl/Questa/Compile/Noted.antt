-- ===== src/Hdl/Questa/Compile/Noted.antt =====
-- RULES/hdl/questa.go: the map `rules`, by which no source is compiled by two build steps.
use dbt_rules.Base.{
  String, ◌≡◌, refl, sym, ap, ◌∙◌, Bool, true, false, List, [], ◌∷◌, ◌++◌, arith, ◌==◌, string_eq,
  beq_refl, Bool-cases, inl, inr, if◌then◌else◌, Result, ok, fail, ◌>>=◌, >>=-eq-ok,
}
use dbt_rules.Base.Map.{index, insert, index-insert}
use dbt_rules.Core.Path.{FilePath, out_path, OutPath, relative, build_path, with_suffix}
use dbt_rules.Core.Step.{BuildStep}
use dbt_rules.Core.Context.{Context}
use dbt_rules.Core.Context.AddBuildStep.{add_build_step}
use dbt_rules.Hdl.Files.{is_rtl, is_xilinx_ip_checkpoint}
use dbt_rules.Hdl.Ip.{FlagMap}
use dbt_rules.Hdl.Simulation.{Simulation, Host}
use dbt_rules.Hdl.Questa.Compile.{
  Session, Collected, Command, log_name, note_step, log_of, source_command, compile_src,
  compile_srcs, compile_step, rtl_command,
}
use dbt_rules.Hdl.Questa.Compile.Commands.{
  name_of, rtl_command-ne, source_rtl, source_other, no_command, source_command-rules,
}

abbrev pub noted : Session → String → Bool
noted st name = index false st.rules name

abbrev pub Grows : Session → Session → Type 0
Grows st st' = (k : String) → noted st k ≡ true → noted st' k ≡ true

-- The log file's name.
abbrev pub log_at : Host → FilePath → String
log_at host src =
    name_of host (out_path (with_suffix (out_path (build_path (relative src))) ".log"))

-- The log files of the sources in Verilog and VHDL are noted.
abbrev pub AllNoted : Host → List FilePath → Session → Type 0
AllNoted host [] st = Unit
AllNoted host (src ∷ srcs) st =
    (is_rtl (name_of host src) ≡ true → noted st (log_at host src) ≡ true) × AllNoted host srcs st

abbrev pub NoXci : Host → List FilePath → Type 0
NoXci host [] = Unit
NoXci host (src ∷ srcs) = (is_xilinx_ip_checkpoint (name_of host src) ≡ false) × NoXci host srcs

rules_insert :
    (name : String) (st st' : Session)
    → insert name true st.rules ≡ st'.rules
    → Grows st st' × (noted st' name ≡ true)
rules_insert name st st' e = (
  λ k n.
      sym (ap (λ m. index false m k) e)
      ∙ ground (arith, index-insert name k false true st.rules, n),
  sym (ap (λ m. index false m name) e)
      ∙ ground (arith, index-insert name name false true st.rules, beq_refl name),
)

-- The step is added, and its log file noted.
noted_behind :
    (r : Result Context) (name : String) (st st' : Session)
    → ((r >>= λ ctx'. ok (record st { ctx = ctx' })) >>= λ m.
        ok (record m { rules = insert name true m.rules }))
      ≡ ok st'
    → Grows st st' × (noted st' name ≡ true)
noted_behind (ok ctx) name st st' h = rules_insert name st st' (cc)
noted_behind (fail e) name st st' h = cc

same_session : (st st' : Session) → ok st ≡ ok st' → Grows st st'
same_session st st' h = λ k n. cc

module _ (host : Host) (rule : Simulation) where
  note_step-noted :
      (log : OutPath) (s : BuildStep) (st st' : Session)
      → note_step host rule log s st ≡ ok st'
      → Grows st st' × (noted st' (log_name host rule log) ≡ true)
  unfolding note_step
  note_step-noted log s st st' h = elim (Bool-cases (noted st (log_name host rule log))) [
    | inl e ↦
        let grows = same_session st st' (rw (e, note_step) at h) in
        (grows, grows (log_name host rule log) e)
    | inr e ↦
        noted_behind (add_build_step host.input host.os s st.ctx) (log_name host rule log) st st'
          (rw (e, note_step) at h)
  ]

  -- What is noted already is no build step.
  note_step-again :
      (log : OutPath) (s : BuildStep) (st : Session)
      → noted st (log_name host rule log) ≡ true
      → note_step host rule log s st ≡ ok st
  unfolding note_step
  note_step-again log s st h = rw (h, note_step) refl

  -- The part of compile_src behind the command.
  unfoldable pub after : FilePath → Collected → Command × Session → Result (Collected × Session)
  after src c (command, st1) =
      let deps = c.deps ++ command.src ∷ [] in
      let log = log_of host rule src in
      if command.cmd == "" then ok (record { deps = deps; incs = command.incs }, st1) else (do
        st2 ← note_step host rule log (compile_step host rule log command deps) st1
        ok (record { deps = deps ++ out_path log ∷ []; incs = command.incs }, st2))

  pub compile_src-after :
      (src : FilePath) (c : Collected) (st : Session)
      → compile_src host rule src c st ≡ (source_command host rule src c.incs st >>= after src c)
  unfolding compile_src after
  compile_src-after src c st = refl

  noted_after :
      (r : Result Session) (a b : Collected) (st' : Session)
      → ◌>>=◌ {B = Collected × Session} r (λ st2. ok (a, st2)) ≡ ok (b, st')
      → r ≡ ok st'
  noted_after (ok st2) a b st' h = cc
  noted_after (fail e) a b st' h = cc

  after-noted :
      (src : FilePath) (c c' : Collected) (command : Command) (st st' : Session)
      → after src c (command, st) ≡ ok (c', st')
      → Grows st st' × ((command.cmd == "") ≡ false → noted st' (log_at host src) ≡ true)
  unfolding after log_of
  after-noted src c c' command st st' h = elim (Bool-cases (command.cmd == "")) [
    | inl e ↦ (λ k n. cc (rw (e, after) at h), λ f. cc)
    | inr e ↦
        let stepped =
          noted_after
            (note_step host rule (log_of host rule src)
              (compile_step host rule (log_of host rule src) command (c.deps ++ command.src ∷ []))
              st)
            _ c' st' (rw (e, after) at h) in
        let done = note_step-noted _ _ st st' stepped in (done.0, λ f. done.1)
  ]

  command_of :
      (a b : Command) (s t : Session)
      → ◌≡◌ {A = Result (Command × Session)} (ok (a, s)) (ok (b, t))
      → (b.cmd == "") ≡ (a.cmd == "")
  command_of a b s t e = cc

  compile_src-noted :
      (src : FilePath) (c c' : Collected) (st st' : Session)
      → compile_src host rule src c st ≡ ok (c', st')
      → Grows st st' × (is_rtl (name_of host src) ≡ true → noted st' (log_at host src) ≡ true)
  compile_src-noted src c c' st st' h =
      let ((command, st1), found, rest) =
        >>=-eq-ok (source_command host rule src c.incs st) (after src c)
          (sym (compile_src-after src c st) ∙ h) in
      let rules = source_command-rules host rule src c.incs st st1 command found in
      let done = after-noted src c c' command st1 st' rest in
      (
        λ k n. done.0 k (ap (λ m. index false m k) rules ∙ n),
        λ e. done.1 (
            command_of _ _ _ _ (sym (source_rtl host rule src c.incs st e) ∙ found)
            ∙ rtl_command-ne host rule src c.incs st.flags),
      )

  Grows-AllNoted :
      (srcs : List FilePath) (st st' : Session)
      → Grows st st'
      → AllNoted host srcs st
      → AllNoted host srcs st'
  Grows-AllNoted [] st st' g h = tt
  Grows-AllNoted (src ∷ srcs) st st' g (here, there) =
      (λ e. g (log_at host src) (here e), Grows-AllNoted srcs st st' g there)

  compile_srcs-noted :
      (srcs : List FilePath) (c c' : Collected) (st st' : Session)
      → compile_srcs host rule srcs c st ≡ ok (c', st')
      → Grows st st' × AllNoted host srcs st'
  unfolding compile_srcs
  compile_srcs-noted [] c c' st st' h = (λ k n. cc, tt)
  compile_srcs-noted (src ∷ srcs) c c' st st' h =
      let ((c1, st1), first, rest) =
        >>=-eq-ok (compile_src host rule src c st) (λ x. compile_srcs host rule srcs x.0 x.1) h in
      let (grows, here) = compile_src-noted src c c1 st st1 first in
      let (grows', there) = compile_srcs-noted srcs c1 c' st1 st' rest in
      (λ k n. grows' k (grows k n), (λ e. grows' (log_at host src) (here e), there))

  again : FilePath → Collected → FlagMap → Collected
  again src c flags =
      if is_rtl (name_of host src)
      then (let command = rtl_command host rule src c.incs flags in
          record {
            deps = (c.deps ++ command.src ∷ []) ++ out_path (log_of host rule src) ∷ [];
            incs = command.incs;
          })
      else record { deps = c.deps ++ src ∷ []; incs = (no_command host rule src c.incs).incs }

  after_rtl :
      (src : FilePath) (c : Collected) (command : Command) (st : Session)
      → (command.cmd == "") ≡ false
      → noted st (log_at host src) ≡ true
      → after src c (command, st)
        ≡ ok (
          record {
            deps = (c.deps ++ command.src ∷ []) ++ out_path (log_of host rule src) ∷ [];
            incs = command.incs;
          },
          st,
        )
  unfolding after log_of
  after_rtl src c command st e n =
      rw (e, after)
        (rw
          (note_step-again (log_of host rule src)
            (compile_step host rule (log_of host rule src) command (c.deps ++ command.src ∷ [])) st
            n)
          refl)

  pub after_other :
      (src : FilePath) (c : Collected) (st : Session)
      → after src c (no_command host rule src c.incs, st)
        ≡ ok (
          record { deps = c.deps ++ src ∷ []; incs = (no_command host rule src c.incs).incs },
          st,
        )
  unfolding after no_command
  after_other src c st = refl

  -- A source whose log file is noted changes nothing but the collected paths.
  compile_src-again :
      (src : FilePath) (c : Collected) (st : Session)
      → is_xilinx_ip_checkpoint (name_of host src) ≡ false
      → (is_rtl (name_of host src) ≡ true → noted st (log_at host src) ≡ true)
      → compile_src host rule src c st ≡ ok (again src c st.flags, st)
  unfolding again
  compile_src-again src c st x h = elim (Bool-cases (is_rtl (name_of host src))) [
    | inl e ↦
        compile_src-after src c st
        ∙ ap (λ r. r >>= after src c) (source_rtl host rule src c.incs st e)
        ∙ after_rtl src c _ st (rtl_command-ne host rule src c.incs st.flags) (h e)
        ∙ rw e refl
    | inr e ↦
        compile_src-after src c st
        ∙ ap (λ r. r >>= after src c) (source_other host rule src c.incs st e x)
        ∙ after_other src c st
        ∙ rw e refl
  ]

  again_all : List FilePath → Collected → FlagMap → Collected
  again_all [] c flags = c
  again_all (src ∷ srcs) c flags = again_all srcs (again src c flags) flags

  compile_srcs-AllNoted :
      (srcs : List FilePath) (c : Collected) (st : Session)
      → NoXci host srcs
      → AllNoted host srcs st
      → compile_srcs host rule srcs c st ≡ ok (again_all srcs c st.flags, st)
  unfolding compile_srcs again_all
  compile_srcs-AllNoted [] c st x h = refl
  compile_srcs-AllNoted (src ∷ srcs) c st (x, xs) (here, there) =
      ap (λ r. r >>= λ y. compile_srcs host rule srcs y.0 y.1) (compile_src-again src c st x here)
      ∙ compile_srcs-AllNoted srcs (again src c st.flags) st xs there

-- Sources that are compiled once are not compiled again in the same run of the generator: for any
-- later state of the map of rules, of this or another simulation, and whatever paths are collected
-- and flags set, compiling them leaves the context, the map and the flags as they are. The sources
-- are no XCI files, which are exported each time.
pub compile_srcs-again :
    (host : Host) (rule next : Simulation) (srcs : List FilePath) (c c' d : Collected)
    (st st' later : Session)
    → compile_srcs host rule srcs c st ≡ ok (c', st')
    → NoXci host srcs
    → Grows st' later
    → (d' : Collected) × (compile_srcs host next srcs d later ≡ ok (d', later))
compile_srcs-again host rule next srcs c c' d st st' later h x g = (
  again_all host next srcs d later.flags,
  compile_srcs-AllNoted host next srcs d later x (
      Grows-AllNoted host rule srcs st' later g
        (compile_srcs-noted host rule srcs c c' st st' h).1),
)
