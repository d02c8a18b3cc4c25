-- ===== src/Hdl/Questa/Compile/Order.antt =====
-- RULES/hdl/questa.go: the dependencies that a compilation collects.
use dbt_rules.Base.{
  ◌≡◌, refl, sym, ap, ◌∙◌, true, false, List, [], ◌∷◌, ◌++◌, append-nil, append_assoc, ◌==◌,
  string_eq, Bool-cases, inl, inr, if◌then◌else◌, Result, ok, fail, ◌>>=◌, >>=-eq-ok,
}
use dbt_rules.Core.Path.{FilePath, out_path}
use dbt_rules.Hdl.Files.{is_rtl, is_verilog, is_vhdl, is_header, is_xilinx_ip_checkpoint}
use dbt_rules.Hdl.Ip.{FlagMap}
use dbt_rules.Hdl.Simulation.{Simulation, Host}
use dbt_rules.Hdl.Questa.Compile.{
  Session, Collected, Command, note_step, compile_step, log_of, compile_src, compile_srcs,
  rtl_command,
}
use dbt_rules.Hdl.Questa.Compile.Commands.{
  name_of, rtl_command-ne, source_rtl, source_other, no_command,
}
use dbt_rules.Hdl.Questa.Compile.Noted.{NoXci, after, compile_src-after, after_other}

module _ (host : Host) (rule : Simulation) where
  -- A source, and its log file behind it if it is in Verilog or VHDL.
  abbrev pub with_log : FilePath → List FilePath
  with_log src =
      if is_rtl (name_of host src) then src ∷ out_path (log_of host rule src) ∷ [] else src ∷ []

  abbrev pub with_logs : List FilePath → List FilePath
  with_logs [] = []
  with_logs (src ∷ srcs) = with_log src ++ with_logs srcs

  abbrev pub header : FilePath → List FilePath
  header src =
      if is_rtl (name_of host src)
      then []
      else if is_header (name_of host src)
      then src ∷ []
      else []

  abbrev pub headers : List FilePath → List FilePath
  headers [] = []
  headers (src ∷ srcs) = header src ++ headers srcs

  abbrev pub Extends : Collected → Collected → List FilePath → List FilePath → Type 0
  Extends c c' deps incs = (c'.deps ≡ c.deps ++ deps) × (c'.incs ≡ c.incs ++ incs)

  collected_eq :
      (a b : Collected) (s t : Session)
      → ◌≡◌ {A = Result (Collected × Session)} (ok (a, s)) (ok (b, t))
      → a ≡ b
  collected_eq a b s t h = cc

  stepped :
      (r : Result Session) (a b : Collected) (st' : Session)
      → ◌>>=◌ {B = Collected × Session} r (λ st2. ok (a, st2)) ≡ ok (b, st')
      → a ≡ b
  stepped (ok st2) a b st' h = cc
  stepped (fail e) a b st' h = cc

  after_command :
      (src : FilePath) (c c' : Collected) (command : Command) (st st' : Session)
      → (command.cmd == "") ≡ false
      → after host rule src c (command, st) ≡ ok (c', st')
      → record {
        deps = (c.deps ++ command.src ∷ []) ++ out_path (log_of host rule src) ∷ [];
        incs = command.incs;
      }
        ≡ c'
  unfolding after
  after_command src c c' command st st' e h =
      stepped
        (note_step host rule (log_of host rule src)
          (compile_step host rule (log_of host rule src) command (c.deps ++ command.src ∷ [])) st)
        _ c' st' (rw (e, after) at h)

  -- The command for Verilog or VHDL keeps the source and the include files.
  pub rtl_command-kept :
      (src : FilePath) (incs : List FilePath) (flags : FlagMap)
      → ((rtl_command host rule src incs flags).src ≡ src)
        × ((rtl_command host rule src incs flags).incs ≡ incs)
  unfolding rtl_command
  rtl_command-kept src incs flags = elim (Bool-cases (is_verilog (name_of host src))) [
    | inl e ↦ (rw e refl, rw e refl)
    | inr e ↦ elim (Bool-cases (is_vhdl (name_of host src))) [
      | inl v ↦ (rw e (rw v refl), rw e (rw v refl))
      | inr v ↦ (rw e (rw v refl), rw e (rw v refl))
    ]
  ]

  rtl-Extends :
      (src : FilePath) (c c' : Collected) (command : Command)
      → is_rtl (name_of host src) ≡ true
      → command.src ≡ src
      → command.incs ≡ c.incs
      → record {
        deps = (c.deps ++ command.src ∷ []) ++ out_path (log_of host rule src) ∷ [];
        incs = command.incs;
      }
        ≡ c'
      → Extends c c' (with_log src) (header src)
  rtl-Extends src c c' command e same_src same_incs same = (
    sym (ap (λ (k : Collected). k.deps) same)
        ∙ ap (λ p. (c.deps ++ p ∷ []) ++ out_path (log_of host rule src) ∷ []) same_src
        ∙ append_assoc c.deps (src ∷ []) (out_path (log_of host rule src) ∷ [])
        ∙ rw e refl,
    sym (ap (λ (k : Collected). k.incs) same) ∙ same_incs ∙ sym (append-nil c.incs) ∙ rw e refl,
  )

  other-Extends :
      (src : FilePath) (c c' : Collected) (st st' : Session)
      → is_rtl (name_of host src) ≡ false
      → ◌≡◌ {A = Result (Collected × Session)}
          (ok (
            record { deps = c.deps ++ src ∷ []; incs = (no_command host rule src c.incs).incs },
            st,
          ))
          (ok (c', st'))
      → Extends c c' (with_log src) (header src)
  unfolding no_command
  other-Extends src c c' st st' e h =
      let same = collected_eq _ c' st st' h in
      (
        sym (ap (λ (k : Collected). k.deps) same) ∙ rw e refl,
        sym (ap (λ (k : Collected). k.incs) same)
            ∙ elim (Bool-cases (is_header (name_of host src))) [
              | inl f ↦ rw e (rw f refl)
              | inr f ↦ rw e (rw f (sym (append-nil c.incs)))
            ],
      )

  compile_src-Extends :
      (src : FilePath) (c c' : Collected) (st st' : Session)
      → is_xilinx_ip_checkpoint (name_of host src) ≡ false
      → compile_src host rule src c st ≡ ok (c', st')
      → Extends c c' (with_log src) (header src)
  unfolding rtl_command
  compile_src-Extends src c c' st st' x h = elim (Bool-cases (is_rtl (name_of host src))) [
    | inl e ↦
        let same =
          after_command src c c' (rtl_command host rule src c.incs st.flags) st st'
            (rtl_command-ne host rule src c.incs st.flags)
            (sym (
                compile_src-after host rule src c st
                ∙ ap (λ r. r >>= after host rule src c) (source_rtl host rule src c.incs st e))
              ∙ h) in
        let kept = rtl_command-kept src c.incs st.flags in
        rtl-Extends src c c' (rtl_command host rule src c.incs st.flags) e kept.0 kept.1 same
    | inr e ↦ other-Extends src c c' st st' e (
        sym (
          compile_src-after host rule src c st
          ∙ ap (λ r. r >>= after host rule src c) (source_other host rule src c.incs st e x)
          ∙ after_other host rule src c st)
        ∙ h)
  ]

  -- The sources of a list, none of them an XCI file, follow the dependencies that are there in their
  -- order, each in Verilog or VHDL with its log file behind it, and the headers follow the include
  -- files.
  pub compile_srcs-Extends :
      (srcs : List FilePath) (c c' : Collected) (st st' : Session)
      → NoXci host srcs
      → compile_srcs host rule srcs c st ≡ ok (c', st')
      → (c'.deps ≡ c.deps ++ with_logs srcs) × (c'.incs ≡ c.incs ++ headers srcs)
  unfolding compile_srcs
  compile_srcs-Extends [] c c' st st' x h =
      let same = collected_eq c c' st st' h in
      (
        sym (ap (λ (k : Collected). k.deps) same) ∙ sym (append-nil c.deps),
        sym (ap (λ (k : Collected). k.incs) same) ∙ sym (append-nil c.incs),
      )
  compile_srcs-Extends (src ∷ srcs) c c' st st' (x, xs) h =
      let ((c1, st1), first, rest) =
        >>=-eq-ok (compile_src host rule src c st) (λ y. compile_srcs host rule srcs y.0 y.1) h in
      let here = compile_src-Extends src c c1 st st1 x first in
      let there = compile_srcs-Extends srcs c1 c' st1 st' xs rest in
      (
        there.0
            ∙ ap (λ l. l ++ with_logs srcs) here.0
            ∙ append_assoc c.deps (with_log src) (with_logs srcs),
        there.1
            ∙ ap (λ l. l ++ headers srcs) here.1
            ∙ append_assoc c.incs (header src) (headers srcs),
      )
