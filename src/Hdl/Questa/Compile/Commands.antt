-- ===== src/Hdl/Questa/Compile/Commands.antt =====
-- RULES/hdl/questa.go: what a source is compiled by.
use text.Mathlib.TextLemmas.{append-eq-nil_iff}
use dbt_rules.Base.{
  String, ◌<>◌, ◌≡◌, ◌≢◌, refl, sym, ◌∙◌, true, false, List, [], ◌∷◌, ◌++◌, ◌==◌, string_eq, beq_ne,
  text_ne, Bool-cases, inl, inr, if◌then◌else◌, Result, ok, fail, ◌>>=◌,
}
use dbt_rules.Core.Path.{FilePath, absolute}
use dbt_rules.Core.Context.{Context}
use dbt_rules.Hdl.Questa.Flags.{vlog_cmd, vcom_cmd}
use dbt_rules.Hdl.Files.{is_rtl, is_verilog, is_vhdl, is_header, is_xilinx_ip_checkpoint}
use dbt_rules.Hdl.Ip.{FlagMap}
use dbt_rules.Hdl.Simulation.{Simulation, Host}
use dbt_rules.Hdl.Questa.Compile.{Session, Command, source_command, rtl_command}

abbrev pub name_of : Host → FilePath → String
name_of host src = absolute host.input src

module _ (host : Host) (rule : Simulation) where
  left_ne : (s t : String) → s ≢ "" → s <> t ≢ ""
  left_ne s t h e = h (append-eq-nil_iff.0 e).0

  right_ne : (s t : String) → t ≢ "" → s <> t ≢ ""
  right_ne s t h e = h (append-eq-nil_iff.0 e).1

  vlog_cmd-ne : (incs : List FilePath) (flags : FlagMap) → vlog_cmd host rule incs flags ≢ ""
  unfolding vlog_cmd
  vlog_cmd-ne incs flags = left_ne "vlog " _ (text_ne "vlog " "" refl)

  vcom_cmd-ne : (flags : FlagMap) → vcom_cmd flags ≢ ""
  unfolding vcom_cmd
  vcom_cmd-ne flags = left_ne "vcom " _ (text_ne "vcom " "" refl)

  -- A command for Verilog or VHDL is not empty.
  pub rtl_command-ne :
      (src : FilePath) (incs : List FilePath) (flags : FlagMap)
      → ((rtl_command host rule src incs flags).cmd == "") ≡ false
  unfolding rtl_command
  rtl_command-ne src incs flags = elim (Bool-cases (is_verilog (name_of host src))) [
    | inl e ↦ rw e (beq_ne _ "" (left_ne _ _ (vlog_cmd-ne incs flags)))
    | inr e ↦ elim (Bool-cases (is_vhdl (name_of host src))) [
      | inl v ↦ rw e (rw v (beq_ne _ "" (left_ne _ _ (vcom_cmd-ne flags))))
      | inr v ↦ rw e (rw v (beq_ne _ "" (right_ne _ _ (left_ne " -l " _ (text_ne " -l " "" refl)))))
    ]
  ]

  pub source_rtl :
      (src : FilePath) (incs : List FilePath) (st : Session)
      → is_rtl (name_of host src) ≡ true
      → source_command host rule src incs st ≡ ok (rtl_command host rule src incs st.flags, st)
  unfolding source_command
  source_rtl src incs st e = rw (e, source_command) refl

  unfoldable pub no_command : FilePath → List FilePath → Command
  no_command src incs = record {
    tool = "";
    cmd = "";
    src = src;
    incs = if is_header (name_of host src) then incs ++ src ∷ [] else incs;
  }

  pub source_other :
      (src : FilePath) (incs : List FilePath) (st : Session)
      → is_rtl (name_of host src) ≡ false
      → is_xilinx_ip_checkpoint (name_of host src) ≡ false
      → source_command host rule src incs st ≡ ok (no_command src incs, st)
  unfolding source_command no_command
  source_other src incs st e f = rw (e, source_command) (rw (f) refl)

  exported :
      (r : Result (FilePath × Context)) (f : FilePath → Command) (st st1 : Session)
      (command : Command)
      → ◌>>=◌ {B = Command × Session} r (λ x. ok (f x.0, record st { ctx = x.1 }))
        ≡ ok (command, st1)
      → st1.rules ≡ st.rules
  exported (ok (script, ctx)) f st st1 command h = cc
  exported (fail e) f st st1 command h = cc

  pub source_command-rules :
      (src : FilePath) (incs : List FilePath) (st st1 : Session) (command : Command)
      → source_command host rule src incs st ≡ ok (command, st1)
      → st1.rules ≡ st.rules
  unfolding source_command
  source_command-rules src incs st st1 command h = elim (Bool-cases (is_rtl (name_of host src))) [
    | inl e ↦ cc (sym (source_rtl src incs st e) ∙ h)
    | inr e ↦ elim (Bool-cases (is_xilinx_ip_checkpoint (name_of host src))) [
      | inl x ↦ exported _ _ st st1 command (rw (e, x, source_command) at h)
      | inr x ↦ cc (sym (source_other src incs st e x) ∙ h)
    ]
  ]
