-- ===== src/Xilinx/Boot.antt =====
-- RULES/xilinx: boot_payload.go, handoff.go, trusted_firmware.go and uboot.go.
use dbt_rules.Base.{
  String, ◌<>◌, Bool, false, Option, none, some, List, [], ◌∷◌, ◌==◌, string_eq, if◌then◌else◌,
  Result, ok, ◌>>=◌, ◌>>◌,
}
use dbt_rules.Base.Text.{has_suffix}
use dbt_rules.Core.Input.{Outcome, done, error, fatal}
use dbt_rules.Core.Path.{FilePath, out_path, OutPath, absolute, source_path}
use dbt_rules.Core.Context.{Context, Action}
use dbt_rules.Core.Context.AddBuildStep.{add_build_step}
use dbt_rules.Core.Template.{compile_template}
use dbt_rules.Core.Rules.{zero_step}
use dbt_rules.Xilinx.Templates.{
  XilinxHost, XilinxParams, boot_payload_params, handoff_params, atf_params, u_boot_params,
}
use dbt_rules.Xilinx.Scripts.{boot_payload_script, handoff_script, atf_script, u_boot_script}

-- `data_files` are the Ip's `Data()`; `patches` and `configs` are lists of a pattern and a value.
pub record Handoff : Type 0 where
  pub fsbl : OutPath
  pub pmu_fw : OutPath
  pub data_files : List FilePath
  pub patches : List (String × FilePath)

pub record UBoot : Type 0 where
  pub out : OutPath
  pub configs : List (String × String)

pub record BootPayload : Type 0 where
  pub out : OutPath
  pub handoff : Handoff
  pub bl31 : OutPath
  pub u_boot : UBoot

module _ {F : Type 0} (x : XilinxHost F) where
  -- Fatal
  message : String → Context → Result (Unit {0})
  message msg ctx = fatal x.host.input ctx.current_target msg

  template : String → String → XilinxParams F → Context → Result String
  template tmpl name params ctx =
      compile_template x.host.input x.templates ctx.current_target tmpl name params

  -- An error of the pattern, in a run for completions, counts as no match.
  is_match : String → Outcome Bool → Context → Result Bool
  unfolding message
  is_match what (done b) ctx = ok b
  is_match what (error err) ctx = do message (what <> ": " <> err) ctx; ok false

  -- The value of the last pattern that matches the board.
  unfoldable pub last_match : {A : Type 0} → String → List (String × A) → A → Context → Result A
  unfolding is_match
  last_match what [] found ctx = ok found
  last_match what ((key, value) ∷ rest) found ctx = do
    b ← is_match what (x.match_string key x.host.settings.board_name) ctx
    last_match what rest (if b then value else found) ctx

  unfoldable pub u_boot_build : UBoot → Action
  unfolding last_match message template
  u_boot_build rule ctx = do
    config ← last_match "UBoot config" rule.configs "" ctx
    (if config == ""
        then message ("Unable to determine U-Boot config for board: " <> x.host.settings.board_name)
            ctx
        else ok tt)
    text ←
        template u_boot_script "uboot-script"
          (u_boot_params (record { out = rule.out; repo = source_path "u-boot"; config = config }))
          ctx
    add_build_step x.host.input x.host.os
        (record zero_step {
          out = some rule.out;
          in' = some (source_path "u-boot");
          script = text;
          descr = "Building U-Boot for board " <> x.host.settings.board_name;
        })
        ctx

  unfoldable pub atf_build : OutPath → Action
  unfolding template
  atf_build bl31 ctx = do
    text ←
        template atf_script "atf-script"
          (atf_params
            (record { bl31 = out_path bl31; repo = source_path "arm-trusted-firmware-xlnx" }))
          ctx
    add_build_step x.host.input x.host.os
        (record zero_step {
          out = some bl31;
          in' = some (source_path "arm-trusted-firmware-xlnx");
          script = text;
          descr = "Building Xilinx Arm Trusted Firmware";
        })
        ctx

  unfoldable pub find_hwdef : List FilePath → Option FilePath
  unfolding has_suffix
  find_hwdef [] = none
  find_hwdef (file ∷ files) =
      let rest = find_hwdef files in
      if has_suffix (absolute x.host.input file) ".hwdef" then some file else rest

  some_values : List (String × FilePath) → List (String × Option FilePath)
  some_values [] = []
  some_values ((key, p) ∷ rest) = (key, some p) ∷ some_values rest

  unfoldable pub handoff_build : Handoff → Action
  unfolding find_hwdef last_match some_values message template
  handoff_build rule ctx = do
    let hwdef = find_hwdef rule.data_files
    (elim hwdef [
      | none ↦ message "Unable to find a Hardware Definition in the input design" ctx
      | some p ↦ ok tt
    ])
    patch ← last_match "Handoff patch" (some_values rule.patches) none ctx
    text ←
        template handoff_script "handoff-script"
          (handoff_params (record {
            hw_def = hwdef;
            embedded_sw = source_path "embeddedsw";
            fsbl = out_path rule.fsbl;
            pmu_fw = out_path rule.pmu_fw;
            patch = patch;
          }))
          ctx
    add_build_step x.host.input x.host.os
        (record zero_step {
          outs = some (rule.fsbl ∷ rule.pmu_fw ∷ []);
          in' = hwdef;
          script = text;
          descr = "Building Handoff Software for board " <> x.host.settings.board_name;
        })
        ctx

  unfoldable pub boot_payload_build : BootPayload → Action
  unfolding template
  boot_payload_build rule ctx = do
    text ←
        template boot_payload_script "boot-payload-script"
          (boot_payload_params (record {
            out = rule.out;
            fsbl = out_path rule.handoff.fsbl;
            pmu_fw = out_path rule.handoff.pmu_fw;
            bl31 = out_path rule.bl31;
            u_boot = out_path rule.u_boot.out;
          }))
          ctx
    add_build_step x.host.input x.host.os
        (record zero_step {
          out = some rule.out;
          ins =
              out_path rule.handoff.fsbl
              ∷ out_path rule.handoff.pmu_fw
              ∷ out_path rule.bl31
              ∷ out_path rule.u_boot.out
              ∷ [];
          script = text;
          descr = "Building Boot Payload";
        })
        ctx
