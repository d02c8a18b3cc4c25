-- ===== src/Hdl/Simulation/Binaries.antt =====
-- RULES/hdl/simulator.go: the memory files that a simulation reads, which are copied to the build
-- tree, and RULES/core/copy.go, by which they are copied.
use dbt_rules.Base.{Bool, ◌||◌, List, [], ◌∷◌, if◌then◌else◌, ok, ◌>>=◌}
use dbt_rules.Base.Text.{has_suffix}
use dbt_rules.Core.Path.{FilePath, absolute, build_path}
use dbt_rules.Core.Context.{Action}
use dbt_rules.Core.Rules.{copy_file}
use dbt_rules.Hdl.Ip.{Ip, ip, Ips, nil, cons}
use dbt_rules.Hdl.Simulation.{Simulation, Host}

module _ (host : Host) where
  abbrev is_memory : FilePath → Bool
  is_memory src =
      has_suffix (absolute host.input src) ".hex" || has_suffix (absolute host.input src) ".dat"

  unfoldable pub copy_srcs_binaries : List FilePath → Action
  unfolding copy_file
  copy_srcs_binaries [] ctx = ok ctx
  copy_srcs_binaries (src ∷ srcs) ctx = do
    ctx' ← (if is_memory src then copy_file host.input host.os src (build_path "/") ctx else ok ctx)
    copy_srcs_binaries srcs ctx'

  unfoldable mutual
    unfolding copy_srcs_binaries

    pub copy_ip_binaries : Ip → Action
    copy_ip_binaries (ip parts ips) ctx = do
      ctx' ← copy_ips_binaries ips ctx
      copy_srcs_binaries parts.srcs ctx'

    pub copy_ips_binaries : Ips → Action
    copy_ips_binaries nil ctx = ok ctx
    copy_ips_binaries (cons i is) ctx = do ctx' ← copy_ip_binaries i ctx; copy_ips_binaries is ctx'

  unfoldable pub copy_binaries : Simulation → Action
  unfolding copy_ips_binaries
  copy_binaries rule ctx = do
    ctx' ← copy_ips_binaries rule.ips ctx
    copy_srcs_binaries rule.srcs ctx'
