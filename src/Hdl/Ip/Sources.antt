-- ===== src/Hdl/Ip/Sources.antt =====
-- RULES/hdl/hdl.go: the sources of an Ip and of the Ips that it depends on.
pub mod Exact
use dbt_rules.Base.{String, Bool, ◌||◌, List, [], ◌∷◌, ◌++◌, if◌then◌else◌, ◌==◌, string_eq}
use dbt_rules.Base.Text.{has_suffix}
use dbt_rules.Base.Text.Paths.{dir}
use dbt_rules.Core.Input.{GeneratorInput}
use dbt_rules.Core.Path.{FilePath, absolute, relative, source_path}
use dbt_rules.Hdl.Unique.{Unique, none_seen, push_new, push_all}
use dbt_rules.Hdl.Ip.{Ip, ip, Ips, nil, cons}

module _ (input : GeneratorInput) where
  -- source.String()
  abbrev pub name : FilePath → String
  name path = absolute input path

  unfoldable pub is_wanted : String → FilePath → Bool
  unfolding has_suffix
  is_wanted suffix path = suffix == "" || has_suffix (name path) suffix

  unfoldable pub add_sources : String → List FilePath → Unique FilePath → Unique FilePath
  unfolding is_wanted push_new
  add_sources suffix [] u = u
  add_sources suffix (src ∷ srcs) u =
      add_sources suffix srcs (if is_wanted suffix src then push_new (name src) src u else u)

  unfoldable mutual
    unfolding add_sources

    pub filter_sources_from : String → Ip → Unique FilePath → Unique FilePath
    filter_sources_from suffix (ip parts ips) u =
        add_sources suffix parts.srcs (filter_sources_of suffix ips u)

    pub filter_sources_of : String → Ips → Unique FilePath → Unique FilePath
    filter_sources_of suffix nil u = u
    filter_sources_of suffix (cons dep deps) u =
        filter_sources_of suffix deps (filter_sources_from suffix dep u)

  unfoldable pub filter_sources : Ip → String → List FilePath
  unfolding filter_sources_from
  filter_sources i suffix = (filter_sources_from suffix i none_seen).items

  unfoldable pub all_sources : Ip → List FilePath
  unfolding filter_sources
  all_sources i = filter_sources i ""

  inc_dirs : List FilePath → Unique FilePath → Unique FilePath
  unfolding push_new
  inc_dirs [] u = u
  inc_dirs (inc ∷ incs) u =
      inc_dirs incs (push_new (dir (name inc)) (source_path (dir (relative inc))) u)

  unfoldable pub all_inc_dirs : Ip → List FilePath
  unfolding inc_dirs filter_sources
  all_inc_dirs i = (inc_dirs (filter_sources i ".vh" ++ filter_sources i ".svh") none_seen).items
