-- ===== src/Hdl/Ip/Flatten.antt =====
-- RULES/hdl/flatten_ip_graph.go: `FlattenIpGraph`. The checksum of an Ip's printed form
-- (crypto/sha256 of %+v) is the parameter `sum`.
pub mod Order
use dbt_rules.Base.{String, List}
use dbt_rules.Hdl.Unique.{Unique, none_seen, push_new}
use dbt_rules.Hdl.Ip.{Ip, ip, Ips, nil, cons}

module _ (sum : Ip → String) where
  unfoldable mutual
    unfolding push_new

    pub flatten_ip_graph_from : Ip → Unique Ip → Unique Ip
    flatten_ip_graph_from (ip parts deps) u =
        push_new (sum (ip parts deps)) (ip parts deps) (flatten_ip_graph_of deps u)

    pub flatten_ip_graph_of : Ips → Unique Ip → Unique Ip
    flatten_ip_graph_of nil u = u
    flatten_ip_graph_of (cons i is) u = flatten_ip_graph_of is (flatten_ip_graph_from i u)

  unfoldable pub flatten_ip_graph : Ips → List Ip
  unfolding flatten_ip_graph_of
  flatten_ip_graph is = (flatten_ip_graph_of is none_seen).items
