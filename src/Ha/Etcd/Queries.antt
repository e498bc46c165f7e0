-- ===== src/Ha/Etcd/Queries.antt =====
-- The etcd probes only look.
use apple_pod_control.Prelude.{List, [], ◌∷◌}
use apple_pod_control.Host.{Host, Context}
use apple_pod_control.Host.Emits.{Emits}
use apple_pod_control.Host.Mutations.{IsQuery}
use apple_pod_control.Ha.Types.{HaMember, HaConfig, HaEtcdMemberTopology}
use apple_pod_control.Ha.Queries.{query_rules, with_timeout-IsQuery}
use apple_pod_control.Ha.Etcd.{probe_ha_etcd_member, probe_all, validate_ha_etcd_topology}

probe_ha_etcd_member-IsQuery :
    (host : Host) (ctx : Context) (config : HaConfig) (member : HaMember)
    → Emits IsQuery (probe_ha_etcd_member host ctx config member)
unfolding probe_ha_etcd_member
probe_ha_etcd_member-IsQuery host ctx config member =
    search (query_rules, with_timeout-IsQuery) depth 8

probe_all-IsQuery :
    (host : Host) (ctx : Context) (config : HaConfig) (members : List HaMember)
    (states : List HaEtcdMemberTopology)
    → Emits IsQuery (probe_all host ctx config members states)
unfolding probe_all
probe_all-IsQuery host ctx config [] states = search query_rules
probe_all-IsQuery host ctx config (member ∷ rest) states =
    let again = probe_all-IsQuery host ctx config rest in
    search (query_rules, probe_ha_etcd_member-IsQuery, again) depth 8

pub validate_ha_etcd_topology-IsQuery :
    (host : Host) (ctx : Context) (config : HaConfig)
    → Emits IsQuery (validate_ha_etcd_topology host ctx config)
unfolding validate_ha_etcd_topology
validate_ha_etcd_topology-IsQuery host ctx config = search (query_rules, probe_all-IsQuery)
