-- ===== src/Ha/Status/Queries.antt =====
-- The status query only looks.
use apple_pod_control.Prelude.{List, [], ◌∷◌, Option, none, some}
use apple_pod_control.Text.{Text}
use apple_pod_control.Host.{Host, Context}
use apple_pod_control.Host.Emits.{Emits}
use apple_pod_control.Host.Mutations.{IsQuery}
use apple_pod_control.Ha.Types.{HaMember, HaConfig, HaMemberState, HaState, HaContainerInspect}
use apple_pod_control.Ha.Queries.{
  query_rules, optional-IsQuery, inspect_ha_container-IsQuery, read_ha_member_node-IsQuery,
  load_ha_config-IsQuery,
}
use apple_pod_control.Ha.Status.{
  probe_member, found_member, status_member, status_members, status_ha,
}

probe_member-IsQuery :
    (host : Host) (ctx : Context) (config : HaConfig) (member : HaMember) (state : HaMemberState)
    → Emits IsQuery (probe_member host ctx config member state)
unfolding probe_member
probe_member-IsQuery host ctx config member state =
    search (query_rules, read_ha_member_node-IsQuery)

found_member-IsQuery :
    (host : Host) (ctx : Context) (config : HaConfig) (member : HaMember)
    (found : Option HaContainerInspect)
    → Emits IsQuery (found_member host ctx config member found)
unfolding found_member
found_member-IsQuery host ctx config member none = search query_rules
found_member-IsQuery host ctx config member (some r) =
    search (query_rules, probe_member-IsQuery) depth 8

status_member-IsQuery :
    (host : Host) (ctx : Context) (config : HaConfig) (member : HaMember)
    → Emits IsQuery (status_member host ctx config member)
unfolding status_member
status_member-IsQuery host ctx config member =
    search (query_rules, optional-IsQuery, inspect_ha_container-IsQuery, found_member-IsQuery)

status_members-IsQuery :
    (host : Host) (ctx : Context) (config : HaConfig) (members : List HaMember) (state : HaState)
    → Emits IsQuery (status_members host ctx config members state)
unfolding status_members
status_members-IsQuery host ctx config [] state = search query_rules
status_members-IsQuery host ctx config (member ∷ rest) state =
    let again = status_members-IsQuery host ctx config rest in
    search (query_rules, status_member-IsQuery, again)

pub status_ha-IsQuery :
    (host : Host) (ctx : Context) (name : Text) → Emits IsQuery (status_ha host ctx name)
unfolding status_ha
status_ha-IsQuery host ctx name =
    search (query_rules, load_ha_config-IsQuery, status_members-IsQuery) depth 8
