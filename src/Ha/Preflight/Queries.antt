-- ===== src/Ha/Preflight/Queries.antt =====
-- The preflight only looks.
use apple_pod_control.Prelude.{List, [], ◌∷◌, Bool, Option, none, some}
use apple_pod_control.Host.{Host, Context}
use apple_pod_control.Host.Emits.{Emits}
use apple_pod_control.Host.Mutations.{IsQuery}
use apple_pod_control.Ha.Types.{
  HaMember, HaConfig, HaContainerInspect, HaVolumeInspect, HaNetworkInspect,
}
use apple_pod_control.Ha.Queries.{
  query_rules, optional-IsQuery, inspect_ha_container-IsQuery, inspect_ha_volume-IsQuery,
  inspect_ha_network-IsQuery,
}
use apple_pod_control.Ha.Preflight.{
  HaPreflight, note_network, note_volume, note_container, preflight_members, preflight_ha,
}

note_network-IsQuery :
    (config : HaConfig) (found : Option HaNetworkInspect) (p : HaPreflight)
    → Emits IsQuery (note_network config found p)
unfolding note_network
note_network-IsQuery config none p = search query_rules
note_network-IsQuery config (some r) p = search query_rules

note_volume-IsQuery :
    (config : HaConfig) (member : HaMember) (found : Option HaVolumeInspect) (p : HaPreflight)
    → Emits IsQuery (note_volume config member found p)
unfolding note_volume
note_volume-IsQuery config member none p = search query_rules
note_volume-IsQuery config member (some r) p = search query_rules

note_container-IsQuery :
    (host : Host) (config : HaConfig) (member : HaMember) (found : Option HaContainerInspect)
    (p : HaPreflight)
    → Emits IsQuery (note_container host config member found p)
unfolding note_container
note_container-IsQuery host config member none p = search query_rules
note_container-IsQuery host config member (some r) p = search query_rules

preflight_members-IsQuery :
    (host : Host) (ctx : Context) (config : HaConfig) (members : List HaMember) (p : HaPreflight)
    → Emits IsQuery (preflight_members host ctx config members p)
unfolding preflight_members
preflight_members-IsQuery host ctx config [] p = search query_rules
preflight_members-IsQuery host ctx config (member ∷ rest) p =
    let again = preflight_members-IsQuery host ctx config rest in
    search
      (
        query_rules, optional-IsQuery, inspect_ha_container-IsQuery, inspect_ha_volume-IsQuery,
        note_volume-IsQuery, note_container-IsQuery, again,
      )
      depth 12

pub preflight_ha-IsQuery :
    (host : Host) (ctx : Context) (config : HaConfig) (partial : Bool)
    → Emits IsQuery (preflight_ha host ctx config partial)
unfolding preflight_ha
preflight_ha-IsQuery host ctx config partial =
    search
      (
        query_rules, optional-IsQuery, inspect_ha_network-IsQuery, note_network-IsQuery,
        preflight_members-IsQuery,
      )
      depth 12
