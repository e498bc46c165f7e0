-- ===== src/Ha/Addresses/Envelope/Queries.antt =====
-- The checks and waits around a server's creation only look.
use apple_pod_control.Prelude.{
  ℕ, zero, suc, Option, none, some, List, [], ◌∷◌, Bool-cases, inl, inr, ◌==◌,
}
use apple_pod_control.Host.{Host, Context}
use apple_pod_control.Host.Action.{Res, ok, err, Action}
use apple_pod_control.Host.Emits.{Emits, Emits-bind}
use apple_pod_control.Host.Mutations.{IsQuery}
use apple_pod_control.Ha.Types.{HaMember, HaConfig, HaContainerInspect}
use apple_pod_control.Ha.Preflight.{IdMap}
use apple_pod_control.Ha.Queries.{
  query_rules, with_timeout-IsQuery, wait-IsQuery, inspect_ha_container-IsQuery,
}
use apple_pod_control.Ha.Addresses.Peers.{
  peer_error, peer_record, note_peer, inspect_peers, validate_ha_peer_runtime_ip_reservations,
}
use apple_pod_control.Ha.Addresses.Envelope.{
  Verdict, look_unaddressed, look, finish_look, look_once, wait_address, start_wait,
  wait_ha_server_runtime_address,
}

peer_record-IsQuery :
    (host : Host) (ctx : Context) (r : Res HaContainerInspect)
    → Emits IsQuery (peer_record host ctx r)
unfolding peer_record peer_error
peer_record-IsQuery host ctx (ok r) = search query_rules
peer_record-IsQuery host ctx (err e) = search query_rules depth 8

note_peer-IsQuery :
    (host : Host) (config : HaConfig) (member : HaMember) (found : Option HaContainerInspect)
    (records : IdMap HaContainerInspect)
    → Emits IsQuery (note_peer host config member found records)
unfolding note_peer
note_peer-IsQuery host config member none records = search query_rules
note_peer-IsQuery host config member (some r) records = search query_rules

inspect_peers-IsQuery :
    (host : Host) (ctx : Context) (config : HaConfig) (target : HaMember) (members : List HaMember)
    (records : IdMap HaContainerInspect)
    → Emits IsQuery (inspect_peers host ctx config target members records)
unfolding inspect_peers
inspect_peers-IsQuery host ctx config target [] records = search query_rules
inspect_peers-IsQuery host ctx config target (member ∷ rest) records =
    let again = inspect_peers-IsQuery host ctx config target rest in
    elim (Bool-cases (member.id == target.id)) [
      | inl same ↦ rw (same, inspect_peers) (again records)
      | inr differs ↦
          rw (differs, inspect_peers)
            (search
              (
                query_rules, inspect_ha_container-IsQuery, peer_record-IsQuery, note_peer-IsQuery,
                again,
              )
              depth 10)
    ]

pub validate_peers-IsQuery :
    (host : Host) (ctx : Context) (config : HaConfig) (target : HaMember)
    → Emits IsQuery (validate_ha_peer_runtime_ip_reservations host ctx config target)
unfolding validate_ha_peer_runtime_ip_reservations
validate_peers-IsQuery host ctx config target =
    search (query_rules, with_timeout-IsQuery, inspect_peers-IsQuery) depth 8

look_unaddressed-IsQuery :
    (host : Host) (ctx : Context) (config : HaConfig) (member : HaMember) (r : HaContainerInspect)
    → Emits IsQuery (look_unaddressed host ctx config member r)
unfolding look_unaddressed
look_unaddressed-IsQuery host ctx config member r = search query_rules depth 8

look-IsQuery :
    (host : Host) (ctx : Context) (config : HaConfig) (member : HaMember)
    (r : Res HaContainerInspect)
    → Emits IsQuery (look host ctx config member r)
unfolding look
look-IsQuery host ctx config member (ok r) = search (query_rules, look_unaddressed-IsQuery) depth 8
look-IsQuery host ctx config member (err e) = search query_rules

finish_look-IsQuery :
    (v : Verdict) (again : Action (Unit {0}))
    → Emits IsQuery again
    → Emits IsQuery (finish_look v again)
unfolding finish_look
finish_look-IsQuery none again q = search (query_rules, wait-IsQuery)
finish_look-IsQuery (some none) again q = search query_rules
finish_look-IsQuery (some (some e)) again q = search query_rules

look_once-IsQuery :
    (host : Host) (ctx : Context) (config : HaConfig) (member : HaMember)
    → Emits IsQuery (look_once host ctx config member)
unfolding look_once
look_once-IsQuery host ctx config member =
    search (query_rules, inspect_ha_container-IsQuery, look-IsQuery) depth 8

wait_address-IsQuery :
    (ticks : ℕ) (host : Host) (ctx : Context) (config : HaConfig) (member : HaMember)
    → Emits IsQuery (wait_address ticks host ctx config member)
unfolding wait_address
wait_address-IsQuery zero host ctx config member =
    search (query_rules, look_once-IsQuery, finish_look-IsQuery)
wait_address-IsQuery (suc ticks) host ctx config member =
    Emits-bind _ _ (look_once-IsQuery host ctx config member)
      (λ v. finish_look-IsQuery v _ (wait_address-IsQuery ticks host ctx config member))

start_wait-IsQuery :
    (host : Host) (ctx : Context) (config : HaConfig) (member : HaMember)
    → Emits IsQuery (start_wait host ctx config member)
unfolding start_wait
start_wait-IsQuery host ctx config member = record {
  at = λ h. (wait_address-IsQuery (host.ticks ctx h) host ctx config member).at h;
}

pub wait_ha_server_runtime_address-IsQuery :
    (host : Host) (ctx : Context) (config : HaConfig) (member : HaMember)
    → Emits IsQuery (wait_ha_server_runtime_address host ctx config member)
unfolding wait_ha_server_runtime_address
wait_ha_server_runtime_address-IsQuery host ctx config member =
    search (query_rules, with_timeout-IsQuery, start_wait-IsQuery) depth 8
