-- ===== src/Ha/Members/Queries.antt =====
-- The checks before a stop and the waits only look.
use apple_pod_control.Prelude.{ℕ, zero, suc, Bool, Option, none, some}
use apple_pod_control.Host.{Host, Context, Error}
use apple_pod_control.Host.Action.{Res, ok, err, Action}
use apple_pod_control.Host.Emits.{Emits, Emits-bind}
use apple_pod_control.Host.Mutations.{IsQuery}
use apple_pod_control.Ha.Types.{HaMember, HaConfig, HaMemberState, HaState}
use apple_pod_control.Ha.Queries.{query_rules, wait-IsQuery}
use apple_pod_control.Ha.Preflight.{HaPreflight}
use apple_pod_control.Ha.Preflight.Queries.{preflight_ha-IsQuery}
use apple_pod_control.Ha.Status.Queries.{status_ha-IsQuery}
use apple_pod_control.Ha.Etcd.Queries.{validate_ha_etcd_topology-IsQuery}
use apple_pod_control.Ha.Members.{
  preflight_ha_member_topology, keep_waiting, stopped_verdict, finish_wait, look_stopped,
  wait_stopped, wait_ha_member_stopped, offline_or_ready, require_state, confirm_etcd,
  check_before_stop,
}

pub preflight_ha_member_topology-IsQuery :
    (host : Host) (ctx : Context) (config : HaConfig) (id : ℕ) (allow : Bool)
    → Emits IsQuery (preflight_ha_member_topology host ctx config id allow)
unfolding preflight_ha_member_topology
preflight_ha_member_topology-IsQuery host ctx config id allow =
    search (query_rules, preflight_ha-IsQuery) depth 10

pub keep_waiting-IsQuery :
    (host : Host) (ctx : Context) (e : Error) → Emits IsQuery (keep_waiting host ctx e)
unfolding keep_waiting
keep_waiting-IsQuery host ctx e = search query_rules

pub finish_wait-IsQuery :
    (verdict : Option HaState) (again : Action HaState)
    → Emits IsQuery again
    → Emits IsQuery (finish_wait verdict again)
unfolding finish_wait
finish_wait-IsQuery (some state) again q = search query_rules
finish_wait-IsQuery none again q = search (query_rules, wait-IsQuery)

stopped_verdict-IsQuery :
    (host : Host) (ctx : Context) (member : HaMember) (r : Res HaState)
    → Emits IsQuery (stopped_verdict host ctx member r)
unfolding stopped_verdict
stopped_verdict-IsQuery host ctx member (ok state) = search query_rules
stopped_verdict-IsQuery host ctx member (err e) = search (query_rules, keep_waiting-IsQuery)

look_stopped-IsQuery :
    (host : Host) (ctx : Context) (config : HaConfig) (member : HaMember)
    → Emits IsQuery (look_stopped host ctx config member)
unfolding look_stopped
look_stopped-IsQuery host ctx config member =
    search (query_rules, status_ha-IsQuery, stopped_verdict-IsQuery)

wait_stopped-IsQuery :
    (ticks : ℕ) (host : Host) (ctx : Context) (config : HaConfig) (member : HaMember)
    → Emits IsQuery (wait_stopped ticks host ctx config member)
unfolding wait_stopped
wait_stopped-IsQuery zero host ctx config member =
    search (query_rules, look_stopped-IsQuery, finish_wait-IsQuery)
wait_stopped-IsQuery (suc ticks) host ctx config member =
    Emits-bind _ _ (look_stopped-IsQuery host ctx config member)
      (λ v. finish_wait-IsQuery v _ (wait_stopped-IsQuery ticks host ctx config member))

pub wait_ha_member_stopped-IsQuery :
    (host : Host) (ctx : Context) (config : HaConfig) (member : HaMember)
    → Emits IsQuery (wait_ha_member_stopped host ctx config member)
unfolding wait_ha_member_stopped
wait_ha_member_stopped-IsQuery host ctx config member = record {
  at = λ h. (wait_stopped-IsQuery (host.ticks ctx h) host ctx config member).at h;
}

offline_or_ready-IsQuery :
    (member : HaMember) (preflight : HaPreflight) (state : HaState) (target : HaMemberState)
    → Emits IsQuery (offline_or_ready member preflight state target)
unfolding offline_or_ready
offline_or_ready-IsQuery member preflight state target = search query_rules depth 8

require_state-IsQuery : (m : Option HaMemberState) → Emits IsQuery (require_state m)
unfolding require_state
require_state-IsQuery none = search query_rules
require_state-IsQuery (some m) = search query_rules

confirm_etcd-IsQuery :
    (host : Host) (ctx : Context) (config : HaConfig) (offline : Option HaState)
    → Emits IsQuery (confirm_etcd host ctx config offline)
unfolding confirm_etcd
confirm_etcd-IsQuery host ctx config (some state) = search query_rules
confirm_etcd-IsQuery host ctx config none = search (query_rules, validate_ha_etcd_topology-IsQuery)

pub check_before_stop-IsQuery :
    (host : Host) (ctx : Context) (config : HaConfig) (member : HaMember)
    → Emits IsQuery (check_before_stop host ctx config member)
unfolding check_before_stop
check_before_stop-IsQuery host ctx config member =
    search
      (
        query_rules, preflight_ha_member_topology-IsQuery, status_ha-IsQuery, require_state-IsQuery,
        offline_or_ready-IsQuery, confirm_etcd-IsQuery,
      )
      depth 12
