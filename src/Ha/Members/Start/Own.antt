-- ===== src/Ha/Members/Start/Own.antt =====
-- Starting a member touches no container but its own.
use apple_pod_control.Prelude.{◌≡◌, ℕ, zero, suc, Bool, true, false, List, Option, none, some}
use apple_pod_control.Text.{Text}
use apple_pod_control.Host.{Host, Context}
use apple_pod_control.Host.Action.{Res, ok, err, Action, with_timeout}
use apple_pod_control.Host.Emits.{Emits, Emits-bind, Emitted-trans}
use apple_pod_control.Host.Mutations.{IsQuery}
use apple_pod_control.Host.Own.{OnlyOwn, IsRunOf, Emits-own}
use apple_pod_control.Ha.Types.{HaMember, HaConfig, HaState, HaContainerInspect, Labels}
use apple_pod_control.Ha.Names.{ha_container_name}
use apple_pod_control.Ha.Config.Normalize.{normalize_ha_config}
use apple_pod_control.Ha.Inspect.Arguments.{ha_server_run_arguments}
use apple_pod_control.Ha.Inspect.Arguments.Named.{ha_server_run_arguments-IsRunOf}
use apple_pod_control.Ha.Preflight.{HaPreflight}
use apple_pod_control.Ha.Queries.{query_rules, with_timeout-IsQuery}
use apple_pod_control.Ha.Status.{status_ha}
use apple_pod_control.Ha.Status.Queries.{status_ha-IsQuery}
use apple_pod_control.Ha.Addresses.Envelope.Own.{
  run_ha_bounded-OnlyOwn, run_ha_server_envelope-OnlyOwn,
}
use apple_pod_control.Ha.Members.{StopOutcome, stop_ha_member_locked, preflight_ha_member_topology}
use apple_pod_control.Ha.Members.Own.{stop_ha_member_locked-own}
use apple_pod_control.Ha.Members.Queries.{
  keep_waiting-IsQuery, finish_wait-IsQuery, preflight_ha_member_topology-IsQuery,
}
use apple_pod_control.Ha.Members.Start.{
  cluster_verdict, look_ready, wait_ready, wait_ha_cluster_ready, StartCall, after_legacy_stop,
  migrate_legacy, create_envelope, reconcile_found, reconcile_labelled, reconcile_with,
  reconcile_offline, start_unready, start_step, unreached, start_ha_member_locked,
  reconcile_ha_member,
}

cluster_verdict-IsQuery :
    (host : Host) (ctx : Context) (r : Res HaState) → Emits IsQuery (cluster_verdict host ctx r)
unfolding cluster_verdict
cluster_verdict-IsQuery host ctx (ok state) = search query_rules
cluster_verdict-IsQuery host ctx (err e) = search (query_rules, keep_waiting-IsQuery)

look_ready-IsQuery :
    (host : Host) (ctx : Context) (config : HaConfig) → Emits IsQuery (look_ready host ctx config)
unfolding look_ready
look_ready-IsQuery host ctx config =
    search (query_rules, status_ha-IsQuery, cluster_verdict-IsQuery)

wait_ready-IsQuery :
    (ticks : ℕ) (host : Host) (ctx : Context) (config : HaConfig)
    → Emits IsQuery (wait_ready ticks host ctx config)
unfolding wait_ready
wait_ready-IsQuery zero host ctx config =
    search (query_rules, look_ready-IsQuery, finish_wait-IsQuery)
wait_ready-IsQuery (suc ticks) host ctx config =
    Emits-bind _ _ (look_ready-IsQuery host ctx config)
      (λ v. finish_wait-IsQuery v _ (wait_ready-IsQuery ticks host ctx config))

pub wait_ha_cluster_ready-IsQuery :
    (host : Host) (ctx : Context) (config : HaConfig)
    → Emits IsQuery (wait_ha_cluster_ready host ctx config)
unfolding wait_ha_cluster_ready
wait_ha_cluster_ready-IsQuery host ctx config = record {
  at = λ h. (wait_ready-IsQuery (host.ticks ctx h) host ctx config).at h;
}

module _ (R : List Text → Type 0) (host : Host) (config : HaConfig) (member : HaMember)
    (runs : R (ha_server_run_arguments host config member)) where
  abbrev Own : {A : Type 0} → Action A → Type 0
  Own m = Emits (OnlyOwn R (ha_container_name config.name member.id)) m

  timed : (ctx : Context) (t : ℕ) → Own (with_timeout host ctx t)
  timed ctx t = Emits-own _ _ (with_timeout-IsQuery host ctx t)

  create_envelope-Own : (ctx : Context) → Own (create_envelope host ctx config member)
  unfolding create_envelope
  create_envelope-Own ctx = run_ha_server_envelope-OnlyOwn R host ctx config member runs _ _

  module _ (start : StartCall) (owns : (ctx : Context) → Own (start ctx config member)) where
    after_legacy_stop-Own :
        (ctx : Context) (outcome : StopOutcome)
        → Own (after_legacy_stop host start ctx config member outcome)
    unfolding after_legacy_stop
    after_legacy_stop-Own ctx outcome = go outcome.result outcome.restart_needed
      where
        go :
            (r : Res HaState) (b : Bool)
            → Own (
                after_legacy_stop host start ctx config member
                  (record { result = r; restart_needed = b }))
        go (ok state) b = search (query_rules, owns) depth 8
        go (err e) false = search query_rules
        go (err e) true = search (query_rules, owns, timed) depth 8

    migrate_legacy-Own : (ctx : Context) → Own (migrate_legacy host start ctx config member)
    unfolding migrate_legacy
    migrate_legacy-Own ctx = record {
      at = λ h.
          let (outcome, g) = stop_ha_member_locked host ctx config member h in
          Emitted-trans (stop_ha_member_locked-own R host ctx config member h)
            ((after_legacy_stop-Own ctx outcome).at g);
    }

    reconcile_found-Own :
        (ctx : Context) (r : HaContainerInspect)
        → Own (reconcile_found host start ctx config member r)
    unfolding reconcile_found
    reconcile_found-Own ctx r =
        search (query_rules, migrate_legacy-Own, create_envelope-Own, run_ha_bounded-OnlyOwn) depth
          12

    reconcile_labelled-Own :
        (ctx : Context) (r : HaContainerInspect) (labels : Option Labels)
        → Own (reconcile_labelled host start ctx config member r labels)
    unfolding reconcile_labelled
    reconcile_labelled-Own ctx r none = create_envelope-Own ctx
    reconcile_labelled-Own ctx r (some labels) = reconcile_found-Own ctx r

    reconcile_with-Own :
        (ctx : Context) (found : Option HaContainerInspect)
        → Own (reconcile_with host start ctx config member found)
    unfolding reconcile_with
    reconcile_with-Own ctx none = create_envelope-Own ctx
    reconcile_with-Own ctx (some r) = reconcile_labelled-Own ctx r r.labels

    reconcile_offline-Own :
        (ctx : Context) (found : Option HaContainerInspect)
        → Own (reconcile_offline host start ctx config member found)
    unfolding reconcile_offline
    reconcile_offline-Own ctx none = search (query_rules, reconcile_with-Own)
    reconcile_offline-Own ctx (some r) = search (query_rules, reconcile_with-Own) depth 8

    awaited : (ctx : Context) → Own (wait_ha_cluster_ready host ctx config)
    awaited ctx = Emits-own _ _ (wait_ha_cluster_ready-IsQuery host ctx config)

    start_unready-Own :
        (ctx : Context) (p : HaPreflight) (state : HaState)
        → Own (start_unready host start ctx config member p state)
    unfolding start_unready
    start_unready-Own ctx p state = search (query_rules, reconcile_offline-Own, awaited) depth 12

    surveyed :
        (ctx : Context) (id : ℕ) (allow : Bool)
        → Own (preflight_ha_member_topology host ctx config id allow)
    surveyed ctx id allow =
        Emits-own _ _ (preflight_ha_member_topology-IsQuery host ctx config id allow)

    reported : (ctx : Context) → Own (status_ha host ctx config.name)
    reported ctx = Emits-own _ _ (status_ha-IsQuery host ctx config.name)

    start_step-Own : (ctx : Context) → Own (start_step host start ctx config member)
    unfolding start_step
    start_step-Own ctx = search (query_rules, surveyed, reported, start_unready-Own) depth 12

module _ (R : List Text → Type 0) (host : Host) (config : HaConfig) (member : HaMember)
    (runs : R (ha_server_run_arguments host config member)) where
  pub start_ha_member_locked-own :
      (ctx : Context)
      → Emits
          (OnlyOwn R (ha_container_name config.name member.id))
          (start_ha_member_locked host ctx config member)
  unfolding start_ha_member_locked
  start_ha_member_locked-own ctx =
      start_step-Own R host config member runs unreached (λ c. search query_rules) ctx

  pub reconcile_ha_member-own :
      (ctx : Context) (found : Option HaContainerInspect)
      → Emits
          (OnlyOwn R (ha_container_name config.name member.id))
          (reconcile_ha_member host ctx config member found)
  unfolding reconcile_ha_member
  reconcile_ha_member-own ctx found =
      reconcile_with-Own R host config member runs (start_ha_member_locked host)
        start_ha_member_locked-own ctx found

-- Whatever startHAMemberLocked does and returns, for a configuration that normalizeHAConfig returns as
-- it is, its commands other than looks are stops and deletions of that member's own container, and runs
-- whose argument --name is that container's name; and it writes no intent.
pub start_ha_member_locked-OnlyOwn :
    (host : Host) (ctx : Context) (config : HaConfig) (member : HaMember)
    → normalize_ha_config host config ≡ ok config
    → let name = ha_container_name config.name member.id in
      Emits (OnlyOwn (IsRunOf name) name) (start_ha_member_locked host ctx config member)
start_ha_member_locked-OnlyOwn host ctx config member normal =
    start_ha_member_locked-own (IsRunOf (ha_container_name config.name member.id)) host config
      member (ha_server_run_arguments-IsRunOf host config member normal) ctx

-- Whatever reconcileHAMember does and returns, for any record of the member's container or none and a
-- configuration that normalizeHAConfig returns as it is, its commands other than looks are stops and
-- deletions of that member's own container, and runs whose argument --name is that container's name;
-- and it writes no intent.
pub reconcile_ha_member-OnlyOwn :
    (host : Host) (ctx : Context) (config : HaConfig) (member : HaMember)
    (found : Option HaContainerInspect)
    → normalize_ha_config host config ≡ ok config
    → let name = ha_container_name config.name member.id in
      Emits (OnlyOwn (IsRunOf name) name) (reconcile_ha_member host ctx config member found)
reconcile_ha_member-OnlyOwn host ctx config member found normal =
    reconcile_ha_member-own (IsRunOf (ha_container_name config.name member.id)) host config member
      (ha_server_run_arguments-IsRunOf host config member normal) ctx found
