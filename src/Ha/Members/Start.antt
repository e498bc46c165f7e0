-- ===== src/Ha/Members/Start.antt =====
-- startHAMemberLocked (internal/cluster/ha_members.go), reconcileHAMember and waitHAClusterReady
-- (ha.go). The first two call one another: `start_step` and `reconcile_with` take the call of
-- startHAMemberLocked as an argument.
pub mod Own
pub mod Recursion
pub mod Safety
use apple_pod_control.Prelude.{
  ℕ, zero, suc, true, false, ◌&&◌, not, Option, none, some, ◌==◌, if◌then◌else◌,
}
use apple_pod_control.Host.{
  Host, Error, fail, wrap, join, context_error, Context, delete, without_cancel,
}
use apple_pod_control.Host.Action.{
  Res, ok, err, Action, pure, raise, lift, attempt, wrapped, raise_if, ◌>>=◌, ◌>>◌, with_timeout,
}
use apple_pod_control.Ha.Types.{HaMember, HaConfig, HaState, HaContainerInspect, Labels}
use apple_pod_control.Ha.Names.{ha_container_name, ha_member_count}
use apple_pod_control.Ha.Inspect.{
  validate_ha_container, is_running, is_stopped, ha_container_uses_legacy_init,
}
use apple_pod_control.Ha.Preflight.{HaPreflight, get_id}
use apple_pod_control.Ha.Status.{status_ha, all_ha_members_ready, other_ha_members_ready}
use apple_pod_control.Ha.Addresses.{validate_ha_current_runtime_ip_reservations}
use apple_pod_control.Ha.Addresses.Envelope.{run_ha_bounded, run_ha_server_envelope}
use apple_pod_control.Ha.Members.{
  preflight_ha_member_topology, keep_waiting, finish_wait, StopOutcome, stop_ha_member_locked,
}

cluster_verdict : Host → Context → Res HaState → Action (Option HaState)
cluster_verdict host ctx (ok state) =
    pure (if state.ready_members == ha_member_count then some state else none)
cluster_verdict host ctx (err e) = keep_waiting host ctx e

look_ready : Host → Context → HaConfig → Action (Option HaState)
unfolding cluster_verdict
look_ready host ctx config = do
  result ← attempt (status_ha host ctx config.name)
  cluster_verdict host ctx result

-- The loop of waitHAClusterReady, for a select that takes its ticker so many times.
wait_ready : ℕ → Host → Context → HaConfig → Action HaState
unfolding look_ready
wait_ready zero host ctx config = do
  verdict ← look_ready host ctx config
  finish_wait verdict
      (raise (wrap "HA cluster %q reached only %d of 3 Ready node/API pairs: %w" context_error))
wait_ready (suc ticks) host ctx config = do
  verdict ← look_ready host ctx config
  finish_wait verdict (wait_ready ticks host ctx config)

unfoldable pub wait_ha_cluster_ready : Host → Context → HaConfig → Action HaState
unfolding wait_ready
wait_ha_cluster_ready host ctx config h = wait_ready (host.ticks ctx h) host ctx config h

-- A call of startHAMemberLocked.
abbrev pub StartCall : Type 0
StartCall = Context → HaConfig → HaMember → Action HaState

abbrev start_operation_timeout : ℕ
start_operation_timeout = 30_000_000_000

-- errors.Join(stopErr, recoveryErr)
join_recovery : Error → Res HaState → Error
join_recovery e (ok state) = e
join_recovery e (err f) = join e f

-- The migration of a running container with the legacy init process, after its stop.
after_legacy_stop :
    Host → StartCall → Context → HaConfig → HaMember → StopOutcome → Action (Unit {0})
unfolding join_recovery
after_legacy_stop host start ctx config member outcome = elim outcome.result [
  | ok state ↦
      wrapped "start guarded HA member %d after legacy-envelope migration: %w"
        (start ctx config member)
      >> pure tt
  | err e ↦ elim outcome.restart_needed [
    | false ↦ raise (wrap "stop legacy HA member %d for guarded-envelope migration: %w" e)
    | true ↦ do
      recovery_ctx ← with_timeout host (without_cancel ctx) start_operation_timeout
      recovered ← attempt (start recovery_ctx config member)
      raise (
          join_recovery (wrap "stop legacy HA member %d for guarded-envelope migration: %w" e)
            recovered)
  ]
]

migrate_legacy : Host → StartCall → Context → HaConfig → HaMember → Action (Unit {0})
unfolding after_legacy_stop
migrate_legacy host start ctx config member h =
    let (outcome, h') = stop_ha_member_locked host ctx config member h in
    after_legacy_stop host start ctx config member outcome h'

create_envelope : Host → Context → HaConfig → HaMember → Action (Unit {0})
create_envelope host ctx config member =
    run_ha_server_envelope host ctx config member "start HA server" start_operation_timeout

-- A container that is there, with labels.
reconcile_found :
    Host → StartCall → Context → HaConfig → HaMember → HaContainerInspect → Action (Unit {0})
unfolding migrate_legacy create_envelope
reconcile_found host start ctx config member r = do
  lift (validate_ha_container host r config member)
  if is_running r.state
      then (if ha_container_uses_legacy_init r config member
          then migrate_legacy host start ctx config member
          else pure tt)
      else (do
        run_ha_bounded host ctx "delete stopped HA server member %d"
            (delete (ha_container_name config.name member.id))
        create_envelope host ctx config member)

reconcile_labelled :
    Host
    → StartCall
    → Context
    → HaConfig
    → HaMember
    → HaContainerInspect
    → Option Labels
    → Action (Unit {0})
unfolding reconcile_found
reconcile_labelled host start ctx config member r none = create_envelope host ctx config member
reconcile_labelled host start ctx config member r (some labels) =
    reconcile_found host start ctx config member r

-- reconcileHAMember; none is the zero record, which has no labels.
unfoldable pub reconcile_with :
    Host → StartCall → Context → HaConfig → HaMember → Option HaContainerInspect → Action (Unit {0})
unfolding reconcile_labelled create_envelope
reconcile_with host start ctx config member none = create_envelope host ctx config member
reconcile_with host start ctx config member (some r) =
    reconcile_labelled host start ctx config member r r.labels

-- An envelope in a state other than running and stopped is left alone; only a stopped or missing one
-- is reconciled.
reconcile_offline :
    Host → StartCall → Context → HaConfig → HaMember → Option HaContainerInspect → Action (Unit {0})
unfolding reconcile_with
reconcile_offline host start ctx config member none =
    wrapped "reconcile HA member %d: %w" (reconcile_with host start ctx config member none)
reconcile_offline host start ctx config member (some r) = do
  raise_if (not (is_running r.state) && not (is_stopped r.state))
      (fail "refusing to replace HA member %d while its envelope is %s")
  if is_stopped r.state
      then wrapped "reconcile HA member %d: %w"
          (reconcile_with host start ctx config member (some r))
      else pure tt

-- startHAMemberLocked after its status query, where some pair is not Ready.
start_unready :
    Host → StartCall → Context → HaConfig → HaMember → HaPreflight → HaState → Action HaState
unfolding reconcile_offline
start_unready host start ctx config member preflight state = do
  raise_if (not (other_ha_members_ready state member.id)) (
      fail
        "refusing to start HA member %d: the other two node/API pairs must both be Ready (currently %d/3 total)")
  wrapped "refusing to start HA member %d with an existing runtime/stable IP collision: %w"
      (lift (validate_ha_current_runtime_ip_reservations config preflight.container_record))
  reconcile_offline host start ctx config member (get_id preflight.container_record member.id)
  wait_ha_cluster_ready host ctx config

unfoldable pub start_step : Host → StartCall → StartCall
unfolding start_unready
start_step host start ctx config member = do
  preflight ← preflight_ha_member_topology host ctx config member.id true
  state ← status_ha host ctx config.name
  if all_ha_members_ready state
      then pure state
      else start_unready host start ctx config member preflight state

-- The call that startHAMemberLocked reaches only for a running container, which it never hands over.
abbrev unreached : StartCall
unreached ctx config member = raise (fail "unreached")

unfoldable pub start_ha_member_locked : Host → StartCall
unfolding start_step
start_ha_member_locked host = start_step host unreached

-- reconcileHAMember as other code calls it.
unfoldable pub reconcile_ha_member :
    Host → Context → HaConfig → HaMember → Option HaContainerInspect → Action (Unit {0})
reconcile_ha_member host = reconcile_with host (start_ha_member_locked host)
