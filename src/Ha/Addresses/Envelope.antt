-- ===== src/Ha/Addresses/Envelope.antt =====
-- Creating a server envelope with an address that is reserved for no other member
-- (internal/cluster/ha_addresses.go), and runHABounded of ha.go.
pub mod Mutations
pub mod Queries
pub mod Own
use apple_pod_control.Prelude.{
  ℕ, zero, suc, ◌*◌, Bool, true, false, ◌&&◌, ◌||◌, not, Option, none, some, List, [], ◌∷◌, ◌++◌,
  ◌==◌, if◌then◌else◌, String, length,
}
use apple_pod_control.Text.{Text, text}
use apple_pod_control.Host.{
  Host, Error, fail, wrap, join, collision, context_error, context_polled, deadline_exceeded,
  Context, Command, stop, delete, logs, run, Reply, is_not_found_error, collision_of, is_done,
}
use apple_pod_control.Host.Action.{
  Res, ok, err, Action, pure, raise, lift, ask, attempt, wrapped, raise_if, ◌>>=◌, ◌>>◌,
  run_command, context_err, with_timeout, wait, command_error,
}
use apple_pod_control.Ha.Types.{HaMember, HaConfig, HaContainerInspect, HaRuntimeIpCollision}
use apple_pod_control.Ha.Names.{ha_container_name, ha_member_count}
use apple_pod_control.Ha.Inspect.{validate_ha_container, is_running, is_stopped}
use apple_pod_control.Ha.Inspect.Arguments.{ha_server_run_arguments}
use apple_pod_control.Ha.Inspect.Query.{inspect_ha_container}
use apple_pod_control.Ha.Preflight.{IdMap, put_id, optional}
use apple_pod_control.Ha.Addresses.{
  ha_runtime_ip_collision_for_address, ha_container_runtime_ipv4,
  ha_runtime_ip_collision_from_output, validate_ha_current_runtime_ip_reservations,
}
use apple_pod_control.Ha.Addresses.Peers.{nanoseconds, validate_ha_peer_runtime_ip_reservations}

-- runHABounded: a mutating command under the 30 second limit.
bounded_result : String → Reply → Bool → Res (Unit {0})
bounded_result operation reply expired =
    if not reply.failed
    then ok tt
    else if expired
    then err (wrap "%s timed out after %s: %w" context_error)
    else err (command_error operation)

unfoldable pub run_ha_bounded : Host → Context → String → Command → Action (Unit {0})
unfolding bounded_result
run_ha_bounded host ctx operation command = do
  operation_ctx ← with_timeout host ctx (30 * nanoseconds)
  reply ← run_command host operation_ctx command
  expired ← ask context_polled (deadline_exceeded host operation_ctx)
  lift (bounded_result operation reply expired)

-- What one look at a newly started container decides: `some` ends the wait.
abbrev Verdict : Type 0
Verdict = Option (Option Error)

reported_address : HaConfig → HaMember → Res Text → Option Error
reported_address config member (err e) = some (wrap "inspect newly started HA member %d: %w" e)
reported_address config member (ok address) =
    elim (ha_runtime_ip_collision_for_address config member address) [
      | none ↦ none
      | some c ↦ some (collision c)
    ]

stopped_early : Error
stopped_early = fail "newly started HA member %d stopped before reporting a runtime IPv4 address"

logged_collision : HaConfig → HaMember → Reply → Error
unfolding stopped_early
logged_collision config member reply =
    if reply.failed
    then stopped_early
    else elim (ha_runtime_ip_collision_from_output (reply.stdout ++ reply.stderr) config member) [
      | none ↦ stopped_early
      | some c ↦ collision c
    ]

-- A container with no address yet: a stopped one is looked up in its logs.
look_unaddressed : Host → Context → HaConfig → HaMember → HaContainerInspect → Action Verdict
unfolding logged_collision
look_unaddressed host ctx config member r =
    if is_stopped r.state
    then (do
      reply ← run_command host ctx (logs (ha_container_name config.name member.id))
      pure (some (some (logged_collision config member reply))))
    else pure none

look : Host → Context → HaConfig → HaMember → Res HaContainerInspect → Action Verdict
unfolding reported_address look_unaddressed
look host ctx config member (err e) = if is_not_found_error e then pure none else raise e
look host ctx config member (ok r) = do
  lift (validate_ha_container host r config member)
  if length r.status_networks == 1
      then pure (some (reported_address config member (ha_container_runtime_ipv4 r)))
      else look_unaddressed host ctx config member r

-- What is left of waitHAServerRuntimeAddress after a look: none ends it without an error.
finish_look : Verdict → Action (Unit {0}) → Action (Unit {0})
finish_look (some none) again = pure tt
finish_look (some (some e)) again = raise e
finish_look none again = wait >> again

look_once : Host → Context → HaConfig → HaMember → Action Verdict
unfolding look
look_once host ctx config member = do
  result ← attempt (inspect_ha_container host ctx (ha_container_name config.name member.id))
  look host ctx config member result

abbrev address_timeout : Error
address_timeout =
    wrap "HA member %d did not report a runtime IPv4 address within %s: %w" context_error

-- The loop, for a select that takes its ticker so many times and then ctx.Done.
unfoldable pub wait_address : ℕ → Host → Context → HaConfig → HaMember → Action (Unit {0})
unfolding look_once finish_look
wait_address zero host ctx config member = do
  verdict ← look_once host ctx config member
  finish_look verdict (raise address_timeout)
wait_address (suc ticks) host ctx config member = do
  verdict ← look_once host ctx config member
  finish_look verdict (wait_address ticks host ctx config member)

start_wait : Host → Context → HaConfig → HaMember → Action (Unit {0})
start_wait host ctx config member h = wait_address (host.ticks ctx h) host ctx config member h

unfoldable pub wait_ha_server_runtime_address :
    Host → Context → HaConfig → HaMember → Action (Unit {0})
unfolding start_wait
wait_ha_server_runtime_address host ctx config member = do
  probe_ctx ← with_timeout host ctx (5 * nanoseconds)
  start_wait host probe_ctx config member

-- The second look after a stop that reported an error.
after_refresh : Host → HaConfig → HaMember → Error → Res HaContainerInspect → Action (Unit {0})
after_refresh host config member stop_err (err e) = raise (join stop_err e)
after_refresh host config member stop_err (ok refreshed) =
    elim (validate_ha_container host refreshed config member) [
      | err e ↦ raise (join stop_err e)
      | ok _ ↦ raise_if (not (is_stopped refreshed.state)) stop_err
    ]

after_stop : Host → Context → HaConfig → HaMember → Res (Unit {0}) → Action (Unit {0})
unfolding after_refresh
after_stop host ctx config member (ok _) = pure tt
after_stop host ctx config member (err stop_err) = do
  refreshed ← attempt (inspect_ha_container host ctx (ha_container_name config.name member.id))
  after_refresh host config member stop_err refreshed

stop_if_running : Host → Context → HaConfig → HaMember → HaContainerInspect → Action (Unit {0})
unfolding after_stop
stop_if_running host ctx config member r =
    if is_running r.state
    then (do
      stopped ← attempt (
          run_ha_bounded host ctx "stop conflicting HA server member %d"
            (stop (ha_container_name config.name member.id)))
      after_stop host ctx config member stopped)
    else pure tt

-- The last look before a deletion, and the deletion.
delete_stopped : Host → Context → HaConfig → HaMember → Action (Unit {0})
delete_stopped host ctx config member = do
  r ← inspect_ha_container host ctx (ha_container_name config.name member.id)
  lift (validate_ha_container host r config member)
  raise_if (not (is_stopped r.state))
      (fail "refusing to delete conflicting HA member %d because its exact envelope is %s")
  run_ha_bounded host ctx "delete conflicting HA server member %d"
      (delete (ha_container_name config.name member.id))

delete_found : Host → Context → HaConfig → HaMember → Option HaContainerInspect → Action (Unit {0})
unfolding stop_if_running delete_stopped
delete_found host ctx config member none = pure tt
delete_found host ctx config member (some r) = do
  lift (validate_ha_container host r config member)
  stop_if_running host ctx config member r
  delete_stopped host ctx config member

unfoldable pub delete_exact_ha_server_envelope :
    Host → Context → HaConfig → HaMember → Action (Unit {0})
unfolding delete_found
delete_exact_ha_server_envelope host ctx config member = do
  found ← optional (inspect_ha_container host ctx (ha_container_name config.name member.id))
  delete_found host ctx config member found

abbrev or_raise_error : Error → Option HaRuntimeIpCollision → Action (Option HaRuntimeIpCollision)
or_raise_error e none = raise e
or_raise_error e (some c) = pure (some c)

started : Res (Unit {0}) → Action (Option HaRuntimeIpCollision)
started (ok _) = pure none
started (err e) = or_raise_error e (collision_of e)

-- The outcome of one `container run`: none is success, and a collision asks for another attempt.
run_outcome :
    Host → Context → HaConfig → HaMember → String → Reply → Action (Option HaRuntimeIpCollision)
unfolding started
run_outcome host ctx config member operation reply =
    if reply.failed
    then or_raise_error (command_error operation)
        (ha_runtime_ip_collision_from_output reply.stderr config member)
    else (do
      address ← attempt (wait_ha_server_runtime_address host ctx config member)
      started address)

-- One turn of the loop of runHAServerEnvelope, up to the collision.
run_once : Host → Context → HaConfig → HaMember → String → ℕ → Action (Option HaRuntimeIpCollision)
unfolding run_outcome
run_once host ctx config member operation run_timeout = do
  cancelled ← context_err host ctx
  raise_if cancelled (wrap operation context_error)
  wrapped "%s preflight found a runtime/stable IP collision before creating member %d: %w"
      (validate_ha_peer_runtime_ip_reservations host ctx config member)
  run_ctx ← with_timeout host ctx run_timeout
  reply ← run_command host run_ctx (run (ha_server_run_arguments host config member))
  expired ← context_err host run_ctx
  raise_if expired (wrap "%s timed out after %s: %w" context_error)
  run_outcome host ctx config member operation reply

-- `errors.Join(collision, fmt.Errorf("remove …"))` around the removal of the conflicting envelope.
joined_removal : HaRuntimeIpCollision → Res (Unit {0}) → Res (Unit {0})
joined_removal c (ok _) = ok tt
joined_removal c (err e) = err (
    join (wrap "%s: %w" (collision c))
      (wrap "remove the exact conflicting envelope before retry: %w" e))

after_run :
    Host
    → Context
    → HaConfig
    → HaMember
    → Action (Unit {0})
    → Option HaRuntimeIpCollision
    → Action (Unit {0})
unfolding joined_removal
after_run host ctx config member again none = pure tt
after_run host ctx config member again (some c) = do
  removed ← attempt (delete_exact_ha_server_envelope host ctx config member)
  lift (joined_removal c removed)
  again

-- The loop of runHAServerEnvelope, with the attempts left.
unfoldable pub run_attempts :
    ℕ → Host → Context → HaConfig → HaMember → String → ℕ → Action (Unit {0})
unfolding after_run run_once
run_attempts zero host ctx config member operation run_timeout =
    raise
      (fail "%s could not obtain a non-reserved runtime IPv4 for HA member %d after %d attempts")
run_attempts (suc left) host ctx config member operation run_timeout = do
  conflict ← run_once host ctx config member operation run_timeout
  after_run host ctx config member (run_attempts left host ctx config member operation run_timeout)
      conflict

-- haRuntimeAddressRetryLimit attempts
unfoldable pub run_ha_server_envelope :
    Host → Context → HaConfig → HaMember → String → ℕ → Action (Unit {0})
unfolding run_attempts
run_ha_server_envelope = run_attempts ha_member_count
