-- ===== src/Ha/Addresses/Envelope/Own.antt =====
-- The envelope operations touch no container but the member's own.
use apple_pod_control.Prelude.{ℕ, zero, suc, Option, none, some, String, not, List}
use apple_pod_control.Text.{Text}
use apple_pod_control.Host.{Host, Context, Error, join, Command, Reply}
use apple_pod_control.Host.Action.{Res, ok, err, Action, raise, raise_if, with_timeout}
use apple_pod_control.Host.Emits.{Emits, Emits-bind}
use apple_pod_control.Host.Own.{OnlyOwn, OwnCommand, Emits-own}
use apple_pod_control.Ha.Types.{HaMember, HaConfig, HaContainerInspect, HaRuntimeIpCollision}
use apple_pod_control.Ha.Names.{ha_container_name, ha_member_count}
use apple_pod_control.Ha.Inspect.{validate_ha_container, is_stopped}
use apple_pod_control.Ha.Inspect.Arguments.{ha_server_run_arguments}
use apple_pod_control.Ha.Inspect.Query.{inspect_ha_container}
use apple_pod_control.Ha.Queries.{
  query_rules, with_timeout-IsQuery, inspect_ha_container-IsQuery, optional-IsQuery,
}
use apple_pod_control.Ha.Addresses.Peers.{validate_ha_peer_runtime_ip_reservations}
use apple_pod_control.Ha.Addresses.Envelope.{
  run_ha_bounded, wait_ha_server_runtime_address, after_refresh, after_stop, stop_if_running,
  delete_stopped, delete_found, delete_exact_ha_server_envelope, started, or_raise_error,
  run_outcome, run_once, after_run, run_attempts, run_ha_server_envelope,
}
use apple_pod_control.Ha.Addresses.Envelope.Queries.{
  validate_peers-IsQuery, wait_ha_server_runtime_address-IsQuery,
}

timed :
    {R : List Text → Type 0} (name : Text) (host : Host) (ctx : Context) (t : ℕ)
    → Emits (OnlyOwn R name) (with_timeout host ctx t)
timed name host ctx t = Emits-own name _ (with_timeout-IsQuery host ctx t)

inspected :
    {R : List Text → Type 0} (name : Text) (host : Host) (ctx : Context) (container : Text)
    → Emits (OnlyOwn R name) (inspect_ha_container host ctx container)
inspected name host ctx container =
    Emits-own name _ (inspect_ha_container-IsQuery host ctx container)

pub run_ha_bounded-OnlyOwn :
    {R : List Text → Type 0} (name : Text) (host : Host) (ctx : Context) (operation : String)
    (c : Command)
    → OwnCommand R name c
    → Emits (OnlyOwn R name) (run_ha_bounded host ctx operation c)
unfolding run_ha_bounded
run_ha_bounded-OnlyOwn name host ctx operation c o = search (query_rules, timed, o) depth 8

module _ (R : List Text → Type 0) (host : Host) (ctx : Context) (config : HaConfig)
    (member : HaMember) (runs : R (ha_server_run_arguments host config member)) where
  abbrev Own : {A : Type 0} → Action A → Type 0
  Own m = Emits (OnlyOwn R (ha_container_name config.name member.id)) m

  after_refresh-Own :
      (e : Error) (r : Res HaContainerInspect) → Own (after_refresh host config member e r)
  unfolding after_refresh
  after_refresh-Own e (err f) = search query_rules
  after_refresh-Own e (ok r) = go (validate_ha_container host r config member)
    where
      go :
          (v : Res (Unit {0}))
          → Own (elim v [ err f ↦ raise (join e f) | ok _ ↦ raise_if (not (is_stopped r.state)) e ])
      go (ok u) = search query_rules
      go (err f) = search query_rules

  after_stop-Own : (r : Res (Unit {0})) → Own (after_stop host ctx config member r)
  unfolding after_stop
  after_stop-Own (ok u) = search query_rules
  after_stop-Own (err e) = search (query_rules, inspected, after_refresh-Own) depth 8

  stop_if_running-Own : (r : HaContainerInspect) → Own (stop_if_running host ctx config member r)
  unfolding stop_if_running
  stop_if_running-Own r = search (query_rules, run_ha_bounded-OnlyOwn, after_stop-Own) depth 8

  delete_stopped-Own : Own (delete_stopped host ctx config member)
  unfolding delete_stopped
  delete_stopped-Own = search (query_rules, inspected, run_ha_bounded-OnlyOwn) depth 10

  delete_found-Own :
      (found : Option HaContainerInspect) → Own (delete_found host ctx config member found)
  unfolding delete_found
  delete_found-Own none = search query_rules
  delete_found-Own (some r) = search (query_rules, stop_if_running-Own, delete_stopped-Own) depth 8

  pub delete_exact_ha_server_envelope-OnlyOwn :
      Own (delete_exact_ha_server_envelope host ctx config member)
  unfolding delete_exact_ha_server_envelope
  delete_exact_ha_server_envelope-OnlyOwn =
      Emits-bind _ _ (Emits-own _ _ (optional-IsQuery _ (inspect_ha_container-IsQuery host ctx _)))
        delete_found-Own

  or_raise_error-Own : (e : Error) (c : Option HaRuntimeIpCollision) → Own (or_raise_error e c)
  or_raise_error-Own e none = search query_rules
  or_raise_error-Own e (some c) = search query_rules

  started-Own : (r : Res (Unit {0})) → Own (started r)
  unfolding started
  started-Own (ok u) = search query_rules
  started-Own (err e) = search (query_rules, or_raise_error-Own)

  addressed : Own (wait_ha_server_runtime_address host ctx config member)
  addressed = Emits-own _ _ (wait_ha_server_runtime_address-IsQuery host ctx config member)

  run_outcome-Own :
      (operation : String) (reply : Reply)
      → Own (run_outcome host ctx config member operation reply)
  unfolding run_outcome
  run_outcome-Own operation reply =
      search (query_rules, or_raise_error-Own, started-Own, addressed) depth 8

  peers : Own (validate_ha_peer_runtime_ip_reservations host ctx config member)
  peers = Emits-own _ _ (validate_peers-IsQuery host ctx config member)

  run_once-Own : (operation : String) (t : ℕ) → Own (run_once host ctx config member operation t)
  unfolding run_once
  run_once-Own operation t = search (query_rules, peers, timed, run_outcome-Own, runs) depth 14

  after_run-Own :
      (again : Action (Unit {0})) (c : Option HaRuntimeIpCollision)
      → Own again
      → Own (after_run host ctx config member again c)
  unfolding after_run
  after_run-Own again none q = search query_rules
  after_run-Own again (some c) q =
      search (query_rules, delete_exact_ha_server_envelope-OnlyOwn) depth 8

  run_attempts-Own :
      (left : ℕ) (operation : String) (t : ℕ)
      → Own (run_attempts left host ctx config member operation t)
  unfolding run_attempts
  run_attempts-Own zero operation t = search query_rules
  run_attempts-Own (suc left) operation t =
      Emits-bind _ _ (run_once-Own operation t)
        (λ c. after_run-Own _ c (run_attempts-Own left operation t))

  pub run_ha_server_envelope-OnlyOwn :
      (operation : String) (t : ℕ) → Own (run_ha_server_envelope host ctx config member operation t)
  unfolding run_ha_server_envelope
  run_ha_server_envelope-OnlyOwn = run_attempts-Own ha_member_count
