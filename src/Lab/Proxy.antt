-- ===== src/Lab/Proxy.antt =====
-- The proxy of the lab cluster.
use mathlib.Core.List.{Perm}
use mathlib.Core.List.Perm
use apple_pod_control.Prelude.{
  ◌==◌, arith, ℕ, ◌≡◌, ◌<◌, ◌||◌, refl, Bool, true, false, [], ◌∷◌, List, Option, none, some,
  length, keep, get_elem?, head?, All, if◌then◌else◌,
}
use apple_pod_control.Text.{
  text_eq, texts_eq, is_empty, fold_rune, equal_fold, lower_rune, to_lower, upper_rune, to_upper,
  is_space, trim_left, trim_right, trim_space, cut_prefix, has_prefix, trim_prefix, contains_text,
  split, join_texts, text_lt, insert_text, sort_texts, contains_string,
}
use apple_pod_control.Text.Numbers.{itoa, is_digit, parse_uint}
use apple_pod_control.Net.{
  parse_ipv4, ipv4_string, parse_prefix, masked, prefix_string, prefix_contains, parse_mac,
}
use apple_pod_control.Host.{
  is_not_found_error, is_not_exist_error, collision_of, is_done, without_cancel,
}
use apple_pod_control.Host.Action.{
  pure, raise, lift, attempt, wrapped, ask, raise_if, ◌>>=◌, run_command, context_err, now,
  with_timeout, wait,
}
use apple_pod_control.Ha.Names.{
  dns_label, ha_member_count, default_ha_node_name, ha_container_name, ha_volume_name,
  ha_network_name, member_by_id,
}
use apple_pod_control.Ha.Config.{
  ha_config_path, default_ha_config, last_ipv4_address, contains_number, usable_address, usable_mac,
  normalize_member,
}
use apple_pod_control.Ha.Config.ByteSize.{multiplier_of, parse_ha_byte_size, same_ha_byte_size}
use apple_pod_control.Ha.Config.Endpoint.{has_port, ha_proxy_endpoint}
use apple_pod_control.Ha.Config.Normalize.{
  sort_members, normalize_members, normalize_ha_config, load_ha_config,
}
use apple_pod_control.Ha.Inspect.{
  label_of, validate_ha_labels, ha_container_uses_legacy_init, validate_ha_container,
  validate_ha_volume, validate_ha_network, is_running, is_stopped,
}
use apple_pod_control.Ha.Inspect.Arguments.{
  join_host_port, api_endpoint, ha_init_arguments, legacy_ha_init_arguments,
  ha_server_run_arguments,
}
use apple_pod_control.Ha.Inspect.Query.{
  is_not_found, inspect_ha_container, inspect_ha_volume, inspect_ha_network, read_ha_member_node,
  node_document_ready,
}
use apple_pod_control.Ha.Preflight.{get_id, put_id, if_found, optional, preflight_ha}
use apple_pod_control.Ha.Proxy.{
  flag, copy_flags, new_ha_proxy_pool, replace_health, replace_identity, mark_unhealthy, serves,
  healthy_count, candidates,
}
use apple_pod_control.Ha.Proxy.Checks.{gather, results, is_ready, trusts}
use apple_pod_control.Ha.Proxy.Serve.{
  normalize_ha_proxy_options, ha_proxy_address, dial_address, validate_ha_proxy_backends,
  serve_ha_proxy,
}
use apple_pod_control.Text.{Text, text, text_eq, split}
use apple_pod_control.Host.{History}
use apple_pod_control.Host.Action.{Res, ok}
use apple_pod_control.Ha.Types.{HaMember, HaConfig}
use apple_pod_control.Ha.Config.{contains_number}
use apple_pod_control.Ha.Proxy.{HaProxyBackend, HaProxyPool}
use apple_pod_control.Ha.Proxy.Checks.{CheckResult, round_gathers}
use apple_pod_control.Ha.Proxy.Refinement.{
  PoolEvent, health_found, identity_found, dial_failed, client_arrived, pool_after, offered,
  pool_offers,
}
use apple_pod_control.Ha.Proxy.Rotation.{serving, after_clients, every_backend_gets_its_turn}
use apple_pod_control.Ha.Proxy.Client.{
  Proxy, Dial, handle_ha_proxy_client, perform, after_register, marks_unhealthy, registers, forgets,
  shuts, relays, Interleaved, own, other, ends, changes_pool, registers_other,
}
use apple_pod_control.Ha.Proxy.Client.Served.{Served, handle_client-Served}
use apple_pod_control.Ha.Proxy.Connections.{
  Connected, connected_at_start, ConnectionReached, adds, begins, closes, at_start, next_step,
  new_ha_proxy_connections, after_add, after_begin, add, begin_close_all,
}
use apple_pod_control.Ha.Proxy.Connections.Closing.{closed_all}
use apple_pod_control.Ha.Proxy.Serve.{Listening, UrlLibrary, default_ha_proxy_options}
use apple_pod_control.Ha.Proxy.Serve.Ready.{Ready, serve_ha_proxy-Ready}
use apple_pod_control.Lab.{lab, lab_host, lab_ctx, first_member, second_member, third_member}

abbrev backend : HaMember → Text → HaProxyBackend
backend m a = record { member = m; address = a }

abbrev three_backends : List HaProxyBackend
three_backends =
    backend first_member (text "127.0.0.1:17443")
    ∷ backend second_member (text "127.0.0.1:17444")
    ∷ backend third_member (text "127.0.0.1:17445")
    ∷ []

-- All are ready; a client comes; the second member's container has been replaced; a dial of the third
-- fails.
abbrev lab_events : List PoolEvent
lab_events =
    dial_failed 3
    ∷ identity_found ((1, true) ∷ (2, false) ∷ (3, true) ∷ [])
    ∷ client_arrived
    ∷ health_found ((1, true) ∷ (2, true) ∷ (3, true) ∷ [])
    ∷ []

pool_offers_example :
    Perm
      (candidates (pool_after three_backends lab_events)).0
      (keep (offered lab_events) three_backends)
    × (healthy_count (pool_after three_backends lab_events)
        ≡ length (keep (offered lab_events) three_backends))
pool_offers_example = pool_offers three_backends lab_events

abbrev ready_pool : HaProxyPool
ready_pool =
    pool_after three_backends
      (client_arrived ∷ health_found ((1, true) ∷ (2, true) ∷ (3, true) ∷ []) ∷ [])

third_serves :
    get_elem? (serving ready_pool) 2 ≡ some (backend third_member (text "127.0.0.1:17445"))
unfolding candidates new_ha_proxy_pool replace_health copy_flags serves flag get_id put_id
third_serves = refl

every_backend_gets_its_turn_example :
    (k : ℕ) × (k < healthy_count ready_pool)
    × (head? (candidates (after_clients k ready_pool)).0
        ≡ some (backend third_member (text "127.0.0.1:17445")))
every_backend_gets_its_turn_example =
    every_backend_gets_its_turn ready_pool 2 (backend third_member (text "127.0.0.1:17445"))
      third_serves

abbrev lab_check : HaProxyBackend → Bool
lab_check b = text_eq b.address (text "127.0.0.1:17443")

abbrev result : ℕ → Bool → CheckResult
result id passed = record { id = id; passed = passed }

lab_arrivals :
    Perm (results lab_check three_backends) (result 2 false ∷ result 1 true ∷ result 3 false ∷ [])
unfolding results text_eq
lab_arrivals = Perm.swap (result 2 false) (result 1 true) (result 3 false ∷ [])

round_gathers_example :
    All
      (λ b.
        flag (gather (result 2 false ∷ result 1 true ∷ result 3 false ∷ []) []) b.member.id
        ≡ lab_check b)
      three_backends
round_gathers_example =
    round_gathers lab_check three_backends (result 2 false ∷ result 1 true ∷ result 3 false ∷ [])
      (refl, (refl, (refl, tt))) lab_arrivals

-- Connection 5 is added, then the proxy stops, and connection 6 comes too late.
abbrev one_added : Connected
one_added = after_add connected_at_start 5

abbrev stopping : Connected
stopping = after_begin one_added

abbrev closed_late : Connected
closed_late = after_add (record stopping { pending = []; shut = 5 ∷ stopping.shut }) 6

closing_split : stopping.pending ≡ 5 ∷ []
unfolding after_begin after_add begin_close_all add connected_at_start new_ha_proxy_connections
    contains_number
closing_split = refl

closed_late_reached : ConnectionReached closed_late
closed_late_reached =
    next_step _ _
      (next_step _ _
        (next_step _ _ (next_step _ _ at_start (adds connected_at_start 5)) (begins one_added))
        (closes stopping [] 5 [] closing_split))
      (adds (record stopping { pending = []; shut = 5 ∷ stopping.shut }) 6)

late_closed : closed_late.registry.closed ≡ true
unfolding after_begin after_add begin_close_all add connected_at_start new_ha_proxy_connections
late_closed = refl

late_done : closed_late.pending ≡ []
unfolding after_begin after_add begin_close_all add connected_at_start new_ha_proxy_connections
late_done = refl

late_added : contains_number closed_late.added 5 ≡ true
unfolding after_begin after_add begin_close_all add connected_at_start new_ha_proxy_connections
    contains_number
late_added = refl

closed_all_example :
    (contains_number closed_late.shut 5 || contains_number closed_late.removed 5) ≡ true
closed_all_example = closed_all closed_late closed_late_reached late_closed late_done 5 late_added

-- The first member does not answer.
abbrev lab_dial : Dial
lab_dial tried b = if text_eq b.address (text "127.0.0.1:17443") then none else some 9

abbrev lab_proxy : Proxy
lab_proxy = record { pool = ready_pool; registry = new_ha_proxy_connections; shut = [] }

abbrev is_lab : ℕ → Bool
is_lab n = n == 8 || n == 9

-- While the relay runs, another client comes and all backends are found unhealthy.
abbrev while_relaying : Proxy
while_relaying =
    perform (relays 8 9)
      (perform (registers 9) (perform (marks_unhealthy 1) (perform (registers 8) lab_proxy)))

abbrev disturbed : Proxy
disturbed = after_register (record while_relaying { pool = new_ha_proxy_pool three_backends }) 4

abbrev after_client : Proxy
after_client =
    perform (forgets 8) (perform (shuts 8) (perform (shuts 9) (perform (forgets 9) disturbed)))

lab_run :
    Interleaved is_lab after_client
      (handle_ha_proxy_client lab_dial 8 three_backends)
      (perform (registers 8) lab_proxy)
unfolding handle_ha_proxy_client text_eq
lab_run = own (
    own (
      own (
        other (changes_pool (new_ha_proxy_pool three_backends))
          (other (registers_other 4 refl) (own (own (own (own ends))))))))

lab_dials_own :
    (tried : List HaProxyBackend) (b : HaProxyBackend) (upstream : ℕ)
    → lab_dial tried b ≡ some upstream
    → is_lab upstream ≡ true
lab_dials_own tried b upstream e = ground (arith, e)

handle_client-Served_example : Served lab_dial 8 three_backends after_client
handle_client-Served_example =
    handle_client-Served is_lab lab_dial 8 three_backends (perform (registers 8) lab_proxy)
      after_client refl lab_dials_own lab_run

abbrev host_part : List Text → Option Text
host_part (a ∷ b ∷ c ∷ []) = some c
host_part parts = none

abbrev pair_of : List Text → Option (Text × Text)
pair_of (a ∷ b ∷ []) = some (a, b)
pair_of parts = none

-- The documents of the lab are of the form https://HOST:PORT.
abbrev lab_urls : UrlLibrary
lab_urls = record {
  parse = λ t. elim (host_part (split b'/' t)) [
    | none ↦ none
    | some host ↦ some (record { scheme = text "https"; host = host; path = [] })
  ];
  split_host_port = λ t. pair_of (split b':' t);
  atoi = parse_uint;
}

abbrev lab_arrival : List HaProxyBackend → List HaProxyBackend
lab_arrival bs = bs

abbrev serving_result : Res (Option Listening) × History
serving_result =
    serve_ha_proxy lab_urls lab_arrival lab_host default_ha_proxy_options lab_ctx lab []

abbrev lab_listening : Listening
lab_listening = record {
  endpoint = record { url = text "https://127.0.0.1:17442"; address = text "127.0.0.1:17442" };
  pool =
      replace_health (new_ha_proxy_pool three_backends)
        (gather (result 1 true ∷ result 2 true ∷ result 3 true ∷ []) []);
}

lab_serves : serving_result ≡ (ok (some lab_listening), serving_result.1)
unfolding lab_host text_eq texts_eq is_empty fold_rune equal_fold lower_rune to_lower upper_rune
    to_upper is_space trim_left trim_right trim_space cut_prefix has_prefix trim_prefix
    contains_text split join_texts text_lt insert_text sort_texts contains_string itoa is_digit
    parse_uint parse_ipv4 ipv4_string parse_prefix masked prefix_string prefix_contains parse_mac
    is_not_found_error is_not_exist_error collision_of is_done without_cancel pure raise lift
    attempt wrapped ask raise_if ◌>>=◌ run_command context_err now with_timeout wait dns_label
    ha_member_count default_ha_node_name ha_container_name ha_volume_name ha_network_name
    member_by_id ha_config_path default_ha_config last_ipv4_address contains_number usable_address
    usable_mac normalize_member multiplier_of parse_ha_byte_size same_ha_byte_size has_port
    ha_proxy_endpoint sort_members normalize_members normalize_ha_config load_ha_config label_of
    validate_ha_labels ha_container_uses_legacy_init validate_ha_container validate_ha_volume
    validate_ha_network is_running is_stopped join_host_port api_endpoint ha_init_arguments
    legacy_ha_init_arguments ha_server_run_arguments is_not_found inspect_ha_container
    inspect_ha_volume inspect_ha_network read_ha_member_node node_document_ready get_id put_id
    if_found optional preflight_ha flag copy_flags new_ha_proxy_pool replace_health replace_identity
    mark_unhealthy serves healthy_count candidates gather results is_ready trusts
    normalize_ha_proxy_options ha_proxy_address dial_address validate_ha_proxy_backends
    serve_ha_proxy
lab_serves = refl

serve_ha_proxy-Ready_example :
    (config : HaConfig) × (asked loaded : History) × (load_ha_config lab_host lab asked
      ≡ (ok config, loaded))
    × Ready lab_urls lab_host config lab_listening
serve_ha_proxy-Ready_example =
    serve_ha_proxy-Ready lab_urls lab_host lab_arrival default_ha_proxy_options lab_ctx lab
      lab_listening [] serving_result.1 lab_serves
