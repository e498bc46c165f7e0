-- ===== src/Ha/Config/Normalize/Valid.antt =====
-- What normalizeHAConfig accepts.
use mathlib.Core.Path.{subst}
use apple_pod_control.Prelude.{
  ℕ, ◌*◌, ◌/◌, ◌≤◌, ◌≡◌, refl, true, false, not, Option, none, some, List, [], ◌∷◌, arith, ltb,
  ◌==◌, if◌then◌else◌, length,
}
use apple_pod_control.Text.{Text, text, text_eq}
use apple_pod_control.Net.{Prefix, parse_prefix, masked, prefix_string, block_size}
use apple_pod_control.Host.{Host}
use apple_pod_control.Host.Action.{Res, ok, err, wrap_res}
use apple_pod_control.Ha.Types.{HaMember, HaConfig}
use apple_pod_control.Ha.Names.{dns_label, ha_member_count}
use apple_pod_control.Ha.Config.{
  >>=ᵣ-eq-ok, check-eq-ok, default_ha_config, nothing_seen, ha_config_path,
}
use apple_pod_control.Ha.Config.ByteSize.{parse_ha_byte_size}
use apple_pod_control.Ha.Config.Endpoint.{ha_proxy_endpoint}
use apple_pod_control.Ha.Config.Normalize.{
  sort_members, normalize_members, fill_defaults, is_none, normalize_files, with_members,
  normalize_list, check_paths, place_token, place_kubeconfig, paths_distinct, normalize_fields,
  normalize_subnet, normalize_from, normalize_ha_config,
}
use apple_pod_control.Ha.Config.Normalize.Order.{sorted_three}
use apple_pod_control.Ha.Config.Normalize.Members.{Admitted, ids_of}

-- A configuration with which a cluster may be run.
pub record IsNormal (config : HaConfig) : Type 0 where
  pub prefix : Prefix
  pub in_subnet : config.subnet ≡ prefix_string prefix
  pub network : ℕ
  pub is_masked : prefix.addr ≡ network * block_size prefix.bits
  pub has_hosts : prefix.bits ≤ 30
  pub network_named : dns_label config.network_name ≡ true
  pub members_named : ids_of config.members ≡ 1 ∷ 2 ∷ 3 ∷ []
  pub members_fit : Admitted prefix nothing_seen config.members
  pub proxied : (endpoint : Text) × (ha_proxy_endpoint config ≡ ok endpoint)
  pub enough_cpus : 2 ≤ config.cpus
  pub has_memory : (n : ℕ) × (parse_ha_byte_size config.memory ≡ some n)
  pub has_volume : (n : ℕ) × (parse_ha_byte_size config.volume_size ≡ some n)
  pub enough_time : 1_000_000_000 ≤ config.startup_timeout

-- What is known of the fields before the paths and the members are looked at.
record Fields (config : HaConfig) (prefix : Prefix) : Type 0 where
  in_subnet : config.subnet ≡ prefix_string prefix
  network : ℕ
  is_masked : prefix.addr ≡ network * block_size prefix.bits
  has_hosts : prefix.bits ≤ 30
  network_named : dns_label config.network_name ≡ true
  enough_cpus : 2 ≤ config.cpus
  has_memory : (n : ℕ) × (parse_ha_byte_size config.memory ≡ some n)
  has_volume : (n : ℕ) × (parse_ha_byte_size config.volume_size ≡ some n)
  enough_time : 1_000_000_000 ≤ config.startup_timeout

wrap_res-eq-ok : (s : _) (r : Res Text) (t : Text) → wrap_res s r ≡ ok t → r ≡ ok t
wrap_res-eq-ok s (ok a) t h = ground (arith, h)
wrap_res-eq-ok s (err e) t h = ground (arith, h)

ok-injective : (a b : HaConfig) → ok a ≡ ok b → a ≡ b
ok-injective a b h = ground (arith, h)

module _ (host : Host) (prefix : Prefix) (result : HaConfig) where
  with_members-IsNormal :
      (config : HaConfig) (members : List HaMember)
      → Fields config prefix
      → Admitted prefix nothing_seen members
      → ids_of members ≡ 1 ∷ 2 ∷ 3 ∷ []
      → with_members config members ≡ ok result
      → IsNormal result
  unfolding with_members
  with_members-IsNormal config members f admitted ids h =
      let after : HaConfig = record config { members = members } in
      let (endpoint, e, r) =
        >>=ᵣ-eq-ok (wrap_res "invalid derived HA proxy endpoint: %w" (ha_proxy_endpoint after))
          (λ _. ok after) result h in
      subst IsNormal (ok-injective after result r) (record {
        prefix = prefix;
        in_subnet = f.in_subnet;
        network = f.network;
        is_masked = f.is_masked;
        has_hosts = f.has_hosts;
        network_named = f.network_named;
        members_named = ids;
        members_fit = admitted;
        proxied = (
          endpoint,
          wrap_res-eq-ok "invalid derived HA proxy endpoint: %w" (ha_proxy_endpoint after) endpoint
              e,
        );
        enough_cpus = f.enough_cpus;
        has_memory = f.has_memory;
        has_volume = f.has_volume;
        enough_time = f.enough_time;
      })

  normalize_list-IsNormal :
      (config : HaConfig) (members : List HaMember)
      → Fields config prefix
      → normalize_list config prefix members ≡ ok result
      → IsNormal result
  unfolding normalize_list ha_member_count
  normalize_list-IsNormal config members f h =
      let (three, r) = check-eq-ok (not (length members == 3)) _ _ result h in
      let (normalized, e, r2) =
        >>=ᵣ-eq-ok (normalize_members config.name prefix nothing_seen (sort_members members))
          (with_members config) result r in
      let (admitted, ids) =
        sorted_three config.name prefix members normalized (ground (arith, three)) e in
      with_members-IsNormal config normalized f admitted ids r2

  check_paths-IsNormal :
      (defaults config : HaConfig) (path : Text)
      → Fields config prefix
      → check_paths host defaults config prefix path ≡ ok result
      → IsNormal result
  unfolding check_paths
  check_paths-IsNormal defaults config path f h =
      let (apart, r) = check-eq-ok (not (paths_distinct host path config)) _ _ result h in
      normalize_list-IsNormal config
        (if length config.members == 0 then defaults.members else config.members) f r

  place_token-IsNormal :
      (defaults config : HaConfig) (token_file : Text)
      → Fields config prefix
      → place_token host defaults config prefix token_file ≡ ok result
      → IsNormal result
  unfolding place_token
  place_token-IsNormal defaults config token_file f h =
      let placed : HaConfig = record config { token_file = token_file } in
      let (based, r) =
        check-eq-ok (not (text_eq (host.path_base token_file) (text "server-token"))) _ _ result
          h in
      let (path, e, r2) =
        >>=ᵣ-eq-ok (ha_config_path host config.name) (check_paths host defaults placed prefix)
          result r in
      check_paths-IsNormal defaults placed path
        (record {
          in_subnet = f.in_subnet;
          network = f.network;
          is_masked = f.is_masked;
          has_hosts = f.has_hosts;
          network_named = f.network_named;
          enough_cpus = f.enough_cpus;
          has_memory = f.has_memory;
          has_volume = f.has_volume;
          enough_time = f.enough_time;
        })
        r2

  place_kubeconfig-IsNormal :
      (defaults config : HaConfig) (kubeconfig : Text)
      → Fields config prefix
      → place_kubeconfig host defaults config prefix kubeconfig ≡ ok result
      → IsNormal result
  unfolding place_kubeconfig
  place_kubeconfig-IsNormal defaults config kubeconfig f h =
      let placed : HaConfig = record config { kubeconfig_path = kubeconfig } in
      let (token_file, e, r) = >>=ᵣ-eq-ok _ (place_token host defaults placed prefix) result h in
      place_token-IsNormal defaults placed token_file
        (record {
          in_subnet = f.in_subnet;
          network = f.network;
          is_masked = f.is_masked;
          has_hosts = f.has_hosts;
          network_named = f.network_named;
          enough_cpus = f.enough_cpus;
          has_memory = f.has_memory;
          has_volume = f.has_volume;
          enough_time = f.enough_time;
        })
        r

  normalize_files-IsNormal :
      (defaults config : HaConfig)
      → Fields config prefix
      → normalize_files host defaults config prefix ≡ ok result
      → IsNormal result
  unfolding normalize_files
  normalize_files-IsNormal defaults config f h =
      let (kubeconfig, e, r) =
        >>=ᵣ-eq-ok _ (place_kubeconfig host defaults config prefix) result h in
      place_kubeconfig-IsNormal defaults config kubeconfig f r

some_size : (o : Option ℕ) → is_none o ≡ false → (n : ℕ) × (o ≡ some n)
some_size none h = ground (arith, h)
some_size (some n) h = (n, refl)

normalize_fields-IsNormal :
    (host : Host) (defaults config : HaConfig) (prefix : Prefix) (result : HaConfig)
    → config.subnet ≡ prefix_string prefix
    → (network : ℕ) × (prefix.addr ≡ network * block_size prefix.bits)
    → prefix.bits ≤ 30
    → dns_label config.network_name ≡ true
    → normalize_fields host defaults config prefix ≡ ok result
    → IsNormal result
unfolding normalize_fields
normalize_fields-IsNormal host defaults config prefix result subnet (network, is_masked) hosts named
      h =
    let (address, r1) = check-eq-ok (not (host.is_ip config.listen_address)) _ _ result h in
    let (cpus, r2) = check-eq-ok (ltb config.cpus 2) _ _ result r1 in
    let (memory, r3) = check-eq-ok (is_none (parse_ha_byte_size config.memory)) _ _ result r2 in
    let (volume, r4) =
      check-eq-ok (is_none (parse_ha_byte_size config.volume_size)) _ _ result r3 in
    let (time, r5) = check-eq-ok (ltb config.startup_timeout 1_000_000_000) _ _ result r4 in
    normalize_files-IsNormal host prefix result defaults config
      (record {
        in_subnet = subnet;
        network = network;
        is_masked = is_masked;
        has_hosts = hosts;
        network_named = named;
        enough_cpus = ground (arith, cpus);
        has_memory = some_size (parse_ha_byte_size config.memory) memory;
        has_volume = some_size (parse_ha_byte_size config.volume_size) volume;
        enough_time = ground (arith, time);
      })
      r5

normalize_subnet-IsNormal :
    (host : Host) (defaults config : HaConfig) (o : Option Prefix) (result : HaConfig)
    → dns_label config.network_name ≡ true
    → normalize_subnet host defaults config o ≡ ok result
    → IsNormal result
unfolding normalize_subnet masked
normalize_subnet-IsNormal host defaults config none result named h = ground (arith, h)
normalize_subnet-IsNormal host defaults config (some prefix) result named h =
    let (hosts, r) = check-eq-ok (ltb 30 prefix.bits) _ _ result h in
    normalize_fields-IsNormal host defaults
      (record config { subnet = prefix_string (masked prefix) }) (masked prefix) result refl
      (prefix.addr / block_size prefix.bits, refl) (ground (arith, hosts)) named r

normalize_from-IsNormal :
    (host : Host) (config defaults result : HaConfig)
    → normalize_from host config defaults ≡ ok result
    → IsNormal result
unfolding normalize_from
normalize_from-IsNormal host config defaults result h =
    let filled = fill_defaults defaults config in
    let (named, r) = check-eq-ok (not (dns_label filled.network_name)) _ _ result h in
    normalize_subnet-IsNormal host defaults filled (parse_prefix filled.subnet) result
      (ground (arith, named)) r

-- What normalizeHAConfig returns is normal.
pub normalize_ha_config-IsNormal :
    (host : Host) (config result : HaConfig)
    → normalize_ha_config host config ≡ ok result
    → IsNormal result
unfolding normalize_ha_config
normalize_ha_config-IsNormal host config result h =
    let (defaults, e, r) =
      >>=ᵣ-eq-ok (default_ha_config host config.name) (normalize_from host config) result h in
    normalize_from-IsNormal host config defaults result r
