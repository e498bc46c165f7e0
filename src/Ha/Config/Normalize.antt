-- ===== src/Ha/Config/Normalize.antt =====
-- normalizeHAConfig and loadHAConfig (internal/cluster/ha.go).
pub mod Members
pub mod Order
pub mod Valid
pub mod Loaded
use apple_pod_control.Prelude.{
  String, ℕ, Bool, true, false, ◌||◌, not, Option, none, some, List, [], ◌∷◌, ltb, ◌==◌,
  if◌then◌else◌, length,
}
use apple_pod_control.Text.{Text, text, text_eq}
use apple_pod_control.Net.{Prefix, parse_prefix, masked, prefix_string}
use apple_pod_control.Host.{
  Host, fail, wrap, not_exist, config_read, File, missing, malformed, found,
}
use apple_pod_control.Host.Action.{Res, ok, err, Action, lift, ask, wrap_res, ◌>>=◌}
use apple_pod_control.Ha.Types.{HaMember, HaConfig}
use apple_pod_control.Ha.Names.{dns_label, ha_member_count}
use apple_pod_control.Ha.Config.{
  ◌>>=ᵣ◌, check, or_default, default_ha_config, ha_config_path, Seen, nothing_seen,
  normalize_member,
}
use apple_pod_control.Ha.Config.ByteSize.{parse_ha_byte_size}
use apple_pod_control.Ha.Config.Endpoint.{ha_proxy_endpoint}

insert_member : HaMember → List HaMember → List HaMember
insert_member m [] = m ∷ []
insert_member m (n ∷ rest) = if ltb n.id m.id then n ∷ insert_member m rest else m ∷ n ∷ rest

-- sort.Slice by ID: with distinct IDs there is one sorted order.
unfoldable pub sort_members : List HaMember → List HaMember
unfolding insert_member
sort_members [] = []
sort_members (m ∷ rest) = insert_member m (sort_members rest)

-- The loop over the members.
unfoldable pub normalize_members : Text → Prefix → Seen → List HaMember → Res (List HaMember)
normalize_members name prefix seen [] = ok []
normalize_members name prefix seen (member ∷ rest) =
    normalize_member name prefix seen member >>=ᵣ λ (stored, taken).
    normalize_members name prefix taken rest >>=ᵣ λ others. ok (stored ∷ others)

abbrev number_or : ℕ → ℕ → ℕ
number_or value default = if value == 0 then default else value

abbrev is_none {ℓ} : {A : Type ℓ} → Option A → Bool
is_none none = true
is_none (some a) = false

abbrev resolve : String → Option Text → Res Text
resolve message none = err (fail message)
resolve message (some path) = ok path

-- Defaults for what is left empty, up to the subnet.
fill_defaults : HaConfig → HaConfig → HaConfig
fill_defaults defaults config = record config {
  name = or_default config.name defaults.name;
  network_name = or_default config.network_name defaults.network_name;
  subnet = or_default config.subnet defaults.subnet;
  image = or_default config.image defaults.image;
  listen_address = or_default config.listen_address defaults.listen_address;
  cpus = number_or config.cpus defaults.cpus;
  memory = or_default config.memory defaults.memory;
  volume_size = or_default config.volume_size defaults.volume_size;
  startup_timeout = number_or config.startup_timeout defaults.startup_timeout;
  kubeconfig_path = or_default config.kubeconfig_path defaults.kubeconfig_path;
  token_file = or_default config.token_file defaults.token_file;
}

abbrev a_second : ℕ
a_second = 1_000_000_000

-- The three files of a cluster must differ; `filepath.Clean` of each.
paths_distinct : Host → Text → HaConfig → Bool
paths_distinct host config_path config =
    let a = host.path_clean config_path in
    let b = host.path_clean config.kubeconfig_path in
    let c = host.path_clean config.token_file in not (text_eq a b || text_eq a c || text_eq b c)

-- The last check, and the result.
with_members : HaConfig → List HaMember → Res HaConfig
with_members config members =
    let result : HaConfig = record config { members = members } in
    wrap_res "invalid derived HA proxy endpoint: %w" (ha_proxy_endpoint result) >>=ᵣ λ _. ok result

normalize_list : HaConfig → Prefix → List HaMember → Res HaConfig
unfolding with_members
normalize_list config prefix members =
    check (not (length members == ha_member_count))
      (fail "embedded-etcd HA requires exactly three servers in this release")
      (normalize_members config.name prefix nothing_seen (sort_members members)
        >>=ᵣ with_members config)

-- The checks on the three paths, once they are absolute, and the members.
check_paths : Host → HaConfig → HaConfig → Prefix → Text → Res HaConfig
unfolding paths_distinct normalize_list
check_paths host defaults config prefix config_path =
    check (not (paths_distinct host config_path config))
      (fail "HA config, kubeconfig and token paths must be pairwise distinct")
      (normalize_list config prefix
        (if length config.members == 0 then defaults.members else config.members))

place_token : Host → HaConfig → HaConfig → Prefix → Text → Res HaConfig
unfolding check_paths
place_token host defaults config prefix token_file =
    check (not (text_eq (host.path_base token_file) (text "server-token")))
      (fail "HA token file must be named %q")
      (ha_config_path host config.name
        >>=ᵣ check_paths host defaults (record config { token_file = token_file }) prefix)

place_kubeconfig : Host → HaConfig → HaConfig → Prefix → Text → Res HaConfig
unfolding place_token
place_kubeconfig host defaults config prefix kubeconfig =
    resolve "resolve HA token path: %w" (host.path_abs config.token_file)
    >>=ᵣ place_token host defaults (record config { kubeconfig_path = kubeconfig }) prefix

-- From the paths to the end, on a configuration with its scalar fields filled in.
normalize_files : Host → HaConfig → HaConfig → Prefix → Res HaConfig
unfolding place_kubeconfig
normalize_files host defaults config prefix =
    resolve "resolve HA kubeconfig path: %w" (host.path_abs config.kubeconfig_path)
    >>=ᵣ place_kubeconfig host defaults config prefix

-- The scalar fields, in the order of the source's checks.
normalize_fields : Host → HaConfig → HaConfig → Prefix → Res HaConfig
unfolding normalize_files
normalize_fields host defaults config prefix =
    check (not (host.is_ip config.listen_address)) (fail "HA listen address must be an IP address")
      (check (ltb config.cpus 2) (fail "each K3s HA server requires at least 2 CPUs") (
        check (is_none (parse_ha_byte_size config.memory)) (fail "invalid HA memory size: %w") (
          check (is_none (parse_ha_byte_size config.volume_size))
            (fail "invalid HA volume size: %w")
            (check (ltb config.startup_timeout a_second)
              (fail "HA startup timeout must be at least 1s")
              (normalize_files host defaults config prefix)))))

-- The subnet, masked; at most 30 bits leave room for two hosts.
normalize_subnet : Host → HaConfig → HaConfig → Option Prefix → Res HaConfig
unfolding normalize_fields
normalize_subnet host defaults config none = err (fail "HA subnet must be a usable IPv4 prefix")
normalize_subnet host defaults config (some prefix) =
    check (ltb 30 prefix.bits) (fail "HA subnet must be a usable IPv4 prefix") (
      normalize_fields host defaults (record config { subnet = prefix_string (masked prefix) })
        (masked prefix))

normalize_from : Host → HaConfig → HaConfig → Res HaConfig
unfolding normalize_subnet fill_defaults
normalize_from host config defaults =
    let filled = fill_defaults defaults config in
    check (not (dns_label filled.network_name))
      (fail "HA network name must be a lowercase DNS label")
      (normalize_subnet host defaults filled (parse_prefix filled.subnet))

unfoldable pub normalize_ha_config : Host → HaConfig → Res HaConfig
unfolding normalize_from
normalize_ha_config host config = default_ha_config host config.name >>=ᵣ normalize_from host config

stored_config : Host → File HaConfig → Res HaConfig
unfolding normalize_ha_config
stored_config host missing = err (wrap "read HA cluster configuration: %w" not_exist)
stored_config host malformed =
    err (fail "HA cluster configuration must be a regular file with mode 0600 or stricter")
stored_config host (found config) =
    wrap_res "validate HA cluster configuration: %w" (normalize_ha_config host config)

unfoldable pub load_ha_config : Host → Text → Action HaConfig
unfolding stored_config
load_ha_config host name = do
  path ← lift (ha_config_path host name)
  file ← ask (config_read path) (host.config_file path)
  lift (stored_config host file)
