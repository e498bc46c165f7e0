-- ===== src/Ha/Config.antt =====
-- Defaults, validation and loading of an HA configuration (internal/cluster/ha.go), with the
-- endpoint that ha_proxy.go derives from it.
pub mod ByteSize
pub mod Endpoint
pub mod Normalize
use apple_pod_control.Prelude.{
  ℕ, zero, suc, ◌+◌, ◌-◌, ◌/◌, ◌%◌, ◌*◌, ◌≡◌, refl, arith, Bool, true, false, ◌&&◌, ◌||◌, not,
  Option, none, some, List, [], ◌∷◌, ◌++◌, ltb, leb, ◌==◌, if◌then◌else◌, length,
}
use apple_pod_control.Text.{Text, text, text_eq, to_lower, contains_string, is_empty}
use apple_pod_control.Text.Numbers.{itoa}
use apple_pod_control.Net.{
  Prefix, parse_ipv4, ipv4_string, parse_prefix, masked, prefix_string, prefix_contains, block_size,
  parse_mac,
}
use apple_pod_control.Host.{
  Host, Error, fail, wrap, not_exist, config_read, File, missing, malformed, found,
}
use apple_pod_control.Host.Action.{Res, ok, err, Action, lift, ask, wrapped, ◌>>=◌}
use apple_pod_control.Ha.Types.{HaMember, HaConfig}
use apple_pod_control.Ha.Names.{dns_label, default_ha_node_name, ha_network_name, ha_member_count}
use apple_pod_control.Ha.Config.ByteSize.{parse_ha_byte_size}
use apple_pod_control.Ha.Config.Endpoint.{ha_proxy_endpoint}

-- Results without effects compose as in Go: the first error ends the function.
infixl 5 ◌>>=ᵣ◌
abbrev pub ◌>>=ᵣ◌ : {A B : Type 0} → Res A → (A → Res B) → Res B
ok a >>=ᵣ f = f a
err e >>=ᵣ f = err e

abbrev pub check : {B : Type 0} → Bool → Error → Res B → Res B
check bad e rest = if bad then err e else rest

-- A chain that returned: its first part returned, and so did the rest.
pub >>=ᵣ-eq-ok :
    {A B : Type 0} (r : Res A) (f : A → Res B) (b : B)
    → r >>=ᵣ f ≡ ok b
    → (a : A) × (r ≡ ok a) × (f a ≡ ok b)
>>=ᵣ-eq-ok (ok a) f b h = (a, refl, h)
>>=ᵣ-eq-ok (err e) f b h = ground (arith, h)

-- A check that let the rest return was passed.
pub check-eq-ok :
    {B : Type 0} (bad : Bool) (e : Error) (rest : Res B) (b : B)
    → check bad e rest ≡ ok b
    → (bad ≡ false) × (rest ≡ ok b)
check-eq-ok true e rest b h = ground (arith, h)
check-eq-ok false e rest b h = (refl, h)

abbrev pub or_default : Text → Text → Text
or_default value default = if is_empty value then default else value

abbrev second : ℕ
second = 1_000_000_000

-- filepath.Join of a clean directory and further parts
abbrev pub join_path : Text → Text → Text
join_path directory rest = directory ++ (b'/' ∷ rest)

unfoldable pub cluster_file : Host → Text → Text → Res Text
cluster_file host name file = elim host.user_config_dir [
  | none ↦ err (fail "resolve user configuration directory: %w")
  | some root ↦ ok (join_path (join_path (join_path root (text "apc/clusters")) name) file)
]

unfoldable pub ha_config_path : Host → Text → Res Text
unfolding cluster_file
ha_config_path host name =
    check (not (dns_label name)) (fail "cluster name must be a lowercase DNS label")
      (cluster_file host name (text "ha.json"))

kubeconfig_path_of : Host → Text → Res Text
unfolding cluster_file
kubeconfig_path_of host name = cluster_file host name (text "kubeconfig")

ha_token_path : Host → Text → Res Text
unfolding ha_config_path
ha_token_path host name =
    ha_config_path host name >>=ᵣ λ path. ok (join_path (host.path_dir path) (text "server-token"))

abbrev default_stable_ip_start : ℕ
default_stable_ip_start = 3232260337

abbrev two_hex_digits : ℕ → Text
two_hex_digits n = b'0' ∷ (48 + n % 10) ∷ []

default_member : Text → ℕ → HaMember
default_member name id = record {
  id = id;
  node_name = default_ha_node_name name id;
  stable_ip = ipv4_string (default_stable_ip_start + id - 1);
  mac = text "02:ac:96:00:00:" ++ two_hex_digits id;
  host_api_port = 17443 + id - 1;
}

abbrev lab_name : Text → Text
lab_name name = or_default name (text "ha-lab")

-- DefaultHAConfig, once the name and the paths are known.
default_config : Text → Text → Text → HaConfig
unfolding default_member
default_config name kubeconfig token_file = record {
  name = name;
  network_name = ha_network_name name;
  subnet = text "192.168.96.0/24";
  image =
      text
        "docker.io/rancher/k3s@sha256:6a47cea22c4b834d4ba72c89d291696b79ebe406251f90b446e4dff03513dd87";
  listen_address = text "127.0.0.1";
  cpus = 2;
  memory = text "2G";
  volume_size = text "8G";
  startup_timeout = 180 * second;
  kubeconfig_path = kubeconfig;
  token_file = token_file;
  disable_traefik = true;
  members = default_member name 1 ∷ default_member name 2 ∷ default_member name 3 ∷ [];
}

unfoldable pub default_ha_config : Host → Text → Res HaConfig
unfolding kubeconfig_path_of ha_token_path default_config
default_ha_config host name =
    check (not (dns_label (lab_name name))) (fail "cluster name must be a lowercase DNS label") (
      kubeconfig_path_of host (lab_name name) >>=ᵣ λ kubeconfig.
      ha_token_path host (lab_name name) >>=ᵣ λ token_file.
      ok (default_config (lab_name name) kubeconfig token_file))

-- The last address of a prefix: its network address with all host bits set.
unfoldable pub last_ipv4_address : Prefix → ℕ
last_ipv4_address prefix = (masked prefix).addr + (block_size prefix.bits - 1)

-- The five maps of values already taken in the member loop.
pub record Seen : Type 0 where
  pub ids : List ℕ
  pub nodes : List Text
  pub ips : List ℕ
  pub macs : List Text
  pub ports : List ℕ

abbrev pub nothing_seen : Seen
nothing_seen = record { ids = []; nodes = []; ips = []; macs = []; ports = [] }

unfoldable pub contains_number : List ℕ → ℕ → Bool
contains_number [] n = false
contains_number (m ∷ rest) n = m == n || contains_number rest n

-- An address that a member of the subnet may have.
unfoldable pub usable_address : Prefix → ℕ → Bool
unfolding last_ipv4_address
usable_address prefix address =
    prefix_contains prefix address
    && not (address == prefix.addr)
    && not (address == prefix.addr + 1)
    && not (address == last_ipv4_address prefix)

-- A locally administered unicast MAC address of six octets.
unfoldable pub usable_mac : Text → Bool
usable_mac mac = elim (parse_mac mac) [
  | none ↦ false
  | some [] ↦ false
  | some (first ∷ rest) ↦ first % 2 == 0 && first / 2 % 2 == 1
]

-- One turn of the member loop: the member as it is stored, and what it takes.
unfoldable pub normalize_member : Text → Prefix → Seen → HaMember → Res (HaMember × Seen)
unfolding contains_number usable_address usable_mac
normalize_member name prefix seen member =
    let node_name = or_default member.node_name (default_ha_node_name name member.id) in
    let mac = to_lower member.mac in
    check (ltb member.id 1 || ltb ha_member_count member.id || contains_number seen.ids member.id)
      (fail "HA member IDs must be unique values 1, 2, and 3")
      (check (not (dns_label node_name) || contains_string seen.nodes node_name)
        (fail "HA node names must be unique lowercase DNS labels")
        (elim (parse_ipv4 member.stable_ip) [
          | none ↦ err (fail "HA member %d stable IP must be a unique usable address in %s")
          | some address ↦
              check (not (usable_address prefix address) || contains_number seen.ips address)
                (fail "HA member %d stable IP must be a unique usable address in %s")
                (check (not (usable_mac member.mac) || contains_string seen.macs mac)
                  (fail "HA member %d MAC must be a unique locally administered unicast address")
                  (check
                    (ltb member.host_api_port 1
                      || ltb 65535 member.host_api_port
                      || contains_number seen.ports member.host_api_port)
                    (fail "HA member API ports must be unique values between 1 and 65535")
                    (ok (
                      record member { node_name = node_name; mac = mac },
                      record {
                        ids = member.id ∷ seen.ids;
                        nodes = node_name ∷ seen.nodes;
                        ips = address ∷ seen.ips;
                        macs = mac ∷ seen.macs;
                        ports = member.host_api_port ∷ seen.ports;
                      },
                    ))))
        ]))
