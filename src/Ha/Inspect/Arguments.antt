-- ===== src/Ha/Inspect/Arguments.antt =====
-- The arguments of `container run` for a server, and of its init process (internal/cluster/ha.go).
pub mod Named
use apple_pod_control.Prelude.{
  ℕ, Bool, true, false, ◌||◌, Option, none, some, List, [], ◌∷◌, ◌++◌, ◌==◌, if◌then◌else◌,
}
use apple_pod_control.Text.{Text, text, text_eq, is_empty, sort_texts, join_texts}
use apple_pod_control.Text.Numbers.{itoa}
use apple_pod_control.Net.{Prefix, parse_prefix}
use apple_pod_control.Host.{Host}
use apple_pod_control.Host.Action.{Res, ok, err}
use apple_pod_control.Ha.Types.{HaMember, HaConfig}
use apple_pod_control.Ha.Names.{ha_container_name, ha_volume_name, member_by_id}
use apple_pod_control.Ha.Config.Normalize.{normalize_ha_config}

has_colon : Text → Bool
has_colon [] = false
has_colon (c ∷ s) = c == b':' || has_colon s

-- net.JoinHostPort
unfoldable pub join_host_port : Text → Text → Text
unfolding has_colon
join_host_port host port =
    if has_colon host then (b'[' ∷ host) ++ (text "]:" ++ port) else host ++ (b':' ∷ port)

-- HAMember.apiEndpoint
unfoldable pub api_endpoint : HaMember → Text → Text
unfolding join_host_port
api_endpoint member listen_address =
    let address =
      if is_empty listen_address
        || text_eq listen_address (text "0.0.0.0")
        || text_eq listen_address (text "::")
      then text "127.0.0.1"
      else listen_address in
    text "https://" ++ join_host_port address (itoa member.host_api_port)

-- `prefix, _ := netip.ParsePrefix(…)` and its Bits, which is -1 for the zero prefix.
bits_of : Option Prefix → Text
bits_of none = text "-1"
bits_of (some p) = itoa p.bits

peer_stable_ips : ℕ → List HaMember → List Text
peer_stable_ips id [] = []
peer_stable_ips id (peer ∷ rest) =
    if peer.id == id then peer_stable_ips id rest else peer.stable_ip ∷ peer_stable_ips id rest

tls_sans : List HaMember → List Text
tls_sans [] = []
tls_sans (peer ∷ rest) = text "--tls-san" ∷ peer.stable_ip ∷ tls_sans rest

disabled : Bool → List Text
disabled true = text "--disable" ∷ text "traefik" ∷ text "--disable" ∷ text "servicelb" ∷ []
disabled false = []

cluster_entry : HaConfig → HaMember → List Text
unfolding join_host_port
cluster_entry config member =
    if member.id == 1
    then text "--cluster-init" ∷ []
    else text "--server"
      ∷ (text "https://" ++ join_host_port (member_by_id config.members 1).stable_ip (text "6443"))
      ∷ []

ha_init_arguments_with_script : HaConfig → HaMember → Text → List Text
unfolding cluster_entry tls_sans disabled
ha_init_arguments_with_script config member script =
    (text "-c" ∷ script ∷ text "apc-k3s" ∷ text "server" ∷ [])
    ++ (cluster_entry config member
        ++ ((text "--token-file"
              ∷ text "/run/secrets/apc/server-token"
              ∷ text "--node-name"
              ∷ member.node_name
              ∷ text "--node-ip"
              ∷ member.stable_ip
              ∷ text "--advertise-address"
              ∷ member.stable_ip
              ∷ text "--write-kubeconfig-mode"
              ∷ text "600"
              ∷ text "--flannel-backend"
              ∷ text "vxlan"
              ∷ text "--tls-san"
              ∷ config.listen_address
              ∷ [])
            ++ (tls_sans config.members ++ disabled config.disable_traefik)))

-- The addition of the stable address and the route, which both scripts end in.
stable_address_script : HaConfig → HaMember → Text
unfolding bits_of
stable_address_script config member =
    text "ip address add "
    ++ (member.stable_ip
        ++ (text "/"
            ++ (bits_of (parse_prefix config.subnet)
                ++ (text " dev eth0 2>/dev/null || true; ip route replace "
                    ++ (config.subnet
                        ++ (text " dev eth0 src "
                            ++ (member.stable_ip ++ text "; exec /bin/k3s \"$@\"")))))))

guarded_script : HaConfig → HaMember → Text
unfolding stable_address_script peer_stable_ips
guarded_script config member =
    text
      "PRIMARY_IP=$(ip -o -4 addr show dev eth0 scope global | awk 'NR == 1 {split($4, address, \"/\"); print address[1]}'); case \"$PRIMARY_IP\" in "
    ++ (join_texts (text "|") (sort_texts (peer_stable_ips member.id config.members))
        ++ (text ") echo \"APC_HA_RUNTIME_IP_COLLISION=$PRIMARY_IP\" >&2; exit 78;; esac; "
            ++ stable_address_script config member))

unfoldable pub ha_init_arguments : HaConfig → HaMember → List Text
unfolding ha_init_arguments_with_script guarded_script
ha_init_arguments config member =
    ha_init_arguments_with_script config member (guarded_script config member)

unfoldable pub legacy_ha_init_arguments : HaConfig → HaMember → List Text
unfolding ha_init_arguments_with_script stable_address_script
legacy_ha_init_arguments config member =
    ha_init_arguments_with_script config member (stable_address_script config member)

run_arguments : Host → HaConfig → HaMember → List Text
unfolding ha_init_arguments
run_arguments host config member =
    (text "run"
      ∷ text "--detach"
      ∷ text "--name"
      ∷ ha_container_name config.name member.id
      ∷ text "--arch"
      ∷ text "arm64"
      ∷ text "--cpus"
      ∷ itoa config.cpus
      ∷ text "--memory"
      ∷ config.memory
      ∷ text "--cap-add"
      ∷ text "ALL"
      ∷ text "--network"
      ∷ (config.network_name ++ (text ",mac=" ++ (member.mac ++ text ",mtu=1280")))
      ∷ text "--entrypoint"
      ∷ text "/bin/sh"
      ∷ text "--volume"
      ∷ (ha_volume_name config.name member.id ++ text ":/var/lib/rancher/k3s")
      ∷ text "--mount"
      ∷ (text "type=bind,source="
          ++ (host.path_dir config.token_file ++ text ",target=/run/secrets/apc,readonly"))
      ∷ text "--publish"
      ∷ (config.listen_address ++ (b':' ∷ (itoa member.host_api_port ++ text ":6443/tcp")))
      ∷ text "--label"
      ∷ text "apc.dev/managed=true"
      ∷ text "--label"
      ∷ (text "apc.dev/cluster=" ++ config.name)
      ∷ text "--label"
      ∷ text "apc.dev/role=server"
      ∷ text "--label"
      ∷ (text "apc.dev/member=" ++ itoa member.id)
      ∷ text "--progress"
      ∷ text "plain"
      ∷ config.image
      ∷ [])
    ++ ha_init_arguments config member

-- HAConfig{}
abbrev blank_config : HaConfig
blank_config = record {
  name = [];
  network_name = [];
  subnet = [];
  image = [];
  listen_address = [];
  cpus = 0;
  memory = [];
  volume_size = [];
  startup_timeout = 0;
  kubeconfig_path = [];
  token_file = [];
  disable_traefik = false;
  members = [];
}

normalized_arguments : Host → Res HaConfig → ℕ → List Text
unfolding run_arguments
normalized_arguments host (ok config) id =
    run_arguments host config (member_by_id config.members id)
normalized_arguments host (err e) id = run_arguments host blank_config (member_by_id [] id)

-- HAServerRunArguments normalizes its configuration again, and goes on with the zero configuration if
-- that is refused.
unfoldable pub ha_server_run_arguments : Host → HaConfig → HaMember → List Text
unfolding normalized_arguments
ha_server_run_arguments host config member =
    normalized_arguments host (normalize_ha_config host config) member.id
