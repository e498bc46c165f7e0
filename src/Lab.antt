-- ===== src/Lab.antt =====
-- A concrete cluster of three members, and a host for it: the `container` command line of a machine on
-- which all of it runs. The examples of the theorems stand on it.
mod Status
mod Etcd
mod Members
mod Intent
mod Config
mod Targets
mod Proxy
mod Lifecycle
mod SupervisorLog
mod Launchd
use apple_pod_control.Prelude.{
  ℕ, Bool, true, false, ◌&&◌, Option, none, some, List, [], ◌∷◌, ◌++◌, if◌then◌else◌, ◌==◌,
}
use apple_pod_control.Text.{Text, text, text_eq}
use apple_pod_control.Text.Numbers.{itoa, parse_uint}
use apple_pod_control.Host.Own.{name_option}
use apple_pod_control.Host.{
  Host, Command, Reply, Context, Event, History, File, missing, found, MetricValue, natural, other,
  HealthValue, undecodable, boolean, ran, desired_written, inspect, volume_inspect, network_inspect,
  stop, run, exec, FileInfo, granted, absent, valid_token, mapping, scalar, child, no_child,
}
use apple_pod_control.Ha.Types.{
  HaMember, HaConfig, HaContainerInspect, HaVolumeInspect, HaNetworkInspect, HaNodeDocument,
  HaDesiredState, Labels,
}
use apple_pod_control.Ha.Names.{ha_container_name, ha_volume_name}
use apple_pod_control.Ha.Inspect.Arguments.{ha_init_arguments}

abbrev pub lab : Text
lab = text "lab"

abbrev pub first_member : HaMember
first_member = record {
  id = 1;
  node_name = text "apc-lab-1";
  stable_ip = text "192.168.96.241";
  mac = text "02:ac:96:00:00:01";
  host_api_port = 17443;
}

abbrev pub second_member : HaMember
second_member = record {
  id = 2;
  node_name = text "apc-lab-2";
  stable_ip = text "192.168.96.242";
  mac = text "02:ac:96:00:00:02";
  host_api_port = 17444;
}

abbrev pub third_member : HaMember
third_member = record {
  id = 3;
  node_name = text "apc-lab-3";
  stable_ip = text "192.168.96.243";
  mac = text "02:ac:96:00:00:03";
  host_api_port = 17445;
}

abbrev pub lab_config : HaConfig
lab_config = record {
  name = lab;
  network_name = text "apc-ha-lab";
  subnet = text "192.168.96.0/24";
  image = text "docker.io/rancher/k3s@sha256:6a47";
  listen_address = text "127.0.0.1";
  cpus = 2;
  memory = text "2G";
  volume_size = text "8G";
  startup_timeout = 180_000_000_000;
  kubeconfig_path = text "/lab/kubeconfig";
  token_file = text "/lab/server-token";
  disable_traefik = true;
  members = first_member ∷ second_member ∷ third_member ∷ [];
}

abbrev pub lab_ctx : Context
lab_ctx = record { inherits = true; deadline = none }

abbrev server_labels : HaMember → Labels
server_labels member =
    (text "apc.dev/managed", text "true")
    ∷ (text "apc.dev/cluster", lab)
    ∷ (text "apc.dev/role", text "server")
    ∷ (text "apc.dev/member", itoa member.id)
    ∷ []

-- The exact container of a member, in the given state.
abbrev pub server : HaMember → Text → HaContainerInspect
server member state = record {
  architecture = text "arm64";
  os = text "linux";
  labels = some (server_labels member);
  image_reference = text "docker.io/rancher/k3s@sha256:6a47";
  arguments = ha_init_arguments lab_config member;
  executable = text "/bin/sh";
  terminal = false;
  user = some (record { uid = 0; gid = 0 });
  cap_add = text "ALL" ∷ [];
  cap_drop = [];
  networks = record { network = text "apc-ha-lab"; mac_address = member.mac; mtu = 1280 } ∷ [];
  published_ports =
      record {
        container_port = 6443;
        count = 1;
        host_address = text "127.0.0.1";
        host_port = member.host_api_port;
        proto = text "tcp";
      }
      ∷ [];
  published_sockets = 0;
  mounts =
      record {
        destination = text "/var/lib/rancher/k3s";
        source = text "/volumes";
        options = [];
        volume = some (ha_volume_name lab member.id);
        virtio_fs = false;
      }
      ∷ record {
        destination = text "/run/secrets/apc";
        source = text "/lab";
        options = text "ro" ∷ [];
        volume = none;
        virtio_fs = true;
      }
      ∷ [];
  cpus = 2;
  memory_in_bytes = 2_147_483_648;
  read_only = false;
  rosetta = false;
  ssh = false;
  sysctls = 0;
  use_init = false;
  virtualization = false;
  state = state;
  status_networks = (text "192.168.96.1" ++ (itoa member.id ++ text "/24")) ∷ [];
}

-- The documents of the lab name what they describe; a stopped server's begins with an exclamation
-- mark.
decode_server : Text → Option (List HaContainerInspect)
decode_server t =
    if text_eq t (ha_container_name lab 1)
    then some (server first_member (text "running") ∷ [])
    else if text_eq t (ha_container_name lab 2)
    then some (server second_member (text "running") ∷ [])
    else if text_eq t (ha_container_name lab 3)
    then some (server third_member (text "running") ∷ [])
    else if text_eq t (b'!' ∷ ha_container_name lab 2)
    then some (server second_member (text "stopped") ∷ [])
    else none

decode_volume : Text → Option (List HaVolumeInspect)
decode_volume t =
    let of : HaMember → HaVolumeInspect = λ m. record {
      name = ha_volume_name lab m.id;
      labels = server_labels m;
      options = (text "size", text "8G") ∷ [];
    } in
    if text_eq t (ha_volume_name lab 1)
    then some (of first_member ∷ [])
    else if text_eq t (ha_volume_name lab 2)
    then some (of second_member ∷ [])
    else if text_eq t (ha_volume_name lab 3)
    then some (of third_member ∷ [])
    else none

decode_network : Text → Option (List HaNetworkInspect)
decode_network t = some (
    record {
      name = text "apc-ha-lab";
      ipv4_subnet = text "192.168.96.0/24";
      labels = (text "apc.dev/managed", text "true") ∷ (text "apc.dev/cluster", lab) ∷ [];
    }
    ∷ [])

decode_lab_node : Text → Option HaNodeDocument
decode_lab_node t = some (record {
  name = t;
  conditions = (text "Ready", text "True") ∷ [];
  kubelet_version = text "v1.33";
})

-- The etcd metrics of a member with the given server ID and peers.
etcd_document : Text → Text → Text → Text → Text
etcd_document id leads peer other_peer =
    text "true\nAPC_ETCD_METRICS_BEGIN\netcd_server_id{server_id=\""
    ++ (id
        ++ (text "\"} 1\netcd_server_has_leader 1\netcd_server_is_leader "
            ++ (leads
                ++ (text
                      "\netcd_server_is_learner 0\netcd_server_health_success 5\netcd_network_peer_sent_bytes_total{To=\""
                    ++ (peer
                        ++ (text "\"} 7\netcd_network_peer_sent_bytes_total{To=\""
                            ++ (other_peer ++ text "\"} 9")))))))

etcd_of : Text → Text
unfolding etcd_document
etcd_of name =
    if text_eq name (ha_container_name lab 1)
    then etcd_document (text "a1") (text "1") (text "b2") (text "c3")
    else if text_eq name (ha_container_name lab 2)
    then etcd_document (text "b2") (text "0") (text "a1") (text "c3")
    else etcd_document (text "c3") (text "0") (text "a1") (text "b2")

abbrev named : Text → Option Text → Bool
named name none = false
named name (some n) = text_eq n name

-- Whether the newest command for a container is a stop.
is_down : Text → History → Bool
is_down name [] = false
is_down name (ran ctx (stop n) ∷ h) = if text_eq n name then true else is_down name h
is_down name (ran ctx (run a) ∷ h) = if named name (name_option a) then false else is_down name h
is_down name (_ ∷ h) = is_down name h

document_of : Command → History → Text
unfolding is_down etcd_of
document_of (inspect n) h = if is_down n h then b'!' ∷ n else n
document_of (volume_inspect n) h = n
document_of (network_inspect n) h = n
document_of (exec n (a ∷ b ∷ c ∷ node ∷ rest)) h = node
document_of (exec n arguments) h = etcd_of n
document_of _ h = []

lab_reply : Context → Command → History → Reply
unfolding document_of
lab_reply ctx c h = record { stdout = document_of c h; stderr = []; failed = false }

drop_last : Text → Text
drop_last [] = []
drop_last (c ∷ []) = []
drop_last (c ∷ d ∷ s) = c ∷ drop_last (d ∷ s)

unquote_text : Text → Option Text
unfolding drop_last
unquote_text [] = none
unquote_text (c ∷ s) = some (drop_last s)

-- The newest state that was written for a cluster.
unfoldable pub stored_file : Text → History → File HaDesiredState
stored_file name [] = missing
stored_file name (desired_written state ∷ h) =
    if text_eq state.cluster name then found state else stored_file name h
stored_file name (_ ∷ h) = stored_file name h

read_metric : Text → Option MetricValue
read_metric t = elim (parse_uint t) [ none ↦ none | some n ↦ some (natural n) ]

read_health : Text → HealthValue
read_health t = if text_eq t (text "true") then boolean true else undecodable

abbrev private_file : FileInfo
private_file = record {
  symlink = false;
  directory = false;
  regular = true;
  owned = true;
  shared = false;
  identity = 7;
}

abbrev private_directory : FileInfo
private_directory = record private_file { directory = true; regular = false }

unfoldable pub lab_host : Host
unfolding lab_reply decode_server decode_volume decode_network decode_lab_node stored_file
    read_metric read_health unquote_text
lab_host = record {
  reply = lab_reply;
  api_ready = λ ctx member h. true;
  clock = λ h. 1000;
  cancelled = λ h. false;
  cancelled_first = λ ctx h. false;
  ticks = λ ctx h. 1;
  decode_containers = decode_server;
  decode_volumes = decode_volume;
  decode_networks = decode_network;
  decode_node = decode_lab_node;
  decode_health = read_health;
  parse_float = read_metric;
  unquote = unquote_text;
  config_file = λ path h. found lab_config;
  desired_file = stored_file;
  write_fails = λ state h. false;
  user_config_dir = some (text "/home");
  path_clean = λ p. p;
  path_abs = λ p. some p;
  path_base = λ p. text "server-token";
  path_dir = λ p. text "/lab";
  is_ip = λ p. true;
  presence = λ p h. absent;
  token_file = λ p h. valid_token;
  current_file = λ h. some lab;
  change_fails = λ c h. false;
  lock_step_fails = λ name s h. false;
  lock_directory = λ name h. private_directory;
  opened_lock = λ name h. private_file;
  lock_path = λ name h. private_file;
  flock = λ name h. granted;
  decode_yaml = λ t. some (mapping (child (scalar (text "server")) (child (scalar t) no_child)));
  encode_yaml = λ d. some [];
}
