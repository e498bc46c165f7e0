-- ===== src/Ha/Inspect.antt =====
-- The exact identity of an HA cluster's containers, volumes and network (internal/cluster/ha.go):
-- the arguments that APC starts a server with, and the validation of what the runtime reports.
pub mod Arguments
pub mod Query
use apple_pod_control.Prelude.{
  ℕ, ◌≡◌, refl, Bool, true, false, ◌&&◌, ◌||◌, not, Option, none, some, List, [], ◌∷◌, ltb, ◌==◌,
  if◌then◌else◌, length, String,
}
use apple_pod_control.Text.{Text, text, text_eq, texts_eq, equal_fold, is_empty}
use apple_pod_control.Text.Numbers.{itoa}
use apple_pod_control.Net.{Prefix, parse_prefix, masked}
use apple_pod_control.Host.{Host, Error, fail, wrap}
use apple_pod_control.Host.Action.{Res, ok, err, wrap_res}
use apple_pod_control.Ha.Types.{
  HaMember, HaConfig, Labels, HaNetworkAttachment, HaPublishedPort, HaMount, HaContainerUserId,
  HaContainerInspect, HaVolumeInspect, HaNetworkInspect,
}
use apple_pod_control.Ha.Names.{ha_volume_name}
use apple_pod_control.Ha.Config.{◌>>=ᵣ◌, check}
use apple_pod_control.Ha.Config.ByteSize.{parse_ha_byte_size, same_ha_byte_size}
use apple_pod_control.Ha.Inspect.Arguments.{ha_init_arguments, legacy_ha_init_arguments}

-- labels[key]
unfoldable pub label_of : Labels → Text → Text
label_of [] key = []
label_of ((k, v) ∷ rest) key = if text_eq k key then v else label_of rest key

abbrev done : Res (Unit {0})
done = ok tt

-- validateHALabels
unfoldable pub validate_ha_labels : Labels → Text → Text → ℕ → Res (Unit {0})
unfolding label_of
validate_ha_labels labels cluster_name role member_id =
    check
      (not (text_eq (label_of labels (text "apc.dev/managed")) (text "true"))
        || not (text_eq (label_of labels (text "apc.dev/cluster")) cluster_name)
        || not (text_eq (label_of labels (text "apc.dev/role")) role))
      (fail "resource is not the expected APC %s for cluster %q")
      (check
        (ltb 0 member_id
          && not (text_eq (label_of labels (text "apc.dev/member")) (itoa member_id)))
        (fail "resource is not APC HA member %d for cluster %q") done)

abbrev labels_or_nil : Option Labels → Labels
labels_or_nil none = []
labels_or_nil (some labels) = labels

is_root : Option HaContainerUserId → Bool
is_root none = false
is_root (some user) = user.uid == 0 && user.gid == 0

abbrev option_text_eq : Option Text → Text → Bool
option_text_eq none s = false
option_text_eq (some t) s = text_eq t s

-- haContainerUsesLegacyInit
unfoldable pub ha_container_uses_legacy_init : HaContainerInspect → HaConfig → HaMember → Bool
ha_container_uses_legacy_init r config member =
    texts_eq r.arguments (legacy_ha_init_arguments config member)

init_process_matches : HaContainerInspect → HaConfig → HaMember → Bool
unfolding is_root ha_container_uses_legacy_init
init_process_matches r config member =
    text_eq r.executable (text "/bin/sh")
    && not r.terminal
    && is_root r.user
    && (texts_eq r.arguments (ha_init_arguments config member)
        || ha_container_uses_legacy_init r config member)

network_matches : List HaNetworkAttachment → HaConfig → HaMember → Bool
network_matches (n ∷ []) config member =
    text_eq n.network config.network_name && equal_fold n.mac_address member.mac && n.mtu == 1280
network_matches _ config member = false

port_matches : List HaPublishedPort → HaConfig → HaMember → Bool
port_matches (p ∷ []) config member =
    p.container_port == 6443
    && p.count == 1
    && p.host_port == member.host_api_port
    && text_eq p.host_address config.listen_address
    && text_eq p.proto (text "tcp")
port_matches _ config member = false

is_data_volume : HaConfig → HaMember → HaMount → Bool
is_data_volume config member mount =
    text_eq mount.destination (text "/var/lib/rancher/k3s")
    && option_text_eq mount.volume (ha_volume_name config.name member.id)
    && not mount.virtio_fs
    && length mount.options == 0

abbrev is_set {ℓ} : {A : Type ℓ} → Option A → Bool
is_set none = false
is_set (some a) = true

is_token_mount : Host → HaConfig → HaMount → Bool
is_token_mount host config mount =
    text_eq mount.destination (text "/run/secrets/apc")
    && text_eq mount.source (host.path_dir config.token_file)
    && mount.virtio_fs
    && not (is_set mount.volume)
    && texts_eq mount.options (text "ro" ∷ [])

abbrev some_mount : (HaMount → Bool) → List HaMount → Bool
some_mount test [] = false
some_mount test (mount ∷ rest) = test mount || some_mount test rest

mounts_match : Host → HaConfig → HaMember → List HaMount → Bool
unfolding is_data_volume is_token_mount
mounts_match host config member mounts =
    some_mount (is_data_volume config member) mounts
    && some_mount (is_token_mount host config) mounts

-- `memoryBytes, _ := parseHAByteSize(…)`
abbrev size_or_zero : Option ℕ → ℕ
size_or_zero none = 0
size_or_zero (some n) = n

resources_match : HaContainerInspect → HaConfig → Bool
resources_match r config =
    r.cpus == config.cpus && r.memory_in_bytes == size_or_zero (parse_ha_byte_size config.memory)

unexpected_feature : HaContainerInspect → Bool
unexpected_feature r =
    r.read_only || r.rosetta || r.ssh || r.use_init || r.virtualization || not (r.sysctls == 0)

-- The checks after the labels. Neighbouring checks of one subject, such as the number of networks and
-- the network, share one message.
validate_envelope : Host → HaContainerInspect → HaConfig → HaMember → Res (Unit {0})
unfolding init_process_matches network_matches port_matches mounts_match resources_match
    unexpected_feature
validate_envelope host r config member =
    check (not (text_eq r.image_reference config.image))
      (fail "container %q uses image %q, expected %q")
      (check (not (text_eq r.os (text "linux")) || not (text_eq r.architecture (text "arm64")))
        (fail "container %q does not use the declared linux/arm64 platform")
        (check (not (init_process_matches r config member))
          (fail "container %q does not match the declared root, non-TTY K3s init process")
          (check (not (texts_eq r.cap_add (text "ALL" ∷ [])) || not (length r.cap_drop == 0))
            (fail "container %q does not use exactly cap-add ALL with no dropped capabilities")
            (check (not (network_matches r.networks config member))
              (fail "container %q does not match network %q, MAC %s and MTU 1280")
              (check
                (not (port_matches r.published_ports config member)
                  || not (r.published_sockets == 0))
                (fail "container %q does not publish the declared API endpoint")
                (check
                  (not (length r.mounts == 2) || not (mounts_match host config member r.mounts))
                  (fail
                    "container %q does not use exactly the declared data volume and read-only token mount")
                  (check (not (resources_match r config))
                    (fail "container %q does not match the declared CPU and memory resources")
                    (check (unexpected_feature r)
                      (fail "container %q enables an unexpected runtime feature") done))))))))

unfoldable pub validate_ha_container :
    Host → HaContainerInspect → HaConfig → HaMember → Res (Unit {0})
unfolding validate_envelope validate_ha_labels
validate_ha_container host r config member =
    wrap_res "container %q: %w"
      (validate_ha_labels (labels_or_nil r.labels) config.name (text "server") member.id)
    >>=ᵣ λ _. validate_envelope host r config member

unfoldable pub validate_ha_volume : HaVolumeInspect → HaConfig → HaMember → Res (Unit {0})
unfolding validate_ha_labels label_of
validate_ha_volume r config member =
    let size = label_of r.options (text "size") in
    check (not (is_empty r.name) && not (text_eq r.name (ha_volume_name config.name member.id)))
      (fail "volume inspect returned unexpected volume %q")
      (wrap_res "volume %q: %w" (validate_ha_labels r.labels config.name (text "server") member.id)
        >>=ᵣ λ _.
            check (not (is_empty size) && not (same_ha_byte_size size config.volume_size))
              (fail "volume %q has size %s, expected %s") done)

abbrev same_prefix : Option Prefix → Option Prefix → Bool
same_prefix (some p) (some q) = (masked p).addr == (masked q).addr && p.bits == q.bits
same_prefix _ _ = false

unfoldable pub validate_ha_network : HaNetworkInspect → HaConfig → Res (Unit {0})
unfolding label_of
validate_ha_network r config =
    check (not (is_empty r.name) && not (text_eq r.name config.network_name))
      (fail "network inspect returned unexpected network %q")
      (check
        (not (text_eq (label_of r.labels (text "apc.dev/managed")) (text "true"))
          || not (text_eq (label_of r.labels (text "apc.dev/cluster")) config.name))
        (fail "network %q exists but is not owned by APC cluster %q")
        (check (not (same_prefix (parse_prefix r.ipv4_subnet) (parse_prefix config.subnet)))
          (fail "network %q uses subnet %q, expected %q") done))

-- strings.EqualFold(record.Status.State, "running")
unfoldable pub is_running : Text → Bool
is_running state = equal_fold state (text "running")

-- strings.EqualFold(record.Status.State, "stopped")
unfoldable pub is_stopped : Text → Bool
is_stopped state = equal_fold state (text "stopped")
