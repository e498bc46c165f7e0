-- ===== src/Ha/Types.antt =====
-- The records of internal/cluster/ha.go, ha_addresses.go, ha_etcd.go and ha_desired_state.go. Go's
-- int fields are natural numbers: a negative value fails the same checks as a small natural one (an
-- identifier or port below 1, fewer than 2 CPUs).
use apple_pod_control.Prelude.{ℕ, Bool, Option, List}
use apple_pod_control.Text.{Text}

pub record HaMember : Type 0 where
  pub id : ℕ
  pub node_name : Text
  pub stable_ip : Text
  pub mac : Text
  pub host_api_port : ℕ

pub record HaConfig : Type 0 where
  pub name : Text
  pub network_name : Text
  pub subnet : Text
  pub image : Text
  pub listen_address : Text
  pub cpus : ℕ
  pub memory : Text
  pub volume_size : Text
  pub startup_timeout : ℕ  -- nanoseconds
  pub kubeconfig_path : Text
  pub token_file : Text
  pub disable_traefik : Bool
  pub members : List HaMember

pub record HaMemberState : Type 0 where
  pub id : ℕ
  pub node_name : Text
  pub container : Text
  pub runtime_state : Text
  pub stable_ip : Text
  pub vm_address : Text
  pub api_endpoint : Text
  pub api_ready : Bool
  pub node_ready : Bool
  pub k3s_version : Text

pub record HaState : Type 0 where
  pub name : Text
  pub network_name : Text
  pub subnet : Text
  pub kubeconfig : Text
  pub quorum : ℕ
  pub ready_members : ℕ
  pub healthy : Bool
  pub members : List HaMemberState

-- haRuntimeIPCollision
pub record HaRuntimeIpCollision : Type 0 where
  pub address : Text
  pub runtime_member : HaMember
  pub stable_member : HaMember

-- A Go map with text keys, in some order.
abbrev pub Labels : Type 0
Labels = List (Text × Text)

pub record HaNetworkAttachment : Type 0 where
  pub network : Text
  pub mac_address : Text
  pub mtu : ℕ

pub record HaPublishedPort : Type 0 where
  pub container_port : ℕ
  pub count : ℕ
  pub host_address : Text
  pub host_port : ℕ
  pub proto : Text

-- `volume` is the name of the volume, and `virtio_fs` says whether that pointer is set.
pub record HaMount : Type 0 where
  pub destination : Text
  pub source : Text
  pub options : List Text
  pub volume : Option Text
  pub virtio_fs : Bool

-- The user and group of the init process.
pub record HaContainerUserId : Type 0 where
  pub uid : ℕ
  pub gid : ℕ

-- haContainerInspect; `labels` is none where the map is nil.
pub record HaContainerInspect : Type 0 where
  pub architecture : Text
  pub os : Text
  pub labels : Option Labels
  pub image_reference : Text
  pub arguments : List Text
  pub executable : Text
  pub terminal : Bool
  pub user : Option HaContainerUserId
  pub cap_add : List Text
  pub cap_drop : List Text
  pub networks : List HaNetworkAttachment
  pub published_ports : List HaPublishedPort
  pub published_sockets : ℕ  -- how many
  pub mounts : List HaMount
  pub cpus : ℕ
  pub memory_in_bytes : ℕ
  pub read_only : Bool
  pub rosetta : Bool
  pub ssh : Bool
  pub sysctls : ℕ  -- how many
  pub use_init : Bool
  pub virtualization : Bool
  pub state : Text
  pub status_networks : List Text  -- the IPv4 address of each

pub record HaVolumeInspect : Type 0 where
  pub name : Text
  pub labels : Labels
  pub options : Labels

pub record HaNetworkInspect : Type 0 where
  pub name : Text
  pub ipv4_subnet : Text
  pub labels : Labels

-- haNodeDocument: conditions are pairs of a type and a status.
pub record HaNodeDocument : Type 0 where
  pub name : Text
  pub conditions : List (Text × Text)
  pub kubelet_version : Text

pub record HaEtcdMemberTopology : Type 0 where
  pub member_id : ℕ
  pub node_name : Text
  pub server_id : Text
  pub peer_server_ids : List Text
  pub health_success : Bool
  pub has_leader : Bool
  pub is_leader : Bool
  pub is_learner : Bool

-- HADesiredState; the update time is in nanoseconds, and 0 is the zero time.
pub record HaDesiredState : Type 0 where
  pub api_version : Text
  pub kind : Text
  pub cluster : Text
  pub cluster_state : Text
  pub stopped_members : List ℕ
  pub updated_at : ℕ
