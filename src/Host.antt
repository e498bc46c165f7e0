-- ===== src/Host.antt =====
-- What the controller meets outside its own code: the `container` command line, the files that it
-- keeps, the clock and the contexts. The answers are a parameter, `Host`, and may depend on all that
-- happened before; every question is recorded, so that a history is the list of the controller's
-- external actions, newest first.
pub mod Action
pub mod Emits
pub mod Mutations
pub mod Own
use apple_pod_control.Prelude.{
  ℕ, ◌+◌, Bool, true, false, ◌&&◌, ◌||◌, not, Option, none, some, List, leb, String, min,
}
use apple_pod_control.Text.{Text}
use apple_pod_control.Ha.Types.{
  HaMember, HaConfig, HaContainerInspect, HaVolumeInspect, HaNetworkInspect, HaNodeDocument,
  HaDesiredState, HaRuntimeIpCollision,
}

-- An error value: messages keep their format and drop its arguments; `wrap` is fmt.Errorf with %w,
-- and `join` is errors.Join of two errors.
pub data Error : Type 0 where
  fail : String → Error
  not_found : Error  -- ErrNotFound
  not_exist : Error  -- os.ErrNotExist
  context_error : Error
  collision : HaRuntimeIpCollision → Error
  wrap : String → Error → Error
  join : Error → Error → Error

-- errors.Is(err, ErrNotFound)
unfoldable pub is_not_found_error : Error → Bool
is_not_found_error not_found = true
is_not_found_error (wrap s e) = is_not_found_error e
is_not_found_error (join e f) = is_not_found_error e || is_not_found_error f
is_not_found_error _ = false

-- errors.Is(err, os.ErrNotExist)
unfoldable pub is_not_exist_error : Error → Bool
is_not_exist_error not_exist = true
is_not_exist_error (wrap s e) = is_not_exist_error e
is_not_exist_error (join e f) = is_not_exist_error e || is_not_exist_error f
is_not_exist_error _ = false

abbrev pub first_some {ℓ} : {A : Type ℓ} → Option A → Option A → Option A
first_some (some a) o = some a
first_some none o = o

-- errors.As(err, &collision)
unfoldable pub collision_of : Error → Option HaRuntimeIpCollision
collision_of (collision c) = some c
collision_of (wrap s e) = collision_of e
collision_of (join e f) = first_some (collision_of e) (collision_of f)
collision_of _ = none

-- The invocations of the `container` binary, each with what the program varies in it.
pub data Command : Type 0 where
  inspect volume_inspect network_inspect : Text → Command
  stop delete volume_delete network_delete : Text → Command
  logs : Text → Command
  exec : Text → List Text → Command  -- the container and the arguments
  run : List Text → Command  -- all arguments
  network_create : List Text → Command
  volume_create : List Text → Command

-- What the runner returns: `failed` says that it returned an error.
pub record Reply : Type 0 where
  pub stdout : Text
  pub stderr : Text
  pub failed : Bool

-- A context: one made by context.WithoutCancel has `inherits` false; the deadline is the earliest of
-- those set on the way.
pub record Context : Type 0 where
  pub inherits : Bool
  pub deadline : Option ℕ

-- The steps of the operation lock on a cluster's lock file.
pub data LockStep : Type 0 where
  make_directory inspect_directory secure_directory open_lock stat_lock inspect_path : LockStep
  try_lock unlock close_lock : LockStep

-- What the program changes in its own files, besides the operator's intent.
pub data LocalChange : Type 0 where
  token_written : Text → LocalChange
  config_saved : HaConfig → LocalChange
  kubeconfig_written : Text → Text → LocalChange
  current_set current_cleared : Text → LocalChange
  file_removed directory_removed : Text → LocalChange

pub data Event : Type 0 where
  ran : Context → Command → Event
  probed_api : HaMember → Event
  clock_read context_polled waited : Event
  config_read : Text → Event
  desired_read : Text → Event
  desired_written : HaDesiredState → Event
  token_read path_checked : Text → Event
  locked : Text → LockStep → Event  -- the cluster's name
  stored : LocalChange → Event

abbrev pub History : Type 0
History = List Event

-- A JSON file that the program keeps: what a read of it gives. `malformed` covers every refusal of
-- the reader and the decoder.
pub data File (A : Type 0) : Type 0 where
  missing : File A
  malformed : File A
  found : A → File A

-- A float64 as the program tests it: a non-negative integer, or any other value (a negative number, a
-- fraction, an infinity, NaN).
pub data MetricValue : Type 0 where
  natural : ℕ → MetricValue
  other : MetricValue

-- The "health" field of an etcd health document.
pub data HealthValue : Type 0 where
  undecodable neither : HealthValue
  boolean : Bool → HealthValue
  string : Text → HealthValue

-- What os.Lstat and os.File.Stat say of a path or an open file: `shared` is a permission for the group
-- or for others.
pub record FileInfo : Type 0 where
  pub symlink : Bool
  pub directory : Bool
  pub regular : Bool
  pub owned : Bool
  pub shared : Bool
  pub identity : ℕ  -- os.SameFile compares it

-- syscall.Flock with LOCK_EX|LOCK_NB.
pub data FlockAnswer : Type 0 where
  granted busy refused : FlockAnswer

-- The token file: `untrusted` covers every refusal of its mode, its reading and its text.
pub data TokenFile : Type 0 where
  no_token unreadable_token untrusted_token valid_token : TokenFile

-- os.Stat of a path.
pub data Presence : Type 0 where
  present absent unknown : Presence

mutual
  -- yaml.Node: a scalar with its text, a mapping with its keys and values in turn, or any other node.
  pub data YamlNode : Type 0 where
    scalar : Text → YamlNode
    mapping collection : YamlNodes → YamlNode

  pub data YamlNodes : Type 0 where
    no_child : YamlNodes
    child : YamlNode → YamlNodes → YamlNodes

pub record Host : Type 0 where
  pub reply : Context → Command → History → Reply
  pub api_ready : Context → HaMember → History → Bool
  pub clock : History → ℕ
  pub cancelled : History → Bool  -- the caller's own context
  pub cancelled_first : Context → History → Bool  -- of two causes: the cancellation, not the deadline
  pub ticks : Context → History → ℕ  -- how often a select takes its ticker before ctx.Done
  -- encoding/json
  pub decode_containers : Text → Option (List HaContainerInspect)
  pub decode_volumes : Text → Option (List HaVolumeInspect)
  pub decode_networks : Text → Option (List HaNetworkInspect)
  pub decode_node : Text → Option HaNodeDocument
  pub decode_health : Text → HealthValue
  -- strconv.ParseFloat and strconv.Unquote
  pub parse_float : Text → Option MetricValue
  pub unquote : Text → Option Text
  -- files
  pub config_file : Text → History → File HaConfig
  pub desired_file : Text → History → File HaDesiredState
  pub write_fails : HaDesiredState → History → Bool
  -- package os, path/filepath and net
  pub user_config_dir : Option Text
  pub path_clean : Text → Text
  pub path_abs : Text → Option Text
  pub path_base : Text → Text
  pub path_dir : Text → Text
  pub is_ip : Text → Bool
  pub presence : Text → History → Presence
  pub token_file : Text → History → TokenFile
  pub current_file : History → Option Text  -- the file that names the current cluster
  pub change_fails : LocalChange → History → Bool
  -- the lock file
  pub lock_step_fails : Text → LockStep → History → Bool
  pub lock_directory : Text → History → FileInfo
  pub opened_lock : Text → History → FileInfo
  pub lock_path : Text → History → FileInfo
  pub flock : Text → History → FlockAnswer
  -- gopkg.in/yaml.v3
  pub decode_yaml : Text → Option YamlNode
  pub encode_yaml : YamlNode → Option Text

abbrev pub earliest : Option ℕ → ℕ → Option ℕ
earliest none d = some d
earliest (some e) d = some (min e d)

abbrev pub past : Option ℕ → ℕ → Bool
past none now = false
past (some d) now = leb d now

-- ctx.Err() != nil
unfoldable pub is_done : Host → Context → History → Bool
is_done host ctx h = ctx.inherits && host.cancelled h || past ctx.deadline (host.clock h)

-- errors.Is(ctx.Err(), context.DeadlineExceeded): the deadline has passed, and the caller's context was
-- not cancelled before.
abbrev pub deadline_exceeded : Host → Context → History → Bool
deadline_exceeded host ctx h =
    past ctx.deadline (host.clock h)
    && not (ctx.inherits && host.cancelled h && host.cancelled_first ctx h)

-- context.WithoutCancel
unfoldable pub without_cancel : Context → Context
without_cancel ctx = record { inherits = false; deadline = none }
