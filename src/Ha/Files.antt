-- ===== src/Ha/Files.antt =====
-- The files that the creation and the deletion of a cluster keep and remove (internal/cluster/ha.go,
-- cluster.go and lifecycle.go), and the kubeconfig that it reads from a server.
pub mod Changes
use apple_pod_control.Prelude.{
  ℕ, Bool, true, false, ◌&&◌, ◌||◌, not, Option, none, some, List, [], ◌∷◌, ◌++◌, ◌==◌,
  if◌then◌else◌,
}
use mathlib.Core.Option
use apple_pod_control.Text.{Text, text, text_eq, texts_eq, is_empty, trim_space, contains_string}
use apple_pod_control.Host.{
  Host, Error, fail, wrap, is_not_exist_error, Context, exec, Presence, present, absent, unknown,
  TokenFile, no_token, unreadable_token, untrusted_token, valid_token, LocalChange, token_written,
  config_saved, kubeconfig_written, current_set, current_cleared, file_removed, directory_removed,
  token_read, path_checked, stored, History, YamlNode, YamlNodes, scalar, mapping, collection,
  no_child, child, Reply, first_some,
}
use apple_pod_control.Host.Action.{
  Res, ok, err, Action, pure, raise, lift, attempt, wrapped, raise_if, ask, ◌>>=◌, ◌>>◌,
  run_command, command_error,
}
use apple_pod_control.Ha.Types.{HaMember, HaConfig}
use apple_pod_control.Ha.Names.{dns_label}
use apple_pod_control.Ha.Config.{ha_config_path, cluster_file, join_path}
use apple_pod_control.Ha.Config.Normalize.{load_ha_config}

-- One change of the program's files.
unfoldable pub change : Host → LocalChange → Error → Action Unit
change host c e = ask (stored c) (host.change_fails c) >>= λ failed. raise_if failed e

-- checkHALegacyCollision
refuse_presence : Presence → Action Unit
refuse_presence present =
    raise (fail "refusing HA cluster %q because legacy APC state already exists at %s")
refuse_presence absent = pure tt
refuse_presence unknown = raise (fail "inspect legacy APC state: %w")

unfoldable pub check_ha_legacy_collision : Host → Text → Action Unit
unfolding refuse_presence
check_ha_legacy_collision host name = do
  cluster_path ← lift (cluster_file host name (text "cluster.json"))
  agent_path ← lift (cluster_file host name (text "agent.json"))
  cluster ← ask (path_checked cluster_path) (host.presence cluster_path)
  refuse_presence cluster
  agent ← ask (path_checked agent_path) (host.presence agent_path)
  refuse_presence agent

-- ensureHAToken, whose random token is left out.
ensure_from : Host → Text → Bool → TokenFile → Action Unit
unfolding change
ensure_from host path create valid_token = pure tt
ensure_from host path create untrusted_token =
    raise (fail "HA token file does not contain one valid token")
ensure_from host path create unreadable_token = raise (fail "inspect HA token file: %w")
ensure_from host path true no_token =
    change host (token_written path) (fail "write HA server token: %w")
ensure_from host path false no_token =
    raise (fail "HA token file %q is missing for existing member data")

unfoldable pub ensure_ha_token : Host → Text → Bool → Action Unit
unfolding ensure_from
ensure_ha_token host path create =
    ask (token_read path) (host.token_file path) >>= ensure_from host path create

unfoldable pub save_ha_config : Host → HaConfig → Action Unit
unfolding change
save_ha_config host config = do
  lift (ha_config_path host config.name)
  change host (config_saved config) (fail "save HA cluster configuration: %w")

same_member : HaMember → HaMember → Bool
same_member a b =
    a.id == b.id
    && text_eq a.node_name b.node_name
    && text_eq a.stable_ip b.stable_ip
    && text_eq a.mac b.mac
    && a.host_api_port == b.host_api_port

same_members : List HaMember → List HaMember → Bool
unfolding same_member
same_members [] [] = true
same_members (a ∷ left) (b ∷ right) = same_member a b && same_members left right
same_members _ _ = false

-- Every field but the startup timeout.
unfoldable pub same_ha_runtime_config : HaConfig → HaConfig → Bool
unfolding same_members
same_ha_runtime_config a b =
    text_eq a.name b.name
    && text_eq a.network_name b.network_name
    && text_eq a.subnet b.subnet
    && text_eq a.image b.image
    && text_eq a.listen_address b.listen_address
    && a.cpus == b.cpus
    && text_eq a.memory b.memory
    && text_eq a.volume_size b.volume_size
    && text_eq a.kubeconfig_path b.kubeconfig_path
    && text_eq a.token_file b.token_file
    && (if a.disable_traefik then b.disable_traefik else not b.disable_traefik)
    && same_members a.members b.members

-- The test of a saved configuration against the requested one.
unfoldable pub check_stored : HaConfig → Res HaConfig → Action Unit
check_stored config (ok found) =
    raise_if (not (same_ha_runtime_config found config))
      (fail "saved HA topology for cluster %q differs from the requested configuration")
check_stored config (err e) = if is_not_exist_error e then pure tt else raise e

-- removeExactFiles, with the paths that it has removed so far.
remove_files : Host → List Text → List Text → Action Unit
unfolding change
remove_files host seen [] = pure tt
remove_files host seen (path ∷ rest) =
    let clean = host.path_clean path in
    let skipped = remove_files host seen rest in
    let removed =
      change host (file_removed clean) (fail "remove APC configuration file %q: %w")
      >> remove_files host (clean ∷ seen) rest in
    if is_empty path || contains_string seen clean then skipped else removed

unfoldable pub remove_exact_files : Host → List Text → Action Unit
unfolding remove_files
remove_exact_files host paths = remove_files host [] paths

-- replaceScalar: what it makes of a node, none where it returns false.
node_value : YamlNode → Text
node_value (scalar t) = t
node_value _ = []

-- The loop over the keys of a mapping.
replace_pair : YamlNodes → Text → Text → Option YamlNodes
unfolding node_value
replace_pair (child k (child (scalar old) rest)) key value =
    let later = replace_pair rest key value in
    if text_eq (node_value k) key
    then some (child k (child (scalar value) rest))
    else Option.map (λ after. child k (child (scalar old) after)) later
replace_pair (child k (child (mapping m) rest)) key value =
    Option.map (λ after. child k (child (mapping m) after)) (replace_pair rest key value)
replace_pair (child k (child (collection m) rest)) key value =
    Option.map (λ after. child k (child (collection m) after)) (replace_pair rest key value)
replace_pair _ key value = none

unfoldable mutual
  unfolding replace_pair

  pub replace_scalar : YamlNode → Text → Text → Option YamlNode
  replace_scalar (scalar t) key value = none
  replace_scalar (mapping m) key value =
      Option.map mapping (first_some (replace_pair m key value) (replace_children m key value))
  replace_scalar (collection m) key value = Option.map collection (replace_children m key value)

  pub replace_children : YamlNodes → Text → Text → Option YamlNodes
  replace_children no_child key value = none
  replace_children (child n rest) key value =
      first_some (Option.map (λ after. child after rest) (replace_scalar n key value))
        (Option.map (child n) (replace_children rest key value))

-- readKubeconfig, with gopkg.in/yaml.v3 in the host.
rewrite_document : Host → Text → Option YamlNode → Res Text
unfolding replace_scalar
rewrite_document host endpoint none = err (fail "decode kubeconfig: %w")
rewrite_document host endpoint (some document) =
    encoded (Option.map host.encode_yaml (replace_scalar document (text "server") endpoint))
  where
    encoded : Option (Option Text) → Res Text
    encoded none = err (fail "kubeconfig does not contain a server endpoint")
    encoded (some none) = err (fail "encode kubeconfig: %w")
    encoded (some (some t)) = ok t

unfoldable pub read_kubeconfig : Host → Context → Text → Text → Action Text
unfolding rewrite_document
read_kubeconfig host ctx container endpoint = do
  reply ←
      run_command host ctx
        (exec container (text "/bin/cat" ∷ text "/etc/rancher/k3s/k3s.yaml" ∷ []))
  raise_if reply.failed (command_error "read kubeconfig")
  lift (rewrite_document host endpoint (host.decode_yaml reply.stdout))

-- clearCurrentCluster: the file is removed if it names the cluster.
names_cluster : Text → Option Text → Bool
names_cluster name none = false
names_cluster name (some content) =
    dns_label (trim_space content) && text_eq (trim_space content) name

unfoldable pub clear_current_cluster : Host → Text → Action Unit
unfolding change names_cluster
clear_current_cluster host name = do
  current ← ask (path_checked (text "current-cluster")) host.current_file
  if names_cluster name current
      then change host (current_cleared name) (fail "clear current cluster: %w")
      else pure tt

-- removeEmptyClusterDirectory: a directory that is missing or not empty is no error.
unfoldable pub remove_empty_cluster_directory : Host → Text → Action Unit
unfolding change
remove_empty_cluster_directory host name = do
  path ← lift (cluster_file host name (text "cluster.json"))
  change host (directory_removed (host.path_dir path))
      (fail "remove empty APC cluster directory: %w")
