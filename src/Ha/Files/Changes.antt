-- ===== src/Ha/Files/Changes.antt =====
-- What the work on the program's files adds to a history: queries and changes of the files.
use apple_pod_control.Prelude.{Bool, true, false, List, [], ◌∷◌}
use apple_pod_control.Text.{Text}
use apple_pod_control.Host.{
  Host, Error, Event, LocalChange, Presence, present, absent, unknown, TokenFile, no_token,
  unreadable_token, untrusted_token, valid_token, stored, token_read, path_checked, Context,
}
use apple_pod_control.Host.Action.{Res, ok, err}
use apple_pod_control.Host.Emits.{Emits, Emits-if, Emits-bind}
use apple_pod_control.Host.Mutations.{IsQuery}
use apple_pod_control.Ha.Types.{HaConfig}
use apple_pod_control.Ha.Queries.{query_rules}
use apple_pod_control.Ha.Files.{
  change, refuse_presence, check_ha_legacy_collision, ensure_from, ensure_ha_token, save_ha_config,
  check_stored, remove_files, remove_exact_files, read_kubeconfig, clear_current_cluster,
  remove_empty_cluster_directory,
}

refuse_presence-IsQuery : (p : Presence) → Emits IsQuery (refuse_presence p)
unfolding refuse_presence
refuse_presence-IsQuery present = search query_rules
refuse_presence-IsQuery absent = search query_rules
refuse_presence-IsQuery unknown = search query_rules

pub check_ha_legacy_collision-IsQuery :
    (host : Host) (name : Text) → Emits IsQuery (check_ha_legacy_collision host name)
unfolding check_ha_legacy_collision
check_ha_legacy_collision-IsQuery host name = search (query_rules, refuse_presence-IsQuery) depth 10

pub check_stored-IsQuery :
    (config : HaConfig) (r : Res HaConfig) → Emits IsQuery (check_stored config r)
unfolding check_stored
check_stored-IsQuery config (ok found) = search query_rules
check_stored-IsQuery config (err e) = search query_rules

pub read_kubeconfig-IsQuery :
    (host : Host) (ctx : Context) (container endpoint : Text)
    → Emits IsQuery (read_kubeconfig host ctx container endpoint)
unfolding read_kubeconfig
read_kubeconfig-IsQuery host ctx container endpoint = search query_rules depth 10

-- For any property of the changes and of the two queries that go with them.
module _ {P : Event → Type 0} (stores : (c : LocalChange) → P (stored c))
    (token : (path : Text) → P (token_read path)) (path : (path : Text) → P (path_checked path))
    (host : Host) where
  pub change-any : (c : LocalChange) (e : Error) → Emits P (change host c e)
  unfolding change
  change-any c e = search (query_rules, stores)

  ensure_from-any :
      (path : Text) (create : Bool) (t : TokenFile) → Emits P (ensure_from host path create t)
  unfolding ensure_from
  ensure_from-any path create valid_token = search query_rules
  ensure_from-any path create untrusted_token = search query_rules
  ensure_from-any path create unreadable_token = search query_rules
  ensure_from-any path true no_token = change-any _ _
  ensure_from-any path false no_token = search query_rules

  pub ensure_ha_token-any :
      (path : Text) (create : Bool) → Emits P (ensure_ha_token host path create)
  unfolding ensure_ha_token
  ensure_ha_token-any path create = search (query_rules, ensure_from-any, token)

  pub save_ha_config-any : (config : HaConfig) → Emits P (save_ha_config host config)
  unfolding save_ha_config
  save_ha_config-any config = search (query_rules, change-any)

  remove_files-any : (seen paths : List Text) → Emits P (remove_files host seen paths)
  unfolding remove_files
  remove_files-any seen [] = search query_rules
  remove_files-any seen (p ∷ rest) =
      let skipped = remove_files-any seen rest in
      let removed = remove_files-any (host.path_clean p ∷ seen) rest in
      Emits-if _ _ _ skipped (Emits-bind _ _ (change-any _ _) (λ u. removed))

  pub remove_exact_files-any : (paths : List Text) → Emits P (remove_exact_files host paths)
  unfolding remove_exact_files
  remove_exact_files-any paths = remove_files-any [] paths

  pub clear_current_cluster-any : (name : Text) → Emits P (clear_current_cluster host name)
  unfolding clear_current_cluster
  clear_current_cluster-any name = search (query_rules, change-any, path) depth 9

  pub remove_empty_cluster_directory-any :
      (name : Text) → Emits P (remove_empty_cluster_directory host name)
  unfolding remove_empty_cluster_directory
  remove_empty_cluster_directory-any name = search (query_rules, change-any)
