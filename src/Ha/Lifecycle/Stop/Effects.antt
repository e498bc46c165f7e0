-- ===== src/Ha/Lifecycle/Stop/Effects.antt =====
-- What a stop and a deletion that succeed have done to the runtime.
use apple_pod_control.Prelude.{
  ◌≡◌, refl, ap, ◌∙◌, Bool, true, false, Option, none, some, List, [], ◌∷◌, ◌++◌, inl, inr,
  Bool-cases, if◌then◌else◌,
}
use apple_pod_control.Text.{Text}
use apple_pod_control.Host.{
  Host, Context, Command, History, stop, delete, volume_delete, network_delete,
}
use apple_pod_control.Host.Action.{ok, pure, ◌>>◌, >>=-eq-ok}
use apple_pod_control.Host.Emits.{Emits, Emits-Emitted}
use apple_pod_control.Host.Mutations.{IsQuiet, mutations, mutations-quiet, Emits-IsQuiet}
use apple_pod_control.Ha.Types.{HaMember, HaConfig, HaContainerInspect}
use apple_pod_control.Ha.Names.{ha_container_name, ha_volume_name}
use apple_pod_control.Ha.Config.Normalize.{load_ha_config}
use apple_pod_control.Ha.Inspect.{is_stopped}
use apple_pod_control.Ha.Preflight.{HaPreflight, get_id, preflight_ha}
use apple_pod_control.Ha.Preflight.Queries.{preflight_ha-IsQuery}
use apple_pod_control.Ha.Queries.{query_rules, load_ha_config-IsQuery}
use apple_pod_control.Ha.DesiredState.{mark_ha_cluster_stopped_locked}
use apple_pod_control.Ha.DesiredState.Queries.{mark_ha_cluster_stopped_locked-any}
use apple_pod_control.Ha.Files.Changes.{
  remove_exact_files-any, clear_current_cluster-any, remove_empty_cluster_directory-any,
}
use apple_pod_control.Ha.Lifecycle.Adds.{Adds, Adds-quiet, Adds-pure, Adds-then, Adds-run}
use apple_pod_control.Ha.Lifecycle.Stop.{
  stop_found, stop_members, stop_loaded, stop_ha_locked, delete_found, delete_members,
  delete_volume, delete_volumes, delete_network, delete_files, delete_data, delete_loaded,
  delete_ha_locked,
}

abbrev pub stop_commands : HaConfig → HaMember → Option HaContainerInspect → List Command
stop_commands config member none = []
stop_commands config member (some r) =
    if is_stopped r.state then [] else stop (ha_container_name config.name member.id) ∷ []

abbrev pub delete_commands : HaConfig → HaMember → Option HaContainerInspect → List Command
delete_commands config member none = []
delete_commands config member (some r) =
    delete (ha_container_name config.name member.id) ∷ stop_commands config member (some r)

abbrev pub volume_commands : HaConfig → HaMember → Option (Unit {0}) → List Command
volume_commands config member none = []
volume_commands config member (some found) =
    volume_delete (ha_volume_name config.name member.id) ∷ []

-- The commands for all members, the first member's last.
abbrev pub for_members : (HaMember → List Command) → List HaMember → List Command
for_members f [] = []
for_members f (member ∷ rest) = f member ++ for_members f rest

abbrev pub stops : HaConfig → HaPreflight → List Command
stops config p =
    for_members (λ m. stop_commands config m (get_id p.container_record m.id)) config.members

abbrev pub envelope_deletions : HaConfig → HaPreflight → List Command
envelope_deletions config p =
    for_members (λ m. delete_commands config m (get_id p.container_record m.id)) config.members

abbrev pub data_deletions : HaConfig → HaPreflight → List Command
data_deletions config p =
    (if p.network_exists then network_delete config.network_name ∷ [] else [])
    ++ for_members (λ m. volume_commands config m (get_id p.volume_exists m.id)) config.members

-- What deleteHALocked deletes.
abbrev pub all_deletions : Bool → HaConfig → HaPreflight → List Command
all_deletions keep_data config p =
    (if keep_data then [] else data_deletions config p) ++ envelope_deletions config p

stop_found-Adds :
    (host : Host) (ctx : Context) (config : HaConfig) (member : HaMember)
    (found : Option HaContainerInspect)
    → Adds (stop_found host ctx config member found) (stop_commands config member found)
unfolding stop_found
stop_found-Adds host ctx config member none = Adds-pure
stop_found-Adds host ctx config member (some r) = elim (Bool-cases (is_stopped r.state)) [
  | inl down ↦ rw down Adds-pure
  | inr up ↦ rw up (Adds-run host ctx _ _ refl)
]

delete_found-Adds :
    (host : Host) (ctx : Context) (config : HaConfig) (member : HaMember)
    (found : Option HaContainerInspect)
    → Adds (delete_found host ctx config member found) (delete_commands config member found)
unfolding delete_found
delete_found-Adds host ctx config member none = Adds-pure
delete_found-Adds host ctx config member (some r) = elim (Bool-cases (is_stopped r.state)) [
  | inl down ↦ rw down (Adds-then _ _ _ _ Adds-pure (Adds-run host ctx _ _ refl))
  | inr up ↦ rw up (Adds-then _ _ _ _ (Adds-run host ctx _ _ refl) (Adds-run host ctx _ _ refl))
]

delete_volume-Adds :
    (host : Host) (ctx : Context) (config : HaConfig) (member : HaMember)
    (found : Option (Unit {0}))
    → Adds (delete_volume host ctx config member found) (volume_commands config member found)
unfolding delete_volume
delete_volume-Adds host ctx config member none = Adds-pure
delete_volume-Adds host ctx config member (some u) = Adds-run host ctx _ _ refl

delete_network-Adds :
    (host : Host) (ctx : Context) (config : HaConfig) (p : HaPreflight)
    → Adds
        (delete_network host ctx config p)
        (if p.network_exists then network_delete config.network_name ∷ [] else [])
unfolding delete_network
delete_network-Adds host ctx config p = elim (Bool-cases p.network_exists) [
  | inl there ↦ rw there (Adds-run host ctx _ _ refl)
  | inr missing ↦ rw missing Adds-pure
]

-- The loops, from the last member to the first.
module _ (host : Host) (ctx : Context) (config : HaConfig) (p : HaPreflight) where
  stop_members-Adds :
      (members : List HaMember)
      → Adds
          (stop_members host ctx config p members)
          (for_members (λ m. stop_commands config m (get_id p.container_record m.id)) members)
  unfolding stop_members
  stop_members-Adds [] = Adds-pure
  stop_members-Adds (m ∷ rest) =
      Adds-then _ _ _ _ (stop_members-Adds rest) (stop_found-Adds host ctx config m _)

  delete_members-Adds :
      (members : List HaMember)
      → Adds
          (delete_members host ctx config p members)
          (for_members (λ m. delete_commands config m (get_id p.container_record m.id)) members)
  unfolding delete_members
  delete_members-Adds [] = Adds-pure
  delete_members-Adds (m ∷ rest) =
      Adds-then _ _ _ _ (delete_members-Adds rest) (delete_found-Adds host ctx config m _)

  delete_volumes-Adds :
      (members : List HaMember)
      → Adds
          (delete_volumes host ctx config p members)
          (for_members (λ m. volume_commands config m (get_id p.volume_exists m.id)) members)
  unfolding delete_volumes
  delete_volumes-Adds [] = Adds-pure
  delete_volumes-Adds (m ∷ rest) =
      Adds-then _ _ _ _ (delete_volumes-Adds rest) (delete_volume-Adds host ctx config m _)

  delete_files-IsQuiet : Emits IsQuiet (delete_files host config)
  unfolding delete_files
  delete_files-IsQuiet =
      let files = remove_exact_files-any {P = IsQuiet} (λ c. tt) (λ t. tt) (λ t. tt) host in
      let current = clear_current_cluster-any {P = IsQuiet} (λ c. tt) (λ t. tt) (λ t. tt) host in
      let directory =
        remove_empty_cluster_directory-any {P = IsQuiet} (λ c. tt) (λ t. tt) (λ t. tt) host in
      search (query_rules, files, current, directory) depth 12

  delete_data-Adds : Adds (delete_data host ctx config p) (data_deletions config p)
  unfolding delete_data
  delete_data-Adds = Adds-then _ _ _ _ (delete_volumes-Adds config.members) (
      Adds-then _ _ _ [] (delete_network-Adds host ctx config p)
        (Adds-quiet _ delete_files-IsQuiet))

  delete_all-Adds :
      (keep_data : Bool)
      → Adds
          (delete_members host ctx config p config.members
            >> (if keep_data then pure tt else delete_data host ctx config p))
          (all_deletions keep_data config p)
  delete_all-Adds true = Adds-then _ _ _ [] (delete_members-Adds config.members) Adds-pure
  delete_all-Adds false = Adds-then _ _ _ _ (delete_members-Adds config.members) delete_data-Adds

-- What the runtime had when the operation looked, and the commands that it then issued, newest first.
pub record Effects (host : Host) (name : Text) (commands : HaConfig → HaPreflight → List Command)
    (h h' : History) : Type 0 where
  pub config : HaConfig
  pub loaded : History
  pub ctx : Context
  pub marked : History
  pub preflight : HaPreflight
  pub looked : History
  pub loads : load_ha_config host name h ≡ (ok config, loaded)
  pub looks : preflight_ha host ctx config true marked ≡ (ok preflight, looked)
  pub issued : mutations h' ≡ commands config preflight ++ mutations h

marked_quietly :
    (host : Host) (name : Text) (b : Bool)
    → Emits IsQuiet (if b then mark_ha_cluster_stopped_locked host name else pure tt)
marked_quietly host name true = mark_ha_cluster_stopped_locked-any tt (λ n. tt) (λ s. tt) host name
marked_quietly host name false = search query_rules

-- A stop of a whole cluster that succeeds has stopped exactly the servers that were there and not
-- stopped, from the last member to the first, and has issued no other mutating command.
pub stop_ha_locked-Effects :
    (host : Host) (ctx : Context) (name : Text) (h h' : History)
    → stop_ha_locked host ctx name h ≡ (ok tt, h')
    → Effects host name stops h h'
unfolding stop_ha_locked stop_loaded
stop_ha_locked-Effects host ctx name h h' e =
    let (config, g1, e1, r1) = >>=-eq-ok _ _ h h' tt e in
    let (u, g2, e2, r2) = >>=-eq-ok _ _ g1 h' tt r1 in
    let (p, g3, e3, r3) = >>=-eq-ok _ _ g2 h' tt r2 in
    let quiet : mutations g3 ≡ mutations h =
      mutations-quiet
        (Emits-Emitted (Emits-IsQuiet _ (preflight_ha-IsQuery host ctx config true)) e3)
      ∙ (mutations-quiet (Emits-Emitted (marked_quietly host config.name true) e2)
          ∙ mutations-quiet
              (Emits-Emitted (Emits-IsQuiet _ (load_ha_config-IsQuery host name)) e1)) in
    record {
      config = config;
      loaded = g1;
      ctx = ctx;
      marked = g2;
      preflight = p;
      looked = g3;
      loads = e1;
      looks = e3;
      issued =
          (stop_members-Adds host ctx config p config.members).adds g3 h' r3
          ∙ ap (λ l. stops config p ++ l) quiet;
    }

-- A deletion that succeeds has deleted, from the last member to the first, exactly the servers that were
-- there, each stopped before if it was not stopped; then, unless the data is kept, exactly the volumes
-- and the network that were there; and it has issued no other mutating command.
pub delete_ha_locked-Effects :
    (host : Host) (ctx : Context) (name : Text) (keep_data : Bool) (h h' : History)
    → delete_ha_locked host ctx name keep_data h ≡ (ok tt, h')
    → Effects host name (all_deletions keep_data) h h'
unfolding delete_ha_locked delete_loaded
delete_ha_locked-Effects host ctx name keep_data h h' e =
    let (config, g1, e1, r1) = >>=-eq-ok _ _ h h' tt e in
    let (u, g2, e2, r2) = >>=-eq-ok _ _ g1 h' tt r1 in
    let (p, g3, e3, r3) = >>=-eq-ok _ _ g2 h' tt r2 in
    let quiet : mutations g3 ≡ mutations h =
      mutations-quiet
        (Emits-Emitted (Emits-IsQuiet _ (preflight_ha-IsQuery host ctx config true)) e3)
      ∙ (mutations-quiet (Emits-Emitted (marked_quietly host config.name keep_data) e2)
          ∙ mutations-quiet
              (Emits-Emitted (Emits-IsQuiet _ (load_ha_config-IsQuery host name)) e1)) in
    record {
      config = config;
      loaded = g1;
      ctx = ctx;
      marked = g2;
      preflight = p;
      looked = g3;
      loads = e1;
      looks = e3;
      issued =
          (delete_all-Adds host ctx config p keep_data).adds g3 h' r3
          ∙ ap (λ l. all_deletions keep_data config p ++ l) quiet;
    }
