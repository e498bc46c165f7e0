-- ===== src/Ha/Lifecycle/Stop/Unlocked.antt =====
-- The stop and the deletion of a cluster do not touch the lock that they run under.
use apple_pod_control.Prelude.{ℕ, Bool, true, Option, none, some, List, [], ◌∷◌, String}
use apple_pod_control.Text.{Text}
use apple_pod_control.Host.{Host, Context, Command}
use apple_pod_control.Host.Action.{with_timeout}
use apple_pod_control.Host.Emits.{Emits, Emits-bind, Emits-if, Emits-pure}
use apple_pod_control.Ha.Types.{HaMember, HaConfig, HaContainerInspect}
use apple_pod_control.Ha.Queries.{query_rules, load_ha_config-IsQuery, with_timeout-IsQuery}
use apple_pod_control.Ha.Preflight.{HaPreflight}
use apple_pod_control.Ha.Preflight.Queries.{preflight_ha-IsQuery}
use apple_pod_control.Ha.DesiredState.{mark_ha_cluster_stopped_locked}
use apple_pod_control.Ha.DesiredState.Queries.{mark_ha_cluster_stopped_locked-any}
use apple_pod_control.Ha.Addresses.Envelope.{run_ha_bounded}
use apple_pod_control.Ha.Files.Changes.{
  remove_exact_files-any, clear_current_cluster-any, remove_empty_cluster_directory-any,
}
use apple_pod_control.Ha.Lock.Guarded.{NoLock}
use apple_pod_control.Ha.Members.Operation.Locked.{Emits-unlocked}
use apple_pod_control.Ha.Lifecycle.Stop.{
  stop_found, stop_members, stop_loaded, stop_ha_locked, delete_found, delete_members,
  delete_volume, delete_volumes, delete_network, delete_files, delete_data, delete_loaded,
  delete_ha_locked,
}

module _ (host : Host) where
  timed : (ctx : Context) (t : ℕ) → Emits NoLock (with_timeout host ctx t)
  timed ctx t = Emits-unlocked _ (with_timeout-IsQuery host ctx t)

  pub run_ha_bounded-NoLock :
      (ctx : Context) (operation : String) (c : Command)
      → Emits NoLock (run_ha_bounded host ctx operation c)
  unfolding run_ha_bounded
  run_ha_bounded-NoLock ctx operation c = search (query_rules, timed) depth 8

  marks_stopped : (name : Text) → Emits NoLock (mark_ha_cluster_stopped_locked host name)
  marks_stopped name = mark_ha_cluster_stopped_locked-any tt (λ n. tt) (λ s. tt) host name

  module _ (ctx : Context) (config : HaConfig) (p : HaPreflight) where
    bounded :
        (operation : String) (c : Command) → Emits NoLock (run_ha_bounded host ctx operation c)
    bounded operation c = run_ha_bounded-NoLock ctx operation c

    stop_found-NoLock :
        (m : HaMember) (found : Option HaContainerInspect)
        → Emits NoLock (stop_found host ctx config m found)
    unfolding stop_found
    stop_found-NoLock m none = Emits-pure tt
    stop_found-NoLock m (some r) = Emits-if _ _ _ (Emits-pure tt) (bounded _ _)

    delete_found-NoLock :
        (m : HaMember) (found : Option HaContainerInspect)
        → Emits NoLock (delete_found host ctx config m found)
    unfolding delete_found
    delete_found-NoLock m none = Emits-pure tt
    delete_found-NoLock m (some r) =
        Emits-bind _ _ (Emits-if _ _ _ (Emits-pure tt) (bounded _ _)) (λ u. bounded _ _)

    delete_volume-NoLock :
        (m : HaMember) (found : Option (Unit {0}))
        → Emits NoLock (delete_volume host ctx config m found)
    unfolding delete_volume
    delete_volume-NoLock m none = Emits-pure tt
    delete_volume-NoLock m (some u) = bounded _ _

    stop_members-NoLock : (ms : List HaMember) → Emits NoLock (stop_members host ctx config p ms)
    unfolding stop_members
    stop_members-NoLock [] = Emits-pure tt
    stop_members-NoLock (m ∷ rest) =
        Emits-bind _ _ (stop_members-NoLock rest) (λ u. stop_found-NoLock m _)

    delete_members-NoLock :
        (ms : List HaMember) → Emits NoLock (delete_members host ctx config p ms)
    unfolding delete_members
    delete_members-NoLock [] = Emits-pure tt
    delete_members-NoLock (m ∷ rest) =
        Emits-bind _ _ (delete_members-NoLock rest) (λ u. delete_found-NoLock m _)

    delete_volumes-NoLock :
        (ms : List HaMember) → Emits NoLock (delete_volumes host ctx config p ms)
    unfolding delete_volumes
    delete_volumes-NoLock [] = Emits-pure tt
    delete_volumes-NoLock (m ∷ rest) =
        Emits-bind _ _ (delete_volumes-NoLock rest) (λ u. delete_volume-NoLock m _)

    delete_files-NoLock : Emits NoLock (delete_files host config)
    unfolding delete_files
    delete_files-NoLock =
        let files = remove_exact_files-any {P = NoLock} (λ c. tt) (λ t. tt) (λ t. tt) host in
        let current = clear_current_cluster-any {P = NoLock} (λ c. tt) (λ t. tt) (λ t. tt) host in
        let directory =
          remove_empty_cluster_directory-any {P = NoLock} (λ c. tt) (λ t. tt) (λ t. tt) host in
        search (query_rules, files, current, directory) depth 12

    delete_data-NoLock : Emits NoLock (delete_data host ctx config p)
    unfolding delete_data delete_network
    delete_data-NoLock = Emits-bind _ _ (delete_volumes-NoLock config.members) (λ u.
        Emits-bind _ _ (Emits-if _ _ _ (bounded _ _) (Emits-pure tt)) (λ v. delete_files-NoLock))

  pub stop_ha_locked-NoLock :
      (ctx : Context) (name : Text) → Emits NoLock (stop_ha_locked host ctx name)
  unfolding stop_ha_locked stop_loaded
  stop_ha_locked-NoLock ctx name =
      Emits-bind _ _ (Emits-unlocked _ (load_ha_config-IsQuery host name)) (λ config.
        Emits-bind _ _ (marks_stopped config.name) (λ u.
          Emits-bind _ _ (Emits-unlocked _ (preflight_ha-IsQuery host ctx config true))
            (λ p. stop_members-NoLock ctx config p config.members)))

  pub delete_ha_locked-NoLock :
      (ctx : Context) (name : Text) (keep_data : Bool)
      → Emits NoLock (delete_ha_locked host ctx name keep_data)
  unfolding delete_ha_locked delete_loaded
  delete_ha_locked-NoLock ctx name keep_data =
      Emits-bind _ _ (Emits-unlocked _ (load_ha_config-IsQuery host name)) (λ config.
        Emits-bind _ _ (Emits-if _ _ _ (marks_stopped config.name) (Emits-pure tt)) (λ u.
          Emits-bind _ _ (Emits-unlocked _ (preflight_ha-IsQuery host ctx config true)) (λ p.
            Emits-bind _ _ (delete_members-NoLock ctx config p config.members)
              (λ v. Emits-if _ _ _ (Emits-pure tt) (delete_data-NoLock ctx config p)))))
