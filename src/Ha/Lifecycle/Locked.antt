-- ===== src/Ha/Lifecycle/Locked.antt =====
-- The operations on a whole cluster change something only while they hold the operation lock.
use apple_pod_control.Prelude.{ℕ, zero, suc, ◌≡◌, Bool, true, List, [], ◌∷◌}
use apple_pod_control.Text.{Text}
use apple_pod_control.Host.{Host, Context, History}
use apple_pod_control.Host.Action.{Res, ok, err, Action, ◌>>=◌, with_timeout, >>=-eq-ok}
use apple_pod_control.Host.Emits.{
  Emits, Emits-bind, Emits-lift, Emits-if, Emits-wrapped, Emits-attempt, Emits-raise, Emits-pure,
}
use apple_pod_control.Host.Mutations.{IsQuery}
use apple_pod_control.Host.Own.{AnyRun, Emits-intent}
use apple_pod_control.Ha.Types.{HaMember, HaConfig}
use apple_pod_control.Ha.Queries.{
  query_rules, load_ha_config-IsQuery, with_timeout-IsQuery, wait-IsQuery,
  read_ha_member_node-IsQuery,
}
use apple_pod_control.Ha.Preflight.{HaPreflight}
use apple_pod_control.Ha.DesiredState.{mark_ha_cluster_running_locked}
use apple_pod_control.Ha.DesiredState.Queries.{mark_ha_cluster_running_locked-any}
use apple_pod_control.Ha.Infrastructure.{
  create_ha_owned_network, create_ha_owned_volume, rollback_volumes, rollback_network,
  rollback_ha_fresh_infrastructure,
}
use apple_pod_control.Ha.Members.Start.Own.{wait_ha_cluster_ready-IsQuery, reconcile_ha_member-own}
use apple_pod_control.Ha.Files.Changes.{
  change-any, ensure_ha_token-any, save_ha_config-any, read_kubeconfig-IsQuery,
}
use apple_pod_control.Ha.Lock.{acquire_ha_lifecycle_operation_lock, under_lock}
use apple_pod_control.Ha.Lock.Passive.{Passive, Emits-Passive, acquire-Passive}
use apple_pod_control.Ha.Lock.Guarded.{
  NoLock, Guarded, LockedRun, held, acquire-held, locked-LockedRun,
}
use apple_pod_control.Ha.Members.Operation.Locked.{Emits-unlocked, own_unlocked}
use apple_pod_control.Ha.Lifecycle.{
  wait_node, wait_ticks, wait_ha_member_ready, after_volume, create_volumes, reconcile_member,
  start_each, reconcile_all, wait_all, start_members, record_topology, create_infrastructure,
  publish, run_topology, create_checked, create_ha_locked, start_ha_locked, start_ha,
}
use apple_pod_control.Ha.Lifecycle.Recorded.{check_before_create-IsQuery}
use apple_pod_control.Ha.Lifecycle.Stop.{stop_ha, delete_ha}
use apple_pod_control.Ha.Lifecycle.Stop.Unlocked.{
  run_ha_bounded-NoLock, stop_ha_locked-NoLock, delete_ha_locked-NoLock,
}

module _ (host : Host) where
  timed : (ctx : Context) (t : ℕ) → Emits NoLock (with_timeout host ctx t)
  timed ctx t = Emits-unlocked _ (with_timeout-IsQuery host ctx t)

  marks_running : (name : Text) → Emits NoLock (mark_ha_cluster_running_locked host name)
  marks_running name = mark_ha_cluster_running_locked-any tt (λ n. tt) (λ s. tt) host name

  module _ (ctx : Context) (config : HaConfig) where
    rollback_volumes-NoLock : (ids : List ℕ) → Emits NoLock (rollback_volumes host ctx config ids)
    unfolding rollback_volumes
    rollback_volumes-NoLock [] = search query_rules
    rollback_volumes-NoLock (id ∷ rest) = Emits-bind _ _ (rollback_volumes-NoLock rest) (λ errors.
        Emits-bind _ _ (Emits-attempt _ (run_ha_bounded-NoLock host ctx _ _)) (λ r. Emits-pure _))

    rollback-NoLock :
        (ids : List ℕ) (network : Bool)
        → Emits NoLock (rollback_ha_fresh_infrastructure host ctx config ids network)
    unfolding rollback_ha_fresh_infrastructure rollback_network
    rollback-NoLock ids network =
        search (query_rules, rollback_volumes-NoLock, run_ha_bounded-NoLock) depth 10

    create_volume-NoLock :
        (member : HaMember) → Emits NoLock (create_ha_owned_volume host ctx config member)
    unfolding create_ha_owned_volume
    create_volume-NoLock member = search query_rules

    create_network-NoLock : Emits NoLock (create_ha_owned_network host ctx config)
    unfolding create_ha_owned_network
    create_network-NoLock = search query_rules

    after_volume-NoLock :
        (created : List ℕ) (network : Bool) (id : ℕ) (again : List ℕ → Action Unit)
        (r : Res (Unit {0}))
        → ((more : List ℕ) → Emits NoLock (again more))
        → Emits NoLock (after_volume host ctx config created network id again r)
    unfolding after_volume
    after_volume-NoLock created network id again (ok u) k = k _
    after_volume-NoLock created network id again (err e) k =
        Emits-bind _ _ (Emits-attempt _ (rollback-NoLock created network)) (λ r. Emits-raise _)

    create_volumes-NoLock :
        (p : HaPreflight) (network : Bool) (created : List ℕ) (members : List HaMember)
        → Emits NoLock (create_volumes host ctx config p network created members)
    unfolding create_volumes
    create_volumes-NoLock p network created [] = Emits-pure tt
    create_volumes-NoLock p network created (m ∷ rest) =
        Emits-if _ _ _ (create_volumes-NoLock p network created rest) (
          Emits-bind _ _ (Emits-attempt _ (create_volume-NoLock m)) (λ r.
            after_volume-NoLock created network m.id _ r
              (λ more. create_volumes-NoLock p network more rest)))

    create_infrastructure-NoLock :
        (p : HaPreflight) → Emits NoLock (create_infrastructure host ctx config p)
    unfolding create_infrastructure
    create_infrastructure-NoLock p =
        Emits-bind _ _ (Emits-if _ _ _ (Emits-pure tt) create_network-NoLock)
          (λ u. create_volumes-NoLock p _ [] config.members)

    wait_node-IsQuery :
        (ticks : ℕ) (member : HaMember) → Emits IsQuery (wait_node ticks host ctx config member)
    unfolding wait_node
    wait_node-IsQuery zero member = search (query_rules, read_ha_member_node-IsQuery)
    wait_node-IsQuery (suc ticks) member =
        Emits-bind _ _ (Emits-attempt _ (read_ha_member_node-IsQuery host ctx config member)) (λ r.
          Emits-if _ _ _ (Emits-pure tt)
            (Emits-bind _ _ wait-IsQuery (λ u. wait_node-IsQuery ticks member)))

    wait_ticks-NoLock : (member : HaMember) → Emits NoLock (wait_ticks host ctx config member)
    unfolding wait_ticks
    wait_ticks-NoLock member = record {
      at = λ h. (Emits-unlocked _ (wait_node-IsQuery (host.ticks ctx h) member)).at h;
    }

    reconcile_member-NoLock :
        (p : HaPreflight) (member : HaMember)
        → Emits NoLock (reconcile_member host ctx config p member)
    unfolding reconcile_member
    reconcile_member-NoLock p member =
        own_unlocked _
          (Emits-intent _ _ (reconcile_ha_member-own AnyRun host config member tt ctx _))

  module _ (config : HaConfig) where
    wait_member-NoLock :
        (ctx : Context) (member : HaMember) (t : ℕ)
        → Emits NoLock (wait_ha_member_ready host ctx config member t)
    unfolding wait_ha_member_ready
    wait_member-NoLock ctx member t =
        Emits-bind _ _ (timed ctx t) (λ wait_ctx. wait_ticks-NoLock wait_ctx config member)

    start_each-NoLock :
        (ctx : Context) (p : HaPreflight) (members : List HaMember)
        → Emits NoLock (start_each host ctx config p members)
    unfolding start_each
    start_each-NoLock ctx p [] = Emits-pure tt
    start_each-NoLock ctx p (m ∷ rest) =
        Emits-bind _ _ (reconcile_member-NoLock ctx config p m)
          (λ u. Emits-bind _ _ (wait_member-NoLock ctx m _) (λ v. start_each-NoLock ctx p rest))

    reconcile_all-NoLock :
        (ctx : Context) (p : HaPreflight) (members : List HaMember)
        → Emits NoLock (reconcile_all host ctx config p members)
    unfolding reconcile_all
    reconcile_all-NoLock ctx p [] = Emits-pure tt
    reconcile_all-NoLock ctx p (m ∷ rest) =
        Emits-bind _ _ (reconcile_member-NoLock ctx config p m)
          (λ u. reconcile_all-NoLock ctx p rest)

    wait_all-NoLock :
        (ctx : Context) (members : List HaMember) → Emits NoLock (wait_all host ctx config members)
    unfolding wait_all
    wait_all-NoLock ctx [] = Emits-pure tt
    wait_all-NoLock ctx (m ∷ rest) =
        Emits-bind _ _ (wait_member-NoLock ctx m _) (λ u. wait_all-NoLock ctx rest)

    start_members-NoLock :
        (ctx : Context) (p : HaPreflight) → Emits NoLock (start_members host ctx config p)
    unfolding start_members
    start_members-NoLock ctx p = Emits-if _ _ _ (start_each-NoLock ctx p config.members) (
        Emits-bind _ _ (reconcile_all-NoLock ctx p config.members)
          (λ u. wait_all-NoLock ctx config.members))

    publish-NoLock : (ctx : Context) → Emits NoLock (publish host ctx config)
    unfolding publish
    publish-NoLock ctx =
        let changes = change-any {P = NoLock} (λ c. tt) (λ t. tt) (λ t. tt) host in
        Emits-bind _ _ (Emits-unlocked _ (read_kubeconfig-IsQuery host ctx _ _))
          (λ k. Emits-bind _ _ (changes _ _) (λ u. changes _ _))

    pub run_topology-NoLock :
        (ctx : Context) (p : HaPreflight) → Emits NoLock (run_topology host ctx config p)
    unfolding run_topology
    run_topology-NoLock ctx p = Emits-bind _ _ (create_infrastructure-NoLock ctx config p) (λ u.
        Emits-bind _ _ (timed ctx _) (λ wait_ctx.
          Emits-bind _ _ (start_members-NoLock wait_ctx p) (λ v.
            Emits-bind _ _ (publish-NoLock ctx) (λ w.
              Emits-bind _ _ (Emits-unlocked _ (wait_ha_cluster_ready-IsQuery host wait_ctx config))
                (λ state. Emits-pure _)))))

    record_topology-NoLock : (p : HaPreflight) → Emits NoLock (record_topology host config p)
    unfolding record_topology
    record_topology-NoLock p =
        Emits-bind _ _ (ensure_ha_token-any {P = NoLock} (λ c. tt) (λ t. tt) (λ t. tt) host _ _)
          (λ u.
            Emits-bind _ _
              (save_ha_config-any {P = NoLock} (λ c. tt) (λ t. tt) (λ t. tt) host config)
              (λ v. Emits-wrapped _ _ (marks_running config.name)))

    create_ha_locked-NoLock : (ctx : Context) → Emits NoLock (create_ha_locked host ctx config)
    unfolding create_ha_locked create_checked
    create_ha_locked-NoLock ctx =
        Emits-bind _ _ (Emits-unlocked _ (check_before_create-IsQuery host ctx config))
          (λ p. Emits-bind _ _ (record_topology-NoLock p) (λ u. run_topology-NoLock ctx p))

  start_ha_locked-NoLock :
      (ctx : Context) (name : Text) (timeout : ℕ)
      → Emits NoLock (start_ha_locked host ctx name timeout)
  unfolding start_ha_locked
  start_ha_locked-NoLock ctx name timeout =
      Emits-bind _ _ (Emits-unlocked _ (load_ha_config-IsQuery host name)) (λ config.
        Emits-bind _ _ (marks_running config.name)
          (λ u. Emits-bind _ _ (Emits-lift _) (λ normal. create_ha_locked-NoLock normal ctx)))

  lifecycle_lock-Passive :
      (ctx : Context) (name : Text)
      → Emits Passive (acquire_ha_lifecycle_operation_lock host ctx name)
  unfolding acquire_ha_lifecycle_operation_lock
  lifecycle_lock-Passive ctx name =
      Emits-bind _ _ (Emits-Passive _ (with_timeout-IsQuery host ctx _))
        (λ lock_ctx. acquire-Passive host lock_ctx name)

  lifecycle_lock-held :
      (ctx : Context) (name : Text) (h g : History)
      → acquire_ha_lifecycle_operation_lock host ctx name h ≡ (ok tt, g)
      → held host name g ≡ true
  unfolding acquire_ha_lifecycle_operation_lock
  lifecycle_lock-held ctx name h g e =
      let (lock_ctx, k, e1, r1) = >>=-eq-ok _ _ h g tt e in acquire-held host name lock_ctx k g r1

  lifecycle-LockedRun :
      {A : Type 0} (ctx : Context) (name : Text) (operation : Action A) (h : History)
      → Emits NoLock operation
      → Guarded host name h
      → LockedRun host name h
          ((acquire_ha_lifecycle_operation_lock host ctx name >>= λ _.
              under_lock host name operation)
            h).1
  lifecycle-LockedRun ctx name operation h q g =
      locked-LockedRun host name (acquire_ha_lifecycle_operation_lock host ctx name) operation h
        (lifecycle_lock-Passive ctx name) (lifecycle_lock-held ctx name h) q g

-- StartHA, StopHA and DeleteHA, whatever they return: from a history in which everything but queries and
-- lock steps happened under the cluster's operation lock, each leads to such a history; and then either
-- the lock has been given back, or it was never taken and the operation has done nothing but query and
-- try to lock.
pub cluster_operations-LockedRun :
    (host : Host) (ctx : Context) (name : Text) (timeout : ℕ) (keep_data : Bool) (h : History)
    → Guarded host name h
    → LockedRun host name h (start_ha host ctx name timeout h).1
      × LockedRun host name h (stop_ha host ctx name h).1
      × LockedRun host name h (delete_ha host ctx name keep_data h).1
unfolding start_ha stop_ha delete_ha
cluster_operations-LockedRun host ctx name timeout keep_data h g = (
  lifecycle-LockedRun host ctx name _ h (start_ha_locked-NoLock host ctx name timeout) g,
  lifecycle-LockedRun host ctx name _ h (stop_ha_locked-NoLock host ctx name) g,
  lifecycle-LockedRun host ctx name _ h (delete_ha_locked-NoLock host ctx name keep_data) g,
)
