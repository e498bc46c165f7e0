-- ===== src/Ha/Members/Targets/Running.antt =====
-- What the image import targets are.
use apple_pod_control.Prelude.{
  ◌≡◌, refl, sym, ap, ◌∙◌, true, false, not, Option, none, some, List, [], ◌∷◌, All, arith,
}
use apple_pod_control.Text.{Text}
use apple_pod_control.Host.{Host, Context, History, is_not_exist_error}
use apple_pod_control.Host.Action.{
  Res, ok, err, Action, pure, raise, attempt, >>=-eq-ok, wrapped-eq-ok, lift-eq-ok, raise_if-eq-ok,
}
use apple_pod_control.Ha.Types.{HaMember, HaConfig, HaContainerInspect}
use apple_pod_control.Ha.Names.{ha_container_name}
use apple_pod_control.Ha.Config.{>>=ᵣ-eq-ok}
use apple_pod_control.Ha.Config.Normalize.{load_ha_config}
use apple_pod_control.Ha.Inspect.{is_running}
use apple_pod_control.Ha.Preflight.{IdMap, get_id, preflight_ha, HaPreflight}
use apple_pod_control.Ha.Members.Targets.{
  container_name, running_record, collect_targets, ha_targets, targets_of, image_import_targets,
}

abbrev pub server_names : Text → List HaMember → List Text
server_names name [] = []
server_names name (m ∷ rest) = ha_container_name name m.id ∷ server_names name rest

-- A member whose validated container is running.
abbrev pub IsUp : IdMap HaContainerInspect → HaMember → Type 0
IsUp records m =
    (r : HaContainerInspect) × (get_id records m.id ≡ some r) × (is_running r.state ≡ true)

running_record-ok :
    (o : Option HaContainerInspect) (u : Unit {0})
    → running_record o ≡ ok u
    → (r : HaContainerInspect) × (o ≡ some r) × (is_running r.state ≡ true)
unfolding running_record
running_record-ok none u h = ground (arith, h)
running_record-ok (some r) u h = (r, refl, ground (arith, h))

collect_targets-IsUp :
    (name : Text) (members : List HaMember) (records : IdMap HaContainerInspect)
    (targets : List Text)
    → collect_targets name members records ≡ ok targets
    → (targets ≡ server_names name members) × All (IsUp records) members
unfolding collect_targets
collect_targets-IsUp name [] records [] h = (refl, tt)
collect_targets-IsUp name [] records (t ∷ rest) h = ground (arith, h)
collect_targets-IsUp name (m ∷ members) records targets h =
    let (u, e1, r1) = >>=ᵣ-eq-ok (running_record (get_id records m.id)) _ targets h in
    let (others, e2, r2) = >>=ᵣ-eq-ok (collect_targets name members records) _ targets r1 in
    let (same, up) = collect_targets-IsUp name members records others e2 in
    let is_all : ha_container_name name m.id ∷ others ≡ targets = ground (arith, r2) in
    (
      sym is_all ∙ ap (λ l. ha_container_name name m.id ∷ l) same,
      (running_record-ok (get_id records m.id) u e1, up),
    )

-- All members of a loaded cluster, in order, after a preflight in which each was running.
pub record ServersUp (host : Host) (ctx : Context) (config : HaConfig) (g : History)
    (targets : List Text) : Type 0 where
  pub preflight : HaPreflight
  pub after_preflight : History
  pub validated : preflight_ha host ctx config false g ≡ (ok preflight, after_preflight)
  pub has_network : preflight.network_exists ≡ true
  pub names : targets ≡ server_names config.name config.members
  pub up : All (IsUp preflight.container_record) config.members

ha_targets-ServersUp :
    (host : Host) (ctx : Context) (config : HaConfig) (targets : List Text) (g h' : History)
    → ha_targets host ctx config g ≡ (ok targets, h')
    → ServersUp host ctx config g targets
unfolding ha_targets
ha_targets-ServersUp host ctx config targets g h' e =
    let (p, g1, e1, r1) = >>=-eq-ok _ _ g h' targets e in
    let (u1, g2, e2, r2) = >>=-eq-ok _ _ g1 h' targets r1 in
    let (u2, g3, e3, r3) = >>=-eq-ok _ _ g2 h' targets r2 in
    let (u3, g4, e4, r4) = >>=-eq-ok _ _ g3 h' targets r3 in
    let (network, _) = raise_if-eq-ok (not p.network_exists) _ g1 g2 e2 in
    let (names, up) =
      collect_targets-IsUp config.name config.members p.container_record targets
        (lift-eq-ok _ targets g4 h' r4) in
    record {
      preflight = p;
      after_preflight = g1;
      validated = wrapped-eq-ok _ (preflight_ha host ctx config false) p g g1 e1;
      has_network = ground (arith, network);
      names = names;
      up = up;
    }

-- Either there is no configuration, or there is one and all of its servers are up.
abbrev pub Targeted : Host → Context → Text → List Text → Res HaConfig → History → Type 0
Targeted host ctx name targets (err e) g =
    (is_not_exist_error e ≡ true) × (targets ≡ container_name name ∷ [])
Targeted host ctx name targets (ok config) g = ServersUp host ctx config g targets

targets_of-Targeted :
    (host : Host) (ctx : Context) (name : Text) (r : Res HaConfig) (targets : List Text)
    (g h' : History)
    → targets_of host ctx name r g ≡ (ok targets, h')
    → Targeted host ctx name targets r g
unfolding targets_of pure raise
targets_of-Targeted host ctx name (ok config) targets g h' e =
    ha_targets-ServersUp host ctx config targets g h' e
targets_of-Targeted host ctx name (err x) targets g h' e = (ground (arith, e), ground (arith, e))

attempt-result :
    (m : Action HaConfig) (r : Res HaConfig) (h g : History)
    → attempt m h ≡ (ok r, g)
    → m h ≡ (r, g)
unfolding attempt
attempt-result m r h g e = ground (arith, e)

-- If ImageImportTargets returns targets, then the load of the configuration has either failed for
-- want of the file, and the target is the container of the single-server cluster of that name, or it
-- has returned a configuration, and the targets are the containers of exactly its members, in order:
-- the preflight after it has found the cluster's network and validated, for each member, a running
-- container.
pub image_import_targets-Targeted :
    (host : Host) (ctx : Context) (name : Text) (targets : List Text) (h h' : History)
    → image_import_targets host ctx name h ≡ (ok targets, h')
    → (loaded : Res HaConfig) × (g : History) × (load_ha_config host name h ≡ (loaded, g))
      × Targeted host ctx name targets loaded g
unfolding image_import_targets
image_import_targets-Targeted host ctx name targets h h' e =
    let (loaded, g, e1, r1) = >>=-eq-ok _ _ h h' targets e in
    (
      loaded,
      g,
      attempt-result (load_ha_config host name) loaded h g e1,
      targets_of-Targeted host ctx name loaded targets g h' r1,
    )
