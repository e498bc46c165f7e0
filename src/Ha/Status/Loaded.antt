-- ===== src/Ha/Status/Loaded.antt =====
-- The status of a loaded cluster and its quorum.
use apple_pod_control.Prelude.{ℕ, ◌≤◌, ◌≡◌, sym, ap, ◌∙◌, true, [], ◌∷◌, length, arith}
use apple_pod_control.Text.{Text}
use apple_pod_control.Host.{Host, Context, History}
use apple_pod_control.Host.Action.{ok}
use apple_pod_control.Ha.Types.{HaState}
use apple_pod_control.Ha.Config.Normalize.Order.{length-ids_of}
use apple_pod_control.Ha.Config.Normalize.Loaded.{load_ha_config-IsNormal}
use apple_pod_control.Ha.Status.{status_ha, all_ha_members_ready, other_ha_members_ready}
use apple_pod_control.Ha.Status.Counts.{status_ha-Reports}
use apple_pod_control.Ha.Status.Quorum.{
  occurrences, all_ha_members_ready-others, other_ha_members_ready-healthy,
}

occurs_once : (id : ℕ) → 1 ≤ id → id ≤ 3 → occurrences id (1 ∷ 2 ∷ 3 ∷ []) ≡ 1
occurs_once id low high = ground (arith, low, high)

-- In a successful StatusHA with all three pairs Ready, the other two pairs of each of the members 1, 2
-- and 3 are Ready. Wherever the other two pairs of some identifier are Ready, the cluster is Healthy.
pub status_ha-quorum :
    (host : Host) (ctx : Context) (name : Text) (state : HaState) (h h' : History)
    → status_ha host ctx name h ≡ (ok state, h')
    → (all_ha_members_ready state ≡ true
        → (id : ℕ) → 1 ≤ id
        → id ≤ 3
        → other_ha_members_ready state id ≡ true)
      × ((id : ℕ) → other_ha_members_ready state id ≡ true → state.healthy ≡ true)
status_ha-quorum host ctx name state h h' e =
    let (config, g, loaded, reports) = status_ha-Reports host ctx name state h h' e in
    let normal = load_ha_config-IsNormal host name config h g loaded in
    let ids = reports.lists_members ∙ normal.members_named in
    (
      λ ready id low high.
          all_ha_members_ready-others state id (ap (occurrences id) ids ∙ occurs_once id low high)
            ready,
      λ id others.
          other_ha_members_ready-healthy config state id
            (sym (length-ids_of config.members) ∙ ap length normal.members_named) reports others,
    )
