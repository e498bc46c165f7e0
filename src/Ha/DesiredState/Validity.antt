-- ===== src/Ha/DesiredState/Validity.antt =====
-- Which desired states are accepted.
use apple_pod_control.Prelude.{
  ℕ, ◌+◌, ◌≤◌, ◌<◌, ◌≡◌, ◌↔◌, refl, true, List, [], ◌∷◌, arith, length, All, ◌⊎◌,
}
use apple_pod_control.Text.{Text, text, text_eq_iff}
use apple_pod_control.Host.Action.{ok}
use apple_pod_control.Ha.Types.{HaDesiredState}
use apple_pod_control.Ha.Names.{ha_member_count}
use apple_pod_control.Ha.DesiredState.{
  running, stopped, api_version_text, kind_text, sorted_ids, validate_ha_desired_state,
}

abbrev pub InRange : ℕ → Type 0
InRange id = (1 ≤ id) × (id ≤ 3)

-- A desired state of the named cluster, as it may be stored at the time `at`.
pub record WellFormed (at : ℕ) (state : HaDesiredState) (name : Text) : Type 0 where
  pub version_known : state.api_version ≡ text "apc.dev/v1alpha1"
  pub kind_known : state.kind ≡ text "HADesiredState"
  pub of_cluster : state.cluster ≡ name
  pub state_known : (state.cluster_state ≡ running) ⊎ (state.cluster_state ≡ stopped)
  pub one_at_most : length state.stopped_members ≤ 1
  pub in_range : All InRange state.stopped_members
  pub has_time : 0 < state.updated_at
  pub not_ahead : state.updated_at ≤ at + 300_000_000_000

stopped_range : (ids : List ℕ) → length ids ≤ 1 → (sorted_ids 0 ids ≡ true) ↔ All InRange ids
unfolding sorted_ids ha_member_count
stopped_range [] l = (λ _. tt, λ _. refl)
stopped_range (id ∷ []) l =
    (λ h. ((ground (arith, h), ground (arith, h)), tt), λ (r, _). ground (arith, r))
stopped_range (id ∷ jd ∷ rest) l = absurd (omega (arith, l))

-- validateHADesiredState accepts exactly the well-formed states: the identity of the cluster, one of
-- the two cluster states, at most one stopped member, an ID from 1 to 3, and an update time that is
-- set and at most five minutes ahead.
pub validate_ha_desired_state_iff :
    (at : ℕ) (state : HaDesiredState) (name : Text)
    → (validate_ha_desired_state at state name ≡ ok tt) ↔ WellFormed at state name
unfolding validate_ha_desired_state
validate_ha_desired_state_iff at state name =
    let range = stopped_range state.stopped_members in
    (
      λ h. record {
        version_known = ground (arith, h, text_eq_iff state.api_version api_version_text);
        kind_known = ground (arith, h, text_eq_iff state.kind kind_text);
        of_cluster = ground (arith, h, text_eq_iff state.cluster name);
        state_known = ground (
          arith,
          h,
          text_eq_iff state.cluster_state running,
          text_eq_iff state.cluster_state stopped,
        );
        one_at_most = ground (arith, h);
        in_range = (range (ground (arith, h))).0 (ground (arith, h));
        has_time = ground (arith, h);
        not_ahead = ground (arith, h);
      },
      λ w. ground (
        arith,
        w.version_known,
        w.kind_known,
        w.of_cluster,
        w.state_known,
        w.one_at_most,
        (range w.one_at_most).1 w.in_range,
        w.has_time,
        w.not_ahead,
        text_eq_iff state.api_version api_version_text,
        text_eq_iff state.kind kind_text,
        text_eq_iff state.cluster name,
        text_eq_iff state.cluster_state running,
        text_eq_iff state.cluster_state stopped,
      ),
    )
