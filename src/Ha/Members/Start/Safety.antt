-- ===== src/Ha/Members/Start/Safety.antt =====
-- When starting a member changes the runtime.
use mathlib.Core.Path.{subst}
use apple_pod_control.Prelude.{
  ◌≡◌, refl, sym, ap, ◌∙◌, true, false, Bool-cases, inl, inr, ◌⊎◌, arith, if◌then◌else◌,
}
use apple_pod_control.Host.{Host, Context, History}
use apple_pod_control.Host.Action.{Res, ok, Action, pure, raise_if, ◌>>=◌, >>=-cases}
use apple_pod_control.Host.Emits.{Emitted, Emits-Emitted, Emitted-trans}
use apple_pod_control.Host.Mutations.{IsQuery, mutations, mutations-Emitted}
use apple_pod_control.Ha.Types.{HaMember, HaConfig, HaState}
use apple_pod_control.Ha.Preflight.{HaPreflight}
use apple_pod_control.Ha.Status.{status_ha, all_ha_members_ready, other_ha_members_ready}
use apple_pod_control.Ha.Status.Queries.{status_ha-IsQuery}
use apple_pod_control.Ha.Members.{preflight_ha_member_topology}
use apple_pod_control.Ha.Members.Queries.{preflight_ha_member_topology-IsQuery}
use apple_pod_control.Ha.Members.Start.{
  StartCall, start_unready, start_step, unreached, start_ha_member_locked,
}

-- One status query, after queries only, in which some pair is not Ready and the other two pairs of
-- the cluster are.
pub record OthersReady (host : Host) (ctx : Context) (config : HaConfig) (member : HaMember)
    (h : History) : Type 0 where
  pub before_status : History
  pub began : Emitted IsQuery h before_status
  pub after_status : History
  pub state : HaState
  pub status : status_ha host ctx config.name before_status ≡ (ok state, after_status)
  pub unready : all_ha_members_ready state ≡ false
  pub others : other_ha_members_ready state member.id ≡ true

start_unready-refuses :
    (host : Host) (s : StartCall) (ctx : Context) (config : HaConfig) (member : HaMember)
    (p : HaPreflight) (state : HaState) (h : History)
    → other_ha_members_ready state member.id ≡ false
    → (start_unready host s ctx config member p state h).1 ≡ h
unfolding start_unready ◌>>=◌ raise_if
start_unready-refuses host s ctx config member p state h f = ground (arith, f)

module _ (host : Host) (ctx : Context) (config : HaConfig) (member : HaMember) where
  abbrev Effect : History → Res HaState × History → Type 0
  Effect h (r, h') = (mutations h' ≡ mutations h) ⊎ OthersReady host ctx config member h

  Effect-same :
      (h g : History) (p q : Res HaState × History)
      → p ≡ q
      → Emitted IsQuery h g
      → q.1 ≡ g
      → Effect h p
  Effect-same h g p q e looked same = inl (
      ap (λ (x : Res HaState × History). mutations x.1) e
      ∙ (ap mutations same ∙ mutations-Emitted looked))

  -- startHAMemberLocked after its status query, and after its preflight.
  abbrev decide : StartCall → HaPreflight → HaState → Action HaState
  decide s p state =
      if all_ha_members_ready state
      then pure state
      else start_unready host s ctx config member p state

  abbrev after_preflight : StartCall → HaPreflight → Action HaState
  after_preflight s p = status_ha host ctx config.name >>= decide s p

  after_status-Effect :
      (s : StartCall) (p : HaPreflight) (state : HaState) (h before after : History)
      → Emitted IsQuery h before
      → status_ha host ctx config.name before ≡ (ok state, after)
      → Effect h (decide s p state after)
  unfolding pure
  after_status-Effect s p state h before after looked status =
      let all_looked =
        Emitted-trans looked (Emits-Emitted (status_ha-IsQuery host ctx config.name) status) in
      elim (Bool-cases (all_ha_members_ready state)) [
        | inl ready ↦
            Effect-same h after (decide s p state after) (ok state, after) (rw ready refl)
              all_looked refl
        | inr unready ↦ elim (Bool-cases (other_ha_members_ready state member.id)) [
          | inl others ↦ inr (record {
            before_status = before;
            began = looked;
            after_status = after;
            state = state;
            status = status;
            unready = unready;
            others = others;
          })
          | inr few ↦
              Effect-same h after (decide s p state after)
                (start_unready host s ctx config member p state after) (rw unready refl) all_looked
                (start_unready-refuses host s ctx config member p state after few)
        ]
      ]

  start_step-Effect :
      (s : StartCall) (h : History) → Effect h (start_step host s ctx config member h)
  unfolding start_step
  start_step-Effect s h =
      let surveyed = preflight_ha_member_topology-IsQuery host ctx config member.id true in
      elim (>>=-cases (preflight_ha_member_topology host ctx config member.id true)
        (after_preflight s) h) [
          | inl (e, g, run, ends) ↦ Effect-same h g _ _ ends (Emits-Emitted surveyed run) refl
          | inr (p, g, run, goes) ↦
              subst (Effect h) (sym goes)
                (elim (>>=-cases (status_ha host ctx config.name) (decide s p) g) [
                  | inl (e, k, asked, ends) ↦
                      Effect-same h k _ _ ends
                        (Emitted-trans (Emits-Emitted surveyed run)
                          (Emits-Emitted (status_ha-IsQuery host ctx config.name) asked))
                        refl
                  | inr (state, k, asked, goes_on) ↦
                      subst (Effect h) (sym goes_on)
                        (after_status-Effect s p state h g k (Emits-Emitted surveyed run) asked)
                ])
        ]

-- startHAMemberLocked leaves the runtime as it was unless, after queries only, a status had shown
-- that some node/API pair is not Ready and that the other two members' pairs are.
pub start_ha_member_locked-OthersReady :
    (host : Host) (ctx : Context) (config : HaConfig) (member : HaMember) (h : History)
    → (mutations (start_ha_member_locked host ctx config member h).1 ≡ mutations h)
      ⊎ OthersReady host ctx config member h
unfolding start_ha_member_locked
start_ha_member_locked-OthersReady host ctx config member h =
    start_step-Effect host ctx config member unreached h
