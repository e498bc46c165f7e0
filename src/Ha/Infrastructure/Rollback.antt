-- ===== src/Ha/Infrastructure/Rollback.antt =====
-- A rollback deletes what was created, and nothing else.
use apple_pod_control.Prelude.{
  ℕ, ◌≡◌, refl, ap, ◌∙◌, Bool, true, false, List, [], ◌∷◌, ◌++◌, if◌then◌else◌,
}
use apple_pod_control.Text.{Text}
use apple_pod_control.Host.{Host, Context, Command, History, volume_delete, network_delete}
use apple_pod_control.Host.Action.{Res, ok, Action, pure, lift, attempt, ◌>>=◌, >>=-of-ok}
use apple_pod_control.Host.Mutations.{mutations}
use apple_pod_control.Ha.Types.{HaConfig}
use apple_pod_control.Ha.Names.{ha_volume_name}
use apple_pod_control.Ha.Addresses.Envelope.{run_ha_bounded}
use apple_pod_control.Ha.Addresses.Envelope.Mutations.{run_ha_bounded-mutations}
use apple_pod_control.Ha.Infrastructure.{
  noted, rollback_volumes, rollback_network, rollback_ha_fresh_infrastructure,
}

-- The deletions of the volumes, the first one's last.
abbrev pub volume_deletions : Text → List ℕ → List Command
volume_deletions name [] = []
volume_deletions name (id ∷ rest) =
    volume_delete (ha_volume_name name id) ∷ volume_deletions name rest

-- An action that returns, with some new mutating commands.
record Does {A : Type 0} (m : Action A) (h : History) (commands : List Command) : Type 0 where
  result : A
  after : History
  returns : m h ≡ (ok result, after)
  does : mutations after ≡ commands ++ mutations h

rollback_volumes-Does :
    (host : Host) (ctx : Context) (config : HaConfig) (ids : List ℕ) (h : History)
    → Does (rollback_volumes host ctx config ids) h (volume_deletions config.name ids)
unfolding rollback_volumes pure attempt ◌>>=◌
rollback_volumes-Does host ctx config [] h = record {
  result = [];
  after = h;
  returns = refl;
  does = refl;
}
rollback_volumes-Does host ctx config (id ∷ rest) h =
    let d = rollback_volumes-Does host ctx config rest h in
    let command = volume_delete (ha_volume_name config.name id) in
    let (r, g) = run_ha_bounded host ctx "roll back HA data volume " command d.after in
    record {
      result = noted d.result r;
      after = g;
      returns = >>=-of-ok (rollback_volumes host ctx config rest) _ h d.after d.result d.returns;
      does =
          run_ha_bounded-mutations host ctx "roll back HA data volume " command d.after refl
          ∙ ap (λ l. command ∷ l) d.does;
    }

-- Whether its commands fail or not, rollbackHAFreshInfrastructure issues exactly these mutating
-- commands: a deletion of each given volume, from the last to the first, and then, if the network was
-- created, the deletion of the cluster's network.
pub rollback_ha_fresh_infrastructure-deletions :
    (host : Host) (ctx : Context) (config : HaConfig) (volume_ids : List ℕ) (network_created : Bool)
    (h : History)
    → mutations (rollback_ha_fresh_infrastructure host ctx config volume_ids network_created h).1
      ≡ (if network_created then network_delete config.network_name ∷ [] else [])
        ++ (volume_deletions config.name volume_ids ++ mutations h)
unfolding rollback_ha_fresh_infrastructure rollback_network lift pure attempt ◌>>=◌
rollback_ha_fresh_infrastructure-deletions host ctx config volume_ids true h =
    let d = rollback_volumes-Does host ctx config volume_ids h in
    let command = network_delete config.network_name in
    ap (λ (x : Res (Unit {0}) × History). mutations x.1)
      (>>=-of-ok (rollback_volumes host ctx config volume_ids) _ h d.after d.result d.returns)
    ∙ (run_ha_bounded-mutations host ctx "roll back HA network " command d.after refl
        ∙ ap (λ l. command ∷ l) d.does)
rollback_ha_fresh_infrastructure-deletions host ctx config volume_ids false h =
    let d = rollback_volumes-Does host ctx config volume_ids h in
    ap (λ (x : Res (Unit {0}) × History). mutations x.1)
      (>>=-of-ok (rollback_volumes host ctx config volume_ids) _ h d.after d.result d.returns)
    ∙ d.does
