-- ===== src/Ha/Queries.antt =====
-- The inspections only look: they add no mutating command to the history, whatever they return.
use apple_pod_control.Prelude.{
  ℕ, zero, suc, ◌≡◌, refl, Bool, true, false, Option, none, some, List, [], ◌∷◌, inl, inr,
  Bool-cases, if◌then◌else◌, ◌==◌, String,
}
use apple_pod_control.Text.{Text}
use apple_pod_control.Host.{Host, Context}
use apple_pod_control.Host.Action.{Res, ok, err, Action, with_timeout, now, wait}
use apple_pod_control.Host.Emits.{
  Emitted, here, and_then, Emits, Emits-pure, Emits-raise, Emits-lift, Emits-attempt, Emits-wrapped,
  Emits-ask, Emits-if, Emits-raise_if, Emits-bind, Emits-run_command, Emits-context_err,
}
use apple_pod_control.Host.Mutations.{IsQuery}
use apple_pod_control.Ha.Types.{HaMember, HaConfig}
use apple_pod_control.Ha.Config.Normalize.{load_ha_config}
use apple_pod_control.Ha.Inspect.Query.{
  inspect_ha_container, inspect_ha_volume, inspect_ha_network, read_ha_member_node,
}
use apple_pod_control.Ha.Preflight.{if_found, optional}

pub ruleset query_rules = (
  Emits-pure, Emits-raise, Emits-lift, Emits-attempt, Emits-wrapped, Emits-ask, Emits-if,
  Emits-raise_if, Emits-bind, Emits-run_command, Emits-context_err, refl, tt,
)

pub now-IsQuery : (host : Host) → Emits IsQuery (now host)
unfolding now
now-IsQuery host = record { at = λ h. and_then here tt }

pub with_timeout-IsQuery :
    (host : Host) (ctx : Context) (t : ℕ) → Emits IsQuery (with_timeout host ctx t)
unfolding with_timeout
with_timeout-IsQuery host ctx t = search (query_rules, now-IsQuery)

pub wait-IsQuery : Emits IsQuery wait
unfolding wait
wait-IsQuery = record { at = λ h. and_then here tt }

pub inspect_ha_container-IsQuery :
    (host : Host) (ctx : Context) (name : Text) → Emits IsQuery (inspect_ha_container host ctx name)
unfolding inspect_ha_container
inspect_ha_container-IsQuery host ctx name = search query_rules

pub inspect_ha_volume-IsQuery :
    (host : Host) (ctx : Context) (name : Text) → Emits IsQuery (inspect_ha_volume host ctx name)
unfolding inspect_ha_volume
inspect_ha_volume-IsQuery host ctx name = search query_rules

pub inspect_ha_network-IsQuery :
    (host : Host) (ctx : Context) (name : Text) → Emits IsQuery (inspect_ha_network host ctx name)
unfolding inspect_ha_network
inspect_ha_network-IsQuery host ctx name = search query_rules

pub read_ha_member_node-IsQuery :
    (host : Host) (ctx : Context) (config : HaConfig) (member : HaMember)
    → Emits IsQuery (read_ha_member_node host ctx config member)
unfolding read_ha_member_node
read_ha_member_node-IsQuery host ctx config member = search query_rules

pub load_ha_config-IsQuery : (host : Host) (name : Text) → Emits IsQuery (load_ha_config host name)
unfolding load_ha_config
load_ha_config-IsQuery host name = search query_rules

if_found-IsQuery : {A : Type 0} (r : Res A) → Emits IsQuery (if_found r)
unfolding if_found
if_found-IsQuery (ok a) = Emits-pure _
if_found-IsQuery (err e) = search query_rules

pub optional-IsQuery : {A : Type 0} (m : Action A) → Emits IsQuery m → Emits IsQuery (optional m)
unfolding optional
optional-IsQuery m q = search (query_rules, if_found-IsQuery)
