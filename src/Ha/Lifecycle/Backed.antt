-- ===== src/Ha/Lifecycle/Backed.antt =====
-- The creation of a cluster records what it is about to do before it does it.
use apple_pod_control.Prelude.{◌≡◌, ◌∷◌}
use apple_pod_control.Host.{Host, Event, History}
use apple_pod_control.Host.Action.{Res, ok}
use apple_pod_control.Host.Mutations.{IsQuiet}
use apple_pod_control.Ha.Types.{HaConfig, HaState}
use apple_pod_control.Ha.Lifecycle.Recorded.{Recorded}

-- A history that extends the first one so that each event added either changes nothing in the runtime or
-- happened when the configuration and the intent were recorded.
pub data Backed (host : Host) (config : HaConfig) (h : History) : History → Type 0 where
  unchanged : Backed host config h h
  quiet :
      {g : History} {e : Event} → Backed host config h g → IsQuiet e → Backed host config h (e ∷ g)
  backed :
      {g : History} {e : Event}
      → Backed host config h g
      → Recorded host config h g
      → Backed host config h (e ∷ g)

module _ (host : Host) (config : HaConfig) (h : History) where
  -- The outcome of a creation.
  pub record Creation (o : Res HaState × History) : Type 0 where
    pub changes_backed : Backed host config h o.1
    pub success_recorded : (state : HaState) → o.0 ≡ ok state → Recorded host config h o.1
