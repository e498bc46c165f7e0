-- ===== src/Ha/Addresses/Envelope/Mutations.antt =====
-- The mutating commands of the envelope operations.
use apple_pod_control.Prelude.{◌≡◌, false, ◌∷◌, String, arith}
use apple_pod_control.Host.{Host, Context, History, Command}
use apple_pod_control.Host.Action.{◌>>=◌, with_timeout, run_command, ask}
use apple_pod_control.Host.Mutations.{is_look, mutations}
use apple_pod_control.Ha.Addresses.Envelope.{run_ha_bounded}

-- A bounded command is issued once, whatever its reply.
pub run_ha_bounded-mutations :
    (host : Host) (ctx : Context) (operation : String) (c : Command) (h : History)
    → is_look c ≡ false
    → mutations (run_ha_bounded host ctx operation c h).1 ≡ c ∷ mutations h
unfolding run_ha_bounded ◌>>=◌ with_timeout run_command ask mutations
run_ha_bounded-mutations host ctx operation c h look = ground arith
