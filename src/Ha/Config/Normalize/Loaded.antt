-- ===== src/Ha/Config/Normalize/Loaded.antt =====
-- What is loaded is normal.
use apple_pod_control.Prelude.{◌≡◌, arith}
use apple_pod_control.Text.{Text}
use apple_pod_control.Host.{Host, History, File, missing, malformed, found}
use apple_pod_control.Host.Action.{Res, ok, err, wrap_res, >>=-eq-ok, lift-eq-ok}
use apple_pod_control.Ha.Types.{HaConfig}
use apple_pod_control.Ha.Config.Normalize.{normalize_ha_config, stored_config, load_ha_config}
use apple_pod_control.Ha.Config.Normalize.Valid.{IsNormal, normalize_ha_config-IsNormal}

unwrapped :
    (r : Res HaConfig) (s : _) (config : HaConfig) → wrap_res s r ≡ ok config → r ≡ ok config
unwrapped (ok a) s config h = ground (arith, h)
unwrapped (err e) s config h = ground (arith, h)

stored_config-IsNormal :
    (host : Host) (file : File HaConfig) (config : HaConfig)
    → stored_config host file ≡ ok config
    → IsNormal config
unfolding stored_config
stored_config-IsNormal host missing config h = ground (arith, h)
stored_config-IsNormal host malformed config h = ground (arith, h)
stored_config-IsNormal host (found stored) config h =
    normalize_ha_config-IsNormal host stored config
      (unwrapped (normalize_ha_config host stored) "validate HA cluster configuration: %w" config h)

pub load_ha_config-IsNormal :
    (host : Host) (name : Text) (config : HaConfig) (h h' : History)
    → load_ha_config host name h ≡ (ok config, h')
    → IsNormal config
unfolding load_ha_config
load_ha_config-IsNormal host name config h h' e =
    let (path, g, e1, r1) = >>=-eq-ok _ _ h h' config e in
    let (file, g2, e2, r2) = >>=-eq-ok _ _ g h' config r1 in
    stored_config-IsNormal host file config (lift-eq-ok (stored_config host file) config g2 h' r2)
