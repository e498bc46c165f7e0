-- ===== src/Ha/Inspect/Arguments/Named.antt =====
-- The name of the container that `container run` is told to make (internal/cluster/ha.go).
use apple_pod_control.Prelude.{ℕ, ◌≡◌, refl, List, [], ◌∷◌, arith}
use mathlib.Core.Path.{subst}
use apple_pod_control.Text.{text_eq}
use apple_pod_control.Host.{Host}
use apple_pod_control.Host.Action.{ok}
use apple_pod_control.Host.Own.{IsRunOf, name_option}
use apple_pod_control.Ha.Types.{HaMember, HaConfig}
use apple_pod_control.Ha.Names.{ha_container_name, member_by_id}
use apple_pod_control.Ha.Config.Normalize.{normalize_ha_config}
use apple_pod_control.Ha.Inspect.Arguments.{
  run_arguments, normalized_arguments, ha_server_run_arguments,
}

run_arguments-IsRunOf :
    (host : Host) (config : HaConfig) (member : HaMember)
    → IsRunOf (ha_container_name config.name member.id) (run_arguments host config member)
unfolding run_arguments name_option text_eq
run_arguments-IsRunOf host config member = refl

id-member_by_id : (members : List HaMember) (id : ℕ) → (member_by_id members id).id ≡ id
unfolding member_by_id
id-member_by_id [] id = refl
id-member_by_id (m ∷ rest) id = ground (arith, id-member_by_id rest id)

-- For a configuration that is normalized already, the argument --name is the member's container name.
pub ha_server_run_arguments-IsRunOf :
    (host : Host) (config : HaConfig) (member : HaMember)
    → normalize_ha_config host config ≡ ok config
    → IsRunOf (ha_container_name config.name member.id) (ha_server_run_arguments host config member)
unfolding ha_server_run_arguments normalized_arguments
ha_server_run_arguments-IsRunOf host config member normal =
    let named = member_by_id config.members member.id in
    rw normal (
      subst (λ id. IsRunOf (ha_container_name config.name id) (run_arguments host config named))
        (id-member_by_id config.members member.id) (run_arguments-IsRunOf host config named))
