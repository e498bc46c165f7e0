-- ===== src/Ha/Names.antt =====
-- The names that APC gives to the containers, volumes, networks and nodes of an HA cluster
-- (internal/cluster/ha.go), and the lookup of a member.
use apple_pod_control.Prelude.{
  ℕ, Bool, true, false, ◌&&◌, ◌||◌, List, [], ◌∷◌, ◌++◌, ltb, leb, ◌==◌, if◌then◌else◌, length, ◌≡◌,
  refl,
}
use apple_pod_control.Text.{Text, text, text_eq, trim_prefix}
use apple_pod_control.Text.Numbers.{itoa}
use apple_pod_control.Ha.Types.{HaMember}

alnum : ℕ → Bool
alnum c = leb b'a' c && leb c b'z' || leb b'0' c && leb c b'9'

label_tail : Text → Bool
unfolding alnum
label_tail [] = true
label_tail (c ∷ []) = alnum c
label_tail (c ∷ d ∷ s) = (alnum c || c == b'-') && label_tail (d ∷ s)

-- The regular expression dnsLabel: at most 63 lowercase letters, digits and dashes, with no dash at
-- either end.
unfoldable pub dns_label : Text → Bool
unfolding alnum label_tail
dns_label [] = false
dns_label (c ∷ s) = alnum c && label_tail s && ltb (length s) 63

unfoldable pub ha_member_count : ℕ
ha_member_count = 3

unfoldable pub default_ha_node_name : Text → ℕ → Text
default_ha_node_name name member_id =
    if text_eq name (text "ha-lab")
    then text "apc-ha-" ++ itoa member_id
    else text "apc-" ++ (name ++ (text "-" ++ itoa member_id))

unfoldable pub ha_container_name : Text → ℕ → Text
ha_container_name name member_id = text "apc-k3s-" ++ (name ++ (text "-server-" ++ itoa member_id))

unfoldable pub ha_volume_name : Text → ℕ → Text
unfolding ha_container_name
ha_volume_name name member_id = ha_container_name name member_id ++ text "-data"

unfoldable pub ha_network_name : Text → Text
unfolding trim_prefix
ha_network_name name = text "apc-ha-" ++ trim_prefix name (text "ha-")

-- What `HAMember{ID: id}` is.
abbrev blank_member : ℕ → HaMember
blank_member id = record { id = id; node_name = []; stable_ip = []; mac = []; host_api_port = 0 }

unfoldable pub member_by_id : List HaMember → ℕ → HaMember
member_by_id [] id = blank_member id
member_by_id (member ∷ rest) id = if member.id == id then member else member_by_id rest id

ha_container_name_example : ha_container_name (text "lab") 2 ≡ text "apc-k3s-lab-server-2"
unfolding ha_container_name itoa
ha_container_name_example = refl
