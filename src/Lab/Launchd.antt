-- ===== src/Lab/Launchd.antt =====
-- The output of `launchctl print` for a running service, and one that the parser should not trust.
use apple_pod_control.Prelude.{◌≡◌, refl, List, [], ◌∷◌}
use apple_pod_control.Text.{
  Text, text, split, trim_space, is_empty, text_eq, texts_eq, contains_string, cut_prefix,
  join_texts,
}
use apple_pod_control.Text.Numbers.{parse_uint}
use apple_pod_control.Host.Action.{ok}
use apple_pod_control.Launchd.{atoi, validate_running_launchd_service}
use apple_pod_control.Launchd.Printed.{ShowsRunning, validate_running_launchd_service-ShowsRunning}

abbrev arguments : List Text
arguments = text "/usr/local/bin/apc" ∷ text "supervise" ∷ []

abbrev fields : List Text
fields =
    text " state = running"
    ∷ text " program = /usr/local/bin/apc"
    ∷ text " arguments = {"
    ∷ text "  /usr/local/bin/apc"
    ∷ text "  supervise"
    ∷ text " }"
    ∷ text " pid = 41"
    ∷ text "}"
    ∷ []

abbrev running_output : Text
running_output = join_texts (10 ∷ []) (text "system/apc = {" ∷ fields)

running_accepted :
    validate_running_launchd_service running_output (text "system/apc") arguments ≡ ok tt
unfolding validate_running_launchd_service split join_texts is_empty trim_space text_eq cut_prefix
    contains_string atoi parse_uint texts_eq
running_accepted = refl

-- The fields of a second block are read too, if it follows the service's own.
other_block_accepted :
    validate_running_launchd_service
      (join_texts (10 ∷ []) (text "system/apc = {" ∷ text "}" ∷ text "other = {" ∷ fields))
      (text "system/apc")
      arguments
    ≡ ok tt
unfolding validate_running_launchd_service split join_texts is_empty trim_space text_eq cut_prefix
    contains_string atoi parse_uint texts_eq
other_block_accepted = refl

validate_running_launchd_service-ShowsRunning_example :
    ShowsRunning running_output (text "system/apc") arguments
validate_running_launchd_service-ShowsRunning_example =
    validate_running_launchd_service-ShowsRunning running_output (text "system/apc") arguments
      running_accepted
