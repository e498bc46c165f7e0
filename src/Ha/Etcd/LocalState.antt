-- ===== src/Ha/Etcd/LocalState.antt =====
-- parseHAEtcdLocalState, parseHAEtcdHealth and prometheusLabel (internal/cluster/ha_etcd.go): one
-- member's etcd state from its health document and its metrics. Texts are taken as ASCII where the
-- source counts bytes.
use apple_pod_control.Prelude.{
  String, ℕ, suc, Bool, true, false, ◌||◌, not, Option, none, some, List, [], ◌∷◌, ◌++◌, ltb, leb,
  ◌==◌, if◌then◌else◌, length,
}
use apple_pod_control.Text.{
  Text, text, text_eq, equal_fold, is_empty, is_space, trim_space, has_prefix, cut_prefix, split,
  push_first, contains_string, sort_texts,
}
use apple_pod_control.Host.{Host, fail, MetricValue, natural, undecodable, neither, boolean, string}
use apple_pod_control.Host.Action.{Res, ok, err}
use apple_pod_control.Ha.Types.{HaMember, HaEtcdMemberTopology}
use apple_pod_control.Ha.Names.{ha_member_count}
use apple_pod_control.Ha.Config.{◌>>=ᵣ◌, check}
use apple_pod_control.Ha.Etcd.ServerId.{canonical_ha_etcd_server_id}

-- bytes.SplitN(output, separator, 2) and strings.Cut: before and after the first separator.
cut : Text → Text → Option (Text × Text)
cut separator [] = none
cut separator (c ∷ s) = elim (cut_prefix separator (c ∷ s)) [
  | some rest ↦ some ([], rest)
  | none ↦ elim (cut separator s) [ none ↦ none | some (before, after) ↦ some (c ∷ before, after) ]
]

-- The fields of a line, with empty ones between adjacent spaces.
spaced : Text → List Text
spaced [] = [] ∷ []
spaced (c ∷ s) = let rest = spaced s in if is_space c then [] ∷ rest else push_first c rest

drop_empty : List Text → List Text
drop_empty [] = []
drop_empty (f ∷ fs) = if is_empty f then drop_empty fs else f ∷ drop_empty fs

-- strings.Fields
fields : Text → List Text
unfolding spaced drop_empty
fields s = drop_empty (spaced s)

last_of : Text → List Text → Text
last_of f [] = f
last_of f (g ∷ rest) = last_of g rest

before_brace : Text → Text
before_brace [] = []
before_brace (c ∷ s) = if c == b'{' then [] else c ∷ before_brace s

after_brace : Text → Option Text
after_brace [] = none
after_brace (c ∷ s) = elim (c == b'{') [ true ↦ some s | false ↦ after_brace s ]

-- What stands before the last closing brace.
before_last_brace : Text → Option Text
before_last_brace [] = none
before_last_brace (c ∷ s) = elim (before_last_brace s) [
  | some inner ↦ some (c ∷ inner)
  | none ↦ if c == b'}' then some [] else none
]

-- The loop over the labels; a label that cannot be unquoted ends it with none.
find_label : Host → Text → List Text → Option Text
unfolding cut
find_label host name [] = none
find_label host name (label ∷ rest) = elim (cut (text "=") label) [
  | none ↦ find_label host name rest
  | some (key, value) ↦ elim (text_eq (trim_space key) name) [
    | true ↦ host.unquote (trim_space value)
    | false ↦ find_label host name rest
  ]
]

labels_between : Host → Text → Option Text → Option Text
unfolding find_label
labels_between host name none = none
labels_between host name (some inner) = find_label host name (split b',' inner)

after_open : Host → Text → Option Text → Option Text
unfolding labels_between before_last_brace
after_open host name none = none
after_open host name (some rest) = labels_between host name (before_last_brace rest)

unfoldable pub prometheus_label : Host → Text → Text → Option Text
unfolding after_open after_brace
prometheus_label host metric name = after_open host name (after_brace metric)

unfoldable pub parse_ha_etcd_health : Host → Text → Res Bool
parse_ha_etcd_health host document = elim (host.decode_health (trim_space document)) [
  | undecodable ↦ err (fail "decode local etcd health: %w")
  | boolean b ↦ ok b
  | string s ↦ ok (equal_fold s (text "true"))
  | neither ↦ err (fail "local etcd health response has an invalid health value")
]

-- What the loop over the metrics has gathered.
pub record Scan : Type 0 where
  pub metrics : List (Text × MetricValue)  -- the newest first
  pub peers : List Text  -- a set
  pub server_id : Text

metric_of : List (Text × MetricValue) → Text → Option MetricValue
metric_of [] name = none
metric_of ((k, v) ∷ rest) name = if text_eq k name then some v else metric_of rest name

add_metric : Text → Option MetricValue → Scan → Scan
add_metric name none scan = scan
add_metric name (some v) scan = record scan { metrics = (name, v) ∷ scan.metrics }

add_peer : Text → Scan → Scan
add_peer id scan =
    if contains_string scan.peers id then scan else record scan { peers = id ∷ scan.peers }

canonical_or : String → Option Text → Res Text
canonical_or message none = err (fail message)
canonical_or message (some id) = ok id

note_peer : Text → Option Text → Scan → Res Scan
unfolding canonical_or add_peer
note_peer name none scan = ok scan
note_peer name (some raw) scan =
    if has_prefix name (text "etcd_network_peer_")
    then (canonical_or "invalid etcd peer server ID %q" (canonical_ha_etcd_server_id raw) >>=ᵣ λ id.
        ok (add_peer id scan))
    else ok scan

note_server_id : Text → Option Text → Scan → Res Scan
unfolding canonical_or
note_server_id name none scan = ok scan
note_server_id name (some raw) scan =
    if text_eq name (text "etcd_server_id")
    then (canonical_or "invalid local etcd server ID %q" (canonical_ha_etcd_server_id raw)
        >>=ᵣ λ id. ok (record scan { server_id = id }))
    else ok scan

-- A line with a name and a value.
scan_metric : Host → Text → Text → Scan → Res Scan
unfolding add_metric note_peer note_server_id before_brace prometheus_label
scan_metric host metric value scan =
    let name = before_brace metric in
    note_peer name (prometheus_label host metric (text "To"))
      (add_metric name (host.parse_float value) scan)
    >>=ᵣ λ noted. note_server_id name (prometheus_label host metric (text "server_id")) noted

scan_fields : Host → List Text → Scan → Res Scan
unfolding scan_metric last_of
scan_fields host (metric ∷ value ∷ rest) scan = scan_metric host metric (last_of value rest) scan
scan_fields host _ scan = ok scan

-- One line; bufio.Scanner gives up at a line of 64 KiB.
scan_line : Host → Text → Scan → Res Scan
unfolding scan_fields fields
scan_line host raw scan =
    let line = trim_space raw in
    check (leb 65536 (length raw)) (fail "scan local etcd metrics: %w") (
      if is_empty line || has_prefix line (text "#")
      then ok scan
      else scan_fields host (fields line) scan)

scan_lines : Host → List Text → Scan → Res Scan
unfolding scan_line
scan_lines host [] scan = ok scan
scan_lines host (line ∷ rest) scan =
    scan_line host line scan >>=ᵣ λ scanned. scan_lines host rest scanned

abbrev positive : Option MetricValue → Bool
positive (some (natural n)) = ltb 0 n
positive _ = false

abbrev is_natural : Option MetricValue → ℕ → Bool
is_natural (some (natural n)) m = n == m
is_natural _ m = false

abbrev is_missing : Option MetricValue → Bool
is_missing none = true
is_missing (some v) = false

without : Text → List Text → List Text
without id [] = []
without id (x ∷ xs) = if text_eq x id then without id xs else x ∷ without id xs

-- The checks after the loop, in the source's order.
state_of : HaMember → Bool → Scan → Res HaEtcdMemberTopology
unfolding metric_of without
state_of member health_success scan =
    let peers = sort_texts (without scan.server_id scan.peers) in
    let is_leader = metric_of scan.metrics (text "etcd_server_is_leader") in
    let learner = metric_of scan.metrics (text "etcd_server_is_learner") in
    check (is_empty scan.server_id)
      (fail "local etcd metrics do not contain a valid etcd_server_id")
      (check (not (positive (metric_of scan.metrics (text "etcd_server_health_success"))))
        (fail "local etcd health success counter is not a positive finite integer")
        (check (not (is_natural (metric_of scan.metrics (text "etcd_server_has_leader")) 1))
          (fail "local etcd member has no elected leader")
          (check (not (is_natural is_leader 0 || is_natural is_leader 1))
            (fail "local etcd metrics do not expose a valid leader role")
            (check (is_missing learner) (fail "local etcd metrics do not expose learner state") (
              check (not (is_natural learner 0)) (fail "local etcd member is still a learner") (
                check (not health_success)
                  (fail "local etcd health endpoint did not report success")
                  (check (not (suc (length peers) == ha_member_count))
                    (fail "local etcd member reports %d unique peers, expected exactly %d")
                    (ok (record {
                      member_id = member.id;
                      node_name = member.node_name;
                      server_id = scan.server_id;
                      peer_server_ids = peers;
                      health_success = health_success;
                      has_leader = true;
                      is_leader = is_natural is_leader 1;
                      is_learner = false;
                    })))))))))

parse_parts : Host → HaMember → Option (Text × Text) → Res HaEtcdMemberTopology
unfolding state_of scan_lines
parse_parts host member none =
    err (fail "local etcd probe did not return its health/metrics separator")
parse_parts host member (some (health, metrics)) =
    parse_ha_etcd_health host health >>=ᵣ λ health_success.
    scan_lines host (split 10 metrics) (record { metrics = []; peers = []; server_id = [] })
    >>=ᵣ λ scan. state_of member health_success scan

abbrev separator : Text
separator = 10 ∷ (text "APC_ETCD_METRICS_BEGIN" ++ 10 ∷ [])

unfoldable pub parse_ha_etcd_local_state : Host → Text → HaMember → Res HaEtcdMemberTopology
unfolding parse_parts cut
parse_ha_etcd_local_state host output member = parse_parts host member (cut separator output)
