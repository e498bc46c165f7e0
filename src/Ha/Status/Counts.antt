-- ===== src/Ha/Status/Counts.antt =====
-- What a status query that succeeds says of the members.
use mathlib.Core.Path.{subst}
use mathlib.Core.List.{append-nil, append_assoc}
use apple_pod_control.Prelude.{
  ℕ, ◌+◌, ◌/◌, ◌≡◌, refl, sym, ap, ◌∙◌, Bool, ◌&&◌, Option, none, some, List, [], ◌∷◌, ◌++◌, arith,
  length, leb, if◌then◌else◌, inl, inr, Bool-cases,
}
use apple_pod_control.Text.{Text}
use apple_pod_control.Host.{Host, Context, History}
use apple_pod_control.Host.Action.{Res, ok, err, >>=-eq-ok, pure-eq-ok}
use apple_pod_control.Ha.Types.{
  HaMember, HaConfig, HaMemberState, HaState, HaContainerInspect, HaNodeDocument,
}
use apple_pod_control.Ha.Config.Normalize.Members.{ids_of}
use apple_pod_control.Ha.Config.Normalize.{load_ha_config}
use apple_pod_control.Ha.Inspect.{is_running}
use apple_pod_control.Ha.Status.{
  missing_member, with_node, probe_member, found_member, status_member, add_member, status_members,
  initial_state, status_ha,
}

abbrev pub state_ids : List HaMemberState → List ℕ
state_ids [] = []
state_ids (m ∷ rest) = m.id ∷ state_ids rest

-- How many members have a Ready node and a ready API.
abbrev pub ready_pairs : List HaMemberState → ℕ
ready_pairs [] = 0
ready_pairs (m ∷ rest) = (if m.node_ready && m.api_ready then 1 else 0) + ready_pairs rest

ready_pairs-append :
    (xs ys : List HaMemberState) → ready_pairs (xs ++ ys) ≡ ready_pairs xs + ready_pairs ys
ready_pairs-append [] ys = omega arith
ready_pairs-append (x ∷ xs) ys = omega (arith, ready_pairs-append xs ys)

state_ids-append :
    (xs ys : List HaMemberState) → state_ids (xs ++ ys) ≡ state_ids xs ++ state_ids ys
state_ids-append [] ys = refl
state_ids-append (x ∷ xs) ys = rw (state_ids-append xs ys)

with_node-id :
    (state : HaMemberState) (b : Bool) (r : Res HaNodeDocument)
    → (with_node state b r).id ≡ state.id
unfolding with_node
with_node-id state b (ok node) = refl
with_node-id state b (err e) = refl

probe_member-id :
    (host : Host) (ctx : Context) (config : HaConfig) (member : HaMember) (state m : HaMemberState)
    (h h' : History)
    → probe_member host ctx config member state h ≡ (ok m, h')
    → m.id ≡ state.id
unfolding probe_member
probe_member-id host ctx config member state m h h' e =
    let (b, g, e1, r1) = >>=-eq-ok _ _ h h' m e in
    let (node, g2, e2, r2) = >>=-eq-ok _ _ g h' m r1 in
    ap (λ (x : HaMemberState). x.id) (sym (pure-eq-ok _ m g2 h' r2)) ∙ with_node-id state b node

found_member-id :
    (host : Host) (ctx : Context) (config : HaConfig) (member : HaMember)
    (found : Option HaContainerInspect) (m : HaMemberState) (h h' : History)
    → found_member host ctx config member found h ≡ (ok m, h')
    → m.id ≡ member.id
unfolding found_member missing_member
found_member-id host ctx config member none m h h' e =
    ap (λ (x : HaMemberState). x.id) (sym (pure-eq-ok _ m h h' e))
found_member-id host ctx config member (some r) m h h' e =
    let (u, g, e1, r1) = >>=-eq-ok _ _ h h' m e in
    elim (Bool-cases (is_running r.state)) [
      | inl up ↦ probe_member-id host ctx config member _ m g h' (rw up at r1)
      | inr down ↦ ap (λ (x : HaMemberState). x.id) (sym (pure-eq-ok _ m g h' (rw down at r1)))
    ]

status_member-id :
    (host : Host) (ctx : Context) (config : HaConfig) (member : HaMember) (m : HaMemberState)
    (h h' : History)
    → status_member host ctx config member h ≡ (ok m, h')
    → m.id ≡ member.id
unfolding status_member
status_member-id host ctx config member m h h' e =
    let (found, g, e1, r1) = >>=-eq-ok _ _ h h' m e in
    found_member-id host ctx config member found m g h' r1

-- What the loop keeps: the count, the quorum, and the members so far.
abbrev Counts : HaState → List HaMember → HaState → Type 0
Counts before members after =
    (state_ids after.members ≡ state_ids before.members ++ ids_of members)
    × (after.ready_members + ready_pairs before.members
        ≡ before.ready_members + ready_pairs after.members)
    × (after.quorum ≡ before.quorum)
    × (after.name ≡ before.name)

add_member-Counts :
    (state after : HaState) (member : HaMember) (rest : List HaMember) (m : HaMemberState)
    → m.id ≡ member.id
    → Counts (add_member state m) rest after
    → Counts state (member ∷ rest) after
unfolding add_member
add_member-Counts state after member rest m same (ids, ready, quorum, name) = (
  ids
      ∙ (ap (λ l. l ++ ids_of rest) (state_ids-append state.members (m ∷ []))
          ∙ (append_assoc (state_ids state.members) (m.id ∷ []) (ids_of rest)
              ∙ ap (λ n. state_ids state.members ++ n ∷ ids_of rest) same)),
  ground (arith, ready, ready_pairs-append state.members (m ∷ [])),
  quorum,
  name,
)

status_members-Counts :
    (host : Host) (ctx : Context) (config : HaConfig) (members : List HaMember)
    (state after : HaState) (h h' : History)
    → status_members host ctx config members state h ≡ (ok after, h')
    → Counts state members after
unfolding status_members
status_members-Counts host ctx config [] state after h h' e =
    subst (Counts state []) (pure-eq-ok state after h h' e)
      (sym (append-nil (state_ids state.members)), refl, refl, refl)
status_members-Counts host ctx config (member ∷ rest) state after h h' e =
    let (m, g, e1, r1) = >>=-eq-ok _ _ h h' after e in
    add_member-Counts state after member rest m (status_member-id host ctx config member m h g e1)
      (status_members-Counts host ctx config rest (add_member state m) after g h' r1)

-- What a successful status says, for the configuration that it loaded.
pub record Reports (config : HaConfig) (state : HaState) : Type 0 where
  pub lists_members : state_ids state.members ≡ ids_of config.members
  pub counts_ready : state.ready_members ≡ ready_pairs state.members
  pub quorum_majority : state.quorum ≡ length config.members / 2 + 1
  pub healthy_by_quorum : state.healthy ≡ leb state.quorum state.ready_members

-- A successful StatusHA lists exactly the members of the configuration that it loaded, in their
-- order; ReadyMembers is the number of listed members with a Ready node and a ready API; the quorum
-- is the majority of the members; and Healthy says exactly whether the count reaches the quorum.
pub status_ha-Reports :
    (host : Host) (ctx : Context) (name : Text) (state : HaState) (h h' : History)
    → status_ha host ctx name h ≡ (ok state, h')
    → (config : HaConfig) × (g : History) × (load_ha_config host name h ≡ (ok config, g))
      × Reports config state
unfolding status_ha initial_state
status_ha-Reports host ctx name state h h' e =
    let (config, g, e1, r1) = >>=-eq-ok _ _ h h' state e in
    let (after, g2, e2, r2) = >>=-eq-ok _ _ g h' state r1 in
    let (ids, ready, quorum, _) =
      status_members-Counts host ctx config config.members (initial_state config) after g g2 e2 in
    (
      config,
      g,
      e1,
      subst (Reports config) (pure-eq-ok _ state g2 h' r2) (record {
        lists_members = ids;
        counts_ready = omega (arith, ready);
        quorum_majority = quorum;
        healthy_by_quorum = refl;
      }),
    )
