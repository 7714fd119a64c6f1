-- ===== src/Campaign/Create.antt =====
-- The creation of a campaign (internal/server/db/node_update_campaigns.go).
use box_fleet.Base.{
  ℕ, Text, text, same, trim_space, Bool, true, false, not, ◌&&◌, ◌||◌, Option, none, some, List, [],
  ◌∷◌, ◌++◌, ◌==◌, leb, if◌then◌else◌, length, find_row, any_row, count_rows, map,
}
use box_fleet.Platform.{Platform}
use box_fleet.Database.{
  Kind, update_bundle, update_agent, update_sing_box, queued, pending, Campaign, Member, Node,
  refused, idempotency_conflict, key_too_long, bad_payload, release_required, bad_batch_size,
  no_component, no_members, bad_members, bad_member_kind, one_canary, constraint_failed, ok, err, M,
  ◌>>=◌, ◌>>◌, return, guard, or_fail, reads, with_tx,
}
use box_fleet.Operation.Validate.{is_empty, has_text, sort_texts, normalize_object}
use box_fleet.Operation.Calls.{get_node}
use box_fleet.Campaign.Sql.{Detail, is_open, get_detail}
use box_fleet.Campaign.Sync.{for_each}

-- A negative position or batch is refused by the source; here there is none.
pub record MemberParams : Type 0 where
  pub node_name : Text
  pub position : ℕ
  pub batch_number : ℕ
  pub kind : Text
  pub payload : Text

pub record CampaignParams : Type 0 where
  pub release : Text
  pub components : List Text
  pub idempotency_key : Text
  pub batch_size : ℕ
  pub requested_by : Text
  pub members : List MemberParams

abbrev is_component : Text → Bool
is_component t = same t (text "agent") || same t (text "sing_box")

unfoldable pub known_components : List Text → List Text → List Text
known_components seen [] = []
known_components seen (v ∷ vs) =
    let t = trim_space v in
    let skipped = known_components seen vs in
    let kept = t ∷ known_components (t ∷ seen) vs in
    if is_component t && not (has_text t seen) then kept else skipped

-- normalizeCampaignComponents
unfoldable pub normalize_components : List Text → List Text
unfolding known_components
normalize_components cs = sort_texts (known_components [] cs)

unfoldable pub update_kind : Text → Option Kind
update_kind k =
    if same k (text "update.agent")
    then some update_agent
    else if same k (text "update.sing_box")
    then some update_sing_box
    else if same k (text "update.bundle")
    then some update_bundle
    else none

-- A member that was checked: preparedMember.
pub record Prepared : Type 0 where
  pub node : Node
  pub position : ℕ
  pub batch_number : ℕ
  pub kind : Kind
  pub payload : Text

abbrev clashes : Node → ℕ → Prepared → Bool
clashes n position x = same x.node.id n.id || (x.position == position)

module _ (p : Platform) where
  -- The checks of the members, one after another; `done` are those before.
  unfoldable pub prepare : List Prepared → List MemberParams → M (List Prepared)
  prepare done [] = return []
  prepare done (m ∷ ms) = do
    n ← get_node m.node_name
    guard (not (any_row (clashes n m.position) done)) (refused bad_members)
    kind ← or_fail (update_kind m.kind) (refused bad_member_kind)
    payload ← or_fail (normalize_object p m.payload) (refused bad_payload)
    let x : Prepared = record {
      node = n;
      position = m.position;
      batch_number = m.batch_number;
      kind = kind;
      payload = payload;
    }
    rest ← prepare (x ∷ done) ms
    return (x ∷ rest)

abbrev in_canary : Prepared → Bool
in_canary x = x.batch_number == 0

unfoldable pub insert_prepared : Prepared → List Prepared → List Prepared
insert_prepared m [] = m ∷ []
insert_prepared m (x ∷ xs) =
    if leb x.position m.position then x ∷ insert_prepared m xs else m ∷ x ∷ xs

unfoldable pub sort_prepared : List Prepared → List Prepared
sort_prepared [] = []
sort_prepared (m ∷ ms) = insert_prepared m (sort_prepared ms)

-- The primary key, UNIQUE (idempotency_key), and the index on open campaigns.
unfoldable pub campaign_conflicts : Campaign → Campaign → Bool
campaign_conflicts new x =
    same x.id new.id || same x.idempotency_key new.idempotency_key || is_open x.status

-- CreateNodeUpdateCampaign, the statement: a new campaign is queued, hence open.
unfoldable pub insert_campaign : Campaign → M (Unit {0})
insert_campaign new s =
    if any_row (campaign_conflicts new) s.campaigns
    then (err (refused constraint_failed), s)
    else (ok tt, record s { campaigns = s.campaigns ++ (new ∷ []) })

unfoldable pub member_conflicts : Member → Member → Bool
member_conflicts new m =
    same m.campaign_id new.campaign_id
    && (same m.node_id new.node_id || (m.position == new.position))

-- CreateNodeUpdateCampaignMember
unfoldable pub insert_member_row : Member → M (Unit {0})
insert_member_row new s =
    if any_row (member_conflicts new) s.members
    then (err (refused constraint_failed), s)
    else (ok tt, record s { members = s.members ++ (new ∷ []) })

-- What CreateNodeUpdateCampaign has checked and put in its normal form.
pub record Spec : Type 0 where
  pub release : Text
  pub components : List Text
  pub idempotency_key : Text
  pub batch_size : ℕ
  pub requested_by : Text
  pub members : List Prepared

module _ (p : Platform) where
  unfoldable pub check_campaign : CampaignParams → M Spec
  check_campaign params = do
    let release = trim_space params.release
    let key = trim_space params.idempotency_key
    let by = trim_space params.requested_by
    guard (not (is_empty release) && not (is_empty key)) (refused release_required)
    guard (leb (length key) 128) (refused key_too_long)
    guard (not (params.batch_size == 0) && leb params.batch_size 20) (refused bad_batch_size)
    let components = normalize_components params.components
    guard (not (leb (length components) 0)) (refused no_component)
    guard (not (leb (length params.members) 0)) (refused no_members)
    prepared ← prepare p [] params.members
    guard (count_rows in_canary prepared == 1) (refused one_canary)
    return (record {
      release = release;
      components = components;
      idempotency_key = key;
      batch_size = params.batch_size;
      requested_by = if is_empty by then text "admin" else by;
      members = sort_prepared prepared;
    })

  abbrev spec_member : Prepared → Text × ℕ × ℕ × Kind × Text
  spec_member x = (x.node.id, x.position, x.batch_number, x.kind, x.payload)

  unfoldable pub spec_hash : Spec → Text
  spec_hash q =
      p.sha256_hex (p.encode_spec q.release q.components q.batch_size (map spec_member q.members))

  module _ (now : ℕ) where
    -- The columns that the INSERT does not name have the defaults of the schema.
    unfoldable pub new_campaign : Text → Spec → Campaign
    new_campaign fresh q = record {
      id = fresh;
      release = q.release;
      components_json = p.encode_list q.components;
      status = queued;
      idempotency_key = q.idempotency_key;
      spec_hash = spec_hash q;
      batch_size = q.batch_size;
      current_batch = none;
      requested_by = q.requested_by;
      requested_at = p.sql_time now;
      started_at = none;
      finished_at = none;
      updated_at = p.sql_time now;
      error = [];
    }

    unfoldable pub new_member : Text → Prepared → Member
    new_member fresh x = record {
      campaign_id = fresh;
      node_id = x.node.id;
      position = x.position;
      batch_number = x.batch_number;
      kind = x.kind;
      payload_json = x.payload;
      operation_id = none;
      status = pending;
      error = [];
      started_at = none;
      finished_at = none;
      updated_at = p.sql_time now;
    }

    -- The transaction of CreateNodeUpdateCampaign: the identifier, and whether the campaign is new.
    unfoldable pub create_rows : Text → Spec → Option Campaign → M (Text × Bool)
    create_rows fresh q (some x) =
        guard (same x.spec_hash (spec_hash q)) idempotency_conflict >> return (x.id, false)
    create_rows fresh q none = do
      insert_campaign (new_campaign fresh q)
      for_each (λ x. insert_member_row (new_member fresh x)) q.members
      return (fresh, true)

    unfoldable pub create_campaign : Text → CampaignParams → M (Detail × Bool)
    unfolding create_rows
    create_campaign fresh params = do
      q ← check_campaign params
      made ← with_tx (
          reads (λ s. find_row (λ x. same x.idempotency_key q.idempotency_key) s.campaigns)
          >>= create_rows fresh q)
      d ← get_detail p made.0
      return (d, made.1)
