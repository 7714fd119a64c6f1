-- ===== src/Campaign/Sql.antt =====
-- The statements of internal/server/store/sqlc/node_update_campaigns.sql.go, and the methods of
-- internal/server/db/node_update_campaigns.go that run one of them.
use box_fleet.Base.{
  ℕ, Text, same, trim_space, Bool, true, false, not, ◌&&◌, Option, none, some, List, [], ◌∷◌, ◌==◌,
  leb, if◌then◌else◌, find_row, update_rows, any_row, keep_rows,
}
use box_fleet.Platform.{Platform}
use box_fleet.Database.{
  Status, CampaignStatus, queued, running, paused, succeeded, failed, cancelled, expired,
  MemberStatus, pending, skipped, Campaign, Member, Node, Store, no_rows, refused, corrupt_row,
  constraint_failed, ok, err, M, ◌>>=◌, return, or_fail, reads,
}
use box_fleet.Operation.Sql.{coalesce, set_and}
use box_fleet.Operation.Validate.{nullable}

abbrev pub is_open : CampaignStatus → Bool
is_open queued = true
is_open running = true
is_open paused = true
is_open _ = false

abbrev pub is_running_campaign : CampaignStatus → Bool
is_running_campaign running = true
is_running_campaign _ = false

abbrev pub is_closed : CampaignStatus → Bool
is_closed succeeded = true
is_closed cancelled = true
is_closed _ = false

-- The member needs nothing more.
abbrev pub is_settled : MemberStatus → Bool
is_settled succeeded = true
is_settled skipped = true
is_settled _ = false

abbrev pub is_pending : MemberStatus → Bool
is_pending pending = true
is_pending _ = false

abbrev pub has_failed : MemberStatus → Bool
has_failed failed = true
has_failed cancelled = true
has_failed _ = false

abbrev pub is_under_way : MemberStatus → Bool
is_under_way queued = true
is_under_way running = true
is_under_way _ = false

-- terminalCampaignTime
abbrev pub is_terminal : MemberStatus → Bool
is_terminal succeeded = true
is_terminal failed = true
is_terminal cancelled = true
is_terminal skipped = true
is_terminal _ = false

abbrev pub same_batch : Option ℕ → ℕ → Bool
same_batch none b = false
same_batch (some a) b = a == b

unfoldable pub by_campaign : Text → Member → Bool
by_campaign c m = same m.campaign_id c

unfoldable pub by_member : Text → Text → Member → Bool
by_member c node m = same m.campaign_id c && same m.node_id node

unfoldable pub is_campaign : Text → Campaign → Bool
is_campaign c x = same x.id c

abbrev pub write_members : (Member → Bool) → (Member → Member) → M (Unit {0})
write_members p f s = (ok tt, record s { members = update_rows p f s.members })

abbrev pub holds : Text → Member → Bool
holds i m = set_and m.operation_id (λ j. same j i)

-- An UPDATE of the rows of one member that sets operation_id, which is UNIQUE.
unfoldable pub assign : (Member → Bool) → Text → (Member → Member) → M (Unit {0})
assign p i f s =
    if any_row p s.members && any_row (λ m. not (p m) && holds i m) s.members
    then (err (refused constraint_failed), s)
    else write_members p f s

-- Operation and member statuses share their names; expired is none of the CHECK's.
unfoldable pub member_status : Status → Option MemberStatus
member_status queued = some queued
member_status running = some running
member_status succeeded = some succeeded
member_status failed = some failed
member_status cancelled = some cancelled
member_status expired = none

abbrev is_null : Option Text → Bool
is_null none = true
is_null (some t) = false

unfoldable pub attach_where : Text → Text → Member → Bool
attach_where c node m = by_member c node m && is_null m.operation_id

unfoldable pub attach_set : Text → Option Text → MemberStatus → Member → Member
attach_set now i status m = record m {
  operation_id = i;
  status = status;
  started_at = coalesce m.started_at (some now);
  updated_at = now;
}

unfoldable pub replace_where : Text → Text → Member → Bool
replace_where c node m = by_member c node m && has_failed m.status

unfoldable pub replace_set : Text → Option Text → MemberStatus → Member → Member
replace_set now i status m = record m {
  operation_id = i;
  status = status;
  error = [];
  started_at = some now;
  finished_at = none;
  updated_at = now;
}

unfoldable pub member_set : Text → MemberStatus → Text → Option Text → Member → Member
member_set now status message finished m = record m {
  status = status;
  error = message;
  finished_at = coalesce finished m.finished_at;
  updated_at = now;
}

unfoldable pub campaign_set :
    Text → CampaignStatus → Option ℕ → Text → Option Text → Option Text → Campaign → Campaign
campaign_set now status batch message started finished x = record x {
  status = status;
  current_batch = batch;
  error = message;
  started_at = coalesce started x.started_at;
  finished_at = coalesce finished x.finished_at;
  updated_at = now;
}

module _ (p : Platform) (now : ℕ) where
  abbrev pub now_text : Option Text
  now_text = nullable (p.format_time now)

  -- AttachNodeUpdateCampaignOperation: a member that has an operation keeps it.
  unfoldable pub attach_operation : Text → Text → Text → Status → M (Unit {0})
  attach_operation c node i status = do
    st ← or_fail (member_status status) (refused constraint_failed)
    assign (attach_where c node) i (attach_set (p.sql_time now) (nullable i) st)

  -- ReplaceNodeUpdateCampaignOperationForRetry
  unfoldable pub replace_operation : Text → Text → Text → Status → M (Unit {0})
  replace_operation c node i status = do
    st ← or_fail (member_status status) (refused constraint_failed)
    assign (replace_where c node) i (replace_set (p.sql_time now) (nullable i) st)

  -- UpdateNodeUpdateCampaignMemberState
  unfoldable pub update_member : Text → Text → MemberStatus → Text → M (Unit {0})
  update_member c node status message =
      write_members (by_member c node)
        (member_set (p.sql_time now) status message (if is_terminal status then now_text else none))

  -- UpdateNodeUpdateCampaignState
  unfoldable pub update_campaign : Text → CampaignStatus → Option ℕ → Text → M (Unit {0})
  update_campaign c status batch message s = (
    ok tt,
    record s {
      campaigns =
          update_rows (is_campaign c)
            (campaign_set (p.sql_time now) status batch message
              (if is_running_campaign status then now_text else none)
              (if is_closed status then now_text else none))
            s.campaigns;
    },
  )

-- A member, with the name of its node.
pub record MemberView : Type 0 where
  pub row : Member
  pub node_name : Text

pub record Detail : Type 0 where
  pub campaign : Campaign
  pub members : List MemberView

unfoldable pub insert_member : Member → List Member → List Member
insert_member m [] = m ∷ []
insert_member m (x ∷ xs) = if leb x.position m.position then x ∷ insert_member m xs else m ∷ x ∷ xs

-- ORDER BY position
unfoldable pub sort_members : List Member → List Member
sort_members [] = []
sort_members (m ∷ ms) = insert_member m (sort_members ms)

abbrev pub joined : Option Node → Member → List MemberView → List MemberView
joined none m rest = rest
joined (some n) m rest = record { row = m; node_name = n.name } ∷ rest

-- JOIN nodes
unfoldable pub join_nodes : List Node → List Member → List MemberView
join_nodes nodes [] = []
join_nodes nodes (m ∷ ms) =
    joined (find_row (λ n. same n.id m.node_id) nodes) m (join_nodes nodes ms)

-- ListNodeUpdateCampaignMembers
unfoldable pub list_members : Text → Store → List MemberView
list_members c s = join_nodes s.nodes (sort_members (keep_rows (by_campaign c) s.members))

module _ (p : Platform) where
  -- GetNodeUpdateCampaign
  unfoldable pub get_detail : Text → M Detail
  get_detail c = do
    x ← or_fail (← reads (λ s. find_row (is_campaign (trim_space c)) s.campaigns)) no_rows
    or_fail (p.decode_list x.components_json) (refused corrupt_row) >>= λ _. do
      members ← reads (list_members x.id)
      return (record { campaign = x; members = members })

-- GetActiveNodeUpdateCampaign: the unique index leaves at most one open campaign.
unfoldable pub open_campaign : Store → Option Campaign
open_campaign s = find_row (λ x. is_open x.status) s.campaigns
