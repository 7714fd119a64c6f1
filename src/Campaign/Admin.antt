-- ===== src/Campaign/Admin.antt =====
-- The administrator's cancellation and resumption of a campaign
-- (internal/server/api/update_campaigns.go). A refusal is the status that the handler answers with.
use box_fleet.Base.{
  ℕ, ◌+◌, Text, text, Bool, true, false, not, ◌&&◌, Option, none, some, List, [], ◌∷◌, ◌++◌, ◌==◌,
  if◌then◌else◌,
}
use box_fleet.Platform.{Platform}
use box_fleet.Database.{
  CampaignStatus, running, paused, cancelled, refused, campaign_terminal, not_paused, no_operation,
  nothing_failed, Result, ok, err, M, ◌>>=◌, ◌>>◌, return, guard, attempt,
}
use box_fleet.Operation.Validate.{is_empty}
use box_fleet.Operation.Calls.{CreateParams, text_of}
use box_fleet.Operation.Methods.{create_operation, request_cancel}
use box_fleet.Campaign.Sql.{
  MemberView, Detail, same_batch, is_closed, is_under_way, has_failed, update_campaign,
  replace_operation, get_detail,
}
use box_fleet.Campaign.Sync.{for_each, queue_timeout}
use box_fleet.Campaign.Reconcile.{kind_text}

abbrev pub is_paused : CampaignStatus → Bool
is_paused paused = true
is_paused _ = false

-- The value of a call whose error is ignored.
abbrev pub value_of : {A : Type 0} → Result A → Option A
value_of (ok a) = some a
value_of (err e) = none

module _ (p : Platform) (now : ℕ) where
  -- An error of the request to cancel is ignored.
  unfoldable pub cancel_member : MemberView → M (Unit {0})
  cancel_member v =
      if not (is_empty (text_of v.row.operation_id)) && is_under_way v.row.status
      then (attempt (request_cancel p now (text_of v.row.operation_id)) >>= λ _. return tt)
      else return tt

  -- adminCancelUpdateCampaignHandler
  unfoldable pub cancel_campaign : Text → M (Option Detail)
  cancel_campaign c = do
    d ← get_detail p c
    guard (not (is_closed d.campaign.status)) (refused campaign_terminal)
    update_campaign p now d.campaign.id cancelled d.campaign.current_batch
        (text "cancelled by admin")
    for_each cancel_member d.members
    after ← attempt (get_detail p d.campaign.id)
    return (value_of after)

  abbrev pub to_retry : Detail → MemberView → Bool
  to_retry d v = same_batch d.campaign.current_batch v.row.batch_number && has_failed v.row.status

  abbrev pub retry_params : Detail → MemberView → CreateParams
  retry_params d v = record {
    node_name = v.row.node_id;
    kind = kind_text v.row.kind;
    payload = v.row.payload_json;
    idempotency_key =
        text "campaign-retry:"
        ++ p.sha256_hex
            (d.campaign.id ++ text ":" ++ v.row.node_id ++ text ":" ++ text_of v.row.operation_id);
    required_capabilities = [];
    not_before = [];
    expires_at = p.format_time (now + queue_timeout);
    requested_by = text "update-campaign:" ++ d.campaign.id;
    retry_of = text_of v.row.operation_id;
  }

  module _ (ids : Text → Text) where
    unfoldable pub retry_member : Detail → MemberView → M (Unit {0})
    retry_member d v = do
      guard (not (is_empty (text_of v.row.operation_id))) (refused no_operation)
      created ← create_operation p now (ids v.row.node_id) (retry_params d v)
      replace_operation p now d.campaign.id v.row.node_id created.0.id created.0.status

    -- How many members of the current batch were retried.
    unfoldable pub retry_members : Detail → List MemberView → M ℕ
    unfolding retry_member
    retry_members d [] = return 0
    retry_members d (v ∷ vs) =
        if to_retry d v
        then (retry_member d v >> (retry_members d vs >>= λ n. return (n + 1)))
        else retry_members d vs

    -- adminResumeUpdateCampaignHandler: there is no transaction around it, so what is written
    -- before an error stays.
    unfoldable pub resume_campaign : Text → M Detail
    resume_campaign c = do
      d ← get_detail p c
      guard (is_paused d.campaign.status) (refused not_paused)
      retried ← retry_members d d.members
      guard (not (retried == 0)) (refused nothing_failed)
      update_campaign p now d.campaign.id running d.campaign.current_batch []
      get_detail p d.campaign.id
