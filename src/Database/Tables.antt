-- ===== src/Database/Tables.antt =====
-- The tables as the source reads and writes them (internal/server/store/sqlc/models.go, and the CHECKs
-- of migrations/020_node_operations.sql).
use box_fleet.Base.{ℕ, Text, text, Bool, true, false, Option, none, some, List, same, if◌then◌else◌}

-- The CHECK on node_operations.status.
pub data Status : Type 0 where
  queued running succeeded failed cancelled expired : Status

-- allowedNodeOperationKinds, and the CHECK on node_operations.kind.
pub data Kind : Type 0 where
  update_bundle update_agent update_sing_box : Kind
  config_reconcile diagnostics_collect logs_collect : Kind

unfoldable pub parse_kind : Text → Option Kind
parse_kind k =
    if same k (text "update.bundle")
    then some update_bundle
    else if same k (text "update.agent")
    then some update_agent
    else if same k (text "update.sing_box")
    then some update_sing_box
    else if same k (text "config.reconcile")
    then some config_reconcile
    else if same k (text "diagnostics.collect")
    then some diagnostics_collect
    else if same k (text "logs.collect")
    then some logs_collect
    else none

abbrev pub same_kind : Kind → Kind → Bool
same_kind update_bundle update_bundle = true
same_kind update_agent update_agent = true
same_kind update_sing_box update_sing_box = true
same_kind config_reconcile config_reconcile = true
same_kind diagnostics_collect diagnostics_collect = true
same_kind logs_collect logs_collect = true
same_kind _ _ = false

abbrev pub same_status : Status → Status → Bool
same_status queued queued = true
same_status running running = true
same_status succeeded succeeded = true
same_status failed failed = true
same_status cancelled cancelled = true
same_status expired expired = true
same_status _ _ = false

-- status IN ('queued', 'running')
abbrev pub is_active : Status → Bool
is_active queued = true
is_active running = true
is_active _ = false

abbrev pub is_queued : Status → Bool
is_queued queued = true
is_queued _ = false

abbrev pub is_running : Status → Bool
is_running running = true
is_running _ = false

-- A row of node_operations.
pub record Operation : Type 0 where
  pub id : Text
  pub node_id : Text
  pub kind : Kind
  pub status : Status
  pub phase : Text
  pub payload_json : Text
  pub result_json : Text
  pub idempotency_key : Text
  pub required_capabilities_json : Text
  pub attempt : ℕ
  pub lease_token_hash : Option Text
  pub lease_expires_at : Option Text
  pub cancel_requested : Bool
  pub not_before : Option Text
  pub expires_at : Option Text
  pub requested_by : Text
  pub requested_at : Text
  pub claimed_at : Option Text
  pub started_at : Option Text
  pub finished_at : Option Text
  pub updated_at : Text
  pub error : Text
  pub retry_of : Option Text

-- A row of node_operation_events.
pub record OperationEvent : Type 0 where
  pub id : Text
  pub operation_id : Text
  pub attempt : ℕ
  pub sequence : ℕ
  pub status : Status
  pub phase : Text
  pub message : Text
  pub details_json : Text
  pub result_json : Text
  pub error : Text
  pub reported_at : Text
  pub created_at : Text

-- The columns of a node that name it, its rows of node_name_aliases, and whether its status is
-- disabled.
pub record Node : Type 0 where
  pub id : Text
  pub name : Text
  pub aliases : List Text
  pub disabled : Bool
  pub deleted : Bool

-- The CHECK on node_update_campaigns.status.
pub data CampaignStatus : Type 0 where
  queued running paused succeeded cancelled : CampaignStatus

-- The CHECK on node_update_campaign_members.status.
pub data MemberStatus : Type 0 where
  pending queued running succeeded failed cancelled skipped : MemberStatus

-- A row of node_update_campaigns. The batch is none for -1, the default: no other value below 0 is
-- written.
pub record Campaign : Type 0 where
  pub id : Text
  pub release : Text
  pub components_json : Text
  pub status : CampaignStatus
  pub idempotency_key : Text
  pub spec_hash : Text
  pub batch_size : ℕ
  pub current_batch : Option ℕ
  pub requested_by : Text
  pub requested_at : Text
  pub started_at : Option Text
  pub finished_at : Option Text
  pub updated_at : Text
  pub error : Text

-- A row of node_update_campaign_members.
pub record Member : Type 0 where
  pub campaign_id : Text
  pub node_id : Text
  pub position : ℕ
  pub batch_number : ℕ
  pub kind : Kind
  pub payload_json : Text
  pub operation_id : Option Text
  pub status : MemberStatus
  pub error : Text
  pub started_at : Option Text
  pub finished_at : Option Text
  pub updated_at : Text

pub record Store : Type 0 where
  pub nodes : List Node
  pub operations : List Operation
  pub events : List OperationEvent
  pub campaigns : List Campaign
  pub members : List Member
