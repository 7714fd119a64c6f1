-- ===== src/Campaign/Reconcile.antt =====
-- The reconciliation of a campaign (internal/server/api/update_campaigns.go): the members are brought
-- up to date, then the current batch is dispatched, awaited, or followed by the next one.
use box_fleet.Base.{
  decimal, ℕ, ◌+◌, zero, suc, Text, text, Bool, true, false, not, ◌&&◌, ◌||◌, Option, none, some,
  List, [], ◌∷◌, ◌++◌, ltb, if◌then◌else◌, find_row, keep_rows,
}
use box_fleet.Platform.{Platform}
use box_fleet.Database.{
  Kind, update_bundle, update_agent, update_sing_box, config_reconcile, diagnostics_collect,
  logs_collect, CampaignStatus, queued, running, paused, succeeded, cancelled, Node, no_rows,
  refused, empty_batch, active_operation, Result, ok, err, M, ◌>>=◌, ◌>>◌, return, throw, attempt,
}
use box_fleet.Operation.Validate.{is_empty}
use box_fleet.Operation.Calls.{OperationView, CreateParams, text_of, get_node}
use box_fleet.Operation.Methods.{create_operation}
use box_fleet.Campaign.Sql.{
  MemberView, Detail, same_batch, is_settled, is_pending, has_failed, update_campaign,
  attach_operation, get_detail,
}
use box_fleet.Campaign.Sync.{for_each, queue_timeout, skip_member, sync_member}

unfoldable pub kind_text : Kind → Text
kind_text update_bundle = text "update.bundle"
kind_text update_agent = text "update.agent"
kind_text update_sing_box = text "update.sing_box"
kind_text config_reconcile = text "config.reconcile"
kind_text diagnostics_collect = text "diagnostics.collect"
kind_text logs_collect = text "logs.collect"

unfoldable pub batch_text : Option ℕ → Text
unfolding decimal
batch_text none = text "-1"
batch_text (some b) = decimal b

abbrev pub in_batch : Option ℕ → MemberView → Bool
in_batch current v = same_batch current v.row.batch_number

abbrev pub failed_member : MemberView → Bool
failed_member v = has_failed v.row.status

abbrev pub waiting_member : MemberView → Bool
waiting_member v = is_pending v.row.status && is_empty (text_of v.row.operation_id)

abbrev pub beyond : Option ℕ → ℕ → Bool
beyond none b = true
beyond (some a) b = ltb a b

unfoldable pub all_settled : List MemberView → Bool
all_settled [] = true
all_settled (v ∷ vs) = is_settled v.row.status && all_settled vs

abbrev lower : ℕ → Option ℕ → Option ℕ
lower b none = some b
lower b (some a) = some (if ltb b a then b else a)

-- The least batch after the current one that has a pending member.
unfoldable pub next_batch : Option ℕ → List MemberView → Option ℕ
next_batch current [] = none
next_batch current (v ∷ vs) =
    let rest = next_batch current vs in
    if is_pending v.row.status && beyond current v.row.batch_number
    then lower v.row.batch_number rest
    else rest

abbrev or_zero : Option ℕ → ℕ
or_zero none = 0
or_zero (some t) = t

abbrev or_now : ℕ → Option ℕ → ℕ
or_now now none = now
or_now now (some t) = t

module _ (p : Platform) (now : ℕ) where
  -- campaignQueueDeadline
  unfoldable pub queue_deadline : Text → Text
  queue_deadline started = p.format_time (or_now now (p.parse_time started) + queue_timeout)

  abbrev pub deadline_of : Detail → ℕ
  deadline_of d = or_zero (p.parse_time (queue_deadline d.campaign.updated_at))

  abbrev pub member_params : Text → Detail → MemberView → CreateParams
  member_params c d v = record {
    node_name = v.row.node_id;
    kind = kind_text v.row.kind;
    payload = v.row.payload_json;
    idempotency_key = text "campaign:" ++ c ++ text ":" ++ v.row.node_id;
    required_capabilities = [];
    not_before = [];
    expires_at = queue_deadline d.campaign.updated_at;
    requested_by = text "update-campaign:" ++ c;
    retry_of = [];
  }

abbrev pub is_stopped : CampaignStatus → Bool
is_stopped paused = true
is_stopped succeeded = true
is_stopped cancelled = true
is_stopped _ = false

-- `ids` gives the identifier that is drawn for the operation of a node; `c` is the identifier as the
-- caller gave it.
module _ (p : Platform) (now : ℕ) (ids : Text → Text) (c : Text) where
  -- Another operation of the node is waited for.
  unfoldable pub attach_created : MemberView → Result (OperationView × Bool) → M Bool
  attach_created v (err active_operation) = return true
  attach_created v (err e) = throw e
  attach_created v (ok (op, created)) =
      attach_operation p now c v.row.node_id op.id op.status >> return true

  unfoldable pub dispatch_to : Detail → MemberView → Result Node → M Bool
  unfolding attach_created
  dispatch_to d v (err no_rows) =
      skip_member p now c v (text "node is deleted or disabled") >> return true
  dispatch_to d v (err e) = throw e
  dispatch_to d v (ok n) =
      if n.disabled
      then (skip_member p now c v (text "node is deleted or disabled") >> return true)
      else attempt (create_operation p now (ids v.row.node_id) (member_params p now c d v))
        >>= attach_created v

  -- Whether the member was dispatched or skipped, or waits for another operation of its node.
  unfoldable pub dispatch_member : Detail → MemberView → M Bool
  unfolding dispatch_to
  dispatch_member d v =
      if not (waiting_member v)
      then return false
      else if not (ltb now (deadline_of p now d))
      then (skip_member p now c v (text "update queue timed out before dispatch") >> return true)
      else attempt (get_node v.row.node_id) >>= dispatch_to d v

  unfoldable pub dispatch_all : Detail → List MemberView → M Bool
  dispatch_all d [] = return false
  dispatch_all d (v ∷ vs) =
      dispatch_member d v >>= λ one. dispatch_all d vs >>= λ rest. return (one || rest)

  unfoldable pub follow : M Detail → Detail → Option ℕ → M Detail
  follow again d none =
      update_campaign p now c succeeded d.campaign.current_batch [] >> get_detail p c
  follow again d (some b) = update_campaign p now c running (some b) [] >> again

  unfoldable pub complete : M Detail → Detail → List MemberView → M Detail
  unfolding follow
  complete again d current =
      if all_settled current
      then follow again d (next_batch d.campaign.current_batch d.members)
      else return d

  abbrev pub pause_message : Detail → MemberView → Text
  pause_message d v =
      text "batch "
      ++ batch_text d.campaign.current_batch
      ++ text " paused after "
      ++ v.node_name
      ++ text " failed: "
      ++ v.row.error

  unfoldable pub dispatch : M Detail → Detail → List MemberView → Option MemberView → M Detail
  unfolding complete
  dispatch again d current (some v) =
      update_campaign p now c paused d.campaign.current_batch (pause_message d v) >> get_detail p c
  dispatch again d current none =
      dispatch_all d current >>= λ acted. if acted then get_detail p c else complete again d current

  unfoldable pub run_batch : M Detail → Detail → List MemberView → M Detail
  unfolding dispatch
  run_batch again d [] = throw (refused empty_batch)
  run_batch again d (v ∷ vs) = dispatch again d (v ∷ vs) (find_row failed_member (v ∷ vs))

  -- What an iteration does after the members are up to date.
  unfoldable pub advance : M Detail → Detail → CampaignStatus → M Detail
  unfolding run_batch
  advance again d queued = update_campaign p now c running (some 0) [] >> again
  advance again d _ = run_batch again d (keep_rows (in_batch d.campaign.current_batch) d.members)

  unfoldable pub iterate : ℕ → M Detail
  unfolding advance
  iterate zero = get_detail p c
  iterate (suc fuel) = get_detail p c >>= λ seen.
      if is_stopped seen.campaign.status then return seen else (do
        for_each (sync_member p now c) seen.members
        d ← get_detail p c
        advance (iterate fuel) d d.campaign.status)

  -- Four iterations at most.
  unfoldable pub reconcile : M Detail
  reconcile = iterate 4
