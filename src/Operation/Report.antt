-- ===== src/Operation/Report.antt =====
-- RecordNodeOperationEvent (internal/server/db/node_operations.go): the event log of an operation,
-- which an agent writes under its lease.
use box_fleet.Base.{
  ℕ, ◌+◌, Text, same, trim_space, Bool, false, not, ◌&&◌, ◌||◌, Option, none, some, leb, ◌==◌,
  if◌then◌else◌, length,
}
use box_fleet.Platform.{Platform}
use box_fleet.Database.{
  Status, cancelled, is_running, same_status, Operation, OperationEvent, Node, invalid_lease,
  no_rows, refused, bad_status, bad_phase, message_too_long, error_too_long, bad_details,
  bad_result, bad_reported_at, event_reused, not_cancelling, sequence_exists, sequence_gap, M,
  ◌>>=◌, ◌>>◌, return, guard, or_fail, reads, with_tx,
}
use box_fleet.Operation.Sql.{
  get_by_id, get_event, last_sequence, append_event, renew_where, apply_set, update_one,
}
use box_fleet.Operation.Validate.{is_empty, nullable, normalize_object, event_status, valid_phase}
use box_fleet.Operation.Calls.{OperationView, EventParams, lease_duration, get_node, view}
use box_fleet.Operation.Methods.{try_one}

-- What RecordNodeOperationEvent has checked and put in its normal form.
pub record Report : Type 0 where
  pub node : Node
  pub operation_id : Text
  pub lease_token : Text
  pub attempt : ℕ
  pub sequence : ℕ
  pub status : Status
  pub phase : Text
  pub message : Text
  pub details_json : Text
  pub result_json : Text
  pub error : Text
  pub reported_at : Text

-- The content that a replay must repeat.
abbrev pub same_content : OperationEvent → Report → Bool
same_content e q =
    same_status e.status q.status
    && same e.phase q.phase
    && same e.message q.message
    && same e.details_json q.details_json
    && same e.result_json q.result_json
    && same e.error q.error

abbrev pub same_hash : Option Text → Text → Bool
same_hash none hash = false
same_hash (some h) hash = same h hash

module _ (p : Platform) (now : ℕ) where
  -- reported_at is kept as it was sent, if it can be read.
  unfoldable pub reported : Text → M Text
  reported t =
      if is_empty t
      then return (p.format_time now)
      else (do or_fail (p.parse_time t) (refused bad_reported_at) >>= λ _. return t)

  unfoldable pub check_report : EventParams → M Report
  unfolding reported
  check_report params = do
    node ← get_node params.node_name
    guard
        (not (params.attempt == 0)
          && not (params.sequence == 0)
          && not (is_empty params.lease_token))
        invalid_lease
    status ← or_fail (event_status params.status) (refused bad_status)
    guard (valid_phase params.phase) (refused bad_phase)
    let message = trim_space params.message
    guard (leb (length message) 2048) (refused message_too_long)
    let error = trim_space params.error
    guard (leb (length error) 8192) (refused error_too_long)
    details ← or_fail (normalize_object p params.details) (refused bad_details)
    result ← or_fail (normalize_object p params.result) (refused bad_result)
    reported_at ← reported params.reported_at
    return (record {
      node = node;
      operation_id = params.operation_id;
      lease_token = params.lease_token;
      attempt = params.attempt;
      sequence = params.sequence;
      status = status;
      phase = params.phase;
      message = message;
      details_json = details;
      result_json = result;
      error = error;
      reported_at = reported_at;
    })

  unfoldable pub new_event : Text → Report → OperationEvent
  new_event fresh q = record {
    id = fresh;
    operation_id = q.operation_id;
    attempt = q.attempt;
    sequence = q.sequence;
    status = q.status;
    phase = q.phase;
    message = q.message;
    details_json = q.details_json;
    result_json = q.result_json;
    error = q.error;
    reported_at = q.reported_at;
    created_at = p.sql_time now;
  }

  -- terminalFinishedAt
  abbrev pub finished : Status → Option Text
  finished status = if is_running status then none else nullable (p.format_time now)

  -- The UPDATE that an event makes on its operation.
  abbrev pub applies : Report → Operation → Bool
  applies q =
      renew_where q.operation_id q.node.id (nullable (p.sha256_hex q.lease_token)) q.attempt
        (p.sql_time now)

  abbrev pub applied : Report → Operation → Operation
  applied q =
      apply_set (p.sql_time now) q.status q.phase q.result_json q.error
        (nullable (p.format_time (now + lease_duration))) (finished q.status)

  -- A new event: the lease, the order of the sequence, the INSERT and the UPDATE.
  unfoldable pub accept_event : Text → Report → Operation → M Operation
  unfolding new_event
  accept_event fresh q current = do
    guard
        (is_running current.status
          && (current.attempt == q.attempt)
          && same_hash current.lease_token_hash (p.sha256_hex q.lease_token))
        invalid_lease
    guard (not (same_status q.status cancelled) || current.cancel_requested)
        (refused not_cancelling)
    last ← reads (λ s. last_sequence q.operation_id q.attempt s.events)
    guard (not (leb q.sequence last)) (refused sequence_exists)
    guard (q.sequence == (last + 1)) (refused sequence_gap)
    append_event (new_event fresh q)
    updated ← try_one (update_one (applies q) (applied q))
    or_fail updated invalid_lease

  -- An event that is logged already is accepted again if its content is the same.
  unfoldable pub log_or_replay : Text → Report → Operation → Option OperationEvent → M Operation
  unfolding accept_event
  log_or_replay fresh q current none = accept_event fresh q current
  log_or_replay fresh q current (some e) =
      guard (same_content e q) (refused event_reused) >> return current

  unfoldable pub record_tx : Text → Report → M Operation
  unfolding log_or_replay
  record_tx fresh q = do
    current ← or_fail (← reads (λ s. get_by_id q.operation_id s.operations)) no_rows
    guard (same current.node_id q.node.id) invalid_lease
    existing ← reads (λ s. get_event q.operation_id q.attempt q.sequence s.events)
    log_or_replay fresh q current existing

  unfoldable pub record_event : Text → EventParams → M OperationView
  record_event fresh params = do
    q ← check_report params
    row ← with_tx (record_tx fresh q)
    view p row
