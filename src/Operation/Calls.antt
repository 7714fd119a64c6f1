-- ===== src/Operation/Calls.antt =====
-- The methods of internal/server/db/node_operations.go. A call takes the platform, one reading of
-- the clock, and the identifiers and secrets that the source draws at random.
use box_fleet.Base.{
  ℕ, ◌*◌, Text, text, same, trim_space, Bool, false, not, ◌&&◌, ◌||◌, Option, none, some, List, [],
  ◌++◌, leb, if◌then◌else◌, length, find_row,
}
use box_fleet.Platform.{Platform}
use box_fleet.Database.{
  Status, queued, Kind, same_kind, parse_kind, Operation, Node, no_rows, refused, unsupported_kind,
  bad_payload, key_required, key_too_long, bad_not_before, bad_expires_at, empty_window,
  corrupt_row, Result, ok, err, M, ◌>>=◌, ◌>>◌, return, guard, or_fail, or_reason,
}
use box_fleet.Operation.Validate.{
  is_empty, nullable, has_text, normalize_capabilities, validate_capabilities,
  required_capabilities, normalize_object, normalize_timestamp, is_window,
}

-- NodeOperation: what a caller of DB sees of a row.
pub record OperationView : Type 0 where
  pub id : Text
  pub node_id : Text
  pub kind : Kind
  pub status : Status
  pub phase : Text
  pub payload : Text
  pub result : Text
  pub idempotency_key : Text
  pub required_capabilities : List Text
  pub attempt : ℕ
  pub lease_expires_at : Text
  pub cancel_requested : Bool
  pub not_before : Text
  pub expires_at : Text
  pub requested_by : Text
  pub requested_at : Text
  pub claimed_at : Text
  pub started_at : Text
  pub finished_at : Text
  pub updated_at : Text
  pub error : Text
  pub retry_of : Text

pub record CreateParams : Type 0 where
  pub node_name : Text
  pub kind : Text
  pub payload : Text
  pub idempotency_key : Text
  pub required_capabilities : List Text
  pub not_before : Text
  pub expires_at : Text
  pub requested_by : Text
  pub retry_of : Text

pub record ClaimParams : Type 0 where
  pub node_name : Text
  pub capabilities : List Text
  pub current_operation_id : Text
  pub lease_token : Text

-- An attempt or a sequence below 1 is refused, so a negative one is read as 0.
pub record EventParams : Type 0 where
  pub node_name : Text
  pub operation_id : Text
  pub lease_token : Text
  pub attempt : ℕ
  pub sequence : ℕ
  pub status : Text
  pub phase : Text
  pub message : Text
  pub details : Text
  pub result : Text
  pub error : Text
  pub reported_at : Text

-- NullString.String: the empty text for NULL.
abbrev pub text_of : Option Text → Text
text_of none = []
text_of (some t) = t

-- 90 seconds in nanoseconds: NodeOperationLeaseDuration.
abbrev pub lease_duration : ℕ
lease_duration = 90 * 1000000000

view_row : Operation → List Text → OperationView
view_row r capabilities = record {
  id = r.id;
  node_id = r.node_id;
  kind = r.kind;
  status = r.status;
  phase = r.phase;
  payload = r.payload_json;
  result = r.result_json;
  idempotency_key = r.idempotency_key;
  required_capabilities = capabilities;
  attempt = r.attempt;
  lease_expires_at = text_of r.lease_expires_at;
  cancel_requested = r.cancel_requested;
  not_before = text_of r.not_before;
  expires_at = text_of r.expires_at;
  requested_by = r.requested_by;
  requested_at = r.requested_at;
  claimed_at = text_of r.claimed_at;
  started_at = text_of r.started_at;
  finished_at = text_of r.finished_at;
  updated_at = r.updated_at;
  error = r.error;
  retry_of = text_of r.retry_of;
}

abbrev node_matches : Text → Node → Bool
node_matches reference n = not n.deleted && (same n.name reference || has_text reference n.aliases)

abbrev live_node : Option Node → Option Node → Result Node
live_node (some n) by_name = if n.deleted then err no_rows else ok n
live_node none (some n) = ok n
live_node none none = err no_rows

-- resolveNode and GetNode: by identifier, then by name or alias.
unfoldable pub get_node : Text → M Node
get_node name s =
    let reference = trim_space name in
    (
      live_node (find_row (λ n. same n.id reference) s.nodes)
          (find_row (node_matches reference) s.nodes),
      s,
    )

module _ (p : Platform) where
  -- nodeOperationFromStore
  unfoldable pub view : Operation → M OperationView
  unfolding view_row
  view r = do
    capabilities ← or_fail (p.decode_list r.required_capabilities_json) (refused corrupt_row)
    guard (p.json_valid r.payload_json && p.json_valid r.result_json) (refused corrupt_row)
    return (view_row r capabilities)

-- nodeOperationRequestMatches
unfoldable pub request_matches : Operation → Kind → Text → Text → Text → Text → Text → Text → Bool
request_matches row kind payload key capabilities not_before expires_at retry_of =
    same_kind row.kind kind
    && same row.payload_json payload
    && same row.idempotency_key key
    && same row.required_capabilities_json capabilities
    && same (text_of row.not_before) not_before
    && same (text_of row.expires_at) expires_at
    && same (text_of row.retry_of) retry_of

-- What CreateNodeOperation has checked and put in its normal form.
pub record Request : Type 0 where
  pub node : Node
  pub kind : Kind
  pub payload : Text
  pub idempotency_key : Text
  pub capabilities_json : Text
  pub not_before : Text
  pub expires_at : Text
  pub requested_by : Text
  pub retry_of : Text

abbrev pub matches_request : Operation → Request → Bool
matches_request row q =
    request_matches row q.kind q.payload q.idempotency_key q.capabilities_json q.not_before
      q.expires_at q.retry_of

module _ (p : Platform) where
  unfoldable pub check_request : CreateParams → M Request
  check_request params = do
    node ← get_node params.node_name
    kind ← or_fail (parse_kind (trim_space params.kind)) (refused unsupported_kind)
    payload ← or_fail (normalize_object p params.payload) (refused bad_payload)
    let key = trim_space params.idempotency_key
    guard (not (is_empty key)) (refused key_required)
    guard (leb (length key) 128) (refused key_too_long)
    let capabilities =
        normalize_capabilities (params.required_capabilities ++ required_capabilities kind)
    or_reason (validate_capabilities capabilities)
    not_before ← or_fail (normalize_timestamp p params.not_before) (refused bad_not_before)
    expires_at ← or_fail (normalize_timestamp p params.expires_at) (refused bad_expires_at)
    guard (is_window not_before.1 expires_at.1) (refused empty_window)
    let by = trim_space params.requested_by
    return (record {
      node = node;
      kind = kind;
      payload = payload;
      idempotency_key = key;
      capabilities_json = p.encode_list capabilities;
      not_before = not_before.0;
      expires_at = expires_at.0;
      requested_by = if is_empty by then text "admin" else by;
      retry_of = params.retry_of;
    })

  -- The INSERT, with the defaults of the schema for the columns that it does not name.
  unfoldable pub new_row : ℕ → Text → Request → Operation
  new_row now fresh q = record {
    id = fresh;
    node_id = q.node.id;
    kind = q.kind;
    status = queued;
    phase = text "queued";
    payload_json = q.payload;
    result_json = text "{}";
    idempotency_key = q.idempotency_key;
    required_capabilities_json = q.capabilities_json;
    attempt = 0;
    lease_token_hash = none;
    lease_expires_at = none;
    cancel_requested = false;
    not_before = nullable q.not_before;
    expires_at = nullable q.expires_at;
    requested_by = q.requested_by;
    requested_at = p.sql_time now;
    claimed_at = none;
    started_at = none;
    finished_at = none;
    updated_at = p.sql_time now;
    error = [];
    retry_of = nullable q.retry_of;
  }
