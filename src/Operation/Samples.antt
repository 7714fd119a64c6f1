-- ===== src/Operation/Samples.antt =====
-- A node with one operation: the data of the examples.
use box_fleet.Base.{ℕ, ◌+◌, text, true, false, none, some, List, [], ◌∷◌}
use box_fleet.Platform.{Platform}
use box_fleet.Database.{running, succeeded, config_reconcile, Operation, Node, Store, queued}
use box_fleet.Operation.Sql.{claim_set}
use box_fleet.Operation.Calls.{
  CreateParams, ClaimParams, EventParams, Request, OperationView, text_of,
}
use box_fleet.Operation.Methods.{lease_until}
use box_fleet.Operation.Report.{Report}
use box_fleet.Operation.Steps.{Call, creates, claims, cancels, reports}
use box_fleet.Operation.Replay.{with_event}

-- A time is one byte, so that texts compare as the times do; the hash adds a byte.
abbrev pub plain : Platform
plain = record {
  sha256_hex = λ t. 7 ∷ t;
  canonical_object = λ t. some t;
  encode_list = λ ts. [];
  decode_list = λ t. some [];
  json_valid = λ t. true;
  encode_spec = λ r cs n ms. r;
  parse_time = λ t. none;
  format_time = λ n. (n + 100) ∷ [];
  sql_time = λ n. (n + 100) ∷ [];
}

abbrev pub edge : Node
edge = record {
  id = text "node_1";
  name = text "edge";
  aliases = [];
  disabled = false;
  deleted = false;
}

abbrev pub empty : Store
empty = record { nodes = edge ∷ []; operations = []; events = []; campaigns = []; members = [] }

abbrev pub wanted : CreateParams
wanted = record {
  node_name = text "edge";
  kind = text "config.reconcile";
  payload = [];
  idempotency_key = text "key";
  required_capabilities = [];
  not_before = [];
  expires_at = [];
  requested_by = [];
  retry_of = [];
}

abbrev pub agent : ClaimParams
agent = record {
  node_name = text "edge";
  capabilities = text "operations.v1" ∷ [];
  current_operation_id = [];
  lease_token = [];
}

abbrev pub done : EventParams
done = record {
  node_name = text "edge";
  operation_id = text "op_1";
  lease_token = text "bfl_s";
  attempt = 1;
  sequence = 1;
  status = text "succeeded";
  phase = text "completed";
  message = [];
  details = [];
  result = [];
  error = [];
  reported_at = [];
}

abbrev pub history : List (ℕ × Call)
history =
    (1, creates (text "op_1") wanted)
    ∷ (2, claims (text "s") agent)
    ∷ (3, reports (text "ev_1") done)
    ∷ (4, cancels (text "op_1"))
    ∷ []

-- The operation while an agent runs it, asked to cancel, under a lease that ends at 150.
abbrev pub leased : Operation
leased = record {
  id = text "op_1";
  node_id = text "node_1";
  kind = config_reconcile;
  status = running;
  phase = text "claimed";
  payload_json = text "{}";
  result_json = text "{}";
  idempotency_key = text "key";
  required_capabilities_json = [];
  attempt = 1;
  lease_token_hash = some (7 ∷ text "bfl_s");
  lease_expires_at = some (150 ∷ []);
  cancel_requested = true;
  not_before = none;
  expires_at = none;
  requested_by = text "admin";
  requested_at = 101 ∷ [];
  claimed_at = some (102 ∷ []);
  started_at = some (102 ∷ []);
  finished_at = none;
  updated_at = 102 ∷ [];
  error = [];
  retry_of = none;
}

abbrev pub busy : Store
busy = record {
  nodes = edge ∷ [];
  operations = leased ∷ [];
  events = [];
  campaigns = [];
  members = [];
}

abbrev pub ended : Operation
ended = record leased { status = succeeded; lease_token_hash = none; lease_expires_at = none }

abbrev pub idle : Store
idle = record {
  nodes = edge ∷ [];
  operations = ended ∷ [];
  events = [];
  campaigns = [];
  members = [];
}

abbrev pub afterwards : List (ℕ × Call)
afterwards = (60, claims (text "t") agent) ∷ (61, reports (text "ev_2") done) ∷ []

abbrev pub again : CreateParams
again = record wanted { idempotency_key = text "other" }

abbrev pub request : Request
request = record {
  node = edge;
  kind = config_reconcile;
  payload = text "{}";
  idempotency_key = text "other";
  capabilities_json = [];
  not_before = [];
  expires_at = [];
  requested_by = text "admin";
  retry_of = [];
}

abbrev pub report : Report
report = record {
  node = edge;
  operation_id = text "op_1";
  lease_token = text "bfl_s";
  attempt = 1;
  sequence = 1;
  status = succeeded;
  phase = text "completed";
  message = [];
  details_json = text "{}";
  result_json = text "{}";
  error = [];
  reported_at = 103 ∷ [];
}

-- Before anyone asks to cancel.
abbrev pub working : Store
working = record busy { operations = record leased { cancel_requested = false } ∷ [] }

abbrev pub after_report : Store
after_report = with_event plain 40 (text "ev_1") report working

-- A platform whose hash is one byte.
abbrev pub hashed : Platform
hashed = record plain { sha256_hex = λ t. 7 ∷ [] }

abbrev pub waiting : Operation
waiting = record leased {
  status = queued;
  attempt = 0;
  lease_token_hash = none;
  lease_expires_at = none;
  cancel_requested = false;
  claimed_at = none;
  started_at = none;
}

abbrev pub taken : Operation
taken = claim_set (hashed.sql_time 40) (some (7 ∷ [])) (lease_until hashed 40) waiting

abbrev pub taken_view : OperationView
taken_view = record {
  id = text "op_1";
  node_id = text "node_1";
  kind = config_reconcile;
  status = running;
  phase = text "claimed";
  payload = text "{}";
  result = text "{}";
  idempotency_key = text "key";
  required_capabilities = [];
  attempt = 1;
  lease_expires_at = text_of (lease_until hashed 40);
  cancel_requested = false;
  not_before = [];
  expires_at = [];
  requested_by = text "admin";
  requested_at = 101 ∷ [];
  claimed_at = hashed.sql_time 40;
  started_at = hashed.sql_time 40;
  finished_at = [];
  updated_at = hashed.sql_time 40;
  error = [];
  retry_of = [];
}

abbrev pub before_claim : Store
before_claim = record busy { operations = waiting ∷ [] }

abbrev pub after_claim : Store
after_claim = record busy { operations = taken ∷ [] }
