-- ===== src/Operation/Sql.antt =====
-- The statements of internal/server/store/sqlc/node_operations.sql.go: each UPDATE is its WHERE and
-- its SET, over the rows of the table. `now` is the text that SQLite's strftime gives.
use box_fleet.Base.{
  ℕ, ◌+◌, Text, text, same, upto, before, Bool, true, false, not, ◌&&◌, ◌||◌, Option, none, some,
  List, [], ◌∷◌, ◌++◌, ◌==◌, leb, if◌then◌else◌, find_row, update_rows, any_row,
}
use box_fleet.Database.{
  Status, running, cancelled, expired, is_active, is_queued, is_running, Operation, OperationEvent,
  ok, err, M, no_rows, refused, constraint_failed,
}

-- A nullable column against a text: NULL compares to nothing.
abbrev pub null_or : Option Text → (Text → Bool) → Bool
null_or none p = true
null_or (some t) p = p t

abbrev pub set_and : Option Text → (Text → Bool) → Bool
set_and none p = false
set_and (some t) p = p t

abbrev pub coalesce : Option Text → Option Text → Option Text
coalesce none d = d
coalesce (some t) d = some t

-- UPDATE ... WHERE p SET f RETURNING *, where at most one row can match.
abbrev update_found : (Operation → Bool) → (Operation → Operation) → Option Operation → M Operation
update_found p f none s = (err no_rows, s)
update_found p f (some r) s = (ok (f r), record s { operations = update_rows p f s.operations })

unfoldable pub update_one : (Operation → Bool) → (Operation → Operation) → M Operation
update_one p f s = update_found p f (find_row p s.operations) s

unfoldable pub by_id : Text → Operation → Bool
by_id i r = same r.id i

unfoldable pub by_key : Text → Text → Operation → Bool
by_key node key r = same r.node_id node && same r.idempotency_key key

unfoldable pub active_on : Text → Operation → Bool
active_on node r = same r.node_id node && is_active r.status

unfoldable pub get_by_id : Text → List Operation → Option Operation
get_by_id i = find_row (by_id i)

unfoldable pub get_by_key : Text → Text → List Operation → Option Operation
get_by_key node key = find_row (by_key node key)

-- The unique index leaves at most one such row, so ORDER BY and LIMIT choose nothing.
unfoldable pub get_active : Text → List Operation → Option Operation
get_active node = find_row (active_on node)

-- UNIQUE (node_id, idempotency_key), the primary key, and the index on active operations.
unfoldable pub conflicts : Operation → Operation → Bool
conflicts new r =
    same r.id new.id
    || by_key new.node_id new.idempotency_key r
    || (is_active new.status && active_on new.node_id r)

unfoldable pub insert_operation : Operation → M (Unit {0})
insert_operation new s =
    if any_row (conflicts new) s.operations
    then (err (refused constraint_failed), s)
    else (ok tt, record s { operations = s.operations ++ (new ∷ []) })

-- ExpireQueuedNodeOperations
unfoldable pub expire_where : Text → Text → Operation → Bool
expire_where node now r =
    same r.node_id node && is_queued r.status && set_and r.expires_at (λ t. upto t now)

unfoldable pub expire_set : Text → Operation → Operation
expire_set now r = record r {
  status = expired;
  phase = text "expired";
  finished_at = some now;
  updated_at = now;
  error = text "operation expired before it was claimed";
}

-- ClaimNodeOperation
unfoldable pub claim_where : Text → Text → Text → Operation → Bool
claim_where i node now r =
    by_id i r
    && same r.node_id node
    && not r.cancel_requested
    && null_or r.not_before (λ t. upto t now)
    && ((is_queued r.status && null_or r.expires_at (λ t. before now t))
        || (is_running r.status && set_and r.lease_expires_at (λ t. upto t now)))

unfoldable pub claim_set : Text → Option Text → Option Text → Operation → Operation
claim_set now hash lease r = record r {
  status = running;
  phase = if is_queued r.status then text "claimed" else r.phase;
  attempt = r.attempt + 1;
  lease_token_hash = hash;
  lease_expires_at = lease;
  claimed_at = some now;
  started_at = coalesce r.started_at (some now);
  updated_at = now;
}

-- The row is leased under this token hash, and the lease has not run out.
unfoldable pub lease_held : Text → Text → Option Text → Text → Operation → Bool
lease_held i node hash now r =
    by_id i r
    && same r.node_id node
    && is_running r.status
    && set_and hash (λ h. set_and r.lease_token_hash (λ g. same g h))
    && set_and r.lease_expires_at (λ t. before now t)

-- ResumeNodeOperationLease
unfoldable pub resume_set : Text → Option Text → Operation → Operation
resume_set now lease r = record r { lease_expires_at = lease; updated_at = now }

-- RenewNodeOperationLease asks for the attempt as well.
unfoldable pub renew_where : Text → Text → Option Text → ℕ → Text → Operation → Bool
renew_where i node hash attempt now r = lease_held i node hash now r && (r.attempt == attempt)

-- RequestNodeOperationCancel
unfoldable pub cancel_where : Text → Operation → Bool
cancel_where i r = by_id i r && is_active r.status

unfoldable pub cancel_set : Text → Operation → Operation
cancel_set now r = record r {
  cancel_requested = true;
  status = if is_queued r.status then cancelled else r.status;
  phase = if is_queued r.status then text "cancelled" else r.phase;
  finished_at = if is_queued r.status then some now else r.finished_at;
  updated_at = now;
}

-- CancelUnclaimedNodeOperation
unfoldable pub cancel_unclaimed_where : Text → Operation → Bool
cancel_unclaimed_where i r = by_id i r && is_queued r.status

unfoldable pub cancel_unclaimed_set : Text → Operation → Operation
cancel_unclaimed_set now r = record r {
  status = cancelled;
  phase = text "cancelled";
  cancel_requested = true;
  finished_at = some now;
  updated_at = now;
}

-- ApplyNodeOperationEvent
unfoldable pub apply_set :
    Text → Status → Text → Text → Text → Option Text → Option Text → Operation → Operation
apply_set now next phase result error lease finished r = record r {
  status = next;
  phase = phase;
  result_json = result;
  error = error;
  lease_expires_at = if is_running next then lease else none;
  lease_token_hash = if is_running next then r.lease_token_hash else none;
  finished_at = coalesce finished r.finished_at;
  updated_at = now;
}

unfoldable pub by_sequence : Text → ℕ → ℕ → OperationEvent → Bool
by_sequence i attempt sequence e =
    same e.operation_id i && (e.attempt == attempt) && (e.sequence == sequence)

-- GetNodeOperationEvent
unfoldable pub get_event : Text → ℕ → ℕ → List OperationEvent → Option OperationEvent
get_event i attempt sequence = find_row (by_sequence i attempt sequence)

-- LastNodeOperationEventSequence: COALESCE(MAX(sequence), 0).
unfoldable pub last_sequence : Text → ℕ → List OperationEvent → ℕ
last_sequence i attempt [] = 0
last_sequence i attempt (e ∷ es) =
    let rest = last_sequence i attempt es in
    if same e.operation_id i && (e.attempt == attempt)
    then (if leb e.sequence rest then rest else e.sequence)
    else rest

unfoldable pub same_event : OperationEvent → OperationEvent → Bool
same_event e x = same x.id e.id

-- AppendNodeOperationEvent, with its ON CONFLICT DO NOTHING, and the primary key.
unfoldable pub append_event : OperationEvent → M (Unit {0})
append_event e s =
    if any_row (by_sequence e.operation_id e.attempt e.sequence) s.events
    then (ok tt, s)
    else if any_row (same_event e) s.events
    then (err (refused constraint_failed), s)
    else (ok tt, record s { events = s.events ++ (e ∷ []) })
