-- ===== src/Operation/Methods.antt =====
-- The methods of DB that change node operations (internal/server/db/node_operations.go). A call takes
-- the platform, one reading of the clock in nanoseconds, and what the source draws at random.
use box_fleet.Base.{
  ℕ, ◌+◌, Text, text, same, trim_space, Bool, true, false, not, ◌&&◌, Option, none, some, ◌++◌,
  ◌==◌, if◌then◌else◌, update_rows,
}
use box_fleet.Platform.{Platform}
use box_fleet.Database.{
  is_active, Operation, Node, Failure, active_operation, invalid_lease, idempotency_conflict,
  no_rows, refused, retry_not_terminal, Result, ok, err, M, ◌>>=◌, ◌>>◌, return, throw, guard,
  or_fail, reads, attempt, with_tx,
}
use box_fleet.Operation.Sql.{
  get_by_id, get_by_key, get_active, insert_operation, expire_where, expire_set, claim_where,
  claim_set, lease_held, resume_set, renew_where, cancel_where, cancel_set, cancel_unclaimed_where,
  cancel_unclaimed_set, update_one,
}
use box_fleet.Operation.Validate.{is_empty, nullable, has_capabilities}
use box_fleet.Operation.Calls.{
  OperationView, CreateParams, ClaimParams, Request, lease_duration, get_node, view, check_request,
  matches_request, new_row,
}

-- A statement of kind :one that may find no row: ErrNoRows is an answer, not an error.
unfoldable pub optional : {A : Type 0} → Result A → M (Option A)
optional (ok a) = return (some a)
optional (err no_rows) = return none
optional (err e) = throw e

unfoldable pub try_one : {A : Type 0} → M A → M (Option A)
unfolding optional
try_one m = attempt m >>= optional

module _ (p : Platform) (now : ℕ) where
  abbrev pub sql_now : Text
  sql_now = p.sql_time now

  abbrev pub lease_until : Option Text
  lease_until = nullable (p.format_time (now + lease_duration))

  abbrev pub token_hash : Text → Option Text
  token_hash token = nullable (p.sha256_hex token)

  -- retry_of must name a finished operation of the same node.
  unfoldable pub check_retry : Text → Node → M (Unit {0})
  check_retry retry node = if is_empty retry then return tt else (do
    previous ← or_fail (← reads (λ s. get_by_id retry s.operations)) no_rows
    guard (same previous.node_id node.id && not (is_active previous.status))
        (refused retry_not_terminal))

  unfoldable pub no_active : Option Operation → M (Unit {0})
  no_active none = return tt
  no_active (some r) = throw active_operation

  -- The transaction of CreateNodeOperation: the row, and whether it is new.
  unfoldable pub create_row : Text → Request → Option Operation → M (Operation × Bool)
  create_row fresh q (some row) =
      guard (matches_request row q) idempotency_conflict >> return (row, false)
  create_row fresh q none = do
    no_active (← reads (λ s. get_active q.node.id s.operations))
    check_retry q.retry_of q.node
    insert_operation (new_row p now fresh q)
    row ← or_fail (← reads (λ s. get_by_id fresh s.operations)) no_rows
    return (row, true)

  unfoldable pub create_tx : Text → Request → M (Operation × Bool)
  unfolding create_row check_retry no_active
  create_tx fresh q = do
    row ← reads (λ s. get_by_key q.node.id q.idempotency_key s.operations)
    create_row fresh q row

  -- After an error, a row that another request committed meanwhile answers for this one.
  unfoldable pub recover : Request → Failure → Option Operation → M (OperationView × Bool)
  recover q e none = throw e
  recover q e (some row) = do
    guard (matches_request row q) idempotency_conflict
    v ← view p row
    return (v, false)

  unfoldable pub finish_create : Request → Result (Operation × Bool) → M (OperationView × Bool)
  unfolding recover
  finish_create q (ok (row, created)) = do v ← view p row; return (v, created)
  finish_create q (err e) = do
    row ← reads (λ s. get_by_key q.node.id q.idempotency_key s.operations)
    recover q e row

  unfoldable pub create_operation : Text → CreateParams → M (OperationView × Bool)
  unfolding create_tx finish_create
  create_operation fresh params = do
    q ← check_request p params
    result ← attempt (with_tx (create_tx fresh q))
    finish_create q result

  -- ExpireQueuedNodeOperations, as a statement.
  unfoldable pub expire_queued : Text → M (Unit {0})
  expire_queued node s = (
    ok tt,
    record s {
      operations = update_rows (expire_where node sql_now) (expire_set sql_now) s.operations;
    },
  )

  unfoldable pub view_found : Option Operation → M (Option OperationView)
  view_found none = return none
  view_found (some r) = do v ← view p r; return (some v)

  -- GetActiveNodeOperation, the method.
  unfoldable pub active_operation_of : Text → M (Option OperationView)
  unfolding expire_queued view_found
  active_operation_of name = do
    node ← get_node name
    expire_queued node.id
    row ← reads (λ s. get_active node.id s.operations)
    view_found row

  -- A claimed row, with its lease token.
  unfoldable pub granted : Text → Option Operation → M (Option (OperationView × Text))
  granted token none = return none
  granted token (some r) = do v ← view p r; return (some (v, token))

  -- The claim of an operation under a new lease token, for a new attempt.
  unfoldable pub claim_new : Text → Node → OperationView → M (Option (OperationView × Text))
  unfolding granted
  claim_new secret node op = do
    let token = text "bfl_" ++ secret
    claimed ← try_one (
        update_one (claim_where op.id node.id sql_now)
          (claim_set sql_now (token_hash token) lease_until))
    granted token claimed

  unfoldable pub after_resume :
      Text
      → ClaimParams
      → Node
      → OperationView
      → Option Operation
      → M (Option (OperationView × Text))
  unfolding claim_new
  after_resume secret params node op none = claim_new secret node op
  after_resume secret params node op (some r) = do
    v ← view p r
    return (some (v, params.lease_token))

  -- The resumption of the lease that the agent names; otherwise a new claim.
  unfoldable pub claim_or_resume :
      Text → ClaimParams → Node → OperationView → M (Option (OperationView × Text))
  unfolding after_resume
  claim_or_resume secret params node op =
      if same (trim_space params.current_operation_id) op.id
        && not (is_empty (trim_space params.lease_token))
      then (do
        resumed ← try_one (
            update_one (lease_held op.id node.id (token_hash params.lease_token) sql_now)
              (resume_set sql_now lease_until))
        after_resume secret params node op resumed)
      else claim_new secret node op

  unfoldable pub claim_active :
      Text → ClaimParams → Node → Option Operation → M (Option (OperationView × Text))
  unfolding claim_or_resume
  claim_active secret params node none = return none
  claim_active secret params node (some row) = do
    op ← view p row
    if has_capabilities params.capabilities op.required_capabilities
        then claim_or_resume secret params node op
        else return none

  unfoldable pub claim_operation : Text → ClaimParams → M (Option (OperationView × Text))
  unfolding expire_queued claim_active
  claim_operation secret params = do
    node ← get_node params.node_name
    expire_queued node.id
    row ← reads (λ s. get_active node.id s.operations)
    claim_active secret params node row

  -- RenewNodeOperationLease: whether a cancellation was requested.
  unfoldable pub renew_lease : Text → Text → Text → ℕ → M Bool
  renew_lease name i token attempt = do
    node ← get_node name
    guard (not (is_empty i) && not (is_empty token) && not (attempt == 0)) invalid_lease
    renewed ← try_one (
        update_one (renew_where i node.id (token_hash token) attempt sql_now)
          (resume_set sql_now lease_until))
    row ← or_fail renewed invalid_lease
    return row.cancel_requested

  -- RequestNodeOperationCancel
  unfoldable pub request_cancel : Text → M OperationView
  request_cancel i = do
    row ← update_one (cancel_where (trim_space i)) (cancel_set sql_now)
    view p row

  -- CancelUnclaimedNodeOperation: a row that was claimed meanwhile stays as it is.
  unfoldable pub cancel_unclaimed : Text → M OperationView
  cancel_unclaimed i = do
    try_one (update_one (cancel_unclaimed_where i) (cancel_unclaimed_set sql_now)) >>= λ _. do
      row ← or_fail (← reads (λ s. get_by_id (trim_space i) s.operations)) no_rows
      view p row
